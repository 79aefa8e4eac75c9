-- ===== src/Migration/Walk.antt =====
-- internal/xrpc/migration.go: importWalk makes the record index say what the tree says.
use robby.Prelude.{
  ℕ, String, ◌==◌, string_eq, if◌then◌else◌, ◌≡◌, refl, sym, ap, ◌∙◌, subst, Option, some, List, [],
  ◌∷◌, inl, inr, arith, eq_iff, ok, Bool-cases, Option-cases, Result-cases, ok_injective,
}
use robby.ActorStore.Rows.{ActorDb}
use robby.ActorStore.Blocks.{get_block}
use robby.ActorStore.Records.{get_record_cid, put_record_index}
use robby.ActorStore.Blobs.{put_blob_meta, add_blob_ref}
use robby.ActorStore.Index.{Apart, get-put_record_index, get-put_record_index_other}
use robby.Repo.Indigo.{Indigo, BlobLink}
use robby.Repo.Batch.{path_of, refer_blobs}
use robby.Repo.Step.{refer_blobs-records, same_index}
use robby.Session.Principal.{HttpError}
use robby.Migration.Car.{Importing, cut, import_entry, import_walk}
use robby.Migration.Paths.{cut-path_of, pair_injective}

-- The value at a path in a list of entries, and `kept` where there is none.
abbrev pub entry_at : String → List (String × String) → Option String → Option String
entry_at p [] kept = kept
entry_at p ((q, c) ∷ es) kept = entry_at p es (if q == p then some c else kept)

put_blob_meta-blocks :
    (now : ℕ) (c mime : String) (size : ℕ) (db : ActorDb)
    → (put_blob_meta now c mime size db).blocks ≡ db.blocks
unfolding put_blob_meta
put_blob_meta-blocks now c mime size db = ground arith

add_blob_ref-blocks :
    (c collection rkey : String) (db : ActorDb)
    → (add_blob_ref c collection rkey db).blocks ≡ db.blocks
unfolding add_blob_ref
add_blob_ref-blocks c collection rkey db = ground arith

refer_blobs-blocks :
    (now : ℕ) (collection rkey : String) (ls : List BlobLink) (db : ActorDb)
    → (refer_blobs now collection rkey ls db).blocks ≡ db.blocks
unfolding refer_blobs
refer_blobs-blocks now collection rkey [] db = refl
refer_blobs-blocks now collection rkey (l ∷ ls) db =
    refer_blobs-blocks now collection rkey ls _
    ∙ add_blob_ref-blocks l.ref collection rkey _
    ∙ put_blob_meta-blocks now l.ref l.mime_type l.size db

put_record_index-blocks :
    (collection rkey c : String) (db : ActorDb)
    → (put_record_index collection rkey c db).blocks ≡ db.blocks
unfolding put_record_index
put_record_index-blocks collection rkey c db = ground arith

-- What one entry does: it sets the index at the key that its path is cut into, and no block.
record IsEntry (q v : String) (db db' : ActorDb) : Type 0 where
  collection : String
  rkey : String
  split : cut q ≡ some (collection, rkey)
  set : get_record_cid collection rkey db' ≡ some v
  kept : (c k : String) → Apart collection rkey c k → get_record_cid c k db' ≡ get_record_cid c k db
  blocks : db'.blocks ≡ db.blocks

module _ {T C R K P : Type 0} (ext : Indigo T C R K) (imp : Importing T R P) (now : ℕ) where
  entry_of :
      (c k q v : String) (ls : List BlobLink) (db : ActorDb)
      → cut q ≡ some (c, k)
      → IsEntry q v db (refer_blobs now c k ls (put_record_index c k v db))
  entry_of c k q v ls db split =
      let same = λ (c' k' : String).
        same_index c' k' (refer_blobs now c k ls (put_record_index c k v db))
          (put_record_index c k v db)
          (refer_blobs-records now c k ls (put_record_index c k v db)) in
      record {
        collection = c;
        rkey = k;
        split = split;
        set = same c k ∙ get-put_record_index c k v db;
        kept = λ c' k' apart. same c' k' ∙ get-put_record_index_other c k c' k' v db apart;
        blocks =
            refer_blobs-blocks now c k ls (put_record_index c k v db)
            ∙ put_record_index-blocks c k v db;
      }

  import_entry-IsEntry :
      (q v : String) (db db' : ActorDb)
      → import_entry ext imp now (q, v) db ≡ ok db'
      → IsEntry q v db db'
  unfolding import_entry
  import_entry-IsEntry q v db db' h = elim (Option-cases (cut q)) [
    | inl e ↦ absurd (ground arith)
    | inr ((c, k), e) ↦ elim (Option-cases (get_block v db)) [
      | inl e1 ↦ absurd (ground arith)
      | inr (blk, e1) ↦ elim (Option-cases (imp.unmarshal_record blk.bytes)) [
        | inl e2 ↦ absurd (ground arith)
        | inr (value, e2) ↦
            subst (IsEntry q v db) (ok_injective {E = HttpError} _ db' (ground arith))
              (entry_of c k q v (ext.extract_blobs value) db e)
      ]
    ]
  ]

  -- The index at a key that its path is cut into.
  indexed_entry :
      (c k q v : String) (db db' : ActorDb)
      → cut (path_of c k) ≡ some (c, k)
      → IsEntry q v db db'
      → get_record_cid c k db' ≡ (if q == path_of c k then some v else get_record_cid c k db)
  indexed_entry c k q v db db' whole entry = elim (Bool-cases (q == path_of c k)) [
    | inl e ↦
        let (c', k') =
          pair_injective entry.collection entry.rkey c k
            (sym entry.split ∙ ap cut ((eq_iff q (path_of c k)).0 e) ∙ whole) in
        rw e (
          sym (ap (λ x. get_record_cid x entry.rkey db') c' ∙ ap (λ y. get_record_cid c y db') k')
          ∙ entry.set)
    | inr e ↦ rw e (
        entry.kept c k (λ p.
          let same =
            cut-path_of q entry.collection entry.rkey entry.split
            ∙ ap (λ x. path_of x entry.rkey) p.0
            ∙ ap (path_of c) p.1 in
          ground (arith, eq_iff q (path_of c k), same)))
  ]

  -- After the walk the index has the last entry of each path, and the blocks are as they were.
  pub import_walk-index :
      (es : List (String × String)) (db db' : ActorDb)
      → import_walk ext imp now es db ≡ ok db'
      → (db'.blocks ≡ db.blocks)
        × ((c k : String)
            → cut (path_of c k) ≡ some (c, k)
            → get_record_cid c k db' ≡ entry_at (path_of c k) es (get_record_cid c k db))
  unfolding import_walk
  import_walk-index [] db db' h =
      let same : db ≡ db' = ok_injective {E = HttpError} db db' h in
      (
        ap (λ (d : ActorDb). d.blocks) (sym same),
        λ c k whole. ap (λ (d : ActorDb). get_record_cid c k d) (sym same),
      )
  import_walk-index ((q, v) ∷ es) db db' h =
      elim (Result-cases (import_entry ext imp now (q, v) db)) [
        | inl (e, h1) ↦ absurd (ground arith)
        | inr (db1, h1) ↦
            let entry = import_entry-IsEntry q v db db1 h1 in
            let (blocks, index) = import_walk-index es db1 db' (ground arith) in
            (
              blocks ∙ entry.blocks,
              λ c k whole.
                  index c k whole
                  ∙ ap (entry_at (path_of c k) es) (indexed_entry c k q v db db1 whole entry),
            )
      ]
