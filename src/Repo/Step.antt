-- ===== src/Repo/Step.antt =====
-- internal/repoops/writer.go: what one operation does to the tree and to the record index, whichever of
-- the actions it is.
use robby.Prelude.{
  ℕ, String, ◌||◌, ◌==◌, string_eq, ◌≡◌, ◌≢◌, refl, ◌∙◌, Option, none, some, List, [], ◌∷◌, arith,
  inl, inr, ok, subst, Option-cases, Bool-cases,
}
use robby.Firehose.{Block}
use robby.ActorStore.Rows.{ActorDb}
use robby.ActorStore.Blocks.{put_block}
use robby.ActorStore.Records.{get_record_cid, put_record_index}
use robby.ActorStore.Blobs.{put_blob_meta, add_blob_ref, clear_blob_refs_for_record}
use robby.ActorStore.Index.{
  Apart, get-put_record_index, get-put_record_index_other, get-delete_record_index,
  get-delete_record_index_other,
}
use robby.Repo.Indigo.{Indigo, BlobLink}
use robby.Repo.Batch.{
  WriteOp, WriteResult, Batch, Collector, collect, path_of, refer_blobs, delete_one, store_one,
  put_one, apply_one, typed, key_for, deleted, deleted_result, stored, stored_result, action_delete,
  action_create, action_update,
}
use robby.Repo.Laws.{TreeLaws}

put_blob_meta-records :
    (now : ℕ) (c mime : String) (size : ℕ) (db : ActorDb)
    → (put_blob_meta now c mime size db).records ≡ db.records
unfolding put_blob_meta
put_blob_meta-records now c mime size db = ground arith

add_blob_ref-records :
    (c collection rkey : String) (db : ActorDb)
    → (add_blob_ref c collection rkey db).records ≡ db.records
unfolding add_blob_ref
add_blob_ref-records c collection rkey db = ground arith

pub refer_blobs-records :
    (now : ℕ) (collection rkey : String) (ls : List BlobLink) (db : ActorDb)
    → (refer_blobs now collection rkey ls db).records ≡ db.records
unfolding refer_blobs
refer_blobs-records now collection rkey [] db = refl
refer_blobs-records now collection rkey (l ∷ ls) db =
    refer_blobs-records now collection rkey ls _
    ∙ add_blob_ref-records l.ref collection rkey _
    ∙ put_blob_meta-records now l.ref l.mime_type l.size db

-- The index is read from the rows of records alone.
pub same_index :
    (c k : String) (db db' : ActorDb)
    → db.records ≡ db'.records
    → get_record_cid c k db ≡ get_record_cid c k db'
unfolding get_record_cid
same_index c k db db' e = rw e refl

pub put_block-records : (b : Block) (db : ActorDb) → (put_block b db).records ≡ db.records
unfolding put_block
put_block-records b db = ground arith

-- What an operation that gives `res` does: tree and index held `res.prev_cid` and hold `res.cid` now,
-- at the path of `res`, and nothing else moved in either.
pub record IsStep {T C : Type 0} (get : T → String → Option String) (b b' : Batch T C)
    (res : WriteResult) : Type 0 where
  pub before : res.prev_cid ≡ get b.tree (path_of res.collection res.rkey)
  pub here : get b'.tree (path_of res.collection res.rkey) ≡ res.cid
  pub elsewhere : (q : String) → q ≢ path_of res.collection res.rkey → get b'.tree q ≡ get b.tree q
  pub indexed : get_record_cid res.collection res.rkey b'.bs.db ≡ res.cid
  pub index_elsewhere :
      (c k : String)
      → Apart res.collection res.rkey c k
      → get_record_cid c k b'.bs.db ≡ get_record_cid c k b.bs.db

module _ {T C R K : Type 0} (ext : Indigo T C R K) (get : T → String → Option String)
    (laws : TreeLaws ext get) where
  clear-records :
      (c k : String) (db : ActorDb) → (clear_blob_refs_for_record c k db).records ≡ db.records
  unfolding clear_blob_refs_for_record
  clear-records c k db = refl

  deleted-IsStep :
      (op : WriteOp R) (b : Batch T C) (tree : T) (prev : String)
      → ext.remove b.tree (path_of op.collection op.rkey) ≡ some (some prev, tree)
      → IsStep get b (deleted ext op tree b) (deleted_result ext op prev)
  deleted-IsStep op b tree prev e = record {
    before = laws.remove_before b.tree tree (path_of op.collection op.rkey) (some prev) e;
    here = laws.remove_here b.tree tree (path_of op.collection op.rkey) (some prev) e;
    elsewhere =
        λ q d. laws.remove_elsewhere b.tree tree (path_of op.collection op.rkey) (some prev) q e d;
    indexed =
        same_index op.collection op.rkey _ _ (clear-records op.collection op.rkey _)
        ∙ get-delete_record_index op.collection op.rkey b.bs.db;
    index_elsewhere = λ c k d.
        same_index c k _ _ (clear-records op.collection op.rkey _)
        ∙ get-delete_record_index_other op.collection op.rkey c k b.bs.db d;
  }

  stored-records :
      (now : ℕ) (op : WriteOp R) (value : R) (encoded : List ℕ) (key : String × C) (tree : T)
      (b : Batch T C)
      → (stored ext now op value encoded key tree b).bs.db.records
        ≡ (put_record_index op.collection key.0
            (ext.sum encoded)
            (collect (record { cid = ext.sum encoded; bytes = encoded }) b.bs).db).records
  stored-records now op value encoded key tree b =
      refer_blobs-records now op.collection key.0 (ext.extract_blobs value) _
      ∙ clear-records op.collection key.0 _

  collect-records : (x : Block) (bs : Collector) → (collect x bs).db.records ≡ bs.db.records
  unfolding collect
  collect-records x bs = put_block-records x bs.db

  stored-IsStep :
      (now : ℕ) (op : WriteOp R) (value : R) (encoded : List ℕ) (key : String × C) (tree : T)
      (b : Batch T C) (prev : Option String)
      → ext.insert b.tree (path_of op.collection key.0) (ext.sum encoded) ≡ some (prev, tree)
      → IsStep get b
          (stored ext now op value encoded key tree b)
          (stored_result ext op value key.0 (ext.sum encoded) prev)
  stored-IsStep now op value encoded key tree b prev e = record {
    before = laws.insert_before b.tree tree (path_of op.collection key.0) (ext.sum encoded) prev e;
    here = laws.insert_here b.tree tree (path_of op.collection key.0) (ext.sum encoded) prev e;
    elsewhere = λ q d.
        laws.insert_elsewhere b.tree tree (path_of op.collection key.0) (ext.sum encoded) prev q e
          d;
    indexed =
        same_index op.collection key.0 _ _ (stored-records now op value encoded key tree b)
        ∙ get-put_record_index op.collection key.0 (ext.sum encoded) _;
    index_elsewhere = λ c k d.
        same_index c k _ _ (stored-records now op value encoded key tree b)
        ∙ get-put_record_index_other op.collection key.0 c k (ext.sum encoded) _ d
        ∙ same_index c k _ _ (collect-records _ b.bs);
  }

  -- What every operation that succeeds guarantees.
  abbrev pub Applied : WriteOp R → Batch T C → WriteResult × Batch T C → Type 0
  Applied op b r =
      IsStep get b r.1 r.0 × (r.0.collection ≡ op.collection) × (r.0.action ≡ op.action)

  delete_one-Applied :
      (op : WriteOp R) (b : Batch T C) (r : WriteResult × Batch T C)
      → delete_one ext op b ≡ ok r
      → Applied op b r
  unfolding delete_one
  delete_one-Applied op b r h =
      elim (Option-cases (ext.remove b.tree (path_of op.collection op.rkey))) [
        | inl e ↦ absurd (ground arith)
        | inr ((none, tree), e) ↦ absurd (ground arith)
        | inr ((some prev, tree), e) ↦
            subst (Applied op b) (ground arith) (deleted-IsStep op b tree prev e, refl, refl)
      ]

  store_one-Applied :
      (now : ℕ) (op : WriteOp R) (value : R) (encoded : List ℕ) (b : Batch T C)
      (r : WriteResult × Batch T C)
      → store_one ext now op value encoded b ≡ ok r
      → Applied op b r
  unfolding store_one
  store_one-Applied now op value encoded b r h =
      let key = key_for ext now op b.clk in
      elim (Option-cases (ext.insert b.tree (path_of op.collection key.0) (ext.sum encoded))) [
        | inl e ↦ absurd (ground arith)
        | inr ((prev, tree), e) ↦
            subst (Applied op b) (ground arith)
              (stored-IsStep now op value encoded key tree b prev e, refl, refl)
      ]

  put_one-Applied :
      (now : ℕ) (op : WriteOp R) (b : Batch T C) (r : WriteResult × Batch T C)
      → put_one ext now op b ≡ ok r
      → Applied op b r
  unfolding put_one
  put_one-Applied now op b r h = elim (Option-cases op.entry) [
    | inl e ↦ absurd (ground arith)
    | inr (given, e) ↦ elim (Bool-cases (ext.is_valid (typed ext op given))) [
      | inr bad ↦ absurd (ground arith)
      | inl good ↦ elim (Option-cases (ext.marshal (typed ext op given))) [
        | inl bad ↦ absurd (ground arith)
        | inr (encoded, e') ↦
            store_one-Applied now op (typed ext op given) encoded b r (ground arith)
      ]
    ]
  ]

  pub apply_one-Applied :
      (now : ℕ) (op : WriteOp R) (b : Batch T C) (r : WriteResult × Batch T C)
      → apply_one ext now op b ≡ ok r
      → Applied op b r
  unfolding apply_one
  apply_one-Applied now op b r h = elim (Bool-cases (op.action == action_delete)) [
    | inl e ↦ delete_one-Applied op b r (ground arith)
    | inr e ↦ elim (Bool-cases (op.action == action_create || op.action == action_update)) [
      | inl e' ↦ put_one-Applied now op b r (ground arith)
      | inr e' ↦ absurd (ground arith)
    ]
  ]
