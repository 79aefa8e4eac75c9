-- ===== src/ActorStore/Blobs.antt =====
-- internal/actorstore/store.go: what is known of blobs, which records refer to them, and their files.
use robby.Prelude.{
  ℕ, ◌-◌, String, Bool, ◌&&◌, not, Option, none, some, List, [], ◌∷◌, ◌++◌, map, ◌==◌, string_eq,
  if◌then◌else◌, text_ltb, take, length, select_one, select, delete, some_row, true,
}
use robby.Accounts.Rows.{rfc3339}
use robby.ActorStore.Rows.{ActorDb, ActorStore, BlobRow, BlobRef, BlobFile}

abbrev pub is_blob : String → BlobRow → Bool
is_blob c b = b.cid == c

unfoldable pub put_blob_meta : ℕ → String → String → ℕ → ActorDb → ActorDb
put_blob_meta now c mime size db =
    if some_row (is_blob c) db.blobs then db else record db { blobs = db.blobs ++ row ∷ [] }
  where
    row : BlobRow
    row = record { cid = c; mime = mime; size = size; created_at = rfc3339 now }

pub record BlobMeta : Type 0 where
  pub cid : String
  pub mime : String
  pub size : ℕ

abbrev pub meta_of : Option BlobRow → Option BlobMeta
meta_of none = none
meta_of (some b) = some (record { cid = b.cid; mime = b.mime; size = b.size })

-- `none` is ErrNotFound.
unfoldable pub get_blob_meta : String → ActorDb → Option BlobMeta
get_blob_meta c db = meta_of (select_one (is_blob c) db.blobs)

abbrev pub refers : String → String → BlobRef → Bool
refers collection rkey r = r.collection == collection && r.rkey == rkey

abbrev pub is_ref : String → String → String → BlobRef → Bool
is_ref blob_cid collection rkey r = r.blob_cid == blob_cid && refers collection rkey r

unfoldable pub add_blob_ref : String → String → String → ActorDb → ActorDb
add_blob_ref blob_cid collection rkey db =
    if some_row (is_ref blob_cid collection rkey) db.blob_refs then db else record db {
      blob_refs =
          db.blob_refs ++ record { blob_cid = blob_cid; collection = collection; rkey = rkey } ∷ [];
    }

unfoldable pub clear_blob_refs_for_record : String → String → ActorDb → ActorDb
clear_blob_refs_for_record collection rkey db = record db {
  blob_refs = delete (refers collection rkey) db.blob_refs;
}

unfoldable pub blob_ref_count : String → ActorDb → ℕ
blob_ref_count c db = length (select (λ r. r.blob_cid == c) db.blob_refs)

abbrev pub is_file : String → BlobFile → Bool
is_file c f = f.cid == c

-- The rename replaces a file that is there.
unfoldable pub write_blob_file : String → List ℕ → ActorStore → ActorStore
write_blob_file c bytes s = record s {
  files = record { cid = c; bytes = bytes } ∷ delete (is_file c) s.files;
}

-- `none` is ErrNotFound.
unfoldable pub read_blob_file : String → ActorStore → Option (List ℕ)
read_blob_file c s = elim (select_one (is_file c) s.files) [ none ↦ none | some f ↦ some f.bytes ]

unfoldable pub blob_file_exists : String → ActorStore → Bool
blob_file_exists c s = some_row (is_file c) s.files

-- ORDER BY cid ASC
unfoldable pub insert_text : String → List String → List String
insert_text x [] = x ∷ []
insert_text x (c ∷ cs) =
    let rest = insert_text x cs in if text_ltb c x then c ∷ rest else x ∷ c ∷ cs

unfoldable pub sort_texts : List String → List String
unfolding insert_text
sort_texts [] = []
sort_texts (c ∷ cs) = insert_text c (sort_texts cs)

abbrev pub blob_cids : ActorDb → List String
blob_cids db = map (λ b. b.cid) db.blobs

unfoldable pub list_blob_cids : String → ℕ → ActorDb → List String
list_blob_cids cursor limit db =
    take limit
      (sort_texts (select (λ c. if cursor == "" then true else text_ltb cursor c) (blob_cids db)))

unfoldable pub count_blobs : ActorDb → ℕ
count_blobs db = length db.blobs

unfoldable pub missing_blobs : ActorStore → List String
missing_blobs s = select (λ c. not (blob_file_exists c s)) (sort_texts (blob_cids s.db))

pub record MissingBlobRef : Type 0 where
  pub cid : String
  pub collection : String
  pub rkey : String

unfoldable pub insert_ref : BlobRef → List BlobRef → List BlobRef
insert_ref x [] = x ∷ []
insert_ref x (r ∷ rs) =
    let rest = insert_ref x rs in if text_ltb r.blob_cid x.blob_cid then r ∷ rest else x ∷ r ∷ rs

unfoldable pub sort_refs : List BlobRef → List BlobRef
unfolding insert_ref
sort_refs [] = []
sort_refs (r ∷ rs) = insert_ref r (sort_refs rs)

unfoldable pub missing_blob_refs : ActorStore → List MissingBlobRef
missing_blob_refs s =
    map (λ r. record { cid = r.blob_cid; collection = r.collection; rkey = r.rkey })
      (select (λ r. not (blob_file_exists r.blob_cid s)) (sort_refs s.db.blob_refs))

unfoldable pub count_imported_blobs : ActorStore → ℕ
count_imported_blobs s = count_blobs s.db - length (missing_blobs s)
