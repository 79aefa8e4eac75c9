-- ===== src/ActorStore/Listing.antt =====
-- internal/actorstore/store.go: CountImportedBlobs counts the blobs whose bytes are there.
use robby.Prelude.{◌+◌, String, Bool, not, ◌≡◌, refl, List, [], ◌∷◌, map, arith, length, select}
use robby.ActorStore.Rows.{ActorStore, BlobRow}
use robby.ActorStore.Blobs.{
  insert_text, sort_texts, blob_cids, count_blobs, missing_blobs, count_imported_blobs,
  blob_file_exists,
}

-- Sorting keeps how many entries pass a test.
length-select-insert_text :
    (p : String → Bool) (x : String) (cs : List String)
    → length (select p (insert_text x cs)) ≡ length (select p (x ∷ cs))
unfolding select insert_text
length-select-insert_text p x [] = refl
length-select-insert_text p x (c ∷ cs) = ground (arith, length-select-insert_text p x cs)

length-select-sort_texts :
    (p : String → Bool) (cs : List String)
    → length (select p (sort_texts cs)) ≡ length (select p cs)
unfolding sort_texts select
length-select-sort_texts p [] = refl
length-select-sort_texts p (c ∷ cs) =
    rw (length-select-insert_text p c (sort_texts cs))
      (ground (arith, length-select-sort_texts p cs))

length-select-not :
    (p : String → Bool) (cs : List String)
    → length (select p cs) + length (select (λ c. not (p c)) cs) ≡ length cs
unfolding select
length-select-not p [] = refl
length-select-not p (c ∷ cs) = ground (arith, length-select-not p cs)

length-map_cids : (rows : List BlobRow) → length (map (λ b. b.cid) rows) ≡ length rows
length-map_cids [] = refl
length-map_cids (b ∷ rows) = omega (arith, length-map_cids rows)

-- The number that is reported as imported is the number of known blobs whose bytes are stored.
pub count_imported_blobs_lem :
    (s : ActorStore)
    → count_imported_blobs s ≡ length (select (λ c. blob_file_exists c s) (blob_cids s.db))
unfolding count_imported_blobs missing_blobs count_blobs
count_imported_blobs_lem s =
    rw (length-select-sort_texts (λ c. not (blob_file_exists c s)) (blob_cids s.db)) (
      omega (
        arith,
        length-select-not (λ c. blob_file_exists c s) (blob_cids s.db),
        length-map_cids s.db.blobs,
      ))
