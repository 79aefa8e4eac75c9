-- ===== src/ActorStore/Examples.antt =====
-- The actor store at a concrete store with two known blobs.
use robby.Prelude.{◌≡◌, refl, [], ◌∷◌, select, some_row}
use robby.ActorStore.Rows.{ActorStore, empty_db}
use robby.ActorStore.Blobs.{
  count_imported_blobs, missing_blobs, blob_file_exists, sort_texts, insert_text, count_blobs,
}
use robby.ActorStore.Listing.{count_imported_blobs_lem}

abbrev store : ActorStore
store = record {
  did = "did:plc:a";
  db = record empty_db {
    blobs =
        record { cid = "b"; mime = "image/png"; size = 1; created_at = 0 }
        ∷ record { cid = "a"; mime = "image/png"; size = 1; created_at = 0 }
        ∷ [];
  };
  files = record { cid = "a"; bytes = 1 ∷ [] } ∷ [];
}

runs : Unit {0}
unfolding count_imported_blobs missing_blobs blob_file_exists sort_texts insert_text count_blobs
    select some_row
runs = tt

missing : missing_blobs store ≡ "b" ∷ []
unfolding runs
missing = refl

count_imported_blobs_lem_example : count_imported_blobs store ≡ 1
unfolding runs
count_imported_blobs_lem_example = count_imported_blobs_lem store
