-- ===== src/Sync/Pages.antt =====
-- internal/xrpc/sync.go: a client that follows the cursors of listBlobs.
use robby.Prelude.{
  ℕ, ◌+◌, ◌<◌, String, Bool, false, ◌==◌, string_eq, ◌≡◌, ◌≢◌, refl, ap, ◌∙◌, Option, none, some,
  List, [], ◌∷◌, map, arith, eq_iff, take, length, All, Result, ok, err,
}
use robby.ActorStore.Rows.{ActorStore, BlobRow}
use robby.ActorStore.Blobs.{blob_cids, count_blobs, list_blob_cids, sort_texts}
use robby.Session.Principal.{HttpError}
use robby.Server.State.{Server}
use robby.Migration.Account.{limit_or, next_cursor}
use robby.Sync.Hosted.{hosted_actor_store}
use robby.Sync.Blobs.{BlobPage, handle_sync_list_blobs}
use robby.Sync.Paging.{Answer, follow, follow_all, page_of, after}
use robby.Sync.Sorting.{
  Distinct, All-sort_texts, sort_texts-Ascending, select-sort_texts, length-sort_texts,
}

abbrev pub answer_of : Result HttpError BlobPage → Answer
answer_of (err e) = none
answer_of (ok page) = some (page.cids, page.cursor)

-- One request of listBlobs, by its cursor.
abbrev pub ask_blobs : (String → Bool) → String → Option ℕ → Server → String → Answer
ask_blobs parse_did did limit s cursor =
    answer_of (handle_sync_list_blobs parse_did did limit cursor s)

pub limit_or-pos :
    (default most : ℕ) (limit : Option ℕ) → 0 < default → 0 < limit_or default most limit
unfolding limit_or
limit_or-pos default most none h = h
limit_or-pos default most (some n) h = ground arith

length-cids : (rows : List BlobRow) → length (map (λ b. b.cid) rows) ≡ length rows
length-cids [] = refl
length-cids (b ∷ rows) = omega (arith, length-cids rows)

module _ (parse_did : String → Bool) (did : String) (limit : Option ℕ) (s : Server)
    (st : ActorStore) (given : did ≢ "") (hosted : hosted_actor_store parse_did did s ≡ ok st) where
  answers :
      Distinct (blob_cids st.db)
      → (cursor : String)
      → ask_blobs parse_did did limit s cursor
        ≡ some (page_of (limit_or 500 1000 limit) (sort_texts (blob_cids st.db)) cursor)
  unfolding handle_sync_list_blobs list_blob_cids
  answers distinct cursor =
      let named : (did == "") ≡ false = ground (arith, eq_iff did "", given) in
      rw (named, hosted)
        (ap
          (λ cs. some (
            take (limit_or 500 1000 limit) cs,
            next_cursor (limit_or 500 1000 limit) (take (limit_or 500 1000 limit) cs),
          ))
          (select-sort_texts (after cursor) (blob_cids st.db) distinct))

  -- A client that follows the cursors of listBlobs gets the CID of every blob of the account, each once
  -- and in order, and stops after at most one request more than there are blobs, whatever the limit
  -- it asks for. The CIDs are distinct, and none is empty.
  pub follow-list_blobs :
      Distinct (blob_cids st.db)
      → All (λ c. c ≢ "") (blob_cids st.db)
      → follow (ask_blobs parse_did did limit s) (count_blobs st.db + 1) ""
        ≡ some (sort_texts (blob_cids st.db))
  unfolding count_blobs
  follow-list_blobs distinct named =
      ap (λ n. follow (ask_blobs parse_did did limit s) (n + 1) "") size
      ∙ follow_all (limit_or 500 1000 limit) (limit_or-pos 500 1000 limit (omega arith))
          (sort_texts (blob_cids st.db)) (sort_texts-Ascending (blob_cids st.db) distinct)
          (All-sort_texts (λ c. c ≢ "") (blob_cids st.db) named) (ask_blobs parse_did did limit s)
          (answers distinct)
    where
      size : length st.db.blobs ≡ length (sort_texts (blob_cids st.db))
      size = omega (arith, length-sort_texts (blob_cids st.db), length-cids st.db.blobs)
