-- ===== src/Sync/Examples.antt =====
-- Listing the blobs of an account and the repositories, at a concrete server.
use robby.Prelude.{
  ◌+◌, String, Bool, true, false, ◌≡◌, refl, some, [], ◌∷◌, arith, eq_iff, select_one, some_row,
  order_by,
}
use robby.Accounts.Rows.{Account}
use robby.Accounts.Users.{get_account_by_did, list_accounts}
use robby.ActorStore.Rows.{ActorStore, BlobRow, empty_db}
use robby.ActorStore.Blobs.{blob_cids, count_blobs, sort_texts}
use robby.ActorStore.Blocks.{get_repo_root}
use robby.ActorStore.Manager.{get_existing, valid_did}
use robby.Server.Toy.{alice, server}
use robby.Server.State.{Server}
use robby.Sync.Hosted.{hosted_actor_store}
use robby.Sync.Paging.{follow}
use robby.Sync.Pages.{ask_blobs, follow-list_blobs}
use robby.Migration.Account.{limit_or, next_cursor}
use robby.Sync.Repos.{repo_entries, handle_sync_list_repos}
use robby.Sync.Skipped.{lists, walk, skipped_repo}

abbrev blob : String → BlobRow
blob c = record { cid = c; mime = "text/plain"; size = 1; created_at = 0 }

abbrev store_with_blobs : ActorStore
store_with_blobs = record {
  did = "did:plc:a";
  db = record empty_db {
    blobs = blob "c2" ∷ blob "c1" ∷ [];
    repo_root = some (record { commit_cid = "c0"; rev = "r1" });
  };
  files = [];
}

abbrev hosting : Server
hosting = record server { actors = store_with_blobs ∷ [] }

abbrev accept : String → Bool
accept did = true

-- Opening this opens all that the tests run through.
runs : Unit {0}
unfolding hosted_actor_store get_account_by_did select_one some_row get_existing valid_did
    list_accounts order_by get_repo_root walk handle_sync_list_repos repo_entries limit_or
    next_cursor
runs = tt

follow-list_blobs_example :
    follow (ask_blobs accept "did:plc:a" (some 1) hosting) (count_blobs store_with_blobs.db + 1) ""
    ≡ some (sort_texts (blob_cids store_with_blobs.db))
unfolding runs
follow-list_blobs_example =
    follow-list_blobs accept "did:plc:a" (some 1) hosting store_with_blobs
      (ground (arith, eq_iff "did:plc:a" "")) refl
      ((λ h. ground (arith, eq_iff "c2" "c1", h), tt), (tt, tt))
      (ground (arith, eq_iff "c2" ""), (ground (arith, eq_iff "c1" ""), tt))

-- Another account, which was created later.
abbrev bob : Account
bob = record alice { did = "did:plc:Z"; handle = "b.test"; created_at = 9 }

abbrev bob_store : ActorStore
bob_store = record store_with_blobs { did = "did:plc:Z" }

abbrev crowded : Server
crowded = record hosting {
  store = record hosting.store { accounts = alice ∷ bob ∷ [] };
  actors = store_with_blobs ∷ bob_store ∷ [];
}

skipped_repo_example : some_row (lists "did:plc:Z") (walk accept (some 1) crowded 3 "") ≡ false
unfolding runs
skipped_repo_example =
    skipped_repo accept (some 1) crowded "did:plc:Z" 3 "did:plc:a" refl refl
      (ground (arith, eq_iff "did:plc:a" "")) refl

-- The account that is never got has a repository, which a request for more lists.
listed : some_row (lists "did:plc:Z") (walk accept (some 9) crowded 1 "") ≡ true
unfolding runs
listed = refl
