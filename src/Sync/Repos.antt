-- ===== src/Sync/Repos.antt =====
-- internal/xrpc/sync.go: listRepos.
use robby.Prelude.{
  ℕ, String, Bool, Option, none, some, List, [], ◌∷◌, map, ◌==◌, string_eq, take, if◌then◌else◌,
}
use robby.Accounts.Rows.{Account, status_active}
use robby.Accounts.Users.{list_accounts}
use robby.ActorStore.Rows.{ActorStore, RepoRoot}
use robby.ActorStore.Blocks.{get_repo_root}
use robby.ActorStore.Manager.{get_existing}
use robby.Server.State.{Server}
use robby.Migration.Account.{limit_or, next_cursor, is_passed}
use robby.Sync.Hosted.{inactive_status}

pub record RepoEntry : Type 0 where
  pub did : String
  pub head : String
  pub rev : String
  pub active : Bool
  pub status : Option String

pub record RepoPage : Type 0 where
  pub repos : List RepoEntry
  pub cursor : Option String

abbrev pub root_of : Option ActorStore → Option RepoRoot
root_of none = none
root_of (some st) = get_repo_root st.db

abbrev pub entry_for : Account → Option RepoRoot → Option RepoEntry
entry_for a none = none
entry_for a (some root) = some (record {
  did = a.did;
  head = root.commit_cid;
  rev = root.rev;
  active = a.status == status_active;
  status = inactive_status a;
})

-- An account without a store or without a root is left out.
abbrev pub repo_entry : (String → Bool) → List ActorStore → Account → Option RepoEntry
repo_entry parse_did actors a = entry_for a (root_of (get_existing parse_did a.did actors))

abbrev pub keep_entry : Option RepoEntry → List RepoEntry → List RepoEntry
keep_entry none rest = rest
keep_entry (some e) rest = e ∷ rest

-- The entries that the loop over the accounts meets.
unfoldable pub repo_entries :
    (String → Bool) → List ActorStore → String → List Account → List RepoEntry
repo_entries parse_did actors cursor [] = []
repo_entries parse_did actors cursor (a ∷ accts) =
    let rest = repo_entries parse_did actors cursor accts in
    if is_passed cursor a.did then rest else keep_entry (repo_entry parse_did actors a) rest

-- The loop stops when the page is full.
unfoldable pub handle_sync_list_repos : (String → Bool) → Option ℕ → String → Server → RepoPage
handle_sync_list_repos parse_did limit cursor s =
    let page =
      take (limit_or 500 1000 limit)
        (repo_entries parse_did s.actors cursor (list_accounts s.store)) in
    record { repos = page; cursor = next_cursor (limit_or 500 1000 limit) (map (λ e. e.did) page) }
