-- ===== src/Repo/Indigo.antt =====
-- What internal/repoops/writer.go takes from other packages: indigo's Merkle search tree, TID clock,
-- data model, commit encoding and signing, the lexicon's verdict on a record, and SHA-256 CIDs.
-- T is a tree, C a clock, R a record's value and K a signing key.
use robby.Prelude.{ℕ, String, Bool, Option, List}
use robby.Firehose.{Block}

-- repo.Commit, whose `prev` is always nil here; `data_cid` is its Data.
pub record RepoCommit : Type 0 where
  pub did : String
  pub version : ℕ
  pub data_cid : String
  pub rev : String
  pub sig : List ℕ

-- A blob that a record's value refers to.
pub record BlobLink : Type 0 where
  pub ref : String
  pub mime_type : String
  pub size : ℕ

pub record Indigo (T C R K : Type 0) : Type 0 where
  -- mst.Tree: Insert and Remove by path give the value that was there before.
  pub empty_tree : T
  pub load_tree : (String → Option Block) → String → Option T
  pub insert : T → String → String → Option (Option String × T)
  pub remove : T → String → Option (Option String × T)
  pub write_diff_blocks : T → Option (String × List Block)
  -- syntax.TIDClock, read at an instant.
  pub new_clock : C
  pub clock_from_tid : String → C
  pub next_tid : ℕ → C → String × C
  -- A record's value: its "$type", the schema's verdict, its encoding and its blobs.
  pub has_type : R → Bool
  pub with_type : R → String → R
  pub is_valid : R → Bool
  pub marshal : R → Option (List ℕ)
  pub extract_blobs : R → List BlobLink
  -- Commits.
  pub sign : K → RepoCommit → Option (List ℕ)
  pub marshal_commit : RepoCommit → Option (List ℕ)
  pub unmarshal_commit : List ℕ → Option RepoCommit
  -- The CID of encoded bytes: dag-cbor, SHA-256.
  pub sum : List ℕ → String
