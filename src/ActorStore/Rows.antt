-- ===== src/ActorStore/Rows.antt =====
-- internal/actorstore/store.go: the tables of an actor's database, and the blob files beside it. A CID is
-- its text. Every statement succeeds on a working disk: the upserts leave no constraint to fail.
use robby.Prelude.{ℕ, String, Option, none, List, []}
use robby.Firehose.{Block}

pub record RepoRoot : Type 0 where
  pub commit_cid : String
  pub rev : String

pub record RecordEntry : Type 0 where
  pub collection : String
  pub rkey : String
  pub cid : String

-- A row of `blobs`.
pub record BlobRow : Type 0 where
  pub cid : String
  pub mime : String
  pub size : ℕ
  pub created_at : ℕ

-- A row of `blob_refs`.
pub record BlobRef : Type 0 where
  pub blob_cid : String
  pub collection : String
  pub rkey : String

-- The one row of `preferences`.
pub record Preferences : Type 0 where
  pub value : String
  pub updated_at : ℕ

pub record ActorDb : Type 0 where
  pub blocks : List Block
  pub repo_root : Option RepoRoot
  pub records : List RecordEntry
  pub blobs : List BlobRow
  pub blob_refs : List BlobRef
  pub preferences : Option Preferences

-- The directory of blob files, by CID.
pub record BlobFile : Type 0 where
  pub cid : String
  pub bytes : List ℕ

pub record ActorStore : Type 0 where
  pub did : String
  pub db : ActorDb
  pub files : List BlobFile

abbrev pub empty_db : ActorDb
empty_db = record {
  blocks = [];
  repo_root = none;
  records = [];
  blobs = [];
  blob_refs = [];
  preferences = none;
}
