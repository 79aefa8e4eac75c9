-- ===== src/Firehose.antt =====
-- internal/firehose/event.go and internal/carutil/car.go: the messages of the firehose and their frames. A CID is its text and a CAR
-- file is its roots and blocks; how dag-cbor and CAR lay them out in bytes is not modelled, so a frame
-- is the pair of a header and a body.
use robby.Prelude.{ℕ, String, Bool, Option, none, some, List, ◌==◌, string_eq, if◌then◌else◌}

pub record Block : Type 0 where
  pub cid : String
  pub bytes : List ℕ

pub record Car : Type 0 where
  pub roots : List String
  pub blocks : List Block

-- WriteCAR: exactly the given blocks, in the given order.
unfoldable pub write_car : List String → List Block → Car
write_car roots blocks = record { roots = roots; blocks = blocks }

pub record RepoOp : Type 0 where
  pub action : String
  pub path : String
  pub cid : Option String
  pub prev : Option String

-- The messages of indigo's comatproto, with the fields that robby sets.
pub record Commit : Type 0 where
  pub seq : ℕ
  pub repo : String
  pub rev : String
  pub since : Option String
  pub commit : String
  pub prev_data : Option String
  pub blocks : Car
  pub ops : List RepoOp
  pub blobs : List String
  pub time : ℕ

pub record Sync : Type 0 where
  pub seq : ℕ
  pub did : String
  pub rev : String
  pub blocks : Car
  pub time : ℕ

pub record Identity : Type 0 where
  pub seq : ℕ
  pub did : String
  pub handle : Option String
  pub time : ℕ

pub record AccountStatus : Type 0 where
  pub seq : ℕ
  pub did : String
  pub active : Bool
  pub status : Option String
  pub time : ℕ

pub record Info : Type 0 where
  pub name : String
  pub message : String

pub record ErrorFrame : Type 0 where
  pub error : String
  pub message : String

-- The struct of six pointers; a nil pointer is `none`.
pub record Event : Type 0 where
  pub repo_commit : Option Commit
  pub repo_sync : Option Sync
  pub repo_identity : Option Identity
  pub repo_account : Option AccountStatus
  pub info : Option Info
  pub error : Option ErrorFrame

abbrev pub empty_event : Event
empty_event = record {
  repo_commit = none;
  repo_sync = none;
  repo_identity = none;
  repo_account = none;
  info = none;
  error = none;
}

-- The header: `op` is 1 with a type, or -1.
pub data Header : Type 0 where
  message : String → Header
  failure : Header

pub data Body : Type 0 where
  commit_body : Commit → Body
  sync_body : Sync → Body
  identity_body : Identity → Body
  account_body : AccountStatus → Body
  info_body : Info → Body
  error_body : String → Option String → Body

pub record Frame : Type 0 where
  pub header : Header
  pub body : Body

abbrev frame : String → Body → Option Frame
frame t body = some (record { header = message t; body = body })

error_frame : ErrorFrame → Frame
error_frame e = record {
  header = failure;
  body = error_body e.error (if e.message == "" then none else some e.message);
}

-- Event.Serialize; `none` is the error on an empty event. The first field set decides, the error
-- before the messages.
unfoldable pub serialize : Event → Option Frame
unfolding error_frame
serialize e = elim e.error [
  | some x ↦ some (error_frame x)
  | none ↦ elim e.repo_commit [
    | some c ↦ frame "#commit" (commit_body c)
    | none ↦ elim e.repo_sync [
      | some c ↦ frame "#sync" (sync_body c)
      | none ↦ elim e.repo_identity [
        | some c ↦ frame "#identity" (identity_body c)
        | none ↦ elim e.repo_account [
          | some c ↦ frame "#account" (account_body c)
          | none ↦ elim e.info [ some c ↦ frame "#info" (info_body c) | none ↦ none ]
        ]
      ]
    ]
  ]
]

-- Event.SeqOf: the stamped event and its type; `none` is the error.
unfoldable pub seq_of : ℕ → Event → Option (String × Event)
seq_of seq e = elim e.repo_commit [
  | some c ↦ some ("#commit", record e { repo_commit = some (record c { seq = seq }) })
  | none ↦ elim e.repo_sync [
    | some c ↦ some ("#sync", record e { repo_sync = some (record c { seq = seq }) })
    | none ↦ elim e.repo_identity [
      | some c ↦ some ("#identity", record e { repo_identity = some (record c { seq = seq }) })
      | none ↦ elim e.repo_account [
        | some c ↦ some ("#account", record e { repo_account = some (record c { seq = seq }) })
        | none ↦ none
      ]
    ]
  ]
]
