-- ===== src/Repo/Writer.antt =====
-- internal/repoops/writer.go: ApplyWrites. Its transaction either commits all that the batch changed, or
-- leaves the database as it was; the firehose event follows the commit.
use robby.Prelude.{
  ℕ, String, Bool, Option, none, some, List, [], ◌∷◌, ◌++◌, map, Result, ok, err, from_option, Exec,
}
use robby.Prelude.Results.{◌>>=◌}
use robby.Accounts.Rows.{rfc3339}
use robby.Firehose.{Block, Event, RepoOp, empty_event, write_car}
use robby.ActorStore.Rows.{ActorDb, ActorStore}
use robby.ActorStore.Blocks.{get_block, get_repo_root, set_repo_root}
use robby.ActorStore.Manager.{with_lock}
use robby.Sequencer.Broadcast.{Sequencer, append}
use robby.Repo.Indigo.{Indigo, RepoCommit}
use robby.Repo.Batch.{
  Batch, WriteOp, WriteResult, WriteError, missing_commit, bad_commit, bad_tree, unsigned,
  not_encodable, unsequenced, invalid_did, Collector, collect, collect_many, apply_ops, path_of,
}

-- What the transaction starts from: `since` and `prev_data` are the last commit's revision and tree.
pub record Base (T C : Type 0) : Type 0 where
  pub tree : T
  pub clk : C
  pub since : Option String
  pub prev_data : Option String

-- What ApplyWrites knows after its transaction.
pub record Written : Type 0 where
  pub commit : RepoCommit
  pub commit_cid : String
  pub results : List WriteResult
  pub since : Option String
  pub prev_data : Option String
  pub new_blocks : List Block

abbrev pub repo_version : ℕ
repo_version = 3

abbrev pub event_op : WriteResult → RepoOp
event_op res = record {
  action = res.action;
  path = path_of res.collection res.rkey;
  cid = res.cid;
  prev = res.prev_cid;
}

unfoldable pub event_blobs : List WriteResult → List String
event_blobs [] = []
event_blobs (res ∷ rest) = res.blob_cids ++ event_blobs rest

-- The event of emitCommitEvent.
unfoldable pub commit_event : ℕ → String → Written → Event
commit_event now did w = record empty_event {
  repo_commit = some (record {
    seq = 0;
    repo = did;
    rev = w.commit.rev;
    since = w.since;
    commit = w.commit_cid;
    prev_data = w.prev_data;
    blocks = write_car (w.commit_cid ∷ []) w.new_blocks;
    ops = map event_op w.results;
    blobs = event_blobs w.results;
    time = rfc3339 now;
  });
}

-- A transaction's store after it committed or was rolled back.
abbrev pub settle :
    ActorStore → Result WriteError (Written × ActorDb) → Result WriteError Written × ActorStore
settle st (err e) = (err e, st)
settle st (ok (w, db)) = (ok w, record st { db = db })

-- The outcome, by what Append says of the commit's event.
abbrev pub announce :
    List ActorStore
    → Sequencer
    → Written
    → Option (ℕ × Sequencer)
    → Result WriteError Written × (List ActorStore × Sequencer)
announce stores seqr w none = (err unsequenced, (stores, seqr))
announce stores seqr w (some (n, seqr')) = (ok w, (stores, seqr'))

-- What ApplyWrites does after the transaction: its event is appended.
unfoldable pub sequence :
    ℕ
    → String
    → Sequencer
    → List ActorStore
    → Result WriteError Written
    → Result WriteError Written × (List ActorStore × Sequencer)
sequence now did seqr stores (err e) = (err e, (stores, seqr))
sequence now did seqr stores (ok w) =
    announce stores seqr w (append now did (commit_event now did w) seqr)

module _ {T C R K : Type 0} (ext : Indigo T C R K) where
  unfoldable pub load_tree : ActorDb → String → Result WriteError (T × RepoCommit)
  load_tree db commit_cid = do
    blk ← from_option (get_block commit_cid db) missing_commit
    c ← from_option (ext.unmarshal_commit blk.bytes) bad_commit
    tree ← from_option (ext.load_tree (λ c'. get_block c' db) c.data_cid) bad_tree
    ok (tree, c)

  unfoldable pub open_repo : ActorDb → Result WriteError (Base T C)
  open_repo db = elim (get_repo_root db) [
    | none ↦
        ok (record { tree = ext.empty_tree; clk = ext.new_clock; since = none; prev_data = none })
    | some root ↦ elim (load_tree db root.commit_cid) [
      | err e ↦ err e
      | ok (tree, prev) ↦ ok (record {
        tree = tree;
        clk = ext.clock_from_tid prev.rev;
        since = some prev.rev;
        prev_data = some prev.data_cid;
      })
    ]
  ]

  abbrev pub draft : ℕ → String → String → C → List ℕ → RepoCommit
  draft now did root_cid clk sig = record {
    did = did;
    version = repo_version;
    data_cid = root_cid;
    rev = (ext.next_tid now clk).0;
    sig = sig;
  }

  -- The encoded commit is put and made the root.
  abbrev pub finish :
      Base T C → List WriteResult → RepoCommit → List ℕ → Collector → Written × ActorDb
  finish base results commit encoded bs =
      let c = ext.sum encoded in
      let all = collect (record { cid = c; bytes = encoded }) bs in
      (
        record {
          commit = commit;
          commit_cid = c;
          results = results;
          since = base.since;
          prev_data = base.prev_data;
          new_blocks = all.blocks;
        },
        set_repo_root c commit.rev all.db,
      )

  -- From the written tree on: the commit is signed and encoded.
  unfoldable pub seal :
      ℕ
      → String
      → K
      → Base T C
      → List WriteResult
      → String
      → C
      → Collector
      → Result WriteError (Written × ActorDb)
  seal now did key base results root_cid clk bs = do
    sig ← from_option (ext.sign key (draft now did root_cid clk [])) unsigned
    encoded ← from_option (ext.marshal_commit (draft now did root_cid clk sig)) not_encodable
    ok (finish base results (draft now did root_cid clk sig) encoded bs)

  abbrev pub begun : Base T C → ActorDb → Batch T C
  begun base db = record { bs = record { db = db; blocks = [] }; tree = base.tree; clk = base.clk }

  -- The function that runs under the lock, on the database; an error rolls it back.
  unfoldable pub commit_writes :
      ℕ → String → K → List (WriteOp R) → ActorDb → Result WriteError (Written × ActorDb)
  commit_writes now did key ops db = do
    base ← open_repo db
    applied ←
        apply_ops ext now ops
          (record { bs = record { db = db; blocks = [] }; tree = base.tree; clk = base.clk })
    diff ← from_option (ext.write_diff_blocks (applied.1.tree)) bad_tree
    seal now did key base (applied.0) (diff.0) (applied.1.clk)
        (collect_many (diff.1) (applied.1.bs))

  -- The transaction on the actor's store.
  abbrev pub transact :
      ℕ → String → K → List (WriteOp R) → ActorStore → Result WriteError Written × ActorStore
  transact now did key ops st = settle st (commit_writes now did key ops st.db)

  -- Writer.ApplyWrites, with a sequencer; the state is the actors' stores and the sequencer.
  unfoldable pub apply_writes :
      (String → Bool)
      → ℕ
      → String
      → K
      → List (WriteOp R)
      → Exec (List ActorStore × Sequencer) WriteError Written
  apply_writes parse_did now did key ops (stores, seqr) =
      let (res, stores') = with_lock parse_did invalid_did did (transact now did key ops) stores in
      sequence now did seqr stores' res
