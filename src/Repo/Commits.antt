-- ===== src/Repo/Commits.antt =====
-- internal/repoops/writer.go: what a commit that ApplyWrites makes says, and where it stands.
use robby.Prelude.{
  ℕ, String, ◌≡◌, Option, some, List, [], map, arith, inl, inr, Result-cases, ok_injective, ok,
  Option-cases,
}
use robby.Firehose.{Block}
use robby.ActorStore.Rows.{ActorDb}
use robby.ActorStore.Blocks.{get_repo_root}
use robby.Repo.Indigo.{Indigo}
use robby.Repo.Batch.{WriteOp, WriteResult, WriteError, Batch, collect_many, apply_ops}
use robby.Repo.Writer.{
  Base, Written, event_op, open_repo, commit_writes, seal, draft, finish, begun,
}
use robby.Repo.Replay.{Describes}

module _ {T C R K : Type 0} (ext : Indigo T C R K) (now : ℕ) (did : String) (key : K) where
  -- The parts of a commit that was made.
  pub record Parts (ops : List (WriteOp R)) (db : ActorDb) (base : Base T C) (r : Written × ActorDb)
      : Type 0 where
    pub applied : List WriteResult × Batch T C
    pub diff : String × List Block
    pub sig : List ℕ
    pub encoded : List ℕ
    pub run : apply_ops ext now ops (begun ext base db) ≡ ok applied
    pub wrote : ext.write_diff_blocks applied.1.tree ≡ some diff
    pub signed : ext.sign key (draft ext now did diff.0 applied.1.clk []) ≡ some sig
    pub result :
        finish ext base applied.0
          (draft ext now did diff.0 applied.1.clk sig)
          encoded
          (collect_many diff.1 applied.1.bs)
        ≡ r

  pub commit_writes-Parts :
      (ops : List (WriteOp R)) (db : ActorDb) (base : Base T C) (r : Written × ActorDb)
      → open_repo ext db ≡ ok base
      → commit_writes ext now did key ops db ≡ ok r
      → Parts ops db base r
  unfolding commit_writes seal
  commit_writes-Parts ops db base r o h =
      elim (Result-cases (apply_ops ext now ops (begun ext base db))) [
        | inl (e, h1) ↦ absurd (ground arith)
        | inr (a, h1) ↦ elim (Option-cases (ext.write_diff_blocks a.1.tree)) [
          | inl h2 ↦ absurd (ground arith)
          | inr (d, h2) ↦ elim (Option-cases (ext.sign key (draft ext now did d.0 a.1.clk []))) [
            | inl h3 ↦ absurd (ground arith)
            | inr (sig, h3) ↦
                elim (Option-cases (ext.marshal_commit (draft ext now did d.0 a.1.clk sig))) [
                  | inl h4 ↦ absurd (ground arith)
                  | inr (encoded, h4) ↦ record {
                    applied = a;
                    diff = d;
                    sig = sig;
                    encoded = encoded;
                    run = h1;
                    wrote = h2;
                    signed = h3;
                    result = ok_injective {E = WriteError} _ r (ground arith);
                  }
                ]
          ]
        ]
      ]

-- What a commit says of the repository whose last tree is `base`.
pub record IsCommit {T C R K : Type 0} (ext : Indigo T C R K) (get : T → String → Option String)
    (base : Base T C) (r : Written × ActorDb) : Type 0 where
  pub tree : T
  pub diff : List Block
  pub root : ext.write_diff_blocks tree ≡ some (r.0.commit.data_cid, diff)
  pub described : Describes (map event_op r.0.results) (get base.tree) (get tree)
  pub since : r.0.since ≡ base.since
  pub prev_data : r.0.prev_data ≡ base.prev_data
  pub repo_root :
      get_repo_root r.1 ≡ some (record { commit_cid = r.0.commit_cid; rev = r.0.commit.rev })
