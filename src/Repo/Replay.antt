-- ===== src/Repo/Replay.antt =====
-- internal/repoops/writer.go: the operations of a commit event describe exactly what the commit changed in
-- the tree, so that a consumer can replay and invert them.
use robby.Prelude.{
  ℕ, String, false, ◌==◌, string_eq, ◌≡◌, ◌≢◌, sym, subst, ◌∙◌, Option, List, [], ◌∷◌, map, arith,
  inl, inr, Result-cases, ok_injective, ok, Bool-cases, eq_iff, if◌then◌else◌,
}
use robby.Firehose.{RepoOp}
use robby.Repo.Indigo.{Indigo}
use robby.Repo.Batch.{WriteOp, WriteResult, WriteError, Batch, path_of, apply_one, apply_ops}
use robby.Repo.Writer.{event_op}
use robby.Repo.Laws.{TreeLaws}
use robby.Repo.Step.{IsStep, apply_one-Applied}

-- What a repository holds, by path.
abbrev pub Contents : Type 0
Contents = String → Option String

abbrev pub replay_op : RepoOp → Contents → Contents
replay_op op m q = if q == op.path then op.cid else m q

abbrev pub replay : List RepoOp → Contents → Contents
replay [] m = m
replay (op ∷ ops) m = replay ops (replay_op op m)

-- Every operation names what was there before it.
abbrev pub Inverts : List RepoOp → Contents → Type 0
Inverts [] m = Unit
Inverts (op ∷ ops) m = (op.prev ≡ m op.path) × Inverts ops (replay_op op m)

abbrev pub Describes : List RepoOp → Contents → Contents → Type 0
Describes ops m m' = Inverts ops m × ((q : String) → m' q ≡ replay ops m q)

module _ {T C R K : Type 0} (ext : Indigo T C R K) (get : T → String → Option String)
    (laws : TreeLaws ext get) where
  -- An operation that is applied makes the one change that it describes.
  step-replay_op :
      (b b' : Batch T C) (res : WriteResult) (m : Contents)
      → IsStep get b b' res
      → ((q : String) → get b.tree q ≡ m q)
      → (q : String) → get b'.tree q ≡ replay_op (event_op res) m q
  step-replay_op b b' res m step same q = elim (Bool-cases (q == path_of res.collection res.rkey)) [
    | inl e ↦ rw e (
        subst (λ p. get b'.tree p ≡ res.cid)
          (sym ((eq_iff q (path_of res.collection res.rkey)).0 e)) step.here)
    | inr e ↦ rw e (step.elsewhere q (apart e) ∙ same q)
  ]
    where
      apart : (q == path_of res.collection res.rkey) ≡ false → q ≢ path_of res.collection res.rkey
      apart e p = ground (arith, eq_iff q (path_of res.collection res.rkey), p)

  pub apply_ops-Describes :
      (now : ℕ) (ops : List (WriteOp R)) (b : Batch T C) (r : List WriteResult × Batch T C)
      (m : Contents)
      → ((q : String) → get b.tree q ≡ m q)
      → apply_ops ext now ops b ≡ ok r
      → Describes (map event_op r.0) m (get r.1.tree)
  unfolding apply_ops
  apply_ops-Describes now [] b r m same h =
      subst (λ (r : List WriteResult × Batch T C). Describes (map event_op r.0) m (get r.1.tree))
        (ok_injective {E = WriteError} ([], b) r h) (tt, same)
  apply_ops-Describes now (op ∷ ops) b r m same h = elim (Result-cases (apply_one ext now op b)) [
    | inl (e, h1) ↦ absurd (ground arith)
    | inr ((res, b1), h1) ↦ elim (Result-cases (apply_ops ext now ops b1)) [
      | inl (e, h2) ↦ absurd (ground arith)
      | inr ((rest, b2), h2) ↦
          let (step, _, _) = apply_one-Applied ext get laws now op b (res, b1) h1 in
          let later =
            apply_ops-Describes now ops b1 (rest, b2) (replay_op (event_op res) m)
              (step-replay_op b b1 res m step same) h2 in
          subst
            (λ (r : List WriteResult × Batch T C). Describes (map event_op r.0) m (get r.1.tree))
            (ok_injective {E = WriteError} (res ∷ rest, b2) r (ground arith))
            ((step.before ∙ same (path_of res.collection res.rkey), later.0), later.1)
    ]
  ]
