-- ===== src/Repo/Agreement.antt =====
-- internal/repoops/writer.go: the record index and the tree of a repository say the same, as long as every
-- collection is an NSID. The handlers of applyWrites and deleteRecord do not check that it is.
use robby.Prelude.{
  ℕ, String, Bool, true, ◌&&◌, ◌==◌, string_eq, ◌≡◌, sym, ap, subst, ◌∙◌, Option, List, [], ◌∷◌,
  arith, inl, inr, ok_injective, Result-cases, ◌⊎◌, ok, Bool-cases, eq_iff, All,
}
use robby.ActorStore.Rows.{ActorDb}
use robby.ActorStore.Records.{get_record_cid}
use robby.ActorStore.Index.{Apart}
use robby.Repo.Indigo.{Indigo}
use robby.Repo.Batch.{WriteOp, WriteResult, WriteError, Batch, path_of, apply_one, apply_ops}
use robby.Repo.Laws.{TreeLaws, NsidLaws}
use robby.Repo.Step.{IsStep, apply_one-Applied}

-- For every record of an NSID collection, the index has the CID that the tree has.
abbrev pub Agrees :
    {T : Type 0} → (T → String → Option String) → (String → Bool) → T → ActorDb → Type 0
Agrees get parse_nsid tree db =
    (c k : String) → parse_nsid c ≡ true → get_record_cid c k db ≡ get tree (path_of c k)

abbrev pub InNsid : {R : Type 0} → (String → Bool) → WriteOp R → Type 0
InNsid parse_nsid op = parse_nsid op.collection ≡ true

same-or-Apart : (c k c' k' : String) → ((c ≡ c') × (k ≡ k')) ⊎ Apart c k c' k'
same-or-Apart c k c' k' = elim (Bool-cases (c == c' && k == k')) [
  | inl e ↦ inl (ground (arith, eq_iff c c'), ground (arith, eq_iff k k'))
  | inr e ↦ inr (λ p. ground (arith, eq_iff c c', eq_iff k k', p))
]

module _ {T C R K : Type 0} (ext : Indigo T C R K) (get : T → String → Option String)
    (laws : TreeLaws ext get) (parse_nsid : String → Bool) (nsids : NsidLaws parse_nsid) where
  IsStep-Agrees :
      (b b' : Batch T C) (res : WriteResult)
      → IsStep get b b' res
      → parse_nsid res.collection ≡ true
      → Agrees get parse_nsid b.tree b.bs.db
      → Agrees get parse_nsid b'.tree b'.bs.db
  IsStep-Agrees b b' res step valid agrees c k v =
      elim (same-or-Apart res.collection res.rkey c k) [
        | inl (e, e') ↦
            subst (λ c'. get_record_cid c' k b'.bs.db ≡ get b'.tree (path_of c' k)) e
              (subst
                (λ k'.
                  get_record_cid res.collection k' b'.bs.db
                  ≡ get b'.tree (path_of res.collection k'))
                e' (step.indexed ∙ sym step.here))
        | inr apart ↦
            step.index_elsewhere c k apart
            ∙ agrees c k v
            ∙ sym (
                step.elsewhere (path_of c k)
                  (λ q. apart (nsids.split res.collection c res.rkey k valid v (sym q))))
      ]

  -- A batch that is applied, whole or not at all, keeps the agreement.
  pub apply_ops-Agrees :
      (now : ℕ) (ops : List (WriteOp R)) (b : Batch T C) (r : List WriteResult × Batch T C)
      → All (InNsid parse_nsid) ops
      → Agrees get parse_nsid b.tree b.bs.db
      → apply_ops ext now ops b ≡ ok r
      → Agrees get parse_nsid r.1.tree r.1.bs.db
  unfolding apply_ops
  apply_ops-Agrees now [] b r v agrees h =
      subst (λ (r : List WriteResult × Batch T C). Agrees get parse_nsid r.1.tree r.1.bs.db)
        (ok_injective ([], b) r h) agrees
  apply_ops-Agrees now (op ∷ ops) b r v agrees h = elim (Result-cases (apply_one ext now op b)) [
    | inl (e, h1) ↦ absurd (ground arith)
    | inr ((res, b1), h1) ↦ elim (Result-cases (apply_ops ext now ops b1)) [
      | inl (e, h2) ↦ absurd (ground arith)
      | inr ((rest, b2), h2) ↦
          let (step, same, _) = apply_one-Applied ext get laws now op b (res, b1) h1 in
          subst (λ (r : List WriteResult × Batch T C). Agrees get parse_nsid r.1.tree r.1.bs.db)
            (ok_injective {E = WriteError} (res ∷ rest, b2) r (ground arith))
            (apply_ops-Agrees now ops b1 (rest, b2) v.1
              (IsStep-Agrees b b1 res step (ap parse_nsid same ∙ v.0) agrees) h2)
    ]
  ]

module _ {T C R K : Type 0} (ext : Indigo T C R K) (get : T → String → Option String)
    (laws : TreeLaws ext get) where
  -- Two operations whose paths are one text though their collections and keys differ, as a collection
  -- with a slash allows: the index keeps the first record where the tree has the second.
  pub colliding_paths_disagree :
      (now : ℕ) (op1 op2 : WriteOp R) (b b1 b2 : Batch T C) (res1 res2 : WriteResult)
      → apply_one ext now op1 b ≡ ok (res1, b1)
      → apply_one ext now op2 b1 ≡ ok (res2, b2)
      → path_of res1.collection res1.rkey ≡ path_of res2.collection res2.rkey
      → Apart res2.collection res2.rkey res1.collection res1.rkey
      → (get_record_cid res1.collection res1.rkey b2.bs.db ≡ res1.cid)
        × (get b2.tree (path_of res1.collection res1.rkey) ≡ res2.cid)
  colliding_paths_disagree now op1 op2 b b1 b2 res1 res2 h1 h2 same apart =
      let (step1, _, _) = apply_one-Applied ext get laws now op1 b (res1, b1) h1 in
      let (step2, _, _) = apply_one-Applied ext get laws now op2 b1 (res2, b2) h2 in
      (
        step2.index_elsewhere res1.collection res1.rkey apart ∙ step1.indexed,
        ap (get b2.tree) same ∙ step2.here,
      )
