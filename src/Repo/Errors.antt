-- ===== src/Repo/Errors.antt =====
-- internal/xrpc/repo.go: writeWriteError, and which errors of ApplyWrites reach it. ApplyWrites wraps the
-- error of an operation, and writeWriteError compares without unwrapping.
use robby.Prelude.{
  ℕ, String, Bool, ◌≡◌, refl, sym, List, [], ◌∷◌, arith, inl, inr, ok, err, Result, subst,
  err_injective, Result-cases, Option-cases, Bool-cases,
}
use robby.Session.Principal.{HttpError, xrpc}
use robby.ActorStore.Rows.{ActorStore, ActorDb}
use robby.ActorStore.Blocks.{get_repo_root, get_block}
use robby.ActorStore.Manager.{with_lock, valid_did, find_store}
use robby.Sequencer.Broadcast.{Sequencer, append}
use robby.Repo.Indigo.{Indigo, RepoCommit}
use robby.Repo.Batch.{
  Collector, collect_many, WriteResult, WriteOp, WriteError, Batch, record_not_found,
  record_required, invalid_record, not_encodable, bad_tree, unknown_action, missing_commit,
  bad_commit, unsigned, unsequenced, invalid_did, applying, apply_one, apply_ops,
}
use robby.Repo.Writer.{
  commit_event, Written, commit_writes, open_repo, load_tree, seal, Base, apply_writes, sequence,
  settle, transact, begun, draft,
}
use robby.Repo.Atomic.{announce-err}

unfoldable pub write_write_error : WriteError → HttpError
write_write_error record_not_found = xrpc 400 "RecordNotFound"
write_write_error record_required = xrpc 400 "InvalidRequest"
write_write_error invalid_record = xrpc 400 "InvalidRequest"
write_write_error not_encodable = xrpc 400 "InvalidRequest"
write_write_error bad_tree = xrpc 400 "InvalidRequest"
write_write_error unknown_action = xrpc 400 "InvalidRequest"
write_write_error missing_commit = xrpc 400 "InvalidRequest"
write_write_error bad_commit = xrpc 400 "InvalidRequest"
write_write_error unsigned = xrpc 400 "InvalidRequest"
write_write_error unsequenced = xrpc 400 "InvalidRequest"
write_write_error invalid_did = xrpc 400 "InvalidRequest"
write_write_error (applying c k e) = xrpc 400 "InvalidRequest"

-- An error is not actorstore.ErrNotFound itself, unwrapped.
abbrev Wrapped : WriteError → Type 0
Wrapped record_not_found = ⊥
Wrapped record_required = Unit
Wrapped invalid_record = Unit
Wrapped not_encodable = Unit
Wrapped bad_tree = Unit
Wrapped unknown_action = Unit
Wrapped missing_commit = Unit
Wrapped bad_commit = Unit
Wrapped unsigned = Unit
Wrapped unsequenced = Unit
Wrapped invalid_did = Unit
Wrapped (applying c k e) = Unit

Wrapped-response : (e : WriteError) → Wrapped e → write_write_error e ≡ xrpc 400 "InvalidRequest"
unfolding write_write_error
Wrapped-response record_not_found h = absurd h
Wrapped-response record_required h = refl
Wrapped-response invalid_record h = refl
Wrapped-response not_encodable h = refl
Wrapped-response bad_tree h = refl
Wrapped-response unknown_action h = refl
Wrapped-response missing_commit h = refl
Wrapped-response bad_commit h = refl
Wrapped-response unsigned h = refl
Wrapped-response unsequenced h = refl
Wrapped-response invalid_did h = refl
Wrapped-response (applying c k e) h = refl

module _ {T C R K : Type 0} (ext : Indigo T C R K) where
  apply_ops-Wrapped :
      (now : ℕ) (ops : List (WriteOp R)) (b : Batch T C) (e : WriteError)
      → apply_ops ext now ops b ≡ err e
      → Wrapped e
  unfolding apply_ops
  apply_ops-Wrapped now [] b e h = absurd (ground arith)
  apply_ops-Wrapped now (op ∷ ops) b e h = elim (Result-cases (apply_one ext now op b)) [
    | inl (e', h1) ↦
        subst Wrapped
          (err_injective {A = List WriteResult × Batch T C} (applying op.collection op.rkey e') e
            (ground arith))
          tt
    | inr ((res, b1), h1) ↦ elim (Result-cases (apply_ops ext now ops b1)) [
      | inl (e', h2) ↦
          subst Wrapped (err_injective {A = List WriteResult × Batch T C} e' e (ground arith))
            (apply_ops-Wrapped now ops b1 e' h2)
      | inr ((rest, b2), h2) ↦ absurd (ground arith)
    ]
  ]

  load_tree-Wrapped :
      (db : ActorDb) (c : String) (e : WriteError) → load_tree ext db c ≡ err e → Wrapped e
  unfolding load_tree
  load_tree-Wrapped db c e h = elim (Option-cases (get_block c db)) [
    | inl h1 ↦ subst Wrapped (err_injective {A = T × RepoCommit} missing_commit e (ground arith)) tt
    | inr (blk, h1) ↦ elim (Option-cases (ext.unmarshal_commit blk.bytes)) [
      | inl h2 ↦ subst Wrapped (err_injective {A = T × RepoCommit} bad_commit e (ground arith)) tt
      | inr (commit, h2) ↦
          elim (Option-cases (ext.load_tree (λ c'. get_block c' db) commit.data_cid)) [
            | inl h3 ↦
                subst Wrapped (err_injective {A = T × RepoCommit} bad_tree e (ground arith)) tt
            | inr (t, h3) ↦ absurd (ground arith)
          ]
    ]
  ]

  open_repo-Wrapped : (db : ActorDb) (e : WriteError) → open_repo ext db ≡ err e → Wrapped e
  unfolding open_repo
  open_repo-Wrapped db e h = elim (Option-cases (get_repo_root db)) [
    | inl h1 ↦ absurd (ground arith)
    | inr (root, h1) ↦ elim (Result-cases (load_tree ext db root.commit_cid)) [
      | inl (e', h2) ↦
          subst Wrapped (err_injective {A = Base T C} e' e (ground arith))
            (load_tree-Wrapped db root.commit_cid e' h2)
      | inr ((t, prev), h2) ↦ absurd (ground arith)
    ]
  ]

  seal-Wrapped :
      (now : ℕ) (did : String) (key : K) (base : Base T C) (results : List WriteResult)
      (root : String) (clk : C) (bs : Collector) (e : WriteError)
      → seal ext now did key base results root clk bs ≡ err e
      → Wrapped e
  unfolding seal
  seal-Wrapped now did key base results root clk bs e h =
      elim (Option-cases (ext.sign key (draft ext now did root clk []))) [
        | inl h1 ↦
            subst Wrapped (err_injective {A = Written × ActorDb} unsigned e (ground arith)) tt
        | inr (sig, h1) ↦
            elim (Option-cases (ext.marshal_commit (draft ext now did root clk sig))) [
              | inl h2 ↦
                  subst Wrapped
                    (err_injective {A = Written × ActorDb} not_encodable e (ground arith)) tt
              | inr (encoded, h2) ↦ absurd (ground arith)
            ]
      ]

  commit_writes-Wrapped :
      (now : ℕ) (did : String) (key : K) (ops : List (WriteOp R)) (db : ActorDb) (e : WriteError)
      → commit_writes ext now did key ops db ≡ err e
      → Wrapped e
  unfolding commit_writes
  commit_writes-Wrapped now did key ops db e h = elim (Result-cases (open_repo ext db)) [
    | inl (e', h1) ↦
        subst Wrapped (err_injective {A = Written × ActorDb} e' e (ground arith))
          (open_repo-Wrapped db e' h1)
    | inr (base, h1) ↦ elim (Result-cases (apply_ops ext now ops (begun ext base db))) [
      | inl (e', h2) ↦
          subst Wrapped (err_injective {A = Written × ActorDb} e' e (ground arith))
            (apply_ops-Wrapped now ops (begun ext base db) e' h2)
      | inr (a, h2) ↦ elim (Option-cases (ext.write_diff_blocks a.1.tree)) [
        | inl h3 ↦
            subst Wrapped (err_injective {A = Written × ActorDb} bad_tree e (ground arith)) tt
        | inr (d, h3) ↦
            seal-Wrapped now did key base a.0 d.0 a.1.clk (collect_many d.1 a.1.bs) e (ground arith)
      ]
    ]
  ]

settle-Wrapped :
    (s : ActorStore) (r : Result WriteError (Written × ActorDb)) (e : WriteError)
    → ((e' : WriteError) → r ≡ err e' → Wrapped e')
    → (settle s r).0 ≡ err e
    → Wrapped e
settle-Wrapped s (ok (w, db)) e h k = absurd cc
settle-Wrapped s (err e') e h k = subst Wrapped (err_injective {A = Written} e' e k) (h e' refl)

sequence-Wrapped :
    (now : ℕ) (did : String) (seqr : Sequencer) (stores : List ActorStore)
    (res : Result WriteError Written) (e : WriteError)
    → ((e' : WriteError) → res ≡ err e' → Wrapped e')
    → (sequence now did seqr stores res).0 ≡ err e
    → Wrapped e
unfolding sequence
sequence-Wrapped now did seqr stores (err e') e h k =
    subst Wrapped (err_injective {A = Written} e' e k) (h e' refl)
sequence-Wrapped now did seqr stores (ok w) e h k =
    subst Wrapped
      (sym (announce-err stores seqr w (append now did (commit_event now did w) seqr) e k)) tt

with_lock-Wrapped :
    (parse_did : String → Bool) (did : String)
    (fn : ActorStore → Result WriteError Written × ActorStore) (stores : List ActorStore)
    (e : WriteError)
    → ((s : ActorStore) (e' : WriteError) → (fn s).0 ≡ err e' → Wrapped e')
    → (with_lock parse_did invalid_did did fn stores).0 ≡ err e
    → Wrapped e
unfolding with_lock
with_lock-Wrapped parse_did did fn stores e h k = elim (Bool-cases (valid_did parse_did did)) [
  | inl v ↦ h (find_store did stores) e (ground arith)
  | inr v ↦ subst Wrapped (err_injective {A = Written} invalid_did e (ground arith)) tt
]

-- An operation on a record that is not there never gets the answer RecordNotFound: whatever makes
-- ApplyWrites fail, the response is InvalidRequest.
pub failed_write_response :
    {T C R K : Type 0} (ext : Indigo T C R K) (parse_did : String → Bool) (now : ℕ) (did : String)
    (key : K) (ops : List (WriteOp R)) (stores : List ActorStore) (seqr : Sequencer)
    (e : WriteError)
    → (apply_writes ext parse_did now did key ops (stores, seqr)).0 ≡ err e
    → write_write_error e ≡ xrpc 400 "InvalidRequest"
unfolding apply_writes
failed_write_response ext parse_did now did key ops stores seqr e h =
    let locked = with_lock parse_did invalid_did did (transact ext now did key ops) stores in
    Wrapped-response e (
      sequence-Wrapped now did seqr locked.1 locked.0 e
        (λ e1. with_lock-Wrapped parse_did did (transact ext now did key ops) stores e1 (λ s e2.
          settle-Wrapped s (commit_writes ext now did key ops s.db) e2
            (commit_writes-Wrapped ext now did key ops s.db)))
        h)
