-- ===== src/Repo/Atomic.antt =====
-- internal/repoops/writer.go: ApplyWrites changes one repository, and nothing at all where it fails before
-- the event.
use robby.Prelude.{
  ℕ, String, Bool, ◌≡◌, ◌≢◌, refl, ap, ◌∙◌, Option, none, some, List, ok, err, Result,
}
use robby.ActorStore.Rows.{ActorStore, ActorDb}
use robby.ActorStore.Manager.{find_store, with_lock}
use robby.ActorStore.Locking.{with_lock-err, with_lock-other}
use robby.Sequencer.Broadcast.{Sequencer, append}
use robby.Repo.Indigo.{Indigo}
use robby.Repo.Batch.{WriteOp, WriteError, unsequenced, invalid_did}
use robby.Repo.Writer.{
  Written, commit_writes, announce, settle, sequence, transact, apply_writes, commit_event,
}

settle-did :
    (s : ActorStore) (r : Result WriteError (Written × ActorDb)) → (settle s r).1.did ≡ s.did
settle-did s (ok (w, db)) = refl
settle-did s (err e) = refl

-- A transaction that fails leaves the store as it was.
settle-err :
    (s : ActorStore) (r : Result WriteError (Written × ActorDb)) (e : WriteError)
    → (settle s r).0 ≡ err e
    → (settle s r).1 ≡ s
settle-err s (ok (w, db)) e h = cc
settle-err s (err e') e h = refl

announce-stores :
    (stores : List ActorStore) (seqr : Sequencer) (w : Written) (o : Option (ℕ × Sequencer))
    → (announce stores seqr w o).1.0 ≡ stores
announce-stores stores seqr w none = refl
announce-stores stores seqr w (some r) = refl

pub announce-err :
    (stores : List ActorStore) (seqr : Sequencer) (w : Written) (o : Option (ℕ × Sequencer))
    (e : WriteError)
    → (announce stores seqr w o).0 ≡ err e
    → e ≡ unsequenced
announce-err stores seqr w none e h = cc
announce-err stores seqr w (some r) e h = cc

module _ (now : ℕ) (did : String) (seqr : Sequencer) (stores : List ActorStore) where
  sequence-stores :
      (res : Result WriteError Written) → (sequence now did seqr stores res).1.0 ≡ stores
  unfolding sequence
  sequence-stores (err e) = refl
  sequence-stores (ok w) =
      announce-stores stores seqr w (append now did (commit_event now did w) seqr)

  sequence-err :
      (res : Result WriteError Written) (e : WriteError)
      → e ≢ unsequenced
      → (sequence now did seqr stores res).0 ≡ err e
      → (res ≡ err e) × ((sequence now did seqr stores res).1.1 ≡ seqr)
  unfolding sequence
  sequence-err (err e') e other h = (h, refl)
  sequence-err (ok w) e other h =
      absurd (other (announce-err stores seqr w (append now did (commit_event now did w) seqr) e h))

module _ {T C R K : Type 0} (ext : Indigo T C R K) (parse_did : String → Bool) (now : ℕ)
    (did : String) (key : K) (ops : List (WriteOp R)) (stores : List ActorStore)
    (seqr : Sequencer) where
  abbrev locked : Result WriteError Written × List ActorStore
  locked = with_lock parse_did invalid_did did (transact ext now did key ops) stores

  keeps_did : (s : ActorStore) → (transact ext now did key ops s).1.did ≡ s.did
  keeps_did s = settle-did s (commit_writes ext now did key ops s.db)

  -- No other repository changes, whatever the outcome.
  pub apply_writes-other :
      (d : String)
      → d ≢ did
      → find_store d (apply_writes ext parse_did now did key ops (stores, seqr)).1.0
        ≡ find_store d stores
  unfolding apply_writes
  apply_writes-other d other =
      ap (find_store d) (sequence-stores now did seqr locked.1 locked.0)
      ∙ with_lock-other parse_did invalid_did did (transact ext now did key ops) stores d keeps_did
          other

  -- Where ApplyWrites fails for any reason but that the event could not be appended, every repository
  -- is as it was, and so is the sequencer.
  pub failed_writes_change_nothing :
      (e : WriteError) (d : String)
      → e ≢ unsequenced
      → (apply_writes ext parse_did now did key ops (stores, seqr)).0 ≡ err e
      → (find_store d (apply_writes ext parse_did now did key ops (stores, seqr)).1.0
          ≡ find_store d stores)
        × ((apply_writes ext parse_did now did key ops (stores, seqr)).1.1 ≡ seqr)
  unfolding apply_writes
  failed_writes_change_nothing e d other h =
      let (failed, kept) = sequence-err now did seqr locked.1 locked.0 e other h in
      (
        ap (find_store d) (sequence-stores now did seqr locked.1 locked.0)
            ∙ with_lock-err parse_did invalid_did did (transact ext now did key ops) stores d e
                keeps_did (λ s. settle-err s (commit_writes ext now did key ops s.db) e) failed,
        kept,
      )
