-- ===== src/Server/Effects.antt =====
-- internal/xrpc/admin.go and identity.go: what the emitting of an event leaves as it was.
use robby.Prelude.{
  ℕ, String, Bool, Option, none, some, ◌≡◌, refl, ap, ok, inl, inr, arith, Result, Result-cases,
  Bool-cases, eq_iff, true, ◌==◌, string_eq, ◌∙◌, from_option,
}
use robby.ActorStore.Rows.{ActorStore}
use robby.ActorStore.Blocks.{get_block}
use robby.ActorStore.Manager.{find_store, valid_did, with_lock}
use robby.ActorStore.Locking.{with_lock_lem, with_lock-other}
use robby.Firehose.{Block, Event, seq_of, serialize}
use robby.Sequencer.Log.{commit}
use robby.Sequencer.Broadcast.{Sequencer, append}
use robby.Server.State.{Server, reads_actor}
use robby.Server.Events.{
  EmitError, append_event, appended, emit_account_event, emit_identity_event, account_event,
  identity_event, emit_sync_event, sync_event, no_store, no_block,
}

-- The accounts and the repositories are the same in both.
abbrev pub SameData : Server → Server → Type 0
SameData s t = (s.store ≡ t.store) × (s.actors ≡ t.actors)

appended-SameData : (s : Server) (o : Option (ℕ × Sequencer)) → SameData (appended s o).1 s
appended-SameData s none = (refl, refl)
appended-SameData s (some r) = (refl, refl)

module _ (now : ℕ) (did : String) (s : Server) where
  pub append_event-SameData : (evt : Event) → SameData (append_event now did evt s).1 s
  unfolding append_event
  append_event-SameData evt = appended-SameData s (append now did evt s.seqr)

  pub emit_account_event-SameData :
      (active : Bool) (status : Option String)
      → SameData (emit_account_event now did active status s).1 s
  unfolding emit_account_event
  emit_account_event-SameData active status =
      append_event-SameData (account_event now did active status)

  -- An #account event is always appended.
  pub emit_account_event-ok :
      (active : Bool) (status : Option String)
      → (emit_account_event now did active status s).0 ≡ ok tt
  unfolding emit_account_event append_event append commit seq_of serialize
  emit_account_event-ok active status = refl

  pub emit_identity_event-SameData :
      (handle : String) → SameData (emit_identity_event now did handle s).1 s
  unfolding emit_identity_event
  emit_identity_event-SameData handle = append_event-SameData (identity_event now did handle)

  pub emit_identity_event-ok : (handle : String) → (emit_identity_event now did handle s).0 ≡ ok tt
  unfolding emit_identity_event append_event append commit seq_of serialize
  emit_identity_event-ok handle = refl

module _ {E A : Type 0} (parse_did : String → Bool) (invalid : E) (did : String)
    (f : ActorStore → Result E A) (s : Server) where
  -- Reading an actor's store changes what is found for no DID.
  pub reads_actor-find_store :
      (d : String)
      → find_store d (reads_actor parse_did invalid did f s).1.actors ≡ find_store d s.actors
  reads_actor-find_store d = elim (Bool-cases (valid_did parse_did did)) [
    | inr v ↦ unfold with_lock in rw v refl
    | inl v ↦ elim (Bool-cases (d == did)) [
      | inr other ↦
          with_lock-other parse_did invalid did (λ st. (f st, st)) s.actors d (λ st. refl)
            (λ p. ground (arith, eq_iff d did, p))
      | inl same ↦
          rw ((eq_iff d did).0 same)
            (with_lock_lem parse_did invalid did (λ st. (f st, st)) s.actors (λ st. refl) v).0
    ]
  ]

  -- It gives what the store says, for a valid DID.
  pub reads_actor-valid :
      valid_did parse_did did ≡ true
      → (reads_actor parse_did invalid did f s).0 ≡ f (find_store did s.actors)
  reads_actor-valid v =
      (with_lock_lem parse_did invalid did (λ st. (f st, st)) s.actors (λ st. refl) v).1

module _ (parse_did : String → Bool) (now : ℕ) (did c rev : String) (s : Server) where
  -- A #sync event is appended where the repository has the commit's block.
  pub emit_sync_event-ok :
      (blk : Block)
      → valid_did parse_did did ≡ true
      → get_block c (find_store did s.actors).db ≡ some blk
      → (emit_sync_event parse_did now did c rev s).0 ≡ ok tt
  unfolding emit_sync_event append_event append commit seq_of serialize with_lock
  emit_sync_event-ok blk v at = rw (v, at) refl

  pub emit_sync_event-find_store :
      (d : String)
      → find_store d (emit_sync_event parse_did now did c rev s).1.actors ≡ find_store d s.actors
  unfolding emit_sync_event
  emit_sync_event-find_store d =
      elim (Result-cases (reads_actor parse_did no_store did found s).0) [
        | inl (e, h) ↦ rw h (reads_actor-find_store parse_did no_store did found s d)
        | inr (blk, h) ↦ rw h (
            ap (find_store d)
              (append_event-SameData now did (reads_actor parse_did no_store did found s).1
                (sync_event now did c rev blk)).1
            ∙ reads_actor-find_store parse_did no_store did found s d)
      ]
    where
      found : ActorStore → Result EmitError Block
      found st = from_option (get_block c st.db) no_block
