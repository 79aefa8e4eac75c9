-- ===== src/ActorStore/Locking.antt =====
-- internal/actorstore/manager.go: what WithLock leaves of the stores.
use robby.Prelude.{
  update, some_row-of_none, String, Bool, true, false, ◌==◌, string_eq, ◌≡◌, ◌≢◌, refl, sym, ap,
  ◌∙◌, some, List, arith, inl, inr, err, Result, eq_iff, Bool-cases, Option-cases, select_one,
  some_row, select_one_sound, select_one-update_self, select_one-update_other,
  select_one-append_none, select_one-append_other, select_one-of_some_row, some_row-select_one,
}
use robby.ActorStore.Rows.{ActorStore}
use robby.ActorStore.Manager.{
  of_did, new_store, store_or_new, find_store, get_existing, opened, valid_did, with_lock,
}

of_did-other :
    (d did : String) (s : ActorStore) → d ≢ did → of_did did s ≡ true → of_did d s ≡ false
of_did-other d did s h e = ground (arith, h, eq_iff s.did did, eq_iff s.did d)

find_store-did : (did : String) (stores : List ActorStore) → (find_store did stores).did ≡ did
unfolding find_store
find_store-did did stores = elim (Option-cases (select_one (of_did did) stores)) [
  | inl e ↦ rw e refl
  | inr (s, e) ↦ rw e ((eq_iff s.did did).0 (select_one_sound (of_did did) stores s e))
]

-- Opening a store changes what is found for no DID.
find_store-opened :
    (d did : String) (stores : List ActorStore)
    → find_store d (opened did stores) ≡ find_store d stores
unfolding find_store opened
find_store-opened d did stores = elim (Bool-cases (some_row (of_did did) stores)) [
  | inl e ↦ rw e refl
  | inr e ↦ rw e (elim (Bool-cases (d == did)) [
    | inl same ↦ rw ((eq_iff d did).0 same) (
        ap (store_or_new did) (
          select_one-append_none (of_did did) stores (new_store did)
            (select_one-of_some_row (of_did did) stores e) (ground (arith, eq_iff did did)))
        ∙ sym (ap (store_or_new did) (select_one-of_some_row (of_did did) stores e)))
    | inr other ↦ ap (store_or_new d) (
        select_one-append_other (of_did d) stores (new_store did)
          (ground (arith, eq_iff d did, eq_iff did d)))
  ])
]

opened-some :
    (did : String) (stores : List ActorStore)
    → (s : ActorStore) × (select_one (of_did did) (opened did stores) ≡ some s)
unfolding opened
opened-some did stores = elim (Option-cases (select_one (of_did did) stores)) [
  | inl e ↦ rw (some_row-of_none (of_did did) stores e) (
    new_store did,
    select_one-append_none (of_did did) stores (new_store did) e (ground (arith, eq_iff did did)),
  )
  | inr (s, e) ↦ rw (some_row-select_one (of_did did) stores s e) (s, e)
]

find_store-update_self :
    (did : String) (s : ActorStore) (stores : List ActorStore)
    → s.did ≡ did
    → find_store did (update (of_did did) (λ _. s) (opened did stores)) ≡ s
unfolding find_store
find_store-update_self did s stores h =
    let (t, e) = opened-some did stores in
    ap (store_or_new did) (
      select_one-update_self (of_did did) (λ _. s) (opened did stores) t
        (λ x k. (eq_iff s.did did).1 h) e)

find_store-update_other :
    (d did : String) (s : ActorStore) (stores : List ActorStore)
    → s.did ≡ did
    → d ≢ did
    → find_store d (update (of_did did) (λ _. s) (opened did stores)) ≡ find_store d stores
find_store-update_other d did s stores h other =
    unfold find_store in
    ap (store_or_new d) (
      select_one-update_other (of_did d) (of_did did) (λ _. s) (opened did stores)
        (λ x. of_did-other d did x other)
        (λ x k. of_did-other d did s other ((eq_iff s.did did).1 h)))
    ∙ find_store-opened d did stores

-- A call under the lock that keeps the store's DID changes the store of that DID, as it says, and
-- the store of no other.
pub with_lock_lem :
    {E A : Type 0} (parse_did : String → Bool) (invalid : E) (did : String)
    (fn : ActorStore → Result E A × ActorStore) (stores : List ActorStore)
    → ((s : ActorStore) → (fn s).1.did ≡ s.did)
    → valid_did parse_did did ≡ true
    → (find_store did (with_lock parse_did invalid did fn stores).1
        ≡ (fn (find_store did stores)).1)
      × ((with_lock parse_did invalid did fn stores).0 ≡ (fn (find_store did stores)).0)
unfolding with_lock
with_lock_lem parse_did invalid did fn stores keeps v =
    rw v (find_store-update_self did _ stores (keeps _ ∙ find_store-did did stores), refl)

pub with_lock-other :
    {E A : Type 0} (parse_did : String → Bool) (invalid : E) (did : String)
    (fn : ActorStore → Result E A × ActorStore) (stores : List ActorStore) (d : String)
    → ((s : ActorStore) → (fn s).1.did ≡ s.did)
    → d ≢ did
    → find_store d (with_lock parse_did invalid did fn stores).1 ≡ find_store d stores
unfolding with_lock
with_lock-other parse_did invalid did fn stores d keeps other =
    elim (Bool-cases (valid_did parse_did did)) [
      | inl v ↦
          rw v (find_store-update_other d did _ stores (keeps _ ∙ find_store-did did stores) other)
      | inr v ↦ rw v refl
    ]

-- A call under the lock that fails and rolls its store back changes no store.
pub with_lock-err :
    {E A : Type 0} (parse_did : String → Bool) (invalid : E) (did : String)
    (fn : ActorStore → Result E A × ActorStore) (stores : List ActorStore) (d : String) (e : E)
    → ((s : ActorStore) → (fn s).1.did ≡ s.did)
    → ((s : ActorStore) → (fn s).0 ≡ err e → (fn s).1 ≡ s)
    → (with_lock parse_did invalid did fn stores).0 ≡ err e
    → find_store d (with_lock parse_did invalid did fn stores).1 ≡ find_store d stores
with_lock-err parse_did invalid did fn stores d e keeps rolls h =
    elim (Bool-cases (valid_did parse_did did)) [
      | inr v ↦ unfold with_lock in rw v refl
      | inl v ↦ elim (Bool-cases (d == did)) [
        | inr other ↦ with_lock-other parse_did invalid did fn stores d keeps (not_same other)
        | inl same ↦
            let (store, res) = with_lock_lem parse_did invalid did fn stores keeps v in
            rw ((eq_iff d did).0 same) (store ∙ rolls (find_store did stores) (sym res ∙ h))
      ]
    ]
  where
    not_same : (d == did) ≡ false → d ≢ did
    not_same other p = ground (arith, eq_iff d did, p)

-- After a call under the lock of a valid DID, its store exists, and is what the call made it.
pub with_lock-existing :
    {E A : Type 0} (parse_did : String → Bool) (invalid : E) (did : String)
    (fn : ActorStore → Result E A × ActorStore) (stores : List ActorStore)
    → ((s : ActorStore) → (fn s).1.did ≡ s.did)
    → valid_did parse_did did ≡ true
    → get_existing parse_did did (with_lock parse_did invalid did fn stores).1
      ≡ some (fn (find_store did stores)).1
unfolding with_lock get_existing
with_lock-existing parse_did invalid did fn stores keeps v =
    let (t, e) = opened-some did stores in
    let st = (fn (find_store did stores)).1 in
    rw v (
      select_one-update_self (of_did did) (λ _. st) (opened did stores) t
        (λ x k. (eq_iff st.did did).1 (keeps _ ∙ find_store-did did stores)) e)
