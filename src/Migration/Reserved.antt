-- ===== src/Migration/Reserved.antt =====
-- internal/xrpc/migration.go: the key that reserveSigningKey gives is the one the account is created with.
use robby.Prelude.{
  ℕ, ◌+◌, ◌*◌, ◌<◌, String, false, ◌==◌, string_eq, leb, ◌≡◌, refl, ap, none, List, [], ◌∷◌, inl,
  inr, arith, eq_iff, ok, err, Option-cases, select_one, select_one-append_none,
  select_one-of_some_row, some_row, some_row_mono, delete,
}
use robby.Accounts.Rows.{ReservedKey, Store, not_found, second, rfc3339}
use robby.Accounts.Tokens.{reserve_signing_key, get_reserved_signing_key, key_of, reserved_now}

-- Without a key that is still reserved, no row of the DID outlives the pruning.
none_live :
    (now : ℕ) (did : String) (rows : List ReservedKey)
    → select_one (reserved_now now did) rows ≡ none
    → some_row (λ k. k.did == did) (delete (λ k. leb k.expires_at (rfc3339 now)) rows) ≡ false
unfolding select_one some_row delete
none_live now did [] h = refl
none_live now did (k ∷ rows) h = ground (arith, none_live now did rows)

module _ (now : ℕ) (did key : String) (s : Store)
    (free : get_reserved_signing_key now did s ≡ err not_found) where
  free_row : select_one (reserved_now now did) s.reserved_signing_keys ≡ none
  free_row = elim (Option-cases (select_one (reserved_now now did) s.reserved_signing_keys)) [
    | inl e ↦ e
    | inr (k, e) ↦ absurd (unfold get_reserved_signing_key in ground arith)
  ]

  -- Where no key is kept for the DID, a key that is reserved is the one that is read for the hour to come.
  pub get-reserve_signing_key :
      (later : ℕ)
      → rfc3339 later < rfc3339 (now + 3600 * second)
      → get_reserved_signing_key later did (reserve_signing_key now did key s).1 ≡ ok key
  unfolding reserve_signing_key get_reserved_signing_key
  get-reserve_signing_key later h =
      let live = delete (λ k. leb k.expires_at (rfc3339 now)) s.reserved_signing_keys in
      let row : ReservedKey = record {
        did = did;
        signing_key = key;
        created_at = rfc3339 now;
        expires_at = rfc3339 (now + 3600 * second);
      } in
      let none = none_live now did s.reserved_signing_keys free_row in
      let found =
        select_one-append_none (reserved_now later did) live row
          (select_one-of_some_row (reserved_now later did) live (
            some_row_mono (reserved_now later did) (λ k. k.did == did) live (λ k e. ground arith)
              none))
          (ground (arith, h, eq_iff did did)) in
      rw none (ap key_of found)
