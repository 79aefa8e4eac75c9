-- ===== src/Sync/Skipped.antt =====
-- internal/xrpc/sync.go: listRepos pages by DID through accounts in the order of their creation.
use robby.Prelude.{
  text_ltb-nil, map, ◌++◌, All, Option-cases, length, ℕ, zero, suc, String, Bool, true, false, ◌==◌,
  string_eq, nat_eq, text_ltb, text_ltb_trans, ◌≡◌, ◌≢◌, refl, subst, Option, none, some, List, [],
  ◌∷◌, inl, inr, arith, eq_iff, take, some_row, Bool-cases,
}
use robby.Accounts.Rows.{Account}
use robby.Accounts.Users.{list_accounts}
use robby.ActorStore.Rows.{ActorStore, RepoRoot}
use robby.ActorStore.Manager.{get_existing}
use robby.Server.State.{Server}
use robby.Migration.Account.{limit_or, is_passed, next_cursor, last_of}
use robby.Sync.Repos.{
  RepoEntry, repo_entries, root_of, entry_for, keep_entry, handle_sync_list_repos, RepoPage,
}

abbrev pub lists : String → RepoEntry → Bool
lists did e = e.did == did

keep_entry-other :
    (did : String) (a : Account) (o : Option RepoRoot) (rest : List RepoEntry)
    → (a.did == did) ≡ false
    → some_row (lists did) rest ≡ false
    → some_row (lists did) (keep_entry (entry_for a o) rest) ≡ false
unfolding some_row
keep_entry-other did a none rest h k = k
keep_entry-other did a (some root) rest h k = rw h k

some_row-take :
    (p : RepoEntry → Bool) (n : ℕ) (es : List RepoEntry)
    → some_row p es ≡ false
    → some_row p (take n es) ≡ false
unfolding some_row
some_row-take p zero es h = refl
some_row-take p (suc n) [] h = refl
some_row-take p (suc n) (e ∷ es) h = ground (arith, some_row-take p n es)

module _ (parse_did : String → Bool) (actors : List ActorStore) (cursor did : String)
    (passed : is_passed cursor did ≡ true) where
  differs : (d : String) → is_passed cursor d ≡ false → (d == did) ≡ false
  differs d h = elim (Bool-cases (d == did)) [
    | inr e ↦ e
    | inl e ↦
        let h' : is_passed cursor did ≡ false =
          subst (λ x. is_passed cursor x ≡ false) ((eq_iff d did).0 e) h in
        absurd (ground arith)
  ]

  -- A DID that the cursor has passed is not listed.
  repo_entries-passed :
      (accts : List Account)
      → some_row (lists did) (repo_entries parse_did actors cursor accts) ≡ false
  unfolding repo_entries some_row
  repo_entries-passed [] = refl
  repo_entries-passed (a ∷ accts) = elim (Bool-cases (is_passed cursor a.did)) [
    | inl e ↦ rw e (repo_entries-passed accts)
    | inr e ↦ rw e (
        keep_entry-other did a (root_of (get_existing parse_did a.did actors))
          (repo_entries parse_did actors cursor accts) (differs a.did e)
          (repo_entries-passed accts))
  ]

module _ (parse_did : String → Bool) (actors : List ActorStore) (cursor : String) where
  abbrev IsAfter : RepoEntry → Type 0
  IsAfter e = is_passed cursor e.did ≡ false

  keep_entry-IsAfter :
      (a : Account) (o : Option RepoRoot) (rest : List RepoEntry)
      → is_passed cursor a.did ≡ false
      → All IsAfter rest
      → All IsAfter (keep_entry (entry_for a o) rest)
  keep_entry-IsAfter a none rest h k = k
  keep_entry-IsAfter a (some root) rest h k = (h, k)

  repo_entries-IsAfter :
      (accts : List Account) → All IsAfter (repo_entries parse_did actors cursor accts)
  unfolding repo_entries
  repo_entries-IsAfter [] = tt
  repo_entries-IsAfter (a ∷ accts) = elim (Bool-cases (is_passed cursor a.did)) [
    | inl e ↦ rw e (repo_entries-IsAfter accts)
    | inr e ↦ rw e (
        keep_entry-IsAfter a (root_of (get_existing parse_did a.did actors))
          (repo_entries parse_did actors cursor accts) e (repo_entries-IsAfter accts))
  ]

  take-IsAfter : (n : ℕ) (es : List RepoEntry) → All IsAfter es → All IsAfter (take n es)
  take-IsAfter zero es h = tt
  take-IsAfter (suc n) [] h = tt
  take-IsAfter (suc n) (e ∷ es) h = (h.0, take-IsAfter n es h.1)

  last_of-IsAfter :
      (es : List RepoEntry) (c : String)
      → All IsAfter es
      → last_of (map (λ e. e.did) es) ≡ some c
      → is_passed cursor c ≡ false
  last_of-IsAfter [] c h e = absurd (ground (arith, e))
  last_of-IsAfter (x ∷ []) c h e =
      subst (λ d. is_passed cursor d ≡ false) (some_injective x.did c e) h.0
    where
      some_injective : (a b : String) → ◌≡◌ {A = Option String} (some a) (some b) → a ≡ b
      some_injective a b h = cc
  last_of-IsAfter (x ∷ y ∷ es) c h e = last_of-IsAfter (y ∷ es) c h.1 e

-- A cursor that was passed on moves forward only.
passed_forward :
    (cursor c did : String)
    → is_passed cursor did ≡ true
    → is_passed cursor c ≡ false
    → is_passed c did ≡ true
passed_forward cursor c did h k =
    let given : (cursor == "") ≡ false = ground (arith, h) in
    let late : text_ltb cursor did ≡ false = ground (arith, h, given) in
    let moved : text_ltb cursor c ≡ true = ground (arith, k, given) in
    elim (Bool-cases (c == "")) [
      | inl e ↦
          let back : text_ltb cursor "" ≡ true =
            subst (λ x. text_ltb cursor x ≡ true) ((eq_iff c "").0 e) moved in
          absurd (ground (arith, back, text_ltb-nil cursor))
      | inr e ↦ elim (Bool-cases (text_ltb c did)) [
        | inr e' ↦ ground (arith, e, e')
        | inl e' ↦ absurd (ground (arith, late, text_ltb_trans cursor c did moved e'))
      ]
    ]

module _ (parse_did : String → Bool) (limit : Option ℕ) (s : Server) where
  abbrev page : String → RepoPage
  page cursor = handle_sync_list_repos parse_did limit cursor s

  abbrev follow_cursor : (String → List RepoEntry) → Option String → List RepoEntry
  follow_cursor next none = []
  follow_cursor next (some c) = next c

  -- What a client has after at most `n` requests, each with the cursor of the answer before.
  unfoldable pub walk : ℕ → String → List RepoEntry
  walk zero cursor = []
  walk (suc n) cursor = (page cursor).repos ++ follow_cursor (walk n) (page cursor).cursor

  module _ (did : String) where
    some_row-append :
        (xs ys : List RepoEntry)
        → some_row (lists did) xs ≡ false
        → some_row (lists did) ys ≡ false
        → some_row (lists did) (xs ++ ys) ≡ false
    unfolding some_row
    some_row-append [] ys h k = k
    some_row-append (x ∷ xs) ys h k = ground (arith, h, some_row-append xs ys)

    page-cursor : (cursor c : String) → (page cursor).cursor ≡ some c → is_passed cursor c ≡ false
    unfolding handle_sync_list_repos next_cursor
    page-cursor cursor c h =
        let es =
          take (limit_or 500 1000 limit)
            (repo_entries parse_did s.actors cursor (list_accounts s.store)) in
        elim (Bool-cases (length (map (λ e. e.did) es) == limit_or 500 1000 limit)) [
          | inr e ↦ absurd (ground (arith, h, e))
          | inl e ↦
              last_of-IsAfter parse_did s.actors cursor es c
                (take-IsAfter parse_did s.actors cursor (limit_or 500 1000 limit) _
                  (repo_entries-IsAfter parse_did s.actors cursor (list_accounts s.store)))
                (ground (arith, h, e))
        ]

    walk-passed :
        (n : ℕ) (cursor : String)
        → is_passed cursor did ≡ true
        → some_row (lists did) (walk n cursor) ≡ false
    unfolding walk handle_sync_list_repos
    walk-passed zero cursor h = unfold some_row in refl
    walk-passed (suc n) cursor h =
        some_row-append (page cursor).repos _
          (some_row-take (lists did) (limit_or 500 1000 limit)
            (repo_entries parse_did s.actors cursor (list_accounts s.store))
            (repo_entries-passed parse_did s.actors cursor did h (list_accounts s.store)))
          (elim (Option-cases (page cursor).cursor) [
            | inl e ↦ rw e (unfold some_row in refl)
            | inr (c, e) ↦
                rw e (walk-passed n c (passed_forward cursor c did h (page-cursor cursor c e)))
          ])

    -- Where the first page of listRepos does not list a DID, and its cursor is not before that DID, a client that
    -- follows the cursors never gets it, however many requests it makes.
    pub skipped_repo :
        (n : ℕ) (c : String)
        → some_row (lists did) (page "").repos ≡ false
        → (page "").cursor ≡ some c
        → c ≢ ""
        → text_ltb c did ≡ false
        → some_row (lists did) (walk n "") ≡ false
    unfolding walk
    skipped_repo zero c first next given order = unfold some_row in refl
    skipped_repo (suc n) c first next given order =
        some_row-append (page "").repos _ first
          (rw next (walk-passed n c (ground (arith, order, eq_iff c "", given))))
