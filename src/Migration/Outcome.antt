-- ===== src/Migration/Outcome.antt =====
-- internal/xrpc/migration.go: what importRepo does in all, by its outcome.
use robby.Prelude.{
  ℕ, ◌+◌, String, Bool, ltb, take, length, ◌≡◌, refl, sym, ap, subst, Option, some, List, inl, inr,
  arith, ok, err, Result, Result-cases, Option-cases, ok_injective, ◌⊎◌, from_option, result_or,
  none,
}
use robby.Prelude.Results.{◌>>=◌, refuse_if-eq-ok}
use robby.ActorStore.Rows.{ActorStore}
use robby.ActorStore.Manager.{find_store}
use robby.Session.Principal.{HttpError, xrpc, Env, Request, require_migration_access_token}
use robby.Server.State.{Server, Syntax}
use robby.Server.Effects.{emit_sync_event-ok, emit_sync_event-find_store}
use robby.Repo.Indigo.{Indigo}
use robby.Migration.Car.{Importing, CarFile, read_import, max_import_size, first_root, bad_request}
use robby.Migration.Import.{import_into, handle_import_repo}
use robby.Migration.Replaced.{WalkLaws, IsImported}
use robby.Migration.Atomic.{Honest, import_into-valid, import_into-err, import_into-IsImported}

-- What a server has of the repositories, the accounts and the events is the same in both.
abbrev pub Unchanged : Server → Server → String → Type 0
Unchanged s t d =
    (find_store d t.actors ≡ find_store d s.actors) × (t.store ≡ s.store) × (t.seqr ≡ s.seqr)

-- The repository of the account that the request acts for is the one that was sent.
pub record IsReplaced {T C R K P : Type 0} (env : Env) (ext : Indigo T C R K)
    (imp : Importing T R P) (get : T → String → Option String) (parse_nsid : String → Bool)
    (now : ℕ) (r : Request) (body : List ℕ) (s t : Server) : Type 0 where
  pub did : String
  pub acts : require_migration_access_token env now r s.store ≡ ok did
  pub car : CarFile × String
  pub sent : read_import ext imp body ≡ ok car
  pub root : String × String
  pub head : root.0 ≡ car.1
  pub imported : IsImported ext imp get parse_nsid did root (find_store did t.actors).db

header_car :
    (o : Option CarFile) (car : CarFile × String)
    → (from_option o bad_request >>= λ c.
        from_option (first_root c.roots) bad_request >>= λ root. ok (c, root))
      ≡ ok car
    → o ≡ some car.0
header_car none car h = absurd (ground arith)
header_car (some c) car h = elim (Option-cases (first_root c.roots)) [
  | inl e ↦ absurd (ground arith)
  | inr (root, e) ↦
      let same = ok_injective {E = HttpError} (c, root) car (ground arith) in
      ap (λ (p : CarFile × String). some p.0) same
]

module _ {T C R K P : Type 0} (env : Env) (syn : Syntax) (ext : Indigo T C R K)
    (imp : Importing T R P) (get : T → String → Option String) (parse_nsid : String → Bool)
    (laws : WalkLaws imp get parse_nsid) (content : String → List ℕ) (now : ℕ) (r : Request)
    (body : List ℕ) (s : Server)
    (honest : Honest imp content (take (max_import_size + 1) body)) where
  abbrev handled : Result HttpError (Unit {0}) × Server
  handled = handle_import_repo env syn ext imp now r body s

  read_import-car :
      (car : CarFile × String)
      → read_import ext imp body ≡ ok car
      → imp.read_car (take (max_import_size + 1) body) ≡ some car.0
  unfolding read_import
  read_import-car car h =
      let (_, h') =
        refuse_if-eq-ok (ltb max_import_size (length (take (max_import_size + 1) body))) bad_request
          _ h in
      header_car (imp.read_car (take (max_import_size + 1) body)) car h'

  -- Where the CAR reader gives each block under the CID of its bytes, and the walk over a tree meets what the
  -- tree says: either the import succeeds, and the repository of the account that the request acts for is that
  -- of the commit at the root of the CAR that was sent, or it fails, and every repository, all accounts and the events are as they were.
  pub import_whole_or_not :
      (d : String)
      → ((handled.0 ≡ ok tt) × IsReplaced env ext imp get parse_nsid now r body s handled.1)
        ⊎ (((e : HttpError) × (handled.0 ≡ err e)) × Unchanged s handled.1 d)
  unfolding handle_import_repo import_into
  import_whole_or_not d = elim (Result-cases (require_migration_access_token env now r s.store)) [
    | inl (e, h) ↦ rw h (inr ((e, refl), (refl, refl, refl)))
    | inr (did, h) ↦ elim (Result-cases (read_import ext imp body)) [
      | inl (e, h1) ↦ rw (h, h1) (inr ((e, refl), (refl, refl, refl)))
      | inr (car, h1) ↦
          let s1 = (import_into env syn ext imp now did car s).1 in
          elim (Result-cases (import_into env syn ext imp now did car s).0) [
            | inl (e, h2) ↦
                rw (h, h1, h2)
                  (inr
                    ((e, refl), (import_into-err env syn ext imp now did car s e d h2, refl, refl)))
            | inr (root, h2) ↦
                let (head, given) =
                  import_into-IsImported env syn ext imp get parse_nsid laws content now did car s
                    root (honest car.0 (read_import-car car h1)) h2 in
                let v = import_into-valid env syn ext imp now did car s root h2 in
                let emitted =
                  emit_sync_event-ok syn.parse_did now did root.0 root.1 s1 given.block v
                    given.stored in
                let kept = emit_sync_event-find_store syn.parse_did now did root.0 root.1 s1 did in
                rw (h, h1, h2)
                  (inl (
                    ap (λ x. result_or x (xrpc 500 "InternalServerError")) emitted,
                    record {
                      did = did;
                      acts = h;
                      car = car;
                      sent = h1;
                      root = root;
                      head = head;
                      imported =
                          subst
                            (λ (a : ActorStore). IsImported ext imp get parse_nsid did root a.db)
                            (sym kept) given;
                    },
                  ))
          ]
    ]
  ]
