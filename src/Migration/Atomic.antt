-- ===== src/Migration/Atomic.antt =====
-- internal/xrpc/migration.go: importRepo replaces a repository whole, or changes nothing.
use robby.Prelude.{
  ℕ, String, Bool, true, ◌≡◌, refl, sym, ap, ◌∙◌, subst, Option, some, List, inl, inr, arith, ok,
  err, Result, All, Bool-cases, ok_injective,
}
use robby.ActorStore.Rows.{ActorDb, ActorStore}
use robby.ActorStore.Manager.{find_store, valid_did, with_lock}
use robby.ActorStore.Locking.{with_lock_lem, with_lock-err}
use robby.Session.Principal.{HttpError, xrpc, Env}
use robby.Server.State.{Server, Syntax}
use robby.Repo.Indigo.{Indigo}
use robby.Migration.Car.{Importing, CarFile, import_car, settled}
use robby.Migration.Import.{import_into}
use robby.Migration.Loaded.{Names}
use robby.Migration.Replaced.{WalkLaws, IsImported, import_car-IsImported}

-- The reader's blocks hold what their CIDs name.
abbrev pub Honest : {T R P : Type 0} → Importing T R P → (String → List ℕ) → List ℕ → Type 0
Honest imp content body =
    (car : CarFile) → imp.read_car body ≡ some car → All (Names content) car.blocks

module _ {T C R K P : Type 0} (env : Env) (syn : Syntax) (ext : Indigo T C R K)
    (imp : Importing T R P) where
  abbrev transaction :
      ℕ → String → CarFile × String → ActorStore → Result HttpError (String × String) × ActorStore
  transaction now did car st =
      settled ext imp st (import_car ext imp syn.parse_did now did car.0 car.1 st.db)

  settled-did :
      (st : ActorStore) (r : Result HttpError ((String × String) × ActorDb))
      → (settled ext imp st r).1.did ≡ st.did
  settled-did st (ok (root, db)) = refl
  settled-did st (err e) = refl

  settled-err :
      (st : ActorStore) (r : Result HttpError ((String × String) × ActorDb)) (e : HttpError)
      → (settled ext imp st r).0 ≡ err e
      → (settled ext imp st r).1 ≡ st
  settled-err st (ok (root, db)) e h = cc
  settled-err st (err e') e h = refl

  settled-ok :
      (st : ActorStore) (r : Result HttpError ((String × String) × ActorDb))
      (root : String × String)
      → (settled ext imp st r).0 ≡ ok root
      → r ≡ ok (root, (settled ext imp st r).1.db)
  settled-ok st (ok (root', db)) root h =
      ap (λ x. ok (x, db)) (ok_injective {E = HttpError} root' root h)
  settled-ok st (err e) root h = absurd (ground arith)

  pub import_into-valid :
      (now : ℕ) (did : String) (car : CarFile × String) (s : Server) (root : String × String)
      → (import_into env syn ext imp now did car s).0 ≡ ok root
      → valid_did syn.parse_did did ≡ true
  unfolding import_into with_lock
  import_into-valid now did car s root h = elim (Bool-cases (valid_did syn.parse_did did)) [
    | inl v ↦ v
    | inr v ↦ absurd (ground arith)
  ]

  pub import_into-err :
      (now : ℕ) (did : String) (car : CarFile × String) (s : Server) (e : HttpError) (d : String)
      → (import_into env syn ext imp now did car s).0 ≡ err e
      → find_store d (import_into env syn ext imp now did car s).1.actors ≡ find_store d s.actors
  unfolding import_into
  import_into-err now did car s e d h =
      with_lock-err syn.parse_did (xrpc 500 "InternalServerError") did (transaction now did car)
        s.actors d e
        (λ st. settled-did st (import_car ext imp syn.parse_did now did car.0 car.1 st.db))
        (λ st. settled-err st (import_car ext imp syn.parse_did now did car.0 car.1 st.db) e) h

  -- After the transaction committed, the store's database is an imported one.
  pub import_into-IsImported :
      (get : T → String → Option String) (parse_nsid : String → Bool)
      (laws : WalkLaws imp get parse_nsid) (content : String → List ℕ) (now : ℕ) (did : String)
      (car : CarFile × String) (s : Server) (root : String × String)
      → All (Names content) car.0.blocks
      → (import_into env syn ext imp now did car s).0 ≡ ok root
      → (root.0 ≡ car.1)
        × IsImported ext imp get parse_nsid did root
            (find_store did (import_into env syn ext imp now did car s).1.actors).db
  import_into-IsImported get parse_nsid laws content now did car s root names h =
      let v = import_into-valid now did car s root h in
      let (st, res) =
        with_lock_lem syn.parse_did (xrpc 500 "InternalServerError") did (transaction now did car)
          s.actors
          (λ st. settled-did st (import_car ext imp syn.parse_did now did car.0 car.1 st.db)) v in
      let was = find_store did s.actors in
      let done =
        settled-ok was (import_car ext imp syn.parse_did now did car.0 car.1 was.db) root
          (sym res ∙ unfold import_into in h) in
      unfold import_into in
      subst (λ (a : ActorStore). (root.0 ≡ car.1) × IsImported ext imp get parse_nsid did root a.db)
        (sym st)
        (import_car-IsImported ext imp get parse_nsid laws content syn.parse_did now did car.0 car.1
          was.db (root, (transaction now did car was).1.db) names done)
