-- ===== src/Migration/Import.antt =====
-- internal/xrpc/migration.go: the handler of com.atproto.repo.importRepo.
use robby.Prelude.{ℕ, String, List, Exec, reads, try_or, ◌>>=◌}
use robby.Session.Principal.{HttpError, xrpc, Env, Request, require_migration_access_token}
use robby.Server.State.{Server, Syntax, with_actor}
use robby.Server.Events.{emit_sync_event}
use robby.Repo.Indigo.{Indigo}
use robby.Migration.Car.{Importing, CarFile, import_car, settled, read_import}

module _ {T C R K P : Type 0} (env : Env) (syn : Syntax) (ext : Indigo T C R K)
    (imp : Importing T R P) where
  -- The transaction on the actor's store, which the handler opens after it read the CAR's header.
  unfoldable pub import_into :
      ℕ → String → CarFile × String → Exec Server HttpError (String × String)
  import_into now did car =
      with_actor syn.parse_did (xrpc 500 "InternalServerError") did
        (λ st. settled ext imp st (import_car ext imp syn.parse_did now did (car.0) (car.1) st.db))

  unfoldable pub handle_import_repo : ℕ → Request → List ℕ → Exec Server HttpError (Unit {0})
  handle_import_repo now r body = do
    did ← reads (λ s. require_migration_access_token env now r s.store)
    car ← reads (λ s. read_import ext imp body)
    root ← import_into now did car
    try_or (emit_sync_event syn.parse_did now did (root.0) (root.1))
        (xrpc 500 "InternalServerError")
