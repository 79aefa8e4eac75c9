-- ===== src/Server/Writes.antt =====
-- internal/xrpc: how the handlers call Writer.ApplyWrites, and the signing key of an account
-- (signingKeyFor of repo.go).
use robby.Prelude.{ℕ, String, Bool, List, Result, Exec, from_option, result_or}
use robby.Prelude.Results.{◌>>=◌}
use robby.Accounts.Rows.{Store}
use robby.Accounts.Users.{get_account_by_did}
use robby.Repo.Indigo.{Indigo}
use robby.Repo.Batch.{WriteOp, WriteError}
use robby.Repo.Writer.{Written, apply_writes}
use robby.Server.State.{Server, Keys}

-- signingKeyFor fails on a missing account or a key that does not parse.
pub data KeyError : Type 0 where
  no_account bad_key : KeyError

unfoldable pub signing_key_for : {K : Type 0} → Keys K → String → Store → Result KeyError K
signing_key_for keys did s = do
  acct ← result_or (get_account_by_did did s) no_account
  from_option (keys.parse_private acct.signing_key) bad_key

unfoldable pub write :
    {T C R K : Type 0}
    → Indigo T C R K
    → (String → Bool)
    → ℕ
    → String
    → K
    → List (WriteOp R)
    → Exec Server WriteError Written
write ext parse_did now did key ops s =
    let (r, p) = apply_writes ext parse_did now did key ops (s.actors, s.seqr) in
    (r, record s { actors = p.0; seqr = p.1 })
