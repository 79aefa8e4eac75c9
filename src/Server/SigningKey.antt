-- ===== src/Server/SigningKey.antt =====
-- internal/xrpc/repo.go: the key that signingKeyFor gives is the account's own.
use robby.Prelude.{
  String, ◌≡◌, ◌∙◌, ap, ok_injective, some, inl, inr, arith, ok, Option-cases, select_one,
}
use robby.Accounts.Rows.{Account, Store}
use robby.Accounts.Users.{by_did, get_account_by_did}
use robby.Accounts.Versions.{account_of}
use robby.Server.State.{Keys}
use robby.Server.Writes.{KeyError, signing_key_for}

-- The key is the one that the row of the account has.
pub record IsKeyOf {K : Type 0} (keys : Keys K) (did : String) (s : Store) (key : K) : Type 0 where
  pub acct : Account
  pub found : account_of did s ≡ some acct
  pub parsed : keys.parse_private acct.signing_key ≡ some key

pub signing_key_for-IsKeyOf :
    {K : Type 0} (keys : Keys K) (did : String) (s : Store) (key : K)
    → signing_key_for keys did s ≡ ok key
    → IsKeyOf keys did s key
unfolding signing_key_for get_account_by_did
signing_key_for-IsKeyOf {K} keys did s key h =
    elim (Option-cases (select_one (by_did did) s.accounts)) [
      | inl e ↦ absurd (ground arith)
      | inr (acct, e) ↦ elim (Option-cases (keys.parse_private acct.signing_key)) [
        | inl e' ↦ absurd (ground arith)
        | inr (k, e') ↦ record {
          acct = acct;
          found = e;
          parsed = e' ∙ ap some (ok_injective {E = KeyError} k key (ground arith));
        }
      ]
    ]
