-- ===== src/Proxy/ServiceAuth.antt =====
-- internal/xrpc/serviceauth.go: getServiceAuth. Parsing and signing are indigo's.
use robby.Server.SigningKey.{IsKeyOf, signing_key_for-IsKeyOf}
use robby.Prelude.{
  true, sym, ◌⊎◌, ◌+◌, eq_iff, ℕ, ◌-◌, ◌*◌, ◌<◌, ◌≤◌, String, not, ◌==◌, string_eq, ltb, leb,
  if◌then◌else◌, ◌≡◌, ap, ◌∙◌, Option, none, some, inl, inr, arith, Result, ok, err, result_or,
  from_option, Result-cases, Option-cases, Bool-cases, ok_injective,
}
use robby.Prelude.Results.{◌>>=◌, ◌>>◌, refuse_if}
use robby.Accounts.Rows.{Store, second}
use robby.Session.Principal.{HttpError, xrpc, Env, Request, require_privileged_access_token}
use robby.Server.State.{Syntax, Keys}
use robby.Server.Writes.{signing_key_for}
use robby.Migration.Account.{internal_error}
use robby.Migration.Car.{bad_request}

abbrev pub default_service_auth_ttl : ℕ
default_service_auth_ttl = 60 * second

abbrev pub max_service_auth_ttl : ℕ
max_service_auth_ttl = 10 * 60 * second

-- The query's `exp`: absent, no integer, a time before 1970, or the seconds since then.
pub data ExpQuery : Type 0 where
  no_exp bad_exp negative_exp : ExpQuery
  exp_at : ℕ → ExpQuery

-- indigo's SignServiceAuth: by key, issuer, audience, lifetime and method.
abbrev pub Signer : Type 0 → Type 0
Signer K = K → String → String → ℕ → Option String → Option String

-- time.Until is at most 0 for a time that has come.
unfoldable pub chosen_ttl : ℕ → ExpQuery → Result HttpError ℕ
chosen_ttl now no_exp = ok default_service_auth_ttl
chosen_ttl now bad_exp = err bad_request
chosen_ttl now negative_exp = err (xrpc 400 "BadExpiration")
chosen_ttl now (exp_at secs) =
    if leb (secs * second) now
    then err (xrpc 400 "BadExpiration")
    else if ltb max_service_auth_ttl (secs * second - now)
    then err (xrpc 400 "BadExpiration")
    else ok (secs * second - now)

-- An absent `lxm` is empty.
abbrev pub chosen_method : Syntax → String → Result HttpError (Option String)
chosen_method syn lxm =
    if lxm == "" then ok none else if syn.parse_nsid lxm then ok (some lxm) else err bad_request

between :
    (at now most ttl : ℕ) (e : HttpError)
    → (if leb at now then err e else if ltb most (at - now) then err e else ok (at - now)) ≡ ok ttl
    → (0 < ttl) × (ttl ≤ most)
between at now most ttl e h = elim (Bool-cases (leb at now)) [
  | inl past ↦ absurd (ground arith)
  | inr future ↦ elim (Bool-cases (ltb most (at - now))) [
    | inl far ↦ absurd (ground arith)
    | inr near ↦
        let same : at - now ≡ ttl = ok_injective {E = HttpError} (at - now) ttl (ground arith) in
        ground arith
  ]
]

ends_at :
    (at now most ttl : ℕ) (e : HttpError)
    → (if leb at now then err e else if ltb most (at - now) then err e else ok (at - now)) ≡ ok ttl
    → now + ttl ≡ at
ends_at at now most ttl e h = elim (Bool-cases (leb at now)) [
  | inl past ↦ absurd (ground arith)
  | inr future ↦ elim (Bool-cases (ltb most (at - now))) [
    | inl far ↦ absurd (ground arith)
    | inr near ↦
        let same : at - now ≡ ttl = ok_injective {E = HttpError} (at - now) ttl (ground arith) in
        ground arith
  ]
]

module _ {K : Type 0} (env : Env) (syn : Syntax) (keys : Keys K) (sign : Signer K) where
  unfoldable pub handle_get_service_auth :
      ℕ → Request → String → ExpQuery → String → Store → Result HttpError String
  handle_get_service_auth now r aud exp lxm s = do
    did ← require_privileged_access_token env now r s
    refuse_if (aud == "") bad_request
    refuse_if (not (syn.parse_did aud)) bad_request
    ttl ← chosen_ttl now exp
    lex_method ← chosen_method syn lxm
    key ← result_or (signing_key_for keys did s) internal_error
    from_option (sign key did aud ttl lex_method) internal_error

  -- The lifetime ends at the instant that the query asks for, and is a minute where it asks for none.
  abbrev pub IsAsked : ℕ → ExpQuery → ℕ → Type 0
  IsAsked now no_exp ttl = ttl ≡ 60 * second
  IsAsked now (exp_at secs) ttl = now + ttl ≡ secs * second
  IsAsked now _ ttl = ⊥

  -- What a service-auth token was signed for.
  pub record IsServiceToken (now : ℕ) (r : Request) (aud : String) (exp : ExpQuery) (lxm : String)
      (s : Store) (token : String) : Type 0 where
    pub did : String
    pub acts : require_privileged_access_token env now r s ≡ ok did
    pub key : K
    pub own : IsKeyOf keys did s key
    pub ttl : ℕ
    pub asked : IsAsked now exp ttl
    pub positive : 0 < ttl
    pub bounded : ttl ≤ max_service_auth_ttl
    pub lex_method : Option String
    pub named :
        ((lxm ≡ "") × (lex_method ≡ none)) ⊎ ((lex_method ≡ some lxm) × (syn.parse_nsid lxm ≡ true))
    pub signed : sign key did aud ttl lex_method ≡ some token

  chosen_ttl-bounds :
      (now : ℕ) (exp : ExpQuery) (ttl : ℕ)
      → chosen_ttl now exp ≡ ok ttl
      → (0 < ttl) × (ttl ≤ max_service_auth_ttl)
  unfolding chosen_ttl
  chosen_ttl-bounds now no_exp ttl h =
      ground (arith, ok_injective {E = HttpError} default_service_auth_ttl ttl h)
  chosen_ttl-bounds now bad_exp ttl h = absurd (ground arith)
  chosen_ttl-bounds now negative_exp ttl h = absurd (ground arith)
  chosen_ttl-bounds now (exp_at secs) ttl h =
      between (secs * second) now max_service_auth_ttl ttl (xrpc 400 "BadExpiration") h

  chosen_ttl-IsAsked :
      (now : ℕ) (exp : ExpQuery) (ttl : ℕ) → chosen_ttl now exp ≡ ok ttl → IsAsked now exp ttl
  unfolding chosen_ttl
  chosen_ttl-IsAsked now no_exp ttl h =
      sym (ok_injective {E = HttpError} default_service_auth_ttl ttl h)
  chosen_ttl-IsAsked now bad_exp ttl h = absurd (ground arith)
  chosen_ttl-IsAsked now negative_exp ttl h = absurd (ground arith)
  chosen_ttl-IsAsked now (exp_at secs) ttl h =
      ends_at (secs * second) now max_service_auth_ttl ttl (xrpc 400 "BadExpiration") h

  chosen_method-named :
      (lxm : String) (m : Option String)
      → chosen_method syn lxm ≡ ok m
      → ((lxm ≡ "") × (m ≡ none)) ⊎ ((m ≡ some lxm) × (syn.parse_nsid lxm ≡ true))
  chosen_method-named lxm m h = elim (Bool-cases (lxm == "")) [
    | inl e ↦
        inl ((eq_iff lxm "").0 e, sym (ok_injective {E = HttpError} none m (ground (arith, h, e))))
    | inr e ↦ elim (Bool-cases (syn.parse_nsid lxm)) [
      | inr e' ↦ absurd (ground (arith, h, e, e'))
      | inl e' ↦
          inr (sym (ok_injective {E = HttpError} (some lxm) m (ground (arith, h, e, e'))), e')
    ]
  ]

  -- A token of getServiceAuth is signed, after a privileged session was checked, with the key in the row of
  -- the caller's account, for the caller's DID and the method that is asked for; it lives until the
  -- instant that is asked for, a minute where none is, and always for more than nothing and at most ten
  -- minutes.
  pub get_service_auth-IsServiceToken :
      (now : ℕ) (r : Request) (aud : String) (exp : ExpQuery) (lxm : String) (s : Store)
      (token : String)
      → handle_get_service_auth now r aud exp lxm s ≡ ok token
      → IsServiceToken now r aud exp lxm s token
  unfolding handle_get_service_auth
  get_service_auth-IsServiceToken now r aud exp lxm s token h =
      elim (Result-cases (require_privileged_access_token env now r s)) [
        | inl (e, h1) ↦ absurd (ground arith)
        | inr (did, h1) ↦ elim (Result-cases (chosen_ttl now exp)) [
          | inl (e, h2) ↦ absurd (ground arith)
          | inr (ttl, h2) ↦ elim (Result-cases (chosen_method syn lxm)) [
            | inl (e, h3) ↦ absurd (ground arith)
            | inr (m, h3) ↦ elim (Result-cases (signing_key_for keys did s)) [
              | inl (e, h4) ↦ absurd (ground arith)
              | inr (key, h4) ↦ elim (Option-cases (sign key did aud ttl m)) [
                | inl h5 ↦ absurd (ground arith)
                | inr (t, h5) ↦ record {
                  did = did;
                  acts = h1;
                  key = key;
                  own = signing_key_for-IsKeyOf keys did s key h4;
                  ttl = ttl;
                  asked = chosen_ttl-IsAsked now exp ttl h2;
                  positive = (chosen_ttl-bounds now exp ttl h2).0;
                  bounded = (chosen_ttl-bounds now exp ttl h2).1;
                  lex_method = m;
                  named = chosen_method-named lxm m h3;
                  signed = h5 ∙ ap some (ok_injective {E = HttpError} t token (ground arith));
                }
              ]
            ]
          ]
        ]
      ]
