-- ===== src/Records/Owned.antt =====
-- internal/xrpc/repo.go: the handlers that write records change the caller's own repository only.
use robby.Prelude.{
  ℕ, String, not, ◌&&◌, ◌==◌, string_eq, ◌≡◌, ◌≢◌, refl, ap, ◌∙◌, Option, none, some, List, [], ◌∷◌,
  inl, inr, arith, ok, Result-cases, Bool-cases, ok_injective, from_option,
}
use robby.ActorStore.Records.{get_record_cid}
use robby.ActorStore.Manager.{find_store}
use robby.ActorStore.Locking.{with_lock-other}
use robby.Accounts.Rows.{Store}
use robby.Session.Principal.{HttpError, Env, Request, require_access_token}
use robby.Server.State.{Server, Syntax, Keys}
use robby.Server.Writes.{signing_key_for, write}
use robby.Repo.Indigo.{Indigo}
use robby.Repo.Batch.{WriteOp}
use robby.Repo.Owner.{require_own_repo, resolve_repo_did}
use robby.Repo.Atomic.{apply_writes-other}
use robby.Migration.Account.{internal_error}
use robby.Migration.Car.{bad_request}
use robby.Records.Entries.{WriteEntry, parse_record, ops_of}
use robby.Records.Writes.{
  RecordInput, RecordKeyInput, write_as, do_write, has_record, handle_create_record,
  handle_put_record, handle_delete_record, handle_apply_writes, first_result,
}

-- The account's repository, and the tables of internal/store/store.go, are as they were. The events of the
-- sequencer are a table of their own.
abbrev pub Keeps : String → Server → Server → Type 0
Keeps d s t = (find_store d t.actors ≡ find_store d s.actors) × (t.store ≡ s.store)

-- A request that writes records; `none` is a malformed body.
pub data RecordWrite : Type 0 where
  creates puts : Option RecordInput → RecordWrite
  deletes : Option RecordKeyInput → RecordWrite
  applies : Option (String × List (Option WriteEntry)) → RecordWrite

require_own_repo-caller :
    (env : Env) (now : ℕ) (r : Request) (repo : String) (s : Store) (did : String)
    → require_own_repo env now r repo s ≡ ok did
    → require_access_token env now r s ≡ ok did
unfolding require_own_repo
require_own_repo-caller env now r repo s did h =
    elim (Result-cases (require_access_token env now r s)) [
      | inl (e, h1) ↦ absurd (ground arith)
      | inr (caller, h1) ↦ elim (Result-cases (resolve_repo_did repo s)) [
        | inl (e, h2) ↦ absurd (ground arith)
        | inr (target, h2) ↦ elim (Bool-cases (target == caller)) [
          | inr e ↦ absurd (ground arith)
          | inl e ↦ h1 ∙ ap ok (ok_injective {E = HttpError} caller did (ground arith))
        ]
      ]
    ]

module _ {T C R K : Type 0} (env : Env) (syn : Syntax) (keys : Keys K) (ext : Indigo T C R K)
    (unmarshal_json : String → Option R) (now : ℕ) where
  abbrev pub record_write : Request → RecordWrite → Server → Server
  record_write r (creates body) s =
      (handle_create_record env syn keys ext unmarshal_json now r body s).1
  record_write r (puts body) s = (handle_put_record env syn keys ext unmarshal_json now r body s).1
  record_write r (deletes body) s =
      (handle_delete_record env syn keys ext unmarshal_json now r body s).1
  record_write r (applies body) s =
      (handle_apply_writes env syn keys ext unmarshal_json now r body s).1

  module _ (d did : String) (other : d ≢ did) (s : Server) where
    write-Keeps :
        (key : K) (ops : List (WriteOp R)) → Keeps d s (write ext syn.parse_did now did key ops s).1
    unfolding write
    write-Keeps key ops =
        (apply_writes-other ext syn.parse_did now did key ops s.actors s.seqr d other, refl)

    write_as-Keeps :
        (ops : List (WriteOp R))
        → Keeps d s (write_as env syn keys ext unmarshal_json now did ops s).1
    unfolding write_as
    write_as-Keeps ops = elim (Result-cases (signing_key_for keys did s.store)) [
      | inl (e, h) ↦ rw h (refl, refl)
      | inr (key, h) ↦ rw h (write-Keeps key ops)
    ]

    do_write-Keeps :
        (op : WriteOp R) → Keeps d s (do_write env syn keys ext unmarshal_json now did op s).1
    unfolding do_write
    do_write-Keeps op =
        elim (Result-cases (write_as env syn keys ext unmarshal_json now did (op ∷ []) s).0) [
          | inl (e, h) ↦ rw h (write_as-Keeps (op ∷ []))
          | inr (w, h) ↦ elim (Result-cases (from_option (first_result w.results) internal_error)) [
            | inl (e, h') ↦ rw (h, h') (write_as-Keeps (op ∷ []))
            | inr (res, h') ↦ rw (h, h') (write_as-Keeps (op ∷ []))
          ]
        ]

    has_record-Keeps :
        (collection rkey : String)
        → Keeps d s (has_record env syn keys ext unmarshal_json did collection rkey s).1
    has_record-Keeps collection rkey = (
      with_lock-other syn.parse_did internal_error did
          (λ st. (from_option (get_record_cid collection rkey st.db) internal_error, st)) s.actors d
          (λ st. refl) other,
      refl,
    )

  module _ (r : Request) (d : String) (s : Server)
      (other : (did : String) → require_access_token env now r s.store ≡ ok did → d ≢ did) where
    not_owner : (repo did : String) → require_own_repo env now r repo s.store ≡ ok did → d ≢ did
    not_owner repo did h = other did (require_own_repo-caller env now r repo s.store did h)

    create-Keeps :
        (input : RecordInput)
        → Keeps d s (handle_create_record env syn keys ext unmarshal_json now r (some input) s).1
    unfolding handle_create_record
    create-Keeps input = elim (Bool-cases (syn.parse_nsid input.collection)) [
      | inr h ↦ rw h (refl, refl)
      | inl h ↦
          elim (Bool-cases (not (input.rkey == "") && not (syn.parse_record_key input.rkey))) [
            | inl h1 ↦ rw (h, h1) (refl, refl)
            | inr h1 ↦ elim (Result-cases (require_own_repo env now r input.repo s.store)) [
              | inl (e, h2) ↦ rw (h, h1, h2) (refl, refl)
              | inr (did, h2) ↦
                  elim (Result-cases
                    (from_option (parse_record unmarshal_json input.entry) bad_request)) [
                      | inl (e, h3) ↦ rw (h, h1, h2, h3) (refl, refl)
                      | inr (value, h3) ↦
                          rw (h, h1, h2, h3)
                            (do_write-Keeps d did (not_owner input.repo did h2) s _)
                    ]
            ]
          ]
    ]

    put-Keeps :
        (input : RecordInput)
        → Keeps d s (handle_put_record env syn keys ext unmarshal_json now r (some input) s).1
    unfolding handle_put_record
    put-Keeps input = elim (Bool-cases (syn.parse_nsid input.collection)) [
      | inr h ↦ rw h (refl, refl)
      | inl h ↦ elim (Bool-cases (syn.parse_record_key input.rkey)) [
        | inr h1 ↦ rw (h, h1) (refl, refl)
        | inl h1 ↦ elim (Result-cases (require_own_repo env now r input.repo s.store)) [
          | inl (e, h2) ↦ rw (h, h1, h2) (refl, refl)
          | inr (did, h2) ↦
              elim (Result-cases
                (from_option (parse_record unmarshal_json input.entry) bad_request)) [
                  | inl (e, h3) ↦ rw (h, h1, h2, h3) (refl, refl)
                  | inr (value, h3) ↦
                      let differs = not_owner input.repo did h2 in
                      let t =
                        (has_record env syn keys ext unmarshal_json did input.collection input.rkey
                          s).1 in
                      let (a, b) = has_record-Keeps d did differs s input.collection input.rkey in
                      let kept : (op : WriteOp R)
                          → Keeps d s (do_write env syn keys ext unmarshal_json now did op t).1 =
                        λ op.
                          (let (a', b') = do_write-Keeps d did differs t op in (a' ∙ a, b' ∙ b)) in
                      rw (h, h1, h2, h3) (kept _)
                ]
        ]
      ]
    ]

    delete-Keeps :
        (input : RecordKeyInput)
        → Keeps d s (handle_delete_record env syn keys ext unmarshal_json now r (some input) s).1
    unfolding handle_delete_record
    delete-Keeps input = elim (Result-cases (require_own_repo env now r input.repo s.store)) [
      | inl (e, h) ↦ rw h (refl, refl)
      | inr (did, h) ↦ rw h (do_write-Keeps d did (not_owner input.repo did h) s _)
    ]

    apply-Keeps :
        (repo : String) (entries : List (Option WriteEntry))
        → Keeps d s
            (handle_apply_writes env syn keys ext unmarshal_json now r (some (repo, entries)) s).1
    unfolding handle_apply_writes
    apply-Keeps repo entries = elim (Result-cases (require_own_repo env now r repo s.store)) [
      | inl (e, h) ↦ rw h (refl, refl)
      | inr (did, h) ↦ elim (Result-cases (ops_of unmarshal_json entries)) [
        | inl (e, h1) ↦ rw (h, h1) (refl, refl)
        | inr (ops, h1) ↦
            let kept = write_as-Keeps d did (not_owner repo did h) s ops in
            elim (Result-cases (write_as env syn keys ext unmarshal_json now did ops s).0) [
              | inl (e, h2) ↦ rw (h, h1, h2) kept
              | inr (w, h2) ↦ rw (h, h1, h2) kept
            ]
      ]
    ]

    -- A request that writes records changes no account, session, app password, reserved key or admin token,
    -- and the repository of no DID but the one that its access token acts for, whatever it asks for and
    -- whatever it is answered.
    pub record_write-Keeps : (w : RecordWrite) → Keeps d s (record_write r w s)
    unfolding handle_create_record handle_put_record handle_delete_record handle_apply_writes
    record_write-Keeps (creates none) = (refl, refl)
    record_write-Keeps (creates (some input)) = create-Keeps input
    record_write-Keeps (puts none) = (refl, refl)
    record_write-Keeps (puts (some input)) = put-Keeps input
    record_write-Keeps (deletes none) = (refl, refl)
    record_write-Keeps (deletes (some input)) = delete-Keeps input
    record_write-Keeps (applies none) = (refl, refl)
    record_write-Keeps (applies (some (repo, entries))) = apply-Keeps repo entries
