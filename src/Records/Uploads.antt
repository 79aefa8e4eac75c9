-- ===== src/Records/Uploads.antt =====
-- internal/xrpc/repo.go and sync.go: what uploadBlob stores is what getBlob serves.
use robby.Prelude.{
  ℕ, zero, suc, String, Bool, true, false, ◌||◌, ◌==◌, string_eq, ltb, take, length, ◌≡◌, ◌≢◌, refl,
  sym, ap, ◌∙◌, subst, Option, none, some, List, [], ◌∷◌, inl, inr, arith, eq_iff, ok, Result,
  Result-cases, Bool-cases, Option-cases, ok_injective, select_one, select_one-append_none,
  some_row-of_none, some_row-select_one,
}
use robby.Accounts.Rows.{Account, rfc3339}
use robby.Accounts.Users.{get_account_by_did}
use robby.ActorStore.Rows.{ActorDb, ActorStore, BlobRow}
use robby.ActorStore.Blobs.{
  is_blob, meta_of, get_blob_meta, put_blob_meta, read_blob_file, write_blob_file, BlobMeta,
}
use robby.ActorStore.Manager.{find_store, valid_did, get_existing, with_lock}
use robby.ActorStore.Locking.{with_lock-existing, with_lock_lem}
use robby.Session.Principal.{
  HttpError, Env, Request, require_principal, require_migratable_access_token,
}
use robby.Session.Authorization.{require_principal-IsAuthorized}
use robby.Server.State.{Server, Syntax}
use robby.Sync.Hosted.{hosted_actor_store}
use robby.Sync.Blobs.{handle_sync_get_blob}
use robby.Migration.Account.{internal_error}
use robby.Records.Blobs.{
  BlobOutput, handle_upload_blob, store_blob, mime_or_default, max_blob_size, limited,
}

-- What was taken is all there is, if it is shorter than it may be.
take_whole : (n : ℕ) (xs : List ℕ) → ltb n (length (take (suc n) xs)) ≡ false → take (suc n) xs ≡ xs
take_whole n [] h = refl
take_whole zero (x ∷ []) h = refl
take_whole zero (x ∷ y ∷ xs) h = absurd (ground arith)
take_whole (suc n) (x ∷ xs) h = ap (λ l. x ∷ l) (take_whole n xs (ground arith))

limited-ok : (n : ℕ) (body bytes : List ℕ) → limited n body ≡ ok bytes → bytes ≡ body
unfolding limited
limited-ok n body bytes h = elim (Bool-cases (ltb n (length (take (suc n) body)))) [
  | inl e ↦ absurd (ground arith)
  | inr e ↦
      let same : take (suc n) body ≡ bytes = ok_injective {E = HttpError} _ bytes (ground arith) in
      sym same ∙ take_whole n body e
]

-- A blob keeps the type that it was first stored with.
abbrev pub mime_kept : Option BlobMeta → String → String
mime_kept none mime = mime
mime_kept (some m) mime = m.mime

get-put_blob_meta :
    (now : ℕ) (c mime : String) (size : ℕ) (db : ActorDb)
    → (m : BlobMeta) × (get_blob_meta c (put_blob_meta now c mime size db) ≡ some m)
      × (m.mime ≡ mime_kept (get_blob_meta c db) mime)
unfolding get_blob_meta put_blob_meta
get-put_blob_meta now c mime size db = elim (Option-cases (select_one (is_blob c) db.blobs)) [
  | inl e ↦
      rw (some_row-of_none (is_blob c) db.blobs e, e)
        (
          record { cid = c; mime = mime; size = size },
          ap meta_of (select_one-append_none (is_blob c) db.blobs row e ((eq_iff c c).1 refl)),
          refl,
        )
  | inr (b, e) ↦
      rw (some_row-select_one (is_blob c) db.blobs b e, e)
        (record { cid = b.cid; mime = b.mime; size = b.size }, refl, refl)
]
  where
    row : BlobRow
    row = record { cid = c; mime = mime; size = size; created_at = rfc3339 now }

read-store_blob :
    (now : ℕ) (c mime : String) (bytes : List ℕ) (st : ActorStore)
    → read_blob_file c (store_blob now c mime bytes st) ≡ some bytes
unfolding read_blob_file write_blob_file store_blob select_one
read-store_blob now c mime bytes st = ground (arith, eq_iff c c)

hosted_store :
    (parse_did : String → Bool) (did : String) (t : Server) (a : Account) (st : ActorStore)
    → get_account_by_did did t.store ≡ ok a
    → valid_did parse_did did ≡ true
    → get_existing parse_did did t.actors ≡ some st
    → hosted_actor_store parse_did did t ≡ ok st
unfolding hosted_actor_store
hosted_store parse_did did t a st found valid existing = rw (found, valid, existing) refl

served :
    (parse_did : String → Bool) (decode : String → Option String) (did c : String) (t : Server)
    (st : ActorStore) (m : BlobMeta) (bytes : List ℕ)
    → did ≢ ""
    → c ≢ ""
    → decode c ≡ some c
    → hosted_actor_store parse_did did t ≡ ok st
    → get_blob_meta c st.db ≡ some m
    → read_blob_file c st ≡ some bytes
    → handle_sync_get_blob parse_did decode did c t ≡ ok (record { mime = m.mime; bytes = bytes })
unfolding handle_sync_get_blob
served parse_did decode did c t st m bytes named given canonical hosted meta file =
    let asked : (did == "" || c == "") ≡ false =
      ground (arith, eq_iff did "", eq_iff c "", named, given) in
    ground (arith, asked, canonical, hosted, meta, file)

module _ (env : Env) (syn : Syntax) (blob_cid : List ℕ → String) (decode : String → Option String)
    (now : ℕ) (r : Request) (content_type : String) (body : List ℕ) (s : Server) where
  abbrev uploaded : Result HttpError BlobOutput × Server
  uploaded = handle_upload_blob env syn blob_cid now r content_type body s

  -- What an upload that succeeded did to the account's store.
  record HasStored (did : String) (out : BlobOutput) : Type 0 where
    ref : blob_cid body ≡ out.ref
    mime : mime_or_default content_type ≡ out.mime_type
    size : length body ≡ out.size
    valid : valid_did syn.parse_did did ≡ true
    store : uploaded.1.store ≡ s.store
    existing :
        get_existing syn.parse_did did uploaded.1.actors
        ≡ some (
            store_blob now
              (blob_cid body)
              (mime_or_default content_type)
              body
              (find_store did s.actors))

  handle_upload_blob-HasStored :
      (did : String) (out : BlobOutput)
      → require_migratable_access_token env now r s.store ≡ ok did
      → uploaded.0 ≡ ok out
      → HasStored did out
  unfolding handle_upload_blob store_blob write_blob_file
  handle_upload_blob-HasStored did out acts h = elim (Result-cases (limited max_blob_size body)) [
    | inl (e, long) ↦ absurd (ground arith)
    | inr (bytes, short) ↦ elim (Bool-cases (valid_did syn.parse_did did)) [
      | inr v ↦ absurd (unfold with_lock in ground arith)
      | inl v ↦
          let whole = limited-ok max_blob_size body bytes short in
          let fn : ActorStore → Result HttpError (Unit {0}) × ActorStore = λ st.
            (ok tt, store_blob now (blob_cid bytes) (mime_or_default content_type) bytes st) in
          let res = (with_lock_lem syn.parse_did internal_error did fn s.actors (λ st. refl) v).1 in
          let given : BlobOutput = record {
            ref = blob_cid bytes;
            mime_type = mime_or_default content_type;
            size = length bytes;
          } in
          let answer : uploaded.0 ≡ ok given = rw (acts, short, res) refl in
          let same : given ≡ out = ok_injective {E = HttpError} given out (sym answer ∙ h) in
          record {
            ref = ap blob_cid (sym whole) ∙ ap (λ (o : BlobOutput). o.ref) same;
            mime = ap (λ (o : BlobOutput). o.mime_type) same;
            size = ap length (sym whole) ∙ ap (λ (o : BlobOutput). o.size) same;
            valid = v;
            store = rw (acts, short, res) refl;
            existing =
                rw (acts, short, res)
                  (with_lock-existing syn.parse_did internal_error did fn s.actors (λ st. refl) v
                    ∙ ap
                        (λ b. some (
                          store_blob now (blob_cid b) (mime_or_default content_type) b
                            (find_store did s.actors)))
                        whole);
          }
    ]
  ]

  account_exists :
      (did : String)
      → require_migratable_access_token env now r s.store ≡ ok did
      → (a : Account) × (get_account_by_did did s.store ≡ ok a)
  unfolding require_migratable_access_token get_account_by_did
  account_exists did acts = elim (Result-cases (require_principal env now r false true s.store)) [
    | inl (e, h) ↦ absurd (ground arith)
    | inr (p, h) ↦
        let v = require_principal-IsAuthorized env now r false true s.store p h in
        let same : p.did ≡ did = ok_injective {E = HttpError} p.did did (ground arith) in
        (v.acct, subst (λ d. get_account_by_did d s.store ≡ ok v.acct) same (rw v.account refl))
  ]

  -- A blob that an account uploaded is what getBlob serves under the CID that uploadBlob answered, where that
  -- decodes to itself, with all its bytes, and with the type that the CID was first stored with.
  pub get-upload_blob :
      (did : String) (out : BlobOutput)
      → require_migratable_access_token env now r s.store ≡ ok did
      → did ≢ ""
      → out.ref ≢ ""
      → decode out.ref ≡ some out.ref
      → uploaded.0 ≡ ok out
      → handle_sync_get_blob syn.parse_did decode did out.ref uploaded.1
        ≡ ok (record {
          mime = mime_kept (get_blob_meta out.ref (find_store did s.actors).db) out.mime_type;
          bytes = body;
        })
  unfolding store_blob write_blob_file
  get-upload_blob did out acts named given canonical h =
      let up = handle_upload_blob-HasStored did out acts h in
      let (a, found) = account_exists did acts in
      let was = find_store did s.actors in
      let c = blob_cid body in
      let mime = mime_or_default content_type in
      let st = store_blob now c mime body was in
      let (m, meta, kept) =
        get-put_blob_meta now c mime (length body) (write_blob_file c body was).db in
      let file = read-store_blob now c mime body was in
      let hosted : hosted_actor_store syn.parse_did did uploaded.1 ≡ ok st =
        hosted_store syn.parse_did did uploaded.1 a st
          (ap (get_account_by_did did) up.store ∙ found) up.valid up.existing in
      served syn.parse_did decode did out.ref uploaded.1 st
        (record { cid = m.cid; mime = m.mime; size = m.size }) body named given canonical hosted
        (subst (λ x. get_blob_meta x st.db ≡ some m) up.ref meta)
        (subst (λ x. read_blob_file x st ≡ some body) up.ref file)
      ∙ ap (λ x. ok (record { mime = x; bytes = body }))
          (kept
            ∙ ap (λ x. mime_kept (get_blob_meta x was.db) mime) up.ref
            ∙ ap (mime_kept (get_blob_meta out.ref was.db)) up.mime)
