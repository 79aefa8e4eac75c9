-- ===== src/Migration/Car.antt =====
-- internal/xrpc/migration.go: importRepo's transaction, which replaces an actor's repository by a CAR
-- file's, and importWalk. go-car, the identity directory and the checks of a commit are parameters.
use Prim.Native.String.{slice, len}
use text.Mathlib.Text.{find?}
use robby.Prelude.{
  ℕ, ◌+◌, ◌*◌, ◌^◌, String, Bool, not, Option, none, some, List, [], ◌∷◌, ◌==◌, string_eq, ltb,
  take, length, if◌then◌else◌, Result, ok, err, from_option,
}
use robby.Prelude.Results.{◌>>=◌, ◌>>◌, refuse_if}
use robby.Firehose.{Block}
use robby.ActorStore.Rows.{ActorDb, ActorStore}
use robby.ActorStore.Blocks.{get_block, put_block, clear_repo, set_repo_root}
use robby.ActorStore.Records.{put_record_index}
use robby.Repo.Indigo.{Indigo, RepoCommit}
use robby.Repo.Batch.{refer_blobs}
use robby.Session.Principal.{HttpError, xrpc}

-- A CAR file as its reader gives it: the roots, the blocks up to the end or an error, and whether the
-- stream was well-formed.
pub record CarFile : Type 0 where
  pub roots : List String
  pub blocks : List Block
  pub complete : Bool

-- P is a public key. `published_key` is LookupDID and the identity's signing key, `walk` is the entries of a
-- tree in the order of Tree.Walk.
pub record Importing (T R P : Type 0) : Type 0 where
  pub read_car : List ℕ → Option CarFile
  pub verify_structure : RepoCommit → Bool
  pub published_key : String → Option P
  pub verify_signature : P → RepoCommit → Bool
  pub walk : T → List (String × String)
  pub unmarshal_record : List ℕ → Option R

abbrev pub max_import_size : ℕ
max_import_size = 500 * 2 ^ 20

abbrev pub cut_at : String → Option ℕ → Option (String × String)
cut_at path none = none
cut_at path (some i) = some (slice path 0 i, slice path (i + 1) (len path))

-- strings.Cut(path, "/"), which is `ok` if there is a slash.
unfoldable pub cut : String → Option (String × String)
cut path = cut_at path (find? path "/")

-- The loop over the blocks: they are put, and the bytes of the commit's block are kept.
unfoldable pub load_blocks :
    String → List Block → Option (List ℕ) → ActorDb → Option (List ℕ) × ActorDb
load_blocks commit_cid [] kept db = (kept, db)
load_blocks commit_cid (b ∷ bs) kept db =
    load_blocks commit_cid bs (if b.cid == commit_cid then some b.bytes else kept) (put_block b db)

abbrev pub first_root : List String → Option String
first_root [] = none
first_root (c ∷ cs) = some c

abbrev pub bad_request : HttpError
bad_request = xrpc 400 "InvalidRequest"

module _ {T C R K P : Type 0} (ext : Indigo T C R K) (imp : Importing T R P) where
  -- The callback of importWalk, on one entry.
  unfoldable pub import_entry : ℕ → String × String → ActorDb → Result HttpError ActorDb
  import_entry now (path, c) db = do
    key ← from_option (cut path) bad_request
    blk ← from_option (get_block c db) bad_request
    value ← from_option (imp.unmarshal_record blk.bytes) bad_request
    ok (
        refer_blobs now (key.0) (key.1) (ext.extract_blobs value)
          (put_record_index (key.0) (key.1) c db))

  unfoldable pub import_walk : ℕ → List (String × String) → ActorDb → Result HttpError ActorDb
  import_walk now [] db = ok db
  import_walk now (e ∷ es) db = do db' ← import_entry now e db; import_walk now es db'

  -- The commit, checked against the account and its published key.
  unfoldable pub verified_commit : (String → Bool) → String → List ℕ → Result HttpError RepoCommit
  verified_commit parse_did did commit_bytes = do
    commit ← from_option (ext.unmarshal_commit commit_bytes) bad_request
    refuse_if (not (imp.verify_structure commit)) bad_request
    refuse_if (not (commit.did == did)) bad_request
    refuse_if (not (parse_did did)) (xrpc 500 "InternalServerError")
    pub_key ← from_option (imp.published_key did) bad_request
    refuse_if (not (imp.verify_signature pub_key commit)) bad_request
    ok commit

  -- The transaction, on a database; an error rolls it back. It gives the commit's CID and revision.
  unfoldable pub import_car :
      (String → Bool)
      → ℕ
      → String
      → CarFile
      → String
      → ActorDb
      → Result HttpError ((String × String) × ActorDb)
  import_car parse_did now did car commit_cid db =
      let (kept, loaded) = load_blocks commit_cid car.blocks none (clear_repo db) in
      do
        refuse_if (not car.complete) bad_request
        commit_bytes ← from_option kept bad_request
        commit ← verified_commit parse_did did commit_bytes
        tree ← from_option (ext.load_tree (λ c. get_block c loaded) commit.data_cid) bad_request
        indexed ← import_walk now (imp.walk tree) loaded
        ok ((commit_cid, commit.rev), set_repo_root commit_cid commit.rev indexed)

  abbrev pub settled :
      ActorStore
      → Result HttpError ((String × String) × ActorDb)
      → Result HttpError (String × String) × ActorStore
  settled st (err e) = (err e, st)
  settled st (ok (root, db)) = (ok root, record st { db = db })

  -- The body is read up to one byte more than is allowed.
  unfoldable pub read_import : List ℕ → Result HttpError (CarFile × String)
  read_import body = do
    refuse_if (ltb max_import_size (length (take (max_import_size + 1) body))) bad_request
    car ← from_option (imp.read_car (take (max_import_size + 1) body)) bad_request
    commit_cid ← from_option (first_root car.roots) bad_request
    ok (car, commit_cid)
