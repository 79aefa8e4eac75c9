-- ===== src/Migration/Examples.antt =====
-- The import over a toy of indigo whose trees are lists of paths and CIDs, and the end of an account.
use Prim.Native.Nat.{compare as compare_ℕ}
use Prim.Native.String.{◌++◌ as append_text, find, len, slice}
use Prim.Native.String.append
use Prim.Native.String.find
use text.Mathlib.Text.{is_le, when}
use text.Mathlib.TextPositions.{slice-append_left, slice-append_right, len-append}
use text.Mathlib.TextLemmas.{append_assoc}
use robby.Prelude.{
  ℕ, ◌+◌, ◌*◌, String, Bool, true, ◌≡◌, ◌⊎◌, refl, sym, ap, ◌∙◌, subst, Option, none, some, List,
  [], ◌∷◌, arith, ◌==◌, string_eq, if◌then◌else◌, eq_iff, ok, err, delete, select_one, select,
  some_row, update, take, All,
}
use robby.Accounts.Rows.{second}
use robby.Accounts.Users.{get_account_by_did, delete_account}
use robby.Accounts.Tokens.{
  consume_admin_token, delete_refresh_tokens_for_did, list_app_passwords, reserve_signing_key,
  get_reserved_signing_key,
}
use robby.ActorStore.Blocks.{put_block, get_repo_root, set_repo_root, get_block, clear_repo}
use robby.ActorStore.Records.{put_record_index}
use robby.ActorStore.Manager.{find_store, opened, valid_did, with_lock}
use robby.Auth.{parse_access_token, parse}
use robby.Repo.Indigo.{Indigo, RepoCommit}
use robby.Repo.Batch.{path_of, refer_blobs}
use robby.Session.Principal.{
  HttpError, bearer_token, check_principal, require_principal, status_permitted,
  require_privileged_access_token, require_migration_access_token, matching_app_credential,
}
use robby.Server.Toy.{env, store, server, access_request, syn}
use robby.Migration.Car.{
  CarFile, Importing, cut, cut_at, load_blocks, import_entry, import_walk, verified_commit,
  import_car, read_import, max_import_size,
}
use robby.Migration.Import.{handle_import_repo, import_into}
use robby.Migration.Account.{DeleteAccountInput, handle_delete_account}
use robby.Migration.Loaded.{Names}
use robby.Migration.Walk.{entry_at}
use robby.Migration.Replaced.{WalkLaws}
use robby.Migration.Atomic.{Honest}
use robby.Migration.Outcome.{IsReplaced, Unchanged, import_whole_or_not}
use robby.Migration.Deletion.{IsDeletion, delete_account-IsDeletion}
use robby.Migration.Reserved.{get-reserve_signing_key}

abbrev Paths : Type 0
Paths = List (String × String)

abbrev commit : RepoCommit
commit = record { did = "did:plc:a"; version = 3; data_cid = "root"; rev = "r1"; sig = [] }

abbrev toy : Indigo Paths ℕ String String
toy = record {
  empty_tree = [];
  load_tree = λ f r. some (("a/k", "c1") ∷ []);
  insert = λ t p c. some (none, (p, c) ∷ t);
  remove = λ t p. some (none, t);
  write_diff_blocks = λ t. none;
  new_clock = 0;
  clock_from_tid = λ tid. 1;
  next_tid = λ now n. ("tid", n + 1);
  has_type = λ r. true;
  with_type = λ r c. r;
  is_valid = λ r. true;
  marshal = λ r. some [];
  extract_blobs = λ r. [];
  sign = λ key c. some [];
  marshal_commit = λ c. some [];
  unmarshal_commit = λ bytes. some commit;
  sum = λ bytes. "c1";
}

-- A CAR file with a commit and a record.
abbrev car : CarFile
car = record {
  roots = "c0" ∷ [];
  blocks = record { cid = "c0"; bytes = 0 ∷ [] } ∷ record { cid = "c1"; bytes = 1 ∷ [] } ∷ [];
  complete = true;
}

abbrev imp : Importing Paths String String
imp = record {
  read_car = λ body. some car;
  verify_structure = λ c. true;
  published_key = λ did. some did;
  verify_signature = λ key c. true;
  walk = λ t. t;
  unmarshal_record = λ bytes. some "record";
}

abbrev content : String → List ℕ
content c = if c == "c0" then 0 ∷ [] else 1 ∷ []

abbrev get : Paths → String → Option String
get t p = entry_at p t none

abbrev toy_nsid : String → Bool
toy_nsid c = c == "a"

find-slash : (k : String) → find (append_text "/" k) "/" ≡ 0
find-slash k = ap (λ u. find u "/") (append.cons "/" "" k) ∙ find.cons "/" (append_text "" k) "/"

find-letter : (k : String) → find (path_of "a" k) "/" ≡ 1
find-letter k =
    ap (λ u. find u "/") (append.cons "a" "" (append_text "/" k))
    ∙ find.cons "a" (append_text "" (append_text "/" k)) "/"
    ∙ ap (λ u. 1 + find u "/") (append.nil (append_text "/" k))
    ∙ ap (λ n. 1 + n) (find-slash k)

one_le : (n m : ℕ) → n ≡ 1 + m → is_le (compare_ℕ 1 n) ≡ true
one_le n m e = ground arith

cut-letter : (k : String) → cut (path_of "a" k) ≡ some ("a", k)
unfolding cut
cut-letter k =
    ap (λ n. cut_at (path_of "a" k) (when (is_le (compare_ℕ n (len (path_of "a" k)))) n))
      (find-letter k)
    ∙ ap (λ b. cut_at (path_of "a" k) (when b 1))
        (one_le (len (path_of "a" k)) (len (append_text "/" k))
          (len-append "a" (append_text "/" k)))
    ∙ ap (λ u. some (u, slice (path_of "a" k) 2 (len (path_of "a" k))))
        (slice-append_left "a" (append_text "/" k))
    ∙ ap (λ w. some ("a", slice w 2 (len w))) (sym (append_assoc "a" "/" k))
    ∙ ap (λ n. some ("a", slice (append_text (append_text "a" "/") k) 2 n))
        (len-append (append_text "a" "/") k)
    ∙ ap (λ u. some ("a", u)) (slice-append_right "a/" k)

walk_laws : WalkLaws imp get toy_nsid
walk_laws = record {
  listing = λ t p. refl;
  cut_nsid = λ c k h.
      subst (λ c. cut (path_of c k) ≡ some (c, k)) (sym ((eq_iff c "a").0 h)) (cut-letter k);
}

-- The blocks of a file that was read hold what their CIDs name.
abbrev AllNamed : Option CarFile → Type 0
AllNamed none = Unit {0}
AllNamed (some c) = All (Names content) c.blocks

honest : Honest imp content (take (max_import_size + 1) (7 ∷ []))
honest c e = subst AllNamed e (refl, (refl, tt))

-- Opening this opens all that the tests run through.
runs : Unit {0}
unfolding require_principal check_principal bearer_token status_permitted matching_app_credential
    parse_access_token parse get_account_by_did list_app_passwords select_one select delete update
    some_row require_privileged_access_token require_migration_access_token handle_delete_account
    consume_admin_token delete_refresh_tokens_for_did delete_account handle_import_repo import_into
    read_import import_car load_blocks import_walk import_entry verified_commit cut put_block
    get_block clear_repo set_repo_root get_repo_root put_record_index refer_blobs find_store opened
    valid_did with_lock reserve_signing_key get_reserved_signing_key
runs = tt

import_whole_or_not_example :
    (((handle_import_repo env syn toy imp 5 access_request (7 ∷ []) server).0 ≡ ok tt)
      × IsReplaced env toy imp get toy_nsid 5 access_request
          (7 ∷ [])
          server
          (handle_import_repo env syn toy imp 5 access_request (7 ∷ []) server).1)
    ⊎ (((e : HttpError) × ((handle_import_repo env syn toy imp 5 access_request (7 ∷ []) server).0
            ≡ err e))
        × Unchanged server
            (handle_import_repo env syn toy imp 5 access_request (7 ∷ []) server).1
            "did:plc:b")
import_whole_or_not_example =
    import_whole_or_not env syn toy imp get toy_nsid walk_laws content 5 access_request (7 ∷ [])
      server honest "did:plc:b"

abbrev farewell : DeleteAccountInput
farewell = record { did = "did:plc:a"; password = "pw"; token = "t1" }

delete_account-IsDeletion_example :
    IsDeletion env 5 access_request farewell server
      (handle_delete_account env syn 5 access_request (some farewell) server).1
unfolding runs
delete_account-IsDeletion_example =
    delete_account-IsDeletion env syn 5 access_request farewell server refl

get-reserve_signing_key_example :
    get_reserved_signing_key
      (100 * second)
      "did:plc:b"
      (reserve_signing_key 5 "did:plc:b" "key" store).1
    ≡ ok "key"
unfolding runs
get-reserve_signing_key_example =
    get-reserve_signing_key 5 "did:plc:b" "key" store refl (100 * second) (omega arith)
