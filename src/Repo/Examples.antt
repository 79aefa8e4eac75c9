-- ===== src/Repo/Examples.antt =====
-- The write path over a toy of indigo: a tree is a list of paths and CIDs, and a record's value is a text.
use robby.Prelude.{
  subst, ℕ, ◌+◌, String, Bool, true, ◌≡◌, ◌≢◌, refl, sym, ap, ◌∙◌, Option, none, some, List, [],
  ◌∷◌, arith, ◌==◌, string_eq, nat_eq, if◌then◌else◌, eq_iff, ok, err, delete, select_one, select,
  some_row, update,
}
use Prim.Native.String.{len, ◌++◌ as append_text}
use text.Mathlib.TextLemmas.{append_cancel_left}
use robby.ActorStore.Rows.{ActorDb, ActorStore, empty_db}
use robby.ActorStore.Blocks.{put_block, get_repo_root, set_repo_root, get_block}
use robby.ActorStore.Records.{get_record_cid, put_record_index, delete_record_index}
use robby.ActorStore.Blobs.{put_blob_meta, add_blob_ref, clear_blob_refs_for_record}
use robby.ActorStore.Manager.{find_store, opened, valid_did, with_lock}
use robby.Sequencer.Log.{empty_log}
use robby.Sequencer.Broadcast.{Sequencer}
use robby.Repo.Indigo.{Indigo}
use robby.Repo.Batch.{
  path_of, WriteOp, WriteResult, Batch, apply_one, apply_ops, delete_one, store_one, put_one,
  collect, collect_many, refer_blobs, action_create, action_delete, record_not_found, applying,
  unsequenced,
}
use robby.Repo.Writer.{
  finish, draft, Base, Written, commit_writes, open_repo, seal, apply_writes, sequence, begun,
}
use robby.Repo.Laws.{TreeLaws, NsidLaws}
use robby.Repo.Agreement.{colliding_paths_disagree, Agrees, apply_ops-Agrees}
use robby.Session.Principal.{xrpc}
use robby.Repo.Errors.{failed_write_response, write_write_error}
use robby.Repo.Atomic.{apply_writes-other, failed_writes_change_nothing}

abbrev Paths : Type 0
Paths = List (String × String)

abbrev at : String → Paths → Option String
at p [] = none
at p ((k, c) ∷ t) = if k == p then some c else at p t

abbrev get : Paths → String → Option String
get t p = at p t

abbrev without : String → Paths → Paths
without p [] = []
without p ((k, c) ∷ t) = let rest = without p t in if k == p then rest else (k, c) ∷ rest

abbrev toy : Indigo Paths ℕ String String
toy = record {
  empty_tree = [];
  load_tree = λ f r. some [];
  insert = λ t p c. some (at p t, (p, c) ∷ t);
  remove = λ t p. some (at p t, without p t);
  write_diff_blocks = λ t. some ("root", record { cid = "root"; bytes = [] } ∷ []);
  new_clock = 0;
  clock_from_tid = λ tid. 1;
  next_tid = λ now n. ("tid", n + 1);
  has_type = λ r. true;
  with_type = λ r c. r;
  is_valid = λ r. true;
  marshal = λ r. some (len r ∷ []);
  extract_blobs = λ r. [];
  sign = λ key c. some (1 ∷ []);
  marshal_commit = λ c. some [];
  unmarshal_commit = λ bytes. none;
  sum = λ bytes. elim bytes [ [] ↦ "commit" | n ∷ ns ↦ "cid" ];
}

at-without : (p : String) (t : Paths) → at p (without p t) ≡ none
at-without p [] = refl
at-without p ((k, c) ∷ t) = ground (arith, at-without p t)

at-without_other : (p q : String) (t : Paths) → q ≢ p → at q (without p t) ≡ at q t
at-without_other p q [] h = refl
at-without_other p q ((k, c) ∷ t) h =
    ground (arith, at-without_other p q t h, eq_iff k p, eq_iff k q, h)

tree_of :
    (prev prev' : Option String) (t t' : Paths)
    → ◌≡◌ {A = Option (Option String × Paths)} (some (prev, t)) (some (prev', t'))
    → t ≡ t'
tree_of prev prev' t t' h = cc

at-pair : (p c : String) (t : Paths) → at p ((p, c) ∷ t) ≡ some c
at-pair p c t = ground (arith, eq_iff p p)

at-pair_other : (p q c : String) (t : Paths) → q ≢ p → at q ((p, c) ∷ t) ≡ at q t
at-pair_other p q c t d = ground (arith, eq_iff p q, d)

toy_laws : TreeLaws toy get
toy_laws = record {
  get_empty = λ p. refl;
  insert_before = λ t t' p c prev h. cc;
  insert_here = λ t t' p c prev h.
      subst (λ x. at p x ≡ some c) (tree_of (at p t) prev ((p, c) ∷ t) t' h) (at-pair p c t);
  insert_elsewhere = λ t t' p c prev q h d.
      subst (λ x. at q x ≡ at q t) (tree_of (at p t) prev ((p, c) ∷ t) t' h)
        (at-pair_other p q c t d);
  remove_before = λ t t' p prev h. cc;
  remove_here = λ t t' p prev h.
      subst (λ x. at p x ≡ none) (tree_of (at p t) prev (without p t) t' h) (at-without p t);
  remove_elsewhere = λ t t' p prev q h d.
      subst (λ x. at q x ≡ at q t) (tree_of (at p t) prev (without p t) t' h)
        (at-without_other p q t d);
}

abbrev posts : String
posts = "app.bsky.feed.post"

abbrev toy_nsid : String → Bool
toy_nsid c = c == posts

nsid_laws : NsidLaws toy_nsid
nsid_laws = record {
  split = λ c c' k k' v v' h.
      let e = (eq_iff c posts).0 v ∙ sym ((eq_iff c' posts).0 v') in (e, same_key c c' k k' e h);
}
  where
    same_key : (c c' k k' : String) → c ≡ c' → path_of c k ≡ path_of c' k' → k ≡ k'
    same_key c c' k k' e h = append_cancel_left "/" k k' (
        append_cancel_left c (append_text "/" k) (append_text "/" k')
          (h ∙ ap (λ x. append_text x (append_text "/" k')) (sym e)))

-- Opening this opens all that the tests run through.
runs : Unit {0}
unfolding apply_one apply_ops delete_one store_one put_one collect collect_many refer_blobs
    put_block get_repo_root set_repo_root get_block get_record_cid put_record_index
    delete_record_index put_blob_meta add_blob_ref clear_blob_refs_for_record find_store opened
    valid_did with_lock commit_writes open_repo seal apply_writes sequence delete select_one select
    some_row update
runs = tt

abbrev creating : WriteOp String
creating = record { action = action_create; collection = posts; rkey = "a"; entry = some "hello" }

abbrev deleting : WriteOp String
deleting = record { action = action_delete; collection = posts; rkey = "b"; entry = none }

abbrev empty_base : Base Paths ℕ
empty_base = record { tree = []; clk = 0; since = none; prev_data = none }

abbrev created : WriteResult
created = record {
  action = action_create;
  collection = posts;
  rkey = "a";
  cid = some "cid";
  prev_cid = none;
  blob_cids = [];
}

abbrev after : Batch Paths ℕ
after = record {
  tree = ("app.bsky.feed.post/a", "cid") ∷ [];
  clk = 0;
  bs = record {
    db = record empty_db {
      blocks = record { cid = "cid"; bytes = 5 ∷ [] } ∷ [];
      records = record { collection = posts; rkey = "a"; cid = "cid" } ∷ [];
    };
    blocks = record { cid = "cid"; bytes = 5 ∷ [] } ∷ [];
  };
}

batch_run :
    apply_ops toy 0 (creating ∷ []) (begun toy empty_base empty_db) ≡ ok (created ∷ [], after)
unfolding runs
batch_run = refl

empty-Agrees : Agrees get toy_nsid [] empty_db
unfolding runs
empty-Agrees c k v = refl

apply_ops-Agrees_example : Agrees get toy_nsid after.tree after.bs.db
apply_ops-Agrees_example =
    apply_ops-Agrees toy get toy_laws toy_nsid nsid_laws 0 (creating ∷ [])
      (begun toy empty_base empty_db) (created ∷ [], after) (refl, tt) empty-Agrees batch_run

abbrev written : Written × ActorDb
written =
    finish toy empty_base (created ∷ []) (draft toy 0 "did:plc:a" "root" 0 (1 ∷ [])) []
      (collect_many (record { cid = "root"; bytes = [] } ∷ []) after.bs)

abbrev stores : List ActorStore
stores = record { did = "did:plc:a"; db = empty_db; files = [] } ∷ []

abbrev seqr : Sequencer
seqr = record { log = empty_log; subs = []; next_id = 0 }

delete_missing :
    (apply_writes toy (λ d. true) 0 "did:plc:a" "key" (creating ∷ deleting ∷ []) (stores, seqr)).0
    ≡ err (applying posts "b" record_not_found)
unfolding runs
delete_missing = refl

failed_writes_change_nothing_example :
    (find_store "did:plc:a"
        (apply_writes toy
          (λ d. true)
          0
          "did:plc:a"
          "key"
          (creating ∷ deleting ∷ [])
          (stores, seqr)).1.0
      ≡ find_store "did:plc:a" stores)
    × ((apply_writes toy
          (λ d. true)
          0
          "did:plc:a"
          "key"
          (creating ∷ deleting ∷ [])
          (stores, seqr)).1.1
        ≡ seqr)
failed_writes_change_nothing_example =
    failed_writes_change_nothing toy (λ d. true) 0 "did:plc:a" "key" (creating ∷ deleting ∷ [])
      stores seqr (applying posts "b" record_not_found) "did:plc:a" wrapped delete_missing
  where
    wrapped : applying posts "b" record_not_found ≢ unsequenced
    wrapped h = cc

apply_writes-other_example :
    find_store "did:plc:b"
      (apply_writes toy (λ d. true) 0 "did:plc:a" "key" (creating ∷ []) (stores, seqr)).1.0
    ≡ find_store "did:plc:b" stores
apply_writes-other_example =
    apply_writes-other toy (λ d. true) 0 "did:plc:a" "key" (creating ∷ []) stores seqr "did:plc:b"
      (ground (arith, eq_iff "did:plc:b" "did:plc:a"))

failed_write_response_example :
    write_write_error (applying posts "b" record_not_found) ≡ xrpc 400 "InvalidRequest"
failed_write_response_example =
    failed_write_response toy (λ d. true) 0 "did:plc:a" "key" (creating ∷ deleting ∷ []) stores seqr
      (applying posts "b" record_not_found) delete_missing

abbrev slashed : WriteOp String
slashed = record {
  action = action_delete;
  collection = "app.bsky.feed.post/a";
  rkey = "b";
  entry = none;
}

abbrev nested : WriteOp String
nested = record { action = action_create; collection = posts; rkey = "a/b"; entry = some "hello" }

abbrev nested_batch : Batch Paths ℕ
nested_batch = record {
  tree = ("app.bsky.feed.post/a/b", "cid") ∷ [];
  clk = 0;
  bs = record {
    db = record empty_db {
      blocks = record { cid = "cid"; bytes = 5 ∷ [] } ∷ [];
      records = record { collection = posts; rkey = "a/b"; cid = "cid" } ∷ [];
    };
    blocks = record { cid = "cid"; bytes = 5 ∷ [] } ∷ [];
  };
}

colliding_paths_disagree_example :
    (get_record_cid posts "a/b" nested_batch.bs.db ≡ some "cid")
    × (get [] "app.bsky.feed.post/a/b" ≡ none)
unfolding runs
colliding_paths_disagree_example =
    colliding_paths_disagree toy get toy_laws 0 nested slashed (begun toy empty_base empty_db)
      nested_batch (record nested_batch { tree = [] }) (record created { rkey = "a/b" })
      (record {
        action = action_delete;
        collection = "app.bsky.feed.post/a";
        rkey = "b";
        cid = none;
        prev_cid = some "cid";
        blob_cids = [];
      })
      refl refl refl (ground (arith, eq_iff "a/b" "b"))
