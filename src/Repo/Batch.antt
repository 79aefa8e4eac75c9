-- ===== src/Repo/Batch.antt =====
-- internal/repoops/writer.go: one record operation, and a batch of them on the tree, the record index and
-- the blob references together.
use Prim.Native.String.{◌++◌ as append_text}
use robby.Prelude.{
  ℕ, String, ◌||◌, not, Option, none, some, List, [], ◌∷◌, ◌++◌, ◌==◌, string_eq, map,
  if◌then◌else◌, Result, ok, err, from_option,
}
use robby.Prelude.Results.{◌>>=◌, ◌>>◌, refuse_if}
use robby.Firehose.{Block}
use robby.ActorStore.Rows.{ActorDb}
use robby.ActorStore.Blocks.{put_block}
use robby.ActorStore.Records.{put_record_index, delete_record_index}
use robby.ActorStore.Blobs.{put_blob_meta, add_blob_ref, clear_blob_refs_for_record}
use robby.Repo.Indigo.{Indigo, BlobLink}

abbrev pub action_create : String
action_create = "create"

abbrev pub action_update : String
action_update = "update"

abbrev pub action_delete : String
action_delete = "delete"

-- `entry` is the field Record; `none` is nil.
pub record WriteOp (R : Type 0) : Type 0 where
  pub action : String
  pub collection : String
  pub rkey : String
  pub entry : Option R

pub record WriteResult : Type 0 where
  pub action : String
  pub collection : String
  pub rkey : String
  pub cid : Option String
  pub prev_cid : Option String
  pub blob_cids : List String

-- What a write can fail with. `record_not_found` is actorstore.ErrNotFound, and `applying` wraps the
-- error of an operation with its path.
pub data WriteError : Type 0 where
  record_not_found record_required invalid_record not_encodable bad_tree unknown_action : WriteError
  missing_commit bad_commit unsigned unsequenced invalid_did : WriteError
  applying : String → String → WriteError → WriteError

-- collectingBlockstore: the blocks that were put, beside the store.
pub record Collector : Type 0 where
  pub db : ActorDb
  pub blocks : List Block

unfoldable pub collect : Block → Collector → Collector
collect b c = record { db = put_block b c.db; blocks = c.blocks ++ b ∷ [] }

unfoldable pub collect_many : List Block → Collector → Collector
unfolding collect
collect_many [] c = c
collect_many (b ∷ bs) c = collect_many bs (collect b c)

-- What a batch changes: the transaction's view of the database, the tree and the clock.
pub record Batch (T C : Type 0) : Type 0 where
  pub bs : Collector
  pub tree : T
  pub clk : C

abbrev pub path_of : String → String → String
path_of collection rkey = append_text collection (append_text "/" rkey)

-- The loop over the blobs of a record.
unfoldable pub refer_blobs : ℕ → String → String → List BlobLink → ActorDb → ActorDb
refer_blobs now collection rkey [] db = db
refer_blobs now collection rkey (b ∷ bs) db =
    refer_blobs now collection rkey bs
      (add_blob_ref b.ref collection rkey (put_blob_meta now b.ref b.mime_type b.size db))

module _ {T C R K : Type 0} (ext : Indigo T C R K) where
  abbrev on_db : (ActorDb → ActorDb) → Collector → Collector
  on_db f c = record c { db = f c.db }

  abbrev pub deleted_result : WriteOp R → String → WriteResult
  deleted_result op prev = record {
    action = op.action;
    collection = op.collection;
    rkey = op.rkey;
    cid = none;
    prev_cid = some prev;
    blob_cids = [];
  }

  abbrev pub deleted : WriteOp R → T → Batch T C → Batch T C
  deleted op tree b = record b {
    tree = tree;
    bs =
        on_db
          (λ db.
            clear_blob_refs_for_record op.collection op.rkey
              (delete_record_index op.collection op.rkey db))
          b.bs;
  }

  -- The case ActionDelete of applyOne.
  unfoldable pub delete_one : WriteOp R → Batch T C → Result WriteError (WriteResult × Batch T C)
  delete_one op b = elim (ext.remove b.tree (path_of op.collection op.rkey)) [
    | none ↦ err bad_tree
    | some (none, tree) ↦ err record_not_found
    | some (some prev, tree) ↦ ok (deleted_result op prev, deleted op tree b)
  ]

  abbrev pub typed : WriteOp R → R → R
  typed op value = if ext.has_type value then value else ext.with_type value op.collection

  -- An empty key is drawn from the clock.
  abbrev pub key_for : ℕ → WriteOp R → C → String × C
  key_for now op clk = if op.rkey == "" then ext.next_tid now clk else (op.rkey, clk)

  abbrev pub stored_result : WriteOp R → R → String → String → Option String → WriteResult
  stored_result op value rkey c prev = record {
    action = op.action;
    collection = op.collection;
    rkey = rkey;
    cid = some c;
    prev_cid = prev;
    blob_cids = map (λ l. l.ref) (ext.extract_blobs value);
  }

  abbrev pub stored : ℕ → WriteOp R → R → List ℕ → String × C → T → Batch T C → Batch T C
  stored now op value encoded key tree b =
      let c = ext.sum encoded in
      record {
        tree = tree;
        clk = key.1;
        bs =
            on_db
              (λ db. refer_blobs now op.collection key.0 (ext.extract_blobs value) (
                clear_blob_refs_for_record op.collection key.0
                  (put_record_index op.collection key.0 c db)))
              (collect (record { cid = c; bytes = encoded }) b.bs);
      }

  -- The cases ActionCreate and ActionUpdate, from the encoded record on.
  unfoldable pub store_one :
      ℕ → WriteOp R → R → List ℕ → Batch T C → Result WriteError (WriteResult × Batch T C)
  store_one now op value encoded b =
      let key = key_for now op b.clk in
      let c = ext.sum encoded in
      elim (ext.insert b.tree (path_of op.collection key.0) c) [
        | none ↦ err bad_tree
        | some (prev, tree) ↦
            ok (stored_result op value key.0 c prev, stored now op value encoded key tree b)
      ]

  unfoldable pub put_one : ℕ → WriteOp R → Batch T C → Result WriteError (WriteResult × Batch T C)
  put_one now op b = do
    given ← from_option op.entry record_required
    refuse_if (not (ext.is_valid (typed op given))) invalid_record
    encoded ← from_option (ext.marshal (typed op given)) not_encodable
    store_one now op (typed op given) encoded b

  unfoldable pub apply_one : ℕ → WriteOp R → Batch T C → Result WriteError (WriteResult × Batch T C)
  unfolding delete_one put_one
  apply_one now op b =
      if op.action == action_delete
      then delete_one op b
      else if op.action == action_create || op.action == action_update
      then put_one now op b
      else err unknown_action

  -- The loop of ApplyWrites over the operations, in their order; the first failure ends it.
  unfoldable pub apply_ops :
      ℕ → List (WriteOp R) → Batch T C → Result WriteError (List WriteResult × Batch T C)
  apply_ops now [] b = ok ([], b)
  apply_ops now (op ∷ ops) b = elim (apply_one now op b) [
    | err e ↦ err (applying op.collection op.rkey e)
    | ok (res, b') ↦ elim (apply_ops now ops b') [
      | err e ↦ err e
      | ok (rest, b'') ↦ ok (res ∷ rest, b'')
    ]
  ]
