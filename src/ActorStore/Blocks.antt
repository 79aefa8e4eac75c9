-- ===== src/ActorStore/Blocks.antt =====
-- internal/actorstore/blockstore.go: the block store over the `blocks` table, and the repo root of
-- store.go.
use robby.Prelude.{
  ℕ, String, Bool, Option, none, some, List, [], ◌∷◌, ◌++◌, map, ◌==◌, string_eq, if◌then◌else◌,
  length, select_one, delete, some_row,
}
use robby.Firehose.{Block}
use robby.ActorStore.Rows.{ActorDb, RepoRoot}

abbrev pub has_cid : String → Block → Bool
has_cid c b = b.cid == c

-- sqlBlockstore.Get; `none` is ErrNotFound.
unfoldable pub get_block : String → ActorDb → Option Block
get_block c db = select_one (has_cid c) db.blocks

unfoldable pub has_block : String → ActorDb → Bool
has_block c db = some_row (has_cid c) db.blocks

unfoldable pub get_size : String → ActorDb → Option ℕ
unfolding get_block
get_size c db = elim (get_block c db) [ none ↦ none | some b ↦ some (length b.bytes) ]

-- A block that is there stays as it is.
unfoldable pub put_block : Block → ActorDb → ActorDb
put_block b db =
    if some_row (has_cid b.cid) db.blocks then db else record db { blocks = db.blocks ++ b ∷ [] }

unfoldable pub put_many : List Block → ActorDb → ActorDb
unfolding put_block
put_many [] db = db
put_many (b ∷ bs) db = put_many bs (put_block b db)

unfoldable pub delete_block : String → ActorDb → ActorDb
delete_block c db = record db { blocks = delete (has_cid c) db.blocks }

unfoldable pub all_keys : ActorDb → List String
all_keys db = map (λ b. b.cid) db.blocks

unfoldable pub all_blocks : ActorDb → List Block
all_blocks db = db.blocks

unfoldable pub count_blocks : ActorDb → ℕ
count_blocks db = length db.blocks

-- `none` is ErrNotFound.
unfoldable pub get_repo_root : ActorDb → Option RepoRoot
get_repo_root db = db.repo_root

unfoldable pub set_repo_root : String → String → ActorDb → ActorDb
set_repo_root commit_cid rev db = record db {
  repo_root = some (record { commit_cid = commit_cid; rev = rev });
}

unfoldable pub clear_repo : ActorDb → ActorDb
clear_repo db = record db {
  blocks = [];
  repo_root = none;
  records = [];
  blobs = [];
  blob_refs = [];
}
