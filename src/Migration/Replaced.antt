-- ===== src/Migration/Replaced.antt =====
-- internal/xrpc/migration.go: the repository that an import leaves.
use robby.Prelude.{
  ℕ, String, Bool, true, ◌==◌, string_eq, ◌≡◌, refl, ap, ◌∙◌, subst, Option, none, some, List, [],
  inl, inr, arith, eq_iff, ok, All, Option-cases, Result-cases, ok_injective, select_one,
}
use robby.Firehose.{Block}
use robby.ActorStore.Rows.{ActorDb}
use robby.ActorStore.Blocks.{has_cid, get_block, clear_repo, get_repo_root, set_repo_root}
use robby.ActorStore.Records.{get_record_cid}
use robby.Repo.Indigo.{Indigo, RepoCommit}
use robby.Repo.Batch.{path_of}
use robby.Repo.Writer.{Base, open_repo, load_tree}
use robby.Repo.Agreement.{Agrees}
use robby.Repo.Step.{same_index}
use robby.Session.Principal.{HttpError}
use robby.Migration.Car.{
  Importing, CarFile, cut, load_blocks, verified_commit, import_walk, import_car,
}
use robby.Migration.Walk.{entry_at, import_walk-index}
use robby.Migration.Loaded.{Names, Kept, load_blocks-Kept, found_block}

-- Tree.Walk meets the entries of the tree, which `get` reads, and an NSID has no slash.
pub record WalkLaws {T R P : Type 0} (imp : Importing T R P) (get : T → String → Option String)
    (parse_nsid : String → Bool) : Type 0 where
  pub listing : (t : T) (p : String) → entry_at p (imp.walk t) none ≡ get t p
  pub cut_nsid : (c k : String) → parse_nsid c ≡ true → cut (path_of c k) ≡ some (c, k)

-- The database holds the repository of a commit of the account that its published key signed.
pub record IsImported {T C R K P : Type 0} (ext : Indigo T C R K) (imp : Importing T R P)
    (get : T → String → Option String) (parse_nsid : String → Bool) (did : String)
    (root : String × String) (db : ActorDb) : Type 0 where
  pub block : Block
  pub stored : get_block (root.0) db ≡ some block
  pub commit : RepoCommit
  pub read : ext.unmarshal_commit block.bytes ≡ some commit
  pub owner : commit.did ≡ did
  pub key : P
  pub published : imp.published_key did ≡ some key
  pub signed : imp.verify_signature key commit ≡ true
  pub rev : commit.rev ≡ root.1
  pub base : Base T C
  pub continues : open_repo ext db ≡ ok base
  pub prev_data : base.prev_data ≡ some commit.data_cid
  pub repo_root : get_repo_root db ≡ some (record { commit_cid = root.0; rev = root.1 })
  pub agrees : Agrees get parse_nsid base.tree db

nothing : (c k : String) (db : ActorDb) → db.records ≡ [] → get_record_cid c k db ≡ none
unfolding get_record_cid select_one
nothing c k db h = rw h refl

module _ {T C R K P : Type 0} (ext : Indigo T C R K) (imp : Importing T R P) where
  record IsVerified (did : String) (bytes : List ℕ) (commit : RepoCommit) : Type 0 where
    read : ext.unmarshal_commit bytes ≡ some commit
    owner : commit.did ≡ did
    key : P
    published : imp.published_key did ≡ some key
    signed : imp.verify_signature key commit ≡ true

  verified_commit-IsVerified :
      (parse_did : String → Bool) (did : String) (bytes : List ℕ) (commit : RepoCommit)
      → verified_commit ext imp parse_did did bytes ≡ ok commit
      → IsVerified did bytes commit
  unfolding verified_commit
  verified_commit-IsVerified parse_did did bytes commit h =
      elim (Option-cases (ext.unmarshal_commit bytes)) [
        | inl e ↦ absurd (ground arith)
        | inr (c, e) ↦ elim (Option-cases (imp.published_key did)) [
          | inl e1 ↦ absurd (ground arith)
          | inr (key, e1) ↦
              let same : c ≡ commit = ok_injective {E = HttpError} c commit (ground arith) in
              let signed : imp.verify_signature key c ≡ true = ground arith in
              let owner : (c.did == did) ≡ true = ground arith in
              subst (IsVerified did bytes) same (record {
                read = e;
                owner = (eq_iff c.did did).0 owner;
                key = key;
                published = e1;
                signed = signed;
              })
        ]
      ]

  -- The blocks that the transaction starts from.
  abbrev loaded : CarFile → String → ActorDb → Option (List ℕ) × ActorDb
  loaded car c db = load_blocks c car.blocks none (clear_repo db)

  -- The steps of a transaction that succeeded.
  record Steps (parse_did : String → Bool) (now : ℕ) (did : String) (car : CarFile) (c : String)
      (db : ActorDb) (r : (String × String) × ActorDb) : Type 0 where
    bytes : List ℕ
    found : (loaded car c db).0 ≡ some bytes
    commit : RepoCommit
    checked : verified_commit ext imp parse_did did bytes ≡ ok commit
    tree : T
    built : ext.load_tree (λ x. get_block x (loaded car c db).1) commit.data_cid ≡ some tree
    indexed : ActorDb
    walked : import_walk ext imp now (imp.walk tree) (loaded car c db).1 ≡ ok indexed
    result : ((c, commit.rev), set_repo_root c commit.rev indexed) ≡ r

  import_car-Steps :
      (parse_did : String → Bool) (now : ℕ) (did : String) (car : CarFile) (c : String)
      (db : ActorDb) (r : (String × String) × ActorDb)
      → import_car ext imp parse_did now did car c db ≡ ok r
      → Steps parse_did now did car c db r
  unfolding import_car
  import_car-Steps parse_did now did car c db r h = elim (Option-cases (loaded car c db).0) [
    | inl e ↦ absurd (ground arith)
    | inr (bytes, e) ↦ elim (Result-cases (verified_commit ext imp parse_did did bytes)) [
      | inl (x, e1) ↦ absurd (ground arith)
      | inr (commit, e1) ↦
          elim (Option-cases
            (ext.load_tree (λ x. get_block x (loaded car c db).1) commit.data_cid)) [
              | inl e2 ↦ absurd (ground arith)
              | inr (tree, e2) ↦
                  elim (Result-cases
                    (import_walk ext imp now (imp.walk tree) (loaded car c db).1)) [
                      | inl (x, e3) ↦ absurd (ground arith)
                      | inr (indexed, e3) ↦ record {
                        bytes = bytes;
                        found = e;
                        commit = commit;
                        checked = e1;
                        tree = tree;
                        built = e2;
                        indexed = indexed;
                        walked = e3;
                        result = ok_injective {E = HttpError} _ r (ground arith);
                      }
                    ]
            ]
    ]
  ]

  abbrev base_of : RepoCommit → T → Base T C
  base_of commit tree = record {
    tree = tree;
    clk = ext.clock_from_tid commit.rev;
    since = some commit.rev;
    prev_data = some commit.data_cid;
  }

  -- ApplyWrites starts from the tree of the root's commit.
  open_repo-base :
      (db : ActorDb) (c rev : String) (bytes : List ℕ) (blk : Block) (commit : RepoCommit)
      (tree : T)
      → get_repo_root db ≡ some (record { commit_cid = c; rev = rev })
      → get_block c db ≡ some blk
      → ext.unmarshal_commit blk.bytes ≡ some commit
      → ext.load_tree (λ x. get_block x db) commit.data_cid ≡ some tree
      → open_repo ext db ≡ ok (base_of commit tree)
  unfolding open_repo load_tree
  open_repo-base db c rev bytes blk commit tree root at read built =
      let loads : load_tree ext db c ≡ ok (tree, commit) = ground (arith, at, read, built) in
      ground (arith, root, loads)

  -- An import that succeeds leaves the repository of a commit of the account, signed by the key that its
  -- DID publishes: the commit is the root, ApplyWrites continues from its tree, and the record index
  -- says of every NSID collection what that tree says.
  pub import_car-IsImported :
      (get : T → String → Option String) (parse_nsid : String → Bool)
      (laws : WalkLaws imp get parse_nsid) (content : String → List ℕ) (parse_did : String → Bool)
      (now : ℕ) (did : String) (car : CarFile) (c : String) (db : ActorDb)
      (r : (String × String) × ActorDb)
      → All (Names content) car.blocks
      → import_car ext imp parse_did now did car c db ≡ ok r
      → (r.0.0 ≡ c) × IsImported ext imp get parse_nsid did r.0 r.1
  unfolding get_block clear_repo set_repo_root get_repo_root
  import_car-IsImported get parse_nsid laws content parse_did now did car c db r names h =
      let steps = import_car-Steps parse_did now did car c db r h in
      let checked =
        verified_commit-IsVerified parse_did did steps.bytes steps.commit steps.checked in
      let start = (loaded car c db).1 in
      let (all, kept, records) =
        load_blocks-Kept content c car.blocks none (clear_repo db) names tt tt in
      let (named, row) : Kept content c (some steps.bytes) start =
        subst (λ o. Kept content c o start) steps.found kept in
      let (blk, at, same) = found_block content c start.blocks all row in
      let (blocks, index) =
        import_walk-index ext imp now (imp.walk steps.tree) start steps.indexed steps.walked in
      subst
        (λ (r : (String × String) × ActorDb).
          (r.0.0 ≡ c) × IsImported ext imp get parse_nsid did r.0 r.1)
        steps.result
        (
          refl,
          record {
            block = blk;
            stored = ap (select_one (has_cid c)) blocks ∙ at;
            commit = steps.commit;
            read = ap ext.unmarshal_commit (same ∙ named) ∙ checked.read;
            owner = checked.owner;
            key = checked.key;
            published = checked.published;
            signed = checked.signed;
            rev = refl;
            base = base_of steps.commit steps.tree;
            continues =
                open_repo-base (set_repo_root c steps.commit.rev steps.indexed) c steps.commit.rev
                  steps.bytes blk steps.commit steps.tree refl
                  (ap (select_one (has_cid c)) blocks ∙ at)
                  (ap ext.unmarshal_commit (same ∙ named) ∙ checked.read)
                  (ap (λ bs. ext.load_tree (λ x. select_one (has_cid x) bs) steps.commit.data_cid)
                      blocks
                    ∙ steps.built);
            prev_data = refl;
            repo_root = refl;
            agrees = λ k q v.
                same_index k q (set_repo_root c steps.commit.rev steps.indexed) steps.indexed refl
                ∙ index k q (laws.cut_nsid k q v)
                ∙ ap (entry_at (path_of k q) (imp.walk steps.tree)) (nothing k q start records)
                ∙ laws.listing steps.tree (path_of k q);
          },
        )
