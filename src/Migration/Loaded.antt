-- ===== src/Migration/Loaded.antt =====
-- internal/xrpc/migration.go: the blocks that an import loads.
use robby.Prelude.{
  ℕ, String, Bool, true, ◌==◌, string_eq, if◌then◌else◌, ◌≡◌, refl, sym, ap, ◌∙◌, subst, Option,
  none, some, List, [], ◌∷◌, ◌++◌, inl, inr, arith, eq_iff, All, Bool-cases, select_one, some_row,
}
use robby.Firehose.{Block}
use robby.ActorStore.Rows.{ActorDb}
use robby.ActorStore.Blocks.{has_cid, put_block}
use robby.Repo.Step.{put_block-records}
use robby.Migration.Car.{load_blocks}

-- A block holds the content that its CID names, as go-car's reader checks.
abbrev pub Names : (String → List ℕ) → Block → Type 0
Names content b = content b.cid ≡ b.bytes

abbrev pub Kept : (String → List ℕ) → String → Option (List ℕ) → ActorDb → Type 0
Kept content c none db = Unit {0}
Kept content c (some bytes) db = (content c ≡ bytes) × (some_row (has_cid c) db.blocks ≡ true)

some_row-append_left :
    (p : Block → Bool) (bs cs : List Block) → some_row p bs ≡ true → some_row p (bs ++ cs) ≡ true
unfolding some_row
some_row-append_left p [] cs h = absurd (ground arith)
some_row-append_left p (b ∷ bs) cs h = ground (arith, some_row-append_left p bs cs)

some_row-append_last :
    (p : Block → Bool) (bs : List Block) (b : Block) → p b ≡ true → some_row p (bs ++ b ∷ []) ≡ true
unfolding some_row
some_row-append_last p [] b h = ground arith
some_row-append_last p (c ∷ bs) b h = ground (arith, some_row-append_last p bs b)

All-append :
    (P : Block → Type 0) (bs : List Block) (b : Block) → All P bs → P b → All P (bs ++ b ∷ [])
All-append P [] b h k = (k, tt)
All-append P (c ∷ bs) b h k = (h.0, All-append P bs b h.1 k)

module _ (content : String → List ℕ) where
  put_block-Names :
      (b : Block) (db : ActorDb)
      → Names content b
      → All (Names content) db.blocks
      → All (Names content) (put_block b db).blocks
  unfolding put_block
  put_block-Names b db h k = elim (Bool-cases (some_row (has_cid b.cid) db.blocks)) [
    | inl e ↦ rw e k
    | inr e ↦ rw e (All-append (Names content) db.blocks b k h)
  ]

  put_block-row :
      (c : String) (b : Block) (db : ActorDb)
      → some_row (has_cid c) db.blocks ≡ true
      → some_row (has_cid c) (put_block b db).blocks ≡ true
  unfolding put_block
  put_block-row c b db h = elim (Bool-cases (some_row (has_cid b.cid) db.blocks)) [
    | inl e ↦ rw e h
    | inr e ↦ rw e (some_row-append_left (has_cid c) db.blocks (b ∷ []) h)
  ]

  put_block-own :
      (b : Block) (db : ActorDb) → some_row (has_cid b.cid) (put_block b db).blocks ≡ true
  unfolding put_block
  put_block-own b db = elim (Bool-cases (some_row (has_cid b.cid) db.blocks)) [
    | inl e ↦ rw e e
    | inr e ↦ rw e (some_row-append_last (has_cid b.cid) db.blocks b ((eq_iff b.cid b.cid).1 refl))
  ]

  put_block-Kept :
      (c : String) (kept : Option (List ℕ)) (b : Block) (db : ActorDb)
      → Names content b
      → Kept content c kept db
      → Kept content c (if b.cid == c then some b.bytes else kept) (put_block b db)
  put_block-Kept c kept b db h k = elim (Bool-cases (b.cid == c)) [
    | inl e ↦
        let same = (eq_iff b.cid c).0 e in
        rw e (
          subst (λ x. content x ≡ b.bytes) same h,
          subst (λ x. some_row (has_cid x) (put_block b db).blocks ≡ true) same
              (put_block-own b db),
        )
    | inr e ↦ rw e (still kept k)
  ]
    where
      still : (o : Option (List ℕ)) → Kept content c o db → Kept content c o (put_block b db)
      still none k = tt
      still (some bytes) k = (k.0, put_block-row c b db k.1)

  pub load_blocks-Kept :
      (c : String) (bs : List Block) (kept : Option (List ℕ)) (db : ActorDb)
      → All (Names content) bs
      → All (Names content) db.blocks
      → Kept content c kept db
      → All (Names content) (load_blocks c bs kept db).1.blocks
        × Kept content c (load_blocks c bs kept db).0 (load_blocks c bs kept db).1
        × ((load_blocks c bs kept db).1.records ≡ db.records)
  unfolding load_blocks
  load_blocks-Kept c [] kept db h k l = (k, l, refl)
  load_blocks-Kept c (b ∷ bs) kept db h k l =
      let (all, row, records) =
        load_blocks-Kept c bs (if b.cid == c then some b.bytes else kept) (put_block b db) h.1
          (put_block-Names b db h.0 k) (put_block-Kept c kept b db h.0 l) in
      (all, row, records ∙ put_block-records b db)

  -- A block that is there is found with its content.
  pub found_block :
      (c : String) (bs : List Block)
      → All (Names content) bs
      → some_row (has_cid c) bs ≡ true
      → (b : Block) × (select_one (has_cid c) bs ≡ some b) × (b.bytes ≡ content c)
  unfolding some_row select_one
  found_block c [] h k = absurd (ground arith)
  found_block c (b ∷ bs) h k = elim (Bool-cases (b.cid == c)) [
    | inl e ↦ (b, rw e refl, sym h.0 ∙ ap content ((eq_iff b.cid c).0 e))
    | inr e ↦ let (b', e', h') = found_block c bs h.1 (ground arith) in (b', rw e e', h')
  ]
