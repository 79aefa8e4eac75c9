-- ===== src/ActorStore/Index.antt =====
-- internal/actorstore/store.go: the record index reads back what was written to it.
use robby.Prelude.{
  ap, some_row-select_one, String, true, false, ◌≡◌, none, some, arith, inl, inr, string_eq, eq_iff,
  Option-cases, Bool-cases, select_one, some_row, select_one-update_self, select_one-update_other,
  select_one-append_none, select_one-append_other, select_one-delete_all, select_one-delete_other,
  some_row-of_none,
}
use robby.ActorStore.Rows.{ActorDb, RecordEntry}
use robby.ActorStore.Records.{
  at_path, put_record_index, delete_record_index, get_record_cid, entry_cid,
}

-- Two paths that differ somewhere.
abbrev pub Apart : String → String → String → String → Type 0
Apart c k c' k' = ¬ ((c ≡ c') × (k ≡ k'))

module _ (c k : String) where
  abbrev entry_of : String → RecordEntry
  entry_of v = record { collection = c; rkey = k; cid = v }

  at_path_self : (v : String) → at_path c k (entry_of v) ≡ true
  at_path_self v = ground (arith, eq_iff c c, eq_iff k k)

  at_path-Apart :
      (c' k' : String) (e : RecordEntry)
      → Apart c k c' k'
      → at_path c k e ≡ true
      → at_path c' k' e ≡ false
  at_path-Apart c' k' e h p =
      ground
        (arith, h, eq_iff e.collection c, eq_iff e.rkey k, eq_iff e.collection c', eq_iff e.rkey k')

  pub get-put_record_index :
      (v : String) (db : ActorDb) → get_record_cid c k (put_record_index c k v db) ≡ some v
  unfolding get_record_cid put_record_index
  get-put_record_index v db = elim (Option-cases (select_one (at_path c k) db.records)) [
    | inl e ↦ rw (some_row-of_none (at_path c k) db.records e) (
        ap entry_cid
          (select_one-append_none (at_path c k) db.records (entry_of v) e (at_path_self v)))
    | inr (x, e) ↦ rw (some_row-select_one (at_path c k) db.records x e) (
        ap entry_cid (
          select_one-update_self (at_path c k) (λ y. record y { cid = v }) db.records x (λ y h. h)
            e))
  ]

  pub get-put_record_index_other :
      (c' k' v : String) (db : ActorDb)
      → Apart c k c' k'
      → get_record_cid c' k' (put_record_index c k v db) ≡ get_record_cid c' k' db
  unfolding get_record_cid put_record_index
  get-put_record_index_other c' k' v db h = elim (Bool-cases (some_row (at_path c k) db.records)) [
    | inl e ↦ rw e (
        ap entry_cid (
          select_one-update_other (at_path c' k') (at_path c k) (λ y. record y { cid = v })
            db.records (λ y. at_path-Apart c' k' y h) (λ y. at_path-Apart c' k' y h)))
    | inr e ↦ rw e (
        ap entry_cid (
          select_one-append_other (at_path c' k') db.records (entry_of v)
            (at_path-Apart c' k' (entry_of v) h (at_path_self v))))
  ]

  pub get-delete_record_index :
      (db : ActorDb) → get_record_cid c k (delete_record_index c k db) ≡ none
  unfolding get_record_cid delete_record_index
  get-delete_record_index db =
      ap entry_cid (select_one-delete_all (at_path c k) (at_path c k) db.records (λ e h. h))

  pub get-delete_record_index_other :
      (c' k' : String) (db : ActorDb)
      → Apart c k c' k'
      → get_record_cid c' k' (delete_record_index c k db) ≡ get_record_cid c' k' db
  unfolding get_record_cid delete_record_index
  get-delete_record_index_other c' k' db h =
      ap entry_cid
        (select_one-delete_other (at_path c' k') (at_path c k) db.records (λ e p. flip e p))
    where
      flip : (e : RecordEntry) → at_path c' k' e ≡ true → at_path c k e ≡ false
      flip e p = elim (Bool-cases (at_path c k e)) [
        | inl q ↦ absurd (ground (arith, at_path-Apart c' k' e h q))
        | inr q ↦ q
      ]
