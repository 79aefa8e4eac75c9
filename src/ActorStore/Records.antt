-- ===== src/ActorStore/Records.antt =====
-- internal/actorstore/store.go: the index of records by collection and key, and the preferences.
use robby.Prelude.{
  ℕ, String, Bool, true, ◌&&◌, Option, none, some, List, [], ◌∷◌, ◌++◌, ◌==◌, string_eq,
  if◌then◌else◌, text_ltb, take, length, select_one, select, delete, update, some_row,
}
use robby.Accounts.Rows.{rfc3339}
use robby.ActorStore.Rows.{ActorDb, RecordEntry}

abbrev pub at_path : String → String → RecordEntry → Bool
at_path collection rkey e = e.collection == collection && e.rkey == rkey

-- INSERT … ON CONFLICT DO UPDATE
unfoldable pub put_record_index : String → String → String → ActorDb → ActorDb
put_record_index collection rkey c db =
    if some_row (at_path collection rkey) db.records
    then record db {
      records = update (at_path collection rkey) (λ e. record e { cid = c }) db.records;
    }
    else record db {
      records = db.records ++ record { collection = collection; rkey = rkey; cid = c } ∷ [];
    }

unfoldable pub delete_record_index : String → String → ActorDb → ActorDb
delete_record_index collection rkey db = record db {
  records = delete (at_path collection rkey) db.records;
}

abbrev pub entry_cid : Option RecordEntry → Option String
entry_cid none = none
entry_cid (some e) = some e.cid

-- `none` is ErrNotFound.
unfoldable pub get_record_cid : String → String → ActorDb → Option String
get_record_cid collection rkey db = entry_cid (select_one (at_path collection rkey) db.records)

-- ORDER BY rkey ASC, or DESC: `before` is the order of two keys.
unfoldable pub insert_entry :
    (String → String → Bool) → RecordEntry → List RecordEntry → List RecordEntry
insert_entry before x [] = x ∷ []
insert_entry before x (e ∷ es) =
    let rest = insert_entry before x es in if before e.rkey x.rkey then e ∷ rest else x ∷ e ∷ es

unfoldable pub sort_entries : (String → String → Bool) → List RecordEntry → List RecordEntry
unfolding insert_entry
sort_entries before [] = []
sort_entries before (e ∷ es) = insert_entry before e (sort_entries before es)

abbrev pub key_order : Bool → String → String → Bool
key_order reverse a b = if reverse then text_ltb b a else text_ltb a b

-- The WHERE clause of ListRecords; an empty cursor starts at the beginning.
abbrev pub listed : String → String → Bool → RecordEntry → Bool
listed collection cursor reverse e =
    e.collection == collection && (if cursor == "" then true else key_order reverse cursor e.rkey)

unfoldable pub list_records : String → String → ℕ → Bool → ActorDb → List RecordEntry
list_records collection cursor limit reverse db =
    take limit
      (sort_entries (key_order reverse) (select (listed collection cursor reverse) db.records))

unfoldable pub count_records : ActorDb → ℕ
count_records db = length db.records

-- `none` is ErrNotFound.
unfoldable pub get_preferences : ActorDb → Option String
get_preferences db = elim db.preferences [ none ↦ none | some p ↦ some p.value ]

unfoldable pub set_preferences : ℕ → String → ActorDb → ActorDb
set_preferences now value db = record db {
  preferences = some (record { value = value; updated_at = rfc3339 now });
}
