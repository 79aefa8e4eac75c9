-- ===== src/Sequencer/Log.antt =====
-- internal/sequencer/sequencer.go: the `events` table. `last_seq` is what SQLite's AUTOINCREMENT
-- keeps: the largest sequence number that was ever given out and committed.
use robby.Prelude.{
  ℕ, ◌+◌, ◌-◌, ◌*◌, String, Bool, Option, none, some, List, [], ◌∷◌, ◌++◌, ltb, if◌then◌else◌,
  select, delete,
}
use robby.Accounts.Rows.{second}
use robby.Firehose.{Event, Frame, seq_of, serialize}
use robby.Sequencer.Stamp.{rfc3339_nano, stamp_ltb}

abbrev pub backfill_window : ℕ
backfill_window = 72 * 3600 * second

-- `stored` is the instant whose text is in `created_at`.
pub record Row : Type 0 where
  pub seq : ℕ
  pub did : String
  pub evt_type : String
  pub payload : Frame
  pub stored : ℕ

pub record Log : Type 0 where
  pub rows : List Row
  pub last_seq : ℕ

abbrev pub empty_log : Log
empty_log = record { rows = []; last_seq = 0 }

pub record Msg : Type 0 where
  pub seq : ℕ
  pub payload : Frame

abbrev pub msg_of : Row → Msg
msg_of r = record { seq = r.seq; payload = r.payload }

-- The WHERE clause of the trimming.
unfoldable pub is_trimmed : ℕ → Row → Bool
is_trimmed now r = stamp_ltb (rfc3339_nano r.stored) (rfc3339_nano (now - backfill_window))

unfoldable pub trim : ℕ → List Row → List Row
trim now rows = delete (is_trimmed now) rows

-- The log with one more row, trimmed.
unfoldable pub stored_row : ℕ → Row → Log → Log
stored_row now row log = record { rows = trim now (log.rows ++ row ∷ []); last_seq = row.seq }

-- The transaction of Append: the sequence number is allocated, stamped and encoded, the row stored,
-- and the log trimmed. On an error everything is rolled back: `none`, and the log is what it was.
unfoldable pub commit : ℕ → String → Event → Log → Option (Msg × Log)
commit now did evt log = elim (seq_of (log.last_seq + 1) evt) [
  | none ↦ none
  | some (evt_type, stamped) ↦ elim (serialize stamped) [
    | none ↦ none
    | some payload ↦
        let row : Row = record {
          seq = log.last_seq + 1;
          did = did;
          evt_type = evt_type;
          payload = payload;
          stored = now;
        } in
        some (msg_of row, stored_row now row log)
  ]
]

-- COALESCE(MAX(seq), 0)
unfoldable pub max_seq : List Row → ℕ
max_seq [] = 0
max_seq (r ∷ rs) = let m = max_seq rs in if ltb m r.seq then r.seq else m

unfoldable pub latest_seq : Log → ℕ
latest_seq log = max_seq log.rows

-- COALESCE(MIN(seq), 0)
unfoldable pub min_seq : ℕ → List Row → ℕ
min_seq least [] = least
min_seq least (r ∷ rs) = min_seq (if ltb r.seq least then r.seq else least) rs

unfoldable pub earliest_seq : Log → ℕ
unfolding min_seq
earliest_seq log = elim log.rows [ [] ↦ 0 | r ∷ rs ↦ min_seq r.seq rs ]

-- SELECT … WHERE seq > since ORDER BY seq ASC: the rows are read in the order of the primary key.
unfoldable pub insert_seq : Row → List Row → List Row
insert_seq x [] = x ∷ []
insert_seq x (r ∷ rs) =
    let rest = insert_seq x rs in if ltb r.seq x.seq then r ∷ rest else x ∷ r ∷ rs

unfoldable pub sort_seq : List Row → List Row
unfolding insert_seq
sort_seq [] = []
sort_seq (r ∷ rs) = insert_seq r (sort_seq rs)

-- The messages that Backfill hands to `emit`, in order, as long as `emit` does not fail.
unfoldable pub backfill : ℕ → Log → List Row
backfill since log = sort_seq (select (λ r. ltb since r.seq) log.rows)
