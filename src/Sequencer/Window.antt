-- ===== src/Sequencer/Window.antt =====
-- internal/sequencer/sequencer.go: which events the trimming keeps. The texts are compared, so the
-- window is exact to the second only.
use robby.Prelude.{
  ℕ, ◌+◌, ◌-◌, ◌/◌, ◌%◌, ◌≤◌, ◌<◌, String, true, false, ◌≡◌, ◌≢◌, some, List, [], ◌∷◌, ◌++◌, arith,
  delete, ◌==◌, nat_eq,
}
use robby.Accounts.Rows.{second}
use robby.Firehose.{Event}
use robby.Sequencer.Stamp.{rfc3339_nano, stamp_ltb, nano_tail, bytes_ltb, Stamp}
use robby.Sequencer.Log.{
  Row, Log, Msg, commit, stored_row, is_trimmed, trim, backfill_window, latest_seq, max_seq,
}
use robby.Sequencer.Order.{IsOrdered, Rising, Rising-le, Rising-delete, commit-stored_row}
use native.Mathlib.Nat.{le_trans}

earlier_second : (a b : Stamp) → a.secs < b.secs → stamp_ltb a b ≡ true
unfolding stamp_ltb
earlier_second a b h = ground arith

later_second : (a b : Stamp) → b.secs < a.secs → stamp_ltb a b ≡ false
unfolding stamp_ltb
later_second a b h = ground arith

-- An event that was stored a second or more before the window is trimmed, and one that was stored a
-- second or more after its start is kept.
pub is_trimmed-window :
    (now : ℕ) (old young : Row)
    → old.stored + second ≤ now - backfill_window
    → now - backfill_window + second ≤ young.stored
    → (is_trimmed now old ≡ true) × (is_trimmed now young ≡ false)
unfolding is_trimmed rfc3339_nano
is_trimmed-window now old young h k =
    (earlier_second _ _ (omega arith), later_second _ _ (omega arith))

kept : (now : ℕ) (r : Row) → now - backfill_window + second ≤ r.stored → is_trimmed now r ≡ false
unfolding is_trimmed rfc3339_nano
kept now r h = later_second _ _ (omega arith)

same_second : (a b : Stamp) → a.secs ≡ b.secs → stamp_ltb a b ≡ bytes_ltb a.tail b.tail
unfolding stamp_ltb
same_second a b h = ground arith

-- "Z" comes after "." in the order of bytes.
whole_second_last : (n : ℕ) → n ≢ 0 → bytes_ltb (nano_tail n) (nano_tail 0) ≡ true
unfolding nano_tail bytes_ltb
whole_second_last n h = rw (not_zero n h)
  where
    not_zero : (n : ℕ) → n ≢ 0 → (n == 0) ≡ false
    not_zero n h = ground arith

-- Within the second in which the window starts the order of the texts is not the order of time: where
-- the start falls on a whole second, every other event of that second is trimmed, though it is
-- younger than the window.
pub early_trim :
    (now : ℕ) (r : Row)
    → (now - backfill_window) % second ≡ 0
    → r.stored / second ≡ (now - backfill_window) / second
    → now - backfill_window < r.stored
    → is_trimmed now r ≡ true
unfolding is_trimmed rfc3339_nano
early_trim now r whole same younger =
    rw (same_second (rfc3339_nano r.stored) (rfc3339_nano (now - backfill_window)) same, whole)
      (whole_second_last _ (omega arith))

delete-concat :
    (now : ℕ) (rs : List Row) (x : Row)
    → is_trimmed now x ≡ false
    → trim now (rs ++ x ∷ []) ≡ trim now rs ++ x ∷ []
unfolding trim delete
delete-concat now [] x h = rw h
delete-concat now (r ∷ rs) x h = ground (arith, delete-concat now rs x h)

max_seq-le : (lo hi : ℕ) (rs : List Row) → Rising lo hi rs → max_seq rs ≤ hi
unfolding max_seq
max_seq-le lo hi [] h = omega arith
max_seq-le lo hi (r ∷ rs) h = ground (arith, max_seq-le r.seq hi rs h.1, Rising-le r.seq hi rs h.1)

max_seq-concat : (rs : List Row) (x : Row) → max_seq rs ≤ x.seq → max_seq (rs ++ x ∷ []) ≡ x.seq
unfolding max_seq
max_seq-concat [] x h = ground arith
max_seq-concat (r ∷ rs) x h = ground (arith, max_seq-concat rs x)

Rising-trim : (now : ℕ) (log : Log) → IsOrdered log → Rising 0 log.last_seq (trim now log.rows)
unfolding trim
Rising-trim now log h = Rising-delete (is_trimmed now) 0 log.last_seq log.rows h

-- The event that is committed survives its own trimming: the latest number that the log reports is
-- the last one given out, also after a quiet time longer than the window.
pub latest_seq-commit :
    (now : ℕ) (did : String) (evt : Event) (log : Log) (m : Msg) (log' : Log)
    → IsOrdered log
    → backfill_window ≤ now
    → commit now did evt log ≡ some (m, log')
    → (latest_seq log' ≡ m.seq) × (m.seq ≡ log.last_seq + 1)
unfolding latest_seq stored_row
latest_seq-commit now did evt log m log' h late e =
    let (row, next, at_now, em, el) = commit-stored_row now did evt log m log' e in
    rw (em, el)
      (
        rw (delete-concat now log.rows row (kept now row (omega arith))) (
            max_seq-concat _ row (
              le_trans (max_seq-le 0 log.last_seq (trim now log.rows) (Rising-trim now log h))
                (omega arith))),
        next,
      )
