-- ===== src/Sequencer/Examples.antt =====
-- The sequencer and its sessions at concrete logs.
use robby.Prelude.{ℕ, ◌+◌, ◌<◌, true, false, ◌≡◌, refl, some, List, [], ◌∷◌, arith, select, delete}
use robby.Accounts.Rows.{second}
use robby.Firehose.{Event, Frame, empty_event, seq_of, serialize, message, identity_body}
use robby.Sequencer.Stamp.{rfc3339_nano, nano_tail, bytes_ltb, stamp_ltb}
use robby.Sequencer.Log.{
  Row, Log, Msg, msg_of, empty_log, backfill_window, commit, stored_row, is_trimmed, trim, max_seq,
  latest_seq, min_seq, earliest_seq, insert_seq, sort_seq, backfill,
}
use robby.Sequencer.Broadcast.{subscribe, cancel, offer, broadcast, append}
use robby.Sequencer.Window.{early_trim, is_trimmed-window, latest_seq-commit}
use robby.Sequencer.Subscribe.{start, live, session, last_of}
use robby.Sequencer.Splice.{session-splice, live-Ascending, Ascending}
use robby.Sequencer.Race.{◌⟶*◌, reversed_broadcasts_lose, watched}

abbrev renamed : ℕ → Event
renamed n = record empty_event {
  repo_identity = some (record { seq = n; did = "did:plc:a"; handle = some "a.test"; time = 0 });
}

abbrev framed : ℕ → Frame
framed n = record {
  header = message "#identity";
  body = identity_body (record { seq = n; did = "did:plc:a"; handle = some "a.test"; time = 0 });
}

abbrev row : ℕ → Row
row n = record {
  seq = n;
  did = "did:plc:a";
  evt_type = "#identity";
  payload = framed n;
  stored = backfill_window;
}

abbrev log_of : List Row → ℕ → Log
log_of rows n = record { rows = rows; last_seq = n }

abbrev sent : ℕ → Msg
sent n = msg_of (row n)

-- Opening this opens all that the tests run through.
runs : Unit {0}
unfolding seq_of serialize rfc3339_nano nano_tail bytes_ltb stamp_ltb is_trimmed trim commit
    stored_row max_seq latest_seq min_seq earliest_seq insert_seq sort_seq backfill select delete
    offer broadcast subscribe cancel append start live session last_of
runs = tt

first_commit :
    commit backfill_window "did:plc:a" (renamed 0) empty_log ≡ some (sent 1, log_of (row 1 ∷ []) 1)
unfolding runs
first_commit = refl

second_commit :
    commit backfill_window "did:plc:a" (renamed 0) (log_of (row 1 ∷ []) 1)
    ≡ some (sent 2, log_of (row 1 ∷ row 2 ∷ []) 2)
unfolding runs
second_commit = refl

reversed_broadcasts_lose_example :
    (record { seqr = watched empty_log []; pending = [] } ⟶* record {
      seqr = watched (log_of (row 1 ∷ row 2 ∷ []) 2) (sent 2 ∷ sent 1 ∷ []);
      pending = [];
    })
    × ((sent 1).seq < (sent 2).seq)
    × (live 0 (sent 2 ∷ sent 1 ∷ []) ≡ sent 2 ∷ [])
unfolding runs
reversed_broadcasts_lose_example =
    reversed_broadcasts_lose backfill_window "did:plc:a" "did:plc:a" (renamed 0) (renamed 0)
      empty_log (log_of (row 1 ∷ []) 1) (log_of (row 1 ∷ row 2 ∷ []) 2) (sent 1) (sent 2) 0
      (omega arith) first_commit second_commit (omega arith)

session-splice_example :
    session
      (start
        (some 1)
        (log_of (row 1 ∷ row 2 ∷ []) 2)
        (log_of (row 1 ∷ row 2 ∷ []) 2)
        (log_of (row 1 ∷ row 2 ∷ row 3 ∷ []) 3))
      (sent 3 ∷ sent 4 ∷ [])
    ≡ sent 2 ∷ sent 3 ∷ sent 4 ∷ []
unfolding runs
session-splice_example =
    session-splice 1 4 (row 1 ∷ row 2 ∷ []) (row 3 ∷ []) (row 4 ∷ [])
      (log_of (row 1 ∷ row 2 ∷ []) 2) (log_of (row 1 ∷ row 2 ∷ []) 2)
      (log_of (row 1 ∷ row 2 ∷ row 3 ∷ []) 3)
      (omega arith, (omega arith, (omega arith, (omega arith, omega arith))))
      (omega arith, (omega arith, omega arith)) (omega arith) (omega arith)
      (omega arith, (omega arith, (omega arith, omega arith))) refl

abbrev whole_instant : ℕ
whole_instant = backfill_window + second

-- The event is a nanosecond younger than the window.
early_trim_example : is_trimmed whole_instant (record (row 1) { stored = second + 1 }) ≡ true
early_trim_example =
    early_trim whole_instant (record (row 1) { stored = second + 1 }) refl refl (omega arith)

is_trimmed-window_example :
    (is_trimmed whole_instant (record (row 1) { stored = 0 }) ≡ true)
    × (is_trimmed whole_instant (record (row 1) { stored = second + second }) ≡ false)
is_trimmed-window_example =
    is_trimmed-window whole_instant (record (row 1) { stored = 0 })
      (record (row 1) { stored = second + second }) (omega arith) (omega arith)

latest_seq-commit_example : (latest_seq (log_of (row 1 ∷ row 2 ∷ []) 2) ≡ 2) × (2 ≡ 1 + 1)
unfolding runs
latest_seq-commit_example =
    latest_seq-commit backfill_window "did:plc:a" (renamed 0) (log_of (row 1 ∷ []) 1) (sent 2)
      (log_of (row 1 ∷ row 2 ∷ []) 2) (omega arith, omega arith) (omega arith) second_commit

live-Ascending_example : Ascending 1 (sent 3 ∷ sent 4 ∷ [])
unfolding runs
live-Ascending_example = live-Ascending 1 (sent 1 ∷ sent 3 ∷ sent 2 ∷ sent 4 ∷ [])
