-- ===== src/Sequencer/Subscribe.antt =====
-- internal/xrpc/subscribe.go: one subscribeRepos session. Its writes succeed until the client is gone,
-- so a session sends a prefix of what is said here. A cursor is not negative.
use robby.Prelude.{
  ℕ, ◌-◌, true, false, ◌&&◌, Option, none, some, List, [], ◌∷◌, ◌++◌, map, ltb, leb, if◌then◌else◌,
}
use robby.Firehose.{Event, Frame, empty_event, serialize}
use robby.Sequencer.Log.{Row, Log, Msg, msg_of, latest_seq, earliest_seq, backfill}

-- What a session does before its live loop: it closes, or goes on with `last_sent`.
pub data Start : Type 0 where
  closed : Option Frame → Start
  live_from : Option Frame → List Msg → ℕ → Start

abbrev future_cursor : Event
future_cursor = record empty_event {
  error = some (record {
    error = "FutureCursor";
    message = "requested cursor is ahead of the latest known sequence";
  });
}

abbrev outdated_cursor : Event
outdated_cursor = record empty_event {
  info = some (record {
    name = "OutdatedCursor";
    message = "requested cursor is before the earliest available event; resuming from latest";
  });
}

-- `lastSent` after the messages of a backfill.
unfoldable pub last_of : ℕ → List Row → ℕ
last_of last [] = last
last_of last (r ∷ rs) = last_of r.seq rs

-- The three queries run one after the other, each on the log of its time.
unfoldable pub start : Option ℕ → Log → Log → Log → Start
start none at_latest at_earliest at_backfill = live_from none [] (latest_seq at_latest)
start (some cursor) at_latest at_earliest at_backfill =
    let latest = latest_seq at_latest in
    let earliest = earliest_seq at_earliest in
    let rows = backfill cursor at_backfill in
    if ltb latest cursor
    then closed (serialize future_cursor)
    else if ltb 0 earliest && ltb cursor (earliest - 1)
    then live_from (serialize outdated_cursor) [] latest
    else live_from none (map msg_of rows) (last_of 0 rows)

-- The live loop over what the channel delivers.
unfoldable pub live : ℕ → List Msg → List Msg
live last [] = []
live last (m ∷ queue) = elim (leb m.seq last) [
  | true ↦ live last queue
  | false ↦ m ∷ live m.seq queue
]

-- The messages of a session whose channel delivers `queue`.
unfoldable pub session : Start → List Msg → List Msg
session (closed f) queue = []
session (live_from f sent last) queue = sent ++ live last queue
