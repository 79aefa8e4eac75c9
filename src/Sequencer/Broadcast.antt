-- ===== src/Sequencer/Broadcast.antt =====
-- internal/sequencer/sequencer.go: the live subscribers. A channel is its id and what it buffers, oldest
-- first.
use robby.Prelude.{
  ℕ, ◌+◌, String, Option, none, some, List, [], ◌∷◌, ◌++◌, map, ltb, ◌==◌, nat_eq, if◌then◌else◌,
  length, delete,
}
use robby.Firehose.{Event}
use robby.Sequencer.Log.{Log, Msg, commit}

abbrev pub channel_capacity : ℕ
channel_capacity = 256

pub record Channel : Type 0 where
  pub id : ℕ
  pub buffer : List Msg

pub record Sequencer : Type 0 where
  pub log : Log
  pub subs : List Channel
  pub next_id : ℕ

unfoldable pub subscribe : Sequencer → ℕ × Sequencer
subscribe s = (
  s.next_id,
  record s {
    subs = s.subs ++ record { id = s.next_id; buffer = [] } ∷ [];
    next_id = s.next_id + 1;
  },
)

-- The cancel function of a subscription; a second call changes nothing.
unfoldable pub cancel : ℕ → Sequencer → Sequencer
cancel id s = record s { subs = delete (λ c. c.id == id) s.subs }

-- A slow consumer's message is dropped.
unfoldable pub offer : Msg → Channel → Channel
offer m c =
    if ltb (length c.buffer) channel_capacity then record c { buffer = c.buffer ++ m ∷ [] } else c

unfoldable pub broadcast : Msg → Sequencer → Sequencer
broadcast m s = record s { subs = map (offer m) s.subs }

-- Append with nothing between its transaction and its broadcast; `none` is an error.
unfoldable pub append : ℕ → String → Event → Sequencer → Option (ℕ × Sequencer)
append now did evt s = elim (commit now did evt s.log) [
  | none ↦ none
  | some (m, log) ↦ some (m.seq, broadcast m (record s { log = log }))
]
