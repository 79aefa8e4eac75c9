-- ===== src/Sequencer/Race.antt =====
-- internal/sequencer/sequencer.go and internal/xrpc/subscribe.go: Append commits first and broadcasts
-- afterwards, under no common lock, so two appends may broadcast in the other order.
use robby.Prelude.{ℕ, ◌≤◌, ◌<◌, String, ◌≡◌, refl, some, List, [], ◌∷◌, ◌++◌, arith, subst, ◌∙◌}
use robby.Firehose.{Event}
use robby.Sequencer.Log.{Log, Msg, commit}
use robby.Sequencer.Broadcast.{Sequencer, broadcast, offer}
use robby.Sequencer.Order.{IsOrdered, commit-IsOrdered}
use robby.Sequencer.Subscribe.{live}
use robby.Sequencer.Splice.{live-skip, live-send}

-- The sequencer with the messages that are committed and not yet broadcast.
pub record Running : Type 0 where
  pub seqr : Sequencer
  pub pending : List Msg

infix 5 ◌⟶◌ ◌⟶*◌
-- One Append in its two steps, at any pace: an append broadcasts any time after its commit.
pub data ◌⟶◌ : Running → Running → Type 0 where
  commits :
      {s : Running} (now : ℕ) (did : String) (evt : Event) (m : Msg) (log : Log)
      → commit now did evt s.seqr.log ≡ some (m, log)
      → s ⟶ record { seqr = record s.seqr { log = log }; pending = s.pending ++ m ∷ [] }
  publishes :
      {s : Running} (before : List Msg) (m : Msg) (after : List Msg)
      → s.pending ≡ before ++ m ∷ after
      → s ⟶ record { seqr = broadcast m s.seqr; pending = before ++ after }

pub data ◌⟶*◌ : Running → Running → Type 0 where
  done : {s : Running} → s ⟶* s
  more : {s t u : Running} → s ⟶ t → t ⟶* u → s ⟶* u

-- Two events can be committed in order and reach a channel with room for both in reverse.
broadcasts-reverse :
    (now : ℕ) (d1 d2 : String) (e1 e2 : Event) (s : Sequencer) (m1 m2 : Msg) (l1 l2 : Log)
    → commit now d1 e1 s.log ≡ some (m1, l1)
    → commit now d2 e2 l1 ≡ some (m2, l2)
    → record { seqr = s; pending = [] }
      ⟶* record { seqr = broadcast m1 (broadcast m2 (record s { log = l2 })); pending = [] }
broadcasts-reverse now d1 d2 e1 e2 s m1 m2 l1 l2 c1 c2 = more (commits now d1 e1 m1 l1 c1) (
    more (commits now d2 e2 m2 l2 c2)
      (more (publishes (m1 ∷ []) m2 [] refl) (more (publishes [] m1 [] refl) done)))

-- The live loop that gets the later of two messages first never sends the earlier.
late_message_lost :
    (last : ℕ) (m1 m2 : Msg) (queue : List Msg)
    → m1.seq ≤ m2.seq
    → last < m2.seq
    → live last (m2 ∷ m1 ∷ queue) ≡ live last (m2 ∷ queue)
late_message_lost last m1 m2 queue h k =
    rw (live-send last m2 (m1 ∷ queue) k, live-send last m2 queue k, live-skip m2.seq m1 queue h)
      refl

abbrev pub watched : Log → List Msg → Sequencer
watched log buffer = record {
  log = log;
  subs = record { id = 0; buffer = buffer } ∷ [];
  next_id = 1;
}

both_offered :
    (l2 : Log) (m1 m2 : Msg)
    → broadcast m1 (broadcast m2 (watched l2 [])) ≡ watched l2 (m2 ∷ m1 ∷ [])
unfolding broadcast offer
both_offered l2 m1 m2 = refl

live-alone : (last : ℕ) (m : Msg) → last < m.seq → live last (m ∷ []) ≡ m ∷ []
unfolding live
live-alone last m h = ground arith

-- Two appends that commit one after the other can broadcast the other way round. A subscriber with
-- an empty channel that is up to date then gets both messages, the later one first, and its live
-- loop sends the later and never the earlier, though both are in the log.
pub reversed_broadcasts_lose :
    (now : ℕ) (d1 d2 : String) (e1 e2 : Event) (l l1 l2 : Log) (m1 m2 : Msg) (last : ℕ)
    → IsOrdered l
    → commit now d1 e1 l ≡ some (m1, l1)
    → commit now d2 e2 l1 ≡ some (m2, l2)
    → last ≤ l.last_seq
    → (record { seqr = watched l []; pending = [] }
        ⟶* record { seqr = watched l2 (m2 ∷ m1 ∷ []); pending = [] })
      × (m1.seq < m2.seq)
      × (live last (m2 ∷ m1 ∷ []) ≡ m2 ∷ [])
reversed_broadcasts_lose now d1 d2 e1 e2 l l1 l2 m1 m2 last o c1 c2 h =
    let (o1, n1, k1) = commit-IsOrdered now d1 e1 l m1 l1 o c1 in
    let (_, n2, _) = commit-IsOrdered now d2 e2 l1 m2 l2 o1 c2 in
    (
      subst (λ t. record { seqr = watched l []; pending = [] } ⟶* record { seqr = t; pending = [] })
          (both_offered l2 m1 m2)
          (broadcasts-reverse now d1 d2 e1 e2 (watched l []) m1 m2 l1 l2 c1 c2),
      omega arith,
      late_message_lost last m1 m2 [] (omega arith) (omega arith)
          ∙ live-alone last m2 (omega arith),
    )
