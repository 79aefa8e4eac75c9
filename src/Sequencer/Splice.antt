-- ===== src/Sequencer/Splice.antt =====
-- internal/xrpc/subscribe.go: backfill and live tail are spliced together without gap or repetition,
-- where the channel delivers every event in order.
use robby.Prelude.{
  ℕ, sym, ◌≤◌, Bool, ◌≡◌, refl, List, [], ◌∷◌, ◌++◌, ◌+◌, ◌<◌, none, some, map, arith, leb, ltb,
  select, Bool-cases, inl, inr,
}
use robby.Sequencer.Log.{Row, Log, Msg, msg_of, latest_seq, earliest_seq, backfill}
use robby.Sequencer.Order.{Rising, IsOrdered, Rising-le, Rising-weaken, backfill-Rising}
use mathlib.Core.List.{append_assoc}
use robby.Sequencer.Subscribe.{live_from, start, session, live, last_of}

Rising-split :
    (lo hi : ℕ) (xs ys : List Row) → Rising lo hi (xs ++ ys) → Rising (last_of lo xs) hi ys
unfolding last_of
Rising-split lo hi [] ys h = h
Rising-split lo hi (x ∷ xs) ys h = Rising-split x.seq hi xs ys h.1

last_of-append : (lo : ℕ) (xs ys : List Row) → last_of lo (xs ++ ys) ≡ last_of (last_of lo xs) ys
unfolding last_of
last_of-append lo [] ys = refl
last_of-append lo (x ∷ xs) ys = last_of-append x.seq xs ys

le-last_of : (lo hi : ℕ) (xs ys : List Row) → Rising lo hi (xs ++ ys) → lo ≤ last_of lo xs
unfolding last_of
le-last_of lo hi [] ys h = omega arith
le-last_of lo hi (x ∷ xs) ys h = omega (arith, le-last_of x.seq hi xs ys h.1)

last_of-select :
    (p : Row → Bool) (lo lo' hi : ℕ) (xs ys : List Row)
    → lo ≤ lo'
    → Rising lo' hi (xs ++ ys)
    → last_of lo (select p xs) ≤ last_of lo' xs
unfolding last_of select
last_of-select p lo lo' hi [] ys k h = k
last_of-select p lo lo' hi (x ∷ xs) ys k h = elim (Bool-cases (p x)) [
  | inl e ↦ rw e (last_of-select p x.seq x.seq hi xs ys (omega arith) h.1)
  | inr e ↦ rw e (last_of-select p lo x.seq hi xs ys (omega arith) h.1)
]

-- What the backfill has sent is dropped from the channel.
live-sent :
    (last lo hi : ℕ) (xs ys : List Row) (queue : List Msg)
    → Rising lo hi (xs ++ ys)
    → last_of lo xs ≤ last
    → live last (map msg_of xs ++ queue) ≡ live last queue
unfolding live last_of
live-sent last lo hi [] ys queue h k = refl
live-sent last lo hi (x ∷ xs) ys queue h k =
    ground (arith, le-last_of x.seq hi xs ys h.1, live-sent last x.seq hi xs ys queue h.1 k)

-- What comes later is sent.
live-later :
    (last hi : ℕ) (xs : List Row) → Rising last hi xs → live last (map msg_of xs) ≡ map msg_of xs
unfolding live
live-later last hi [] h = refl
live-later last hi (x ∷ xs) h = ground (arith, live-later x.seq hi xs h.1)

select-append :
    (p : Row → Bool) (xs ys : List Row) → select p (xs ++ ys) ≡ select p xs ++ select p ys
unfolding select
select-append p [] ys = refl
select-append p (x ∷ xs) ys = ground (arith, select-append p xs ys)

select-above :
    (cursor lo hi : ℕ) (xs : List Row)
    → cursor ≤ lo
    → Rising lo hi xs
    → select (λ r. ltb cursor r.seq) xs ≡ xs
unfolding select
select-above cursor lo hi [] k h = refl
select-above cursor lo hi (x ∷ xs) k h = ground (arith, select-above cursor x.seq hi xs)

map-append : (xs ys : List Row) → map msg_of (xs ++ ys) ≡ map msg_of xs ++ map msg_of ys
map-append [] ys = refl
map-append (x ∷ xs) ys = rw (map-append xs ys) refl

-- The messages rise strictly from above `lo`.
abbrev pub Ascending : ℕ → List Msg → Type 0
Ascending lo [] = lo ≤ lo
Ascending lo (m ∷ ms) = (lo < m.seq) × Ascending m.seq ms

pub live-skip :
    (last : ℕ) (m : Msg) (queue : List Msg) → m.seq ≤ last → live last (m ∷ queue) ≡ live last queue
unfolding live
live-skip last m queue h = ground arith

pub live-send :
    (last : ℕ) (m : Msg) (queue : List Msg)
    → last < m.seq
    → live last (m ∷ queue) ≡ m ∷ live m.seq queue
unfolding live
live-send last m queue h = ground arith

-- Whatever order the channel delivers in, the live loop sends rising sequence numbers only.
pub live-Ascending : (last : ℕ) (queue : List Msg) → Ascending last (live last queue)
live-Ascending last [] = unfold live in omega arith
live-Ascending last (m ∷ queue) = elim (Bool-cases (leb m.seq last)) [
  | inl e ↦ rw (live-skip last m queue (ground arith)) (live-Ascending last queue)
  | inr e ↦ rw (live-send last m queue (ground arith)) (ground arith, live-Ascending m.seq queue)
]

-- A cursor in the window is neither ahead nor outdated: its session starts with the backfill.
pub start-resumes :
    (cursor : ℕ) (l1 l2 l3 : Log)
    → cursor ≤ latest_seq l1
    → earliest_seq l2 ≤ cursor + 1
    → start (some cursor) l1 l2 l3
      ≡ live_from none (map msg_of (backfill cursor l3)) (last_of 0 (backfill cursor l3))
unfolding start
start-resumes cursor l1 l2 l3 h k = ground arith

Rising-prefix : (lo hi : ℕ) (xs ys : List Row) → Rising lo hi (xs ++ ys) → Rising lo hi xs
Rising-prefix lo hi [] ys h = Rising-le lo hi ys h
Rising-prefix lo hi (x ∷ xs) ys h = (h.0, Rising-prefix x.seq hi xs ys h.1)

-- After a backfill that ended with `bs`, the channel's `bs` is dropped and its `cs` is sent.
live-resumes :
    (z hi : ℕ) (bs cs : List Row)
    → Rising z hi (bs ++ cs)
    → live (last_of z bs) (map msg_of (bs ++ cs)) ≡ map msg_of cs
live-resumes z hi bs cs h =
    rw (map-append bs cs, live-sent (last_of z bs) z hi bs cs (map msg_of cs) h (omega arith))
      (live-later (last_of z bs) hi cs (Rising-split z hi bs cs h))

-- The backfill of `sent ++ bs` ends with `bs`.
last_of-backfill :
    (cursor hi : ℕ) (sent bs cs : List Row)
    → Rising cursor hi (bs ++ cs)
    → last_of 0 (select (λ r. ltb cursor r.seq) (sent ++ bs))
      ≡ last_of (last_of 0 (select (λ r. ltb cursor r.seq) sent)) bs
last_of-backfill cursor hi sent bs cs k =
    rw
      (
        select-append (λ r. ltb cursor r.seq) sent bs,
        select-above cursor cursor hi bs (omega arith) (Rising-prefix cursor hi bs cs k),
      )
      (last_of-append 0 (select (λ r. ltb cursor r.seq) sent) bs)

live-splice :
    (cursor hi : ℕ) (sent bs cs : List Row)
    → Rising 0 hi (sent ++ (bs ++ cs))
    → Rising cursor hi (bs ++ cs)
    → live (last_of 0 (select (λ r. ltb cursor r.seq) (sent ++ bs))) (map msg_of (bs ++ cs))
      ≡ map msg_of cs
live-splice cursor hi sent bs cs h k = rw (last_of-backfill cursor hi sent bs cs k) (
    live-resumes (last_of 0 (select (λ r. ltb cursor r.seq) sent)) hi bs cs (
      Rising-weaken _ (last_of 0 sent) hi (bs ++ cs)
        (last_of-select (λ r. ltb cursor r.seq) 0 0 hi sent (bs ++ cs) (omega arith) h)
        (Rising-split 0 hi sent (bs ++ cs) h)))

select-splice :
    (cursor hi : ℕ) (sent bs cs : List Row)
    → Rising cursor hi (bs ++ cs)
    → select (λ r. ltb cursor r.seq) (sent ++ bs) ++ cs
      ≡ select (λ r. ltb cursor r.seq) (sent ++ (bs ++ cs))
select-splice cursor hi sent bs cs k =
    rw
      (
        select-append (λ r. ltb cursor r.seq) sent bs,
        select-append (λ r. ltb cursor r.seq) sent (bs ++ cs),
        select-above cursor cursor hi (bs ++ cs) (omega arith) k,
        select-above cursor cursor hi bs (omega arith) (Rising-prefix cursor hi bs cs k),
      )
      (append_assoc (select (λ r. ltb cursor r.seq) sent) bs cs)

-- Where the log is in order, the cursor is in the window, and the channel delivers every row from some row above
-- the cursor on, in order, a session sends exactly the events above the cursor, each once and in
-- order. The backfill reads the rows `sent ++ bs`, and the channel delivers `bs`, which the backfill has sent,
-- and the later `cs`.
pub session-splice :
    (cursor hi : ℕ) (sent bs cs : List Row) (l1 l2 l3 : Log)
    → Rising 0 hi (sent ++ (bs ++ cs))
    → Rising cursor hi (bs ++ cs)
    → cursor ≤ latest_seq l1
    → earliest_seq l2 ≤ cursor + 1
    → IsOrdered l3
    → l3.rows ≡ sent ++ bs
    → session (start (some cursor) l1 l2 l3) (map msg_of (bs ++ cs))
      ≡ map msg_of (select (λ r. ltb cursor r.seq) (sent ++ (bs ++ cs)))
unfolding session
session-splice cursor hi sent bs cs l1 l2 l3 h k c1 c2 o e =
    rw
      (
        start-resumes cursor l1 l2 l3 c1 c2,
        backfill-Rising cursor l3 o,
        e,
        live-splice cursor hi sent bs cs h k,
        sym (map-append (select (λ r. ltb cursor r.seq) (sent ++ bs)) cs),
        select-splice cursor hi sent bs cs k,
      )
      refl
