-- ===== src/Sequencer/Order.antt =====
-- internal/sequencer/sequencer.go: sequence numbers only grow, and the log is read in their order.
use robby.Prelude.{
  ℕ, ◌+◌, ◌≤◌, ◌<◌, String, Bool, ◌≡◌, refl, some, List, [], ◌∷◌, ◌++◌, arith, delete, select, ltb,
  Option-cases, Bool-cases, inl, inr,
}
use robby.Firehose.{Event, seq_of, serialize}
use robby.Sequencer.Log.{
  Row, Log, Msg, msg_of, commit, stored_row, trim, backfill, sort_seq, insert_seq,
}

-- Sequence numbers rise strictly, from above `lo`, and none is above `hi`.
abbrev pub Rising : ℕ → ℕ → List Row → Type 0
Rising lo hi [] = lo ≤ hi
Rising lo hi (r ∷ rs) = (lo < r.seq) × Rising r.seq hi rs

abbrev pub IsOrdered : Log → Type 0
IsOrdered log = Rising 0 log.last_seq log.rows

pub Rising-le : (lo hi : ℕ) (rs : List Row) → Rising lo hi rs → lo ≤ hi
Rising-le lo hi [] h = h
Rising-le lo hi (r ∷ rs) h = omega (arith, Rising-le r.seq hi rs h.1)

pub Rising-weaken : (lo lo' hi : ℕ) (rs : List Row) → lo ≤ lo' → Rising lo' hi rs → Rising lo hi rs
Rising-weaken lo lo' hi [] k h = omega arith
Rising-weaken lo lo' hi (r ∷ rs) k h = (omega arith, h.1)

pub Rising-delete :
    (q : Row → Bool) (lo hi : ℕ) (rs : List Row) → Rising lo hi rs → Rising lo hi (delete q rs)
unfolding delete
Rising-delete q lo hi [] h = h
Rising-delete q lo hi (r ∷ rs) h = elim (Bool-cases (q r)) [
  | inl gone ↦ rw gone (Rising-weaken lo r.seq hi _ (omega arith) (Rising-delete q r.seq hi rs h.1))
  | inr kept ↦ rw kept (h.0, Rising-delete q r.seq hi rs h.1)
]

pub Rising-select :
    (q : Row → Bool) (lo hi : ℕ) (rs : List Row) → Rising lo hi rs → Rising lo hi (select q rs)
unfolding select
Rising-select q lo hi [] h = h
Rising-select q lo hi (r ∷ rs) h = elim (Bool-cases (q r)) [
  | inl kept ↦ rw kept (h.0, Rising-select q r.seq hi rs h.1)
  | inr gone ↦ rw gone (Rising-weaken lo r.seq hi _ (omega arith) (Rising-select q r.seq hi rs h.1))
]

pub Rising-concat :
    (lo hi : ℕ) (rs : List Row) (x : Row)
    → hi < x.seq
    → Rising lo hi rs
    → Rising lo x.seq (rs ++ x ∷ [])
Rising-concat lo hi [] x e h = (omega arith, omega arith)
Rising-concat lo hi (r ∷ rs) x e h = (h.0, Rising-concat r.seq hi rs x e h.1)

insert-least :
    (x : Row) (lo hi : ℕ) (rs : List Row) → x.seq ≤ lo → Rising lo hi rs → insert_seq x rs ≡ x ∷ rs
unfolding insert_seq
insert-least x lo hi [] k h = refl
insert-least x lo hi (r ∷ rs) k h = ground arith

-- The rows of an ordered log are in the order of the primary key already.
pub sort_seq-Rising : (lo hi : ℕ) (rs : List Row) → Rising lo hi rs → sort_seq rs ≡ rs
unfolding sort_seq
sort_seq-Rising lo hi [] h = refl
sort_seq-Rising lo hi (r ∷ rs) h =
    rw (sort_seq-Rising r.seq hi rs h.1) (insert-least r r.seq hi rs (omega arith) h.1)

-- Backfill hands over the rows above the cursor, in rising order.
pub backfill-Rising :
    (since : ℕ) (log : Log)
    → IsOrdered log
    → (backfill since log ≡ select (λ r. ltb since r.seq) log.rows)
unfolding backfill
backfill-Rising since log h =
    sort_seq-Rising 0 log.last_seq _ (Rising-select _ 0 log.last_seq log.rows h)

-- A commit stores one row, with the next number and the current time.
pub commit-stored_row :
    (now : ℕ) (did : String) (evt : Event) (log : Log) (m : Msg) (log' : Log)
    → commit now did evt log ≡ some (m, log')
    → (row : Row) × (row.seq ≡ log.last_seq + 1)
      × (row.stored ≡ now)
      × (m ≡ msg_of row)
      × (log' ≡ stored_row now row log)
unfolding commit
commit-stored_row now did evt log m log' e = elim (Option-cases (seq_of (log.last_seq + 1) evt)) [
  | inl bad ↦ absurd (ground arith)
  | inr ((t, stamped), e1) ↦ elim (Option-cases (serialize stamped)) [
    | inl bad ↦ absurd (ground arith)
    | inr (payload, e2) ↦ (
      record { seq = log.last_seq + 1; did = did; evt_type = t; payload = payload; stored = now },
      refl,
      refl,
      ground arith,
      ground arith,
    )
  ]
]

pub stored_row-IsOrdered :
    (now : ℕ) (row : Row) (log : Log)
    → row.seq ≡ log.last_seq + 1
    → IsOrdered log
    → IsOrdered (stored_row now row log)
unfolding stored_row trim
stored_row-IsOrdered now row log e h =
    Rising-delete _ 0 row.seq _ (Rising-concat 0 log.last_seq log.rows row (omega arith) h)

-- A committed event gets the next number, and the log stays ordered.
pub commit-IsOrdered :
    (now : ℕ) (did : String) (evt : Event) (log : Log) (m : Msg) (log' : Log)
    → IsOrdered log
    → commit now did evt log ≡ some (m, log')
    → IsOrdered log' × (m.seq ≡ log.last_seq + 1) × (log'.last_seq ≡ m.seq)
commit-IsOrdered now did evt log m log' h e =
    let (row, next, _, em, el) = commit-stored_row now did evt log m log' e in
    rw (em, el) (stored_row-IsOrdered now row log next h, next, unfold stored_row in refl)
