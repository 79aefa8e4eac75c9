-- ===== src/Sequencer/Stamp.antt =====
-- internal/sequencer/sequencer.go: the text of `created_at`, which is Go's RFC3339Nano in UTC, and its
-- byte order, by which the trimming compares. The text up to the seconds has one width, so its
-- order is that of the seconds; what follows is "Z", or "." and the nanoseconds' digits without
-- trailing zeros and then "Z".
use robby.Prelude.{
  ℕ, zero, suc, ◌+◌, ◌/◌, ◌%◌, Bool, true, false, List, [], ◌∷◌, ◌++◌, ltb, ◌==◌, nat_eq,
  if◌then◌else◌,
}
use robby.Accounts.Rows.{second}

pub record Stamp : Type 0 where
  pub secs : ℕ
  pub tail : List ℕ

-- The last `k` decimal digits of `n`, as bytes.
digit_bytes : ℕ → ℕ → List ℕ
digit_bytes zero n = []
digit_bytes (suc k) n = digit_bytes k (n / 10) ++ (n % 10 + b'0') ∷ []

keep_digit : ℕ → List ℕ → List ℕ
keep_digit d [] = if d == b'0' then [] else d ∷ []
keep_digit d (x ∷ xs) = d ∷ x ∷ xs

drop_zeros : List ℕ → List ℕ
unfolding keep_digit
drop_zeros [] = []
drop_zeros (d ∷ ds) = keep_digit d (drop_zeros ds)

unfoldable pub nano_tail : ℕ → List ℕ
unfolding digit_bytes drop_zeros
nano_tail nanos =
    if nanos == 0 then b'Z' ∷ [] else b'.' ∷ (drop_zeros (digit_bytes 9 nanos) ++ b'Z' ∷ [])

-- time.Format(time.RFC3339Nano)
unfoldable pub rfc3339_nano : ℕ → Stamp
rfc3339_nano t = record { secs = t / second; tail = nano_tail (t % second) }

unfoldable pub bytes_ltb : List ℕ → List ℕ → Bool
bytes_ltb [] [] = false
bytes_ltb [] (y ∷ ys) = true
bytes_ltb (x ∷ xs) [] = false
bytes_ltb (x ∷ xs) (y ∷ ys) = if ltb x y then true else if x == y then bytes_ltb xs ys else false

unfoldable pub stamp_ltb : Stamp → Stamp → Bool
unfolding bytes_ltb
stamp_ltb a b =
    if ltb a.secs b.secs then true else if a.secs == b.secs then bytes_ltb a.tail b.tail else false
