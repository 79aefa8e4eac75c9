-- ===== src/Prelude/Actions.antt =====
-- Code that changes a state and may fail. What was written before a failure stays written, so the
-- state comes back beside the error too.
use mathlib.Core.Path.{◌≡◌, refl}
use mathlib.Core.Logic.{◌⊎◌, inl, inr}
use mathlib.Core.Bool.{Bool, true, false}
use mathlib.Core.Option.{Option, none, some}

pub data Result {ℓ κ} (E : Type ℓ) (A : Type κ) : Type (ℓ ⊔ κ) where
  ok : A → Result E A
  err : E → Result E A

abbrev pub Exec : Type 0 → Type 0 → Type 0 → Type 0
Exec S E A = S → Result E A × S

abbrev pub pure : {S E A : Type 0} → A → Exec S E A
pure a s = (ok a, s)

abbrev pub raise : {S E A : Type 0} → E → Exec S E A
raise e s = (err e, s)

abbrev then_run : {S E A B : Type 0} → Result E A → (A → Exec S E B) → Exec S E B
then_run (ok a) f s = f a s
then_run (err e) f s = (err e, s)

infixl 5 ◌>>=◌ ◌>>◌
abbrev pub ◌>>=◌ : {S E A B : Type 0} → Exec S E A → (A → Exec S E B) → Exec S E B
◌>>=◌ m f s = let (r, s') = m s in then_run r f s'

abbrev pub ◌>>◌ : {S E A B : Type 0} → Exec S E A → Exec S E B → Exec S E B
m >> k = m >>= λ _. k

-- `if cond { return error }`
abbrev pub raise_if : {S E : Type 0} → Bool → E → Exec S E (Unit {0})
raise_if true e s = (err e, s)
raise_if false e s = (ok tt, s)

abbrev pub result_or : {E F A : Type 0} → Result E A → F → Result F A
result_or (ok a) f = ok a
result_or (err e) f = err f

-- `if err := call(); err != nil { return error }`
abbrev pub try_or : {S E F A : Type 0} → Exec S E A → F → Exec S F A
try_or m f s = let (r, s') = m s in (result_or r f, s')

abbrev map_err : {E F A : Type 0} → (E → F) → Result E A → Result F A
map_err f (ok a) = ok a
map_err f (err e) = err (f e)

-- `if err := call(); err != nil { return f(err) }`
abbrev pub try_with : {S E F A : Type 0} → Exec S E A → (E → F) → Exec S F A
try_with m f s = let (r, s') = m s in (map_err f r, s')

-- `_, err := call()`: whether it succeeded.
abbrev pub is_ok : {E A : Type 0} → Result E A → Bool
is_ok (ok a) = true
is_ok (err e) = false

-- `_ = call()`
abbrev pub ignoring : {S E F A : Type 0} → Exec S E A → Exec S F (Unit {0})
ignoring m s = let (r, s') = m s in (ok tt, s')

-- A call that only reads.
abbrev pub reads : {S E A : Type 0} → (S → Result E A) → Exec S E A
reads f s = (f s, s)

abbrev pub from_option : {E A : Type 0} → Option A → E → Result E A
from_option none e = err e
from_option (some a) e = ok a

pub Result-cases :
    {E A : Type 0} (r : Result E A) → ((e : E) × (r ≡ err e)) ⊎ ((a : A) × (r ≡ ok a))
Result-cases (ok a) = inr (a, refl)
Result-cases (err e) = inl (e, refl)

pub ok_injective : {E A : Type 0} (a b : A) → ◌≡◌ {A = Result E A} (ok a) (ok b) → a ≡ b
ok_injective a b h = cc

pub err_injective : {E A : Type 0} (d e : E) → ◌≡◌ {A = Result E A} (err d) (err e) → d ≡ e
err_injective d e h = cc
