-- ===== src/Prelude/Results.antt =====
-- Code that only reads and may fail, as a chain of results.
use robby.Prelude.Actions.{Result, ok, err, from_option, result_or}
use mathlib.Core.Path.{◌≡◌, refl}
use mathlib.Core.Option.{Option, none, some}
use mathlib.Core.Bool.{Bool, true, false}

infixl 5 ◌>>=◌ ◌>>◌
abbrev pub ◌>>=◌ : {E A B : Type 0} → Result E A → (A → Result E B) → Result E B
ok a >>= f = f a
err e >>= f = err e

abbrev pub ◌>>◌ : {E A B : Type 0} → Result E A → Result E B → Result E B
m >> k = m >>= λ _. k

-- `if cond { return error }`
abbrev pub refuse_if : {E : Type 0} → Bool → E → Result E (Unit {0})
refuse_if true e = err e
refuse_if false e = ok tt

-- The parts of a chain that succeeded.
pub refuse_if-eq-ok :
    {E A : Type 0} (b : Bool) (e : E) (m : Result E A) {a : A}
    → (refuse_if b e >> m) ≡ ok a
    → (b ≡ false) × (m ≡ ok a)
refuse_if-eq-ok true e m h = cc
refuse_if-eq-ok false e m h = (refl, h)

pub from_option-eq-ok :
    {E A : Type 0} (o : Option A) (e : E) {a : A} → from_option o e ≡ ok a → o ≡ some a
from_option-eq-ok none e h = cc
from_option-eq-ok (some x) e h = cc

pub result_or-eq-ok :
    {E F A : Type 0} (r : Result E A) (e : F) {a : A} → result_or r e ≡ ok a → r ≡ ok a
result_or-eq-ok (ok x) e h = cc
result_or-eq-ok (err x) e h = cc
