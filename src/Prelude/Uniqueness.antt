-- ===== src/Prelude/Uniqueness.antt =====
-- Rows of which no two have one key.
use mathlib.Core.Path.{◌≡◌, refl, ◌∙◌}
use mathlib.Core.Logic.{inl, inr}
use mathlib.Core.Bool.{Bool, false}
use mathlib.Core.List.{List, [], ◌∷◌}
use Prim.Native.Nat.{ℕ}
use native.Mathlib.Omega.{arith}
use robby.Prelude.Tests.{ltb, Bool-cases}
use robby.Prelude.Tables.{some_row, order_by, insert_by, some_row-insert_by, some_row-order_by}

module _ {A : Type 0} (same : A → A → Bool) where
  abbrev pub Keyed : List A → Type 0
  Keyed [] = Unit {0}
  Keyed (r ∷ rs) = (some_row (same r) rs ≡ false) × Keyed rs

  module _ (same_sym : (a b : A) → same a b ≡ same b a) (key : A → ℕ) where
    insert_by-Keyed :
        (x : A) (rs : List A) → some_row (same x) rs ≡ false → Keyed rs → Keyed (insert_by key x rs)
    unfolding insert_by some_row
    insert_by-Keyed x [] h k = (refl, tt)
    insert_by-Keyed x (r ∷ rs) h k = elim (Bool-cases (ltb (key r) (key x))) [
      | inr e ↦ rw e (h, k)
      | inl e ↦ rw e (
        some_row-insert_by (same r) key x rs ∙ ground (arith, same_sym r x, h, k.0),
        insert_by-Keyed x rs (ground arith) k.1,
      )
    ]

    -- Sorting keeps the keys apart.
    pub order_by-Keyed : (rs : List A) → Keyed rs → Keyed (order_by key rs)
    unfolding order_by
    order_by-Keyed [] h = tt
    order_by-Keyed (r ∷ rs) h =
        insert_by-Keyed r (order_by key rs) (some_row-order_by (same r) key rs ∙ h.0)
          (order_by-Keyed rs h.1)
