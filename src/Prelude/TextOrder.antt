-- ===== src/Prelude/TextOrder.antt =====
-- The order of texts is a strict linear order.
use Prim.Native.Char.{Char, code}
use Prim.Native.Nat.{Ordering, compare as compare_ℕ}
use Prim.Native.String.compare
use Prim.Native.String.{String, [], ◌∷◌, compare as compare_text, then as then_order}
use mathlib.Core.Path.{◌≡◌, refl, ap, ◌∙◌}
use mathlib.Core.Bool.{Bool, true, false}
use native.Mathlib.Omega.{arith}
use text.Mathlib.Text.{is_lt}
use text.Mathlib.TextEquality.{codes_equal}
use robby.Prelude.Tests.{ltb, text_ltb, if◌then◌else◌, ◌==◌, nat_eq}

-- How the heads decide.
abbrev head_ltb : Char → Char → Bool → Bool
head_ltb c d rest = if ltb (code c) (code d) then true else if code c == code d then rest else false

text_ltb-cons : (c d : Char) (s t : String) → text_ltb (c ∷ s) (d ∷ t) ≡ head_ltb c d (text_ltb s t)
text_ltb-cons c d s t =
    ap is_lt (compare.cons-cons c d s t) ∙ heads (compare_ℕ (code c) (code d)) refl
  where
    heads :
        (o : Ordering)
        → compare_ℕ (code c) (code d) ≡ o
        → is_lt (then_order o (compare_text s t)) ≡ head_ltb c d (text_ltb s t)
    heads Ordering.lt e = ground arith
    heads Ordering.eq e = ground arith
    heads Ordering.gt e = ground arith

pub text_ltb-nil : (s : String) → text_ltb s [] ≡ false
text_ltb-nil [] = ap is_lt compare.nil-nil
text_ltb-nil (c ∷ s) = ap is_lt (compare.cons-nil c s)

nil-text_ltb : (d : Char) (t : String) → text_ltb [] (d ∷ t) ≡ true
nil-text_ltb d t = ap is_lt (compare.nil-cons d t)

pub text_ltb_irrefl : (s : String) → text_ltb s s ≡ false
text_ltb_irrefl [] = text_ltb-nil []
text_ltb_irrefl (c ∷ s) = text_ltb-cons c c s s ∙ ground (arith, text_ltb_irrefl s)

pub text_ltb_trans :
    (s t u : String) → text_ltb s t ≡ true → text_ltb t u ≡ true → text_ltb s u ≡ true
text_ltb_trans s [] u h k = absurd (ground (arith, text_ltb-nil s))
text_ltb_trans s (d ∷ t) [] h k = absurd (ground (arith, text_ltb-nil (d ∷ t)))
text_ltb_trans [] (d ∷ t) (e ∷ u) h k = nil-text_ltb e u
text_ltb_trans (c ∷ s) (d ∷ t) (e ∷ u) h k = ground (
  arith,
  text_ltb-cons c d s t,
  text_ltb-cons d e t u,
  text_ltb-cons c e s u,
  text_ltb_trans s t u,
)

pub text_ltb_total : (s t : String) → text_ltb s t ≡ false → text_ltb t s ≡ false → s ≡ t
text_ltb_total [] [] h k = refl
text_ltb_total [] (d ∷ t) h k = absurd (ground (arith, nil-text_ltb d t))
text_ltb_total (c ∷ s) [] h k = absurd (ground (arith, nil-text_ltb c s))
text_ltb_total (c ∷ s) (d ∷ t) h k =
    λ i. codes_equal c d same_code i ∷ text_ltb_total s t rest.0 rest.1 i
  where
    same_code : compare_ℕ (code c) (code d) ≡ Ordering.eq
    same_code = ground (arith, text_ltb-cons c d s t, text_ltb-cons d c t s)

    rest : (text_ltb s t ≡ false) × (text_ltb t s ≡ false)
    rest = ground (arith, text_ltb-cons c d s t, text_ltb-cons d c t s)
