-- ===== src/Migration/Paths.antt =====
-- internal/xrpc/migration.go: the path of a record is its collection and its key.
use Prim.Native.Nat.{compare as compare_ℕ}
use Prim.Native.String.{◌++◌ as append_text, slice, len, find}
use text.Mathlib.Text.{when, is_le}
use text.Mathlib.TextFind.{find_cases, Hit}
use text.Mathlib.TextPositions.{slice-append_left, slice-append_right, len-append}
use text.Mathlib.TextLemmas.{append_assoc}
use robby.Prelude.{
  ◌+◌, String, Bool, false, ◌≡◌, sym, ap, ◌∙◌, subst, Option, some, inl, inr, arith, Bool-cases,
}
use robby.Repo.Batch.{path_of}
use robby.Migration.Car.{cut, cut_at}

pub pair_injective :
    (a b c k : String)
    → ◌≡◌ {A = Option (String × String)} (some (a, b)) (some (c, k))
    → (a ≡ c) × (b ≡ k)
pair_injective a b c k h = (cc, cc)

abbrev inside : String → Bool
inside p = is_le (compare_ℕ (find p "/") (len p))

-- What stands before and behind the slash.
halves :
    (p : String)
    → Hit p "/"
    → (u : String) × (v : String) × (p ≡ path_of u v)
      × (slice p 0 (find p "/") ≡ u)
      × (slice p (find p "/" + 1) (len p) ≡ v)
halves p (u, v, e, at) = (
  u,
  v,
  e,
  ap (slice p 0) at ∙ ap (λ w. slice w 0 (len u)) e ∙ slice-append_left u (append_text "/" v),
  ap (λ i. slice p (i + 1) (len p)) at
      ∙ ap (λ w. slice w (len u + 1) (len w)) (e ∙ sym (append_assoc u "/" v))
      ∙ ap (λ i. slice (append_text (append_text u "/") v) (len u + 1) i)
          (len-append (append_text u "/") v)
      ∙ ap (λ i. slice (append_text (append_text u "/") v) i (len (append_text u "/") + len v))
          (sym (len-append u "/"))
      ∙ slice-append_right (append_text u "/") v,
)

cut_when : String → Bool → Option (String × String)
cut_when p b = cut_at p (when b (find p "/"))

-- A path that is cut is the collection, a slash and the key.
pub cut-path_of : (p c k : String) → cut p ≡ some (c, k) → p ≡ path_of c k
unfolding cut cut_when
cut-path_of p c k h = elim (Bool-cases (inside p)) [
  | inr out ↦
      let none_cut : cut_when p false ≡ some (c, k) =
        subst (λ b. cut_when p b ≡ some (c, k)) out h in
      absurd (ground (arith, none_cut))
  | inl e ↦ elim (find_cases p "/") [
    | inr miss ↦ absurd (ground (arith, miss, e))
    | inl hit ↦
        let (u, v, split, left, right) = halves p hit in
        let (same_c, same_k) =
          pair_injective (slice p 0 (find p "/")) (slice p (find p "/" + 1) (len p)) c k
            (subst (λ b. cut_when p b ≡ some (c, k)) e h) in
        split ∙ ap (λ x. path_of x v) (sym left ∙ same_c) ∙ ap (path_of c) (sym right ∙ same_k)
  ]
]
