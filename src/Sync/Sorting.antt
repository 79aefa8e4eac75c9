-- ===== src/Sync/Sorting.antt =====
-- internal/actorstore/store.go: ORDER BY on texts that differ: the order, and its place around a WHERE clause.
use robby.Prelude.{
  suc, String, Bool, true, false, text_ltb, text_ltb_irrefl, text_ltb_trans, text_ltb_total,
  if◌then◌else◌, ◌≡◌, ◌≢◌, refl, List, [], ◌∷◌, inl, inr, arith, length, select, All, Bool-cases,
}
use robby.ActorStore.Blobs.{insert_text, sort_texts}
use robby.Sync.Paging.{Ascending}

-- No text stands twice.
abbrev pub Distinct : List String → Type 0
Distinct [] = Unit {0}
Distinct (x ∷ xs) = All (λ y. x ≢ y) xs × Distinct xs

All-insert_text :
    (P : String → Type 0) (x : String) (cs : List String)
    → P x
    → All P cs
    → All P (insert_text x cs)
unfolding insert_text
All-insert_text P x [] p h = (p, tt)
All-insert_text P x (c ∷ cs) p h = elim (Bool-cases (text_ltb c x)) [
  | inl e ↦ rw e (h.0, All-insert_text P x cs p h.1)
  | inr e ↦ rw e (p, h)
]

pub All-sort_texts : (P : String → Type 0) (cs : List String) → All P cs → All P (sort_texts cs)
unfolding sort_texts
All-sort_texts P [] h = tt
All-sort_texts P (c ∷ cs) h = All-insert_text P c (sort_texts cs) h.0 (All-sort_texts P cs h.1)

-- A text that comes before the first of an ascending list comes before all of it.
precedes_rest :
    (x c : String) (cs : List String)
    → text_ltb x c ≡ true
    → All (λ y. text_ltb c y ≡ true) cs
    → All (λ y. text_ltb x y ≡ true) cs
precedes_rest x c [] h k = tt
precedes_rest x c (y ∷ cs) h k = (text_ltb_trans x c y h k.0, precedes_rest x c cs h k.1)

comes_before : (x c : String) → x ≢ c → text_ltb c x ≡ false → text_ltb x c ≡ true
comes_before x c differ h = elim (Bool-cases (text_ltb x c)) [
  | inl e ↦ e
  | inr e ↦ absurd (differ (text_ltb_total x c e h))
]

insert_text-Ascending :
    (x : String) (cs : List String)
    → All (λ y. x ≢ y) cs
    → Ascending cs
    → Ascending (insert_text x cs)
unfolding insert_text
insert_text-Ascending x [] d h = (tt, tt)
insert_text-Ascending x (c ∷ cs) d h = elim (Bool-cases (text_ltb c x)) [
  | inl e ↦
      rw e
        (All-insert_text (λ y. text_ltb c y ≡ true) x cs e h.0, insert_text-Ascending x cs d.1 h.1)
  | inr e ↦ let first = comes_before x c d.0 e in rw e ((first, precedes_rest x c cs first h.0), h)
]

pub sort_texts-Ascending : (cs : List String) → Distinct cs → Ascending (sort_texts cs)
unfolding sort_texts
sort_texts-Ascending [] d = tt
sort_texts-Ascending (c ∷ cs) d =
    insert_text-Ascending c (sort_texts cs) (All-sort_texts (λ y. c ≢ y) cs d.0)
      (sort_texts-Ascending cs d.1)

insert_text_first :
    (x : String) (cs : List String) → All (λ y. text_ltb x y ≡ true) cs → insert_text x cs ≡ x ∷ cs
unfolding insert_text
insert_text_first x [] h = refl
insert_text_first x (c ∷ cs) h = ground (arith, h.0, text_ltb_irrefl x, text_ltb_trans x c x)

All-select :
    (P : String → Type 0) (p : String → Bool) (cs : List String) → All P cs → All P (select p cs)
unfolding select
All-select P p [] h = tt
All-select P p (c ∷ cs) h = elim (Bool-cases (p c)) [
  | inl e ↦ rw e (h.0, All-select P p cs h.1)
  | inr e ↦ rw e (All-select P p cs h.1)
]

select-insert_text :
    (p : String → Bool) (x : String) (cs : List String)
    → All (λ y. x ≢ y) cs
    → Ascending cs
    → select p (insert_text x cs) ≡ (if p x then insert_text x (select p cs) else select p cs)
unfolding select insert_text
select-insert_text p x [] d h = ground arith
select-insert_text p x (c ∷ cs) d h = elim (Bool-cases (text_ltb c x)) [
  | inl e ↦ ground (arith, select-insert_text p x cs d.1 h.1)
  | inr e ↦
      let first = comes_before x c d.0 e in
      let all =
        insert_text_first x (select p cs)
          (All-select (λ y. text_ltb x y ≡ true) p cs (precedes_rest x c cs first h.0)) in
      ground (arith, all)
]

pub select-sort_texts :
    (p : String → Bool) (cs : List String)
    → Distinct cs
    → sort_texts (select p cs) ≡ select p (sort_texts cs)
unfolding sort_texts select
select-sort_texts p [] d = refl
select-sort_texts p (c ∷ cs) d = ground (
  arith,
  select-insert_text p c (sort_texts cs) (All-sort_texts (λ y. c ≢ y) cs d.0)
      (sort_texts-Ascending cs d.1),
  select-sort_texts p cs d.1,
)

length-insert_text : (x : String) (cs : List String) → length (insert_text x cs) ≡ suc (length cs)
unfolding insert_text
length-insert_text x [] = refl
length-insert_text x (c ∷ cs) = ground (arith, length-insert_text x cs)

pub length-sort_texts : (cs : List String) → length (sort_texts cs) ≡ length cs
unfolding sort_texts
length-sort_texts [] = refl
length-sort_texts (c ∷ cs) =
    omega (arith, length-insert_text c (sort_texts cs), length-sort_texts cs)
