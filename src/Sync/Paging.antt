-- ===== src/Sync/Paging.antt =====
-- A client that follows the cursors of a listing by ascending keys, as listBlobs is.
use robby.Prelude.{
  ℕ, zero, suc, ◌+◌, ◌<◌, String, Bool, true, false, ◌==◌, nat_eq, string_eq, text_ltb,
  text_ltb_irrefl, text_ltb_trans, if◌then◌else◌, ◌≡◌, ◌≢◌, refl, sym, ap, ◌∙◌, subst, Option, none,
  some, List, [], ◌∷◌, ◌++◌, inl, inr, arith, eq_iff, take, length, select, All, Bool-cases,
}
use robby.Migration.Account.{next_cursor, last_of}

-- Every key comes before the ones that follow it.
abbrev pub Ascending : List String → Type 0
Ascending [] = Unit {0}
Ascending (x ∷ xs) = All (λ y. text_ltb x y ≡ true) xs × Ascending xs

abbrev pub after : String → String → Bool
after cursor c = if cursor == "" then true else text_ltb cursor c

-- One answer: the keys of the page and its cursor; `none` is an error.
abbrev pub Answer : Type 0
Answer = Option (List String × Option String)

abbrev pub page_of : ℕ → List String → String → List String × Option String
page_of limit keys cursor =
    let page = take limit (select (after cursor) keys) in (page, next_cursor limit page)

abbrev prepend : List String → Option (List String) → Option (List String)
prepend page none = none
prepend page (some rest) = some (page ++ rest)

abbrev proceed : (String → Option (List String)) → Answer → Option (List String)
proceed next none = none
proceed next (some (page, none)) = some page
proceed next (some (page, some c)) = prepend page (next c)

-- The client asks again while there is a cursor; `none` is an error, or no fuel.
unfoldable pub follow : (String → Answer) → ℕ → String → Option (List String)
follow ask zero cursor = none
follow ask (suc fuel) cursor = proceed (follow ask fuel) (ask cursor)

append_assoc : (xs ys zs : List String) → (xs ++ ys) ++ zs ≡ xs ++ (ys ++ zs)
append_assoc [] ys zs = refl
append_assoc (x ∷ xs) ys zs = ap (λ l. x ∷ l) (append_assoc xs ys zs)

select_whole : (p : String → Bool) (xs : List String) → All (λ y. p y ≡ true) xs → select p xs ≡ xs
unfolding select
select_whole p [] h = refl
select_whole p (x ∷ xs) h = rw h.0 (ap (λ l. x ∷ l) (select_whole p xs h.1))

select-from_start : (xs : List String) → select (after "") xs ≡ xs
unfolding select
select-from_start [] = refl
select-from_start (x ∷ xs) = ap (λ l. x ∷ l) (select-from_start xs)

All-middle :
    (P : String → Type 0) (d : List String) (c : String) (rest : List String)
    → All P (d ++ c ∷ rest)
    → P c
All-middle P [] c rest h = h.0
All-middle P (x ∷ d) c rest h = All-middle P d c rest h.1

-- What comes after a key of an ascending list is the rest of it.
select-after :
    (d : List String) (c : String) (rest : List String)
    → Ascending (d ++ c ∷ rest)
    → select (text_ltb c) (d ++ c ∷ rest) ≡ rest
unfolding select
select-after [] c rest h = rw (text_ltb_irrefl c) (select_whole (text_ltb c) rest h.0)
select-after (x ∷ d) c rest h = ground (
  arith,
  select-after d c rest h.1,
  All-middle _ d c rest h.0,
  text_ltb_irrefl x,
  text_ltb_trans x c x,
)

abbrev drop : ℕ → List String → List String
drop zero xs = xs
drop (suc n) [] = []
drop (suc n) (x ∷ xs) = drop n xs

take-drop : (n : ℕ) (xs : List String) → take n xs ++ drop n xs ≡ xs
take-drop zero xs = refl
take-drop (suc n) [] = refl
take-drop (suc n) (x ∷ xs) = ap (λ l. x ∷ l) (take-drop n xs)

-- A page that is not full is all there is.
take_short : (n : ℕ) (xs : List String) → length (take n xs) ≢ n → take n xs ≡ xs
take_short zero xs h = absurd (h refl)
take_short (suc n) [] h = refl
take_short (suc n) (x ∷ xs) h = ap (λ l. x ∷ l) (take_short n xs (λ e. h (ap suc e)))

length-drop :
    (n : ℕ) (xs : List String) → length (take n xs) ≡ n → length (drop n xs) + n ≡ length xs
length-drop zero xs h = omega arith
length-drop (suc n) [] h = absurd (omega arith)
length-drop (suc n) (x ∷ xs) h = omega (arith, length-drop n xs (omega arith))

-- A page with a key has a last one.
last_of-append :
    (x : String) (xs : List String)
    → (d : List String) × (c : String) × (last_of (x ∷ xs) ≡ some c) × (x ∷ xs ≡ d ++ c ∷ [])
last_of-append x [] = ([], x, refl, refl)
last_of-append x (y ∷ xs) =
    let (d, c, e, h) = last_of-append y xs in (x ∷ d, c, e, ap (λ l. x ∷ l) h)

is_cons : (l : List String) → 0 < length l → (x : String) × (xs : List String) × (l ≡ x ∷ xs)
is_cons [] h = absurd (omega arith)
is_cons (x ∷ xs) h = (x, xs, refl)

-- The last key of a full page.
last_of_full :
    (limit : ℕ) (page : List String)
    → 0 < limit
    → length page ≡ limit
    → (d : List String) × (c : String) × (next_cursor limit page ≡ some c) × (page ≡ d ++ c ∷ [])
unfolding next_cursor
last_of_full limit page pos full =
    let (x, xs, e) = is_cons page (omega arith) in
    let (d, c, h, k) = last_of-append x xs in
    let test : (length page == limit) ≡ true = ground (arith, full) in
    (d, c, rw test (ap last_of e ∙ h), e ∙ k)

not_full :
    (limit : ℕ) (page : List String)
    → (length page == limit) ≡ false
    → next_cursor limit page ≡ none
unfolding next_cursor
not_full limit page h = rw h refl

module _ (limit : ℕ) (pos : 0 < limit) (keys : List String) (ascending : Ascending keys)
    (named : All (λ c. c ≢ "") keys) (ask : String → Answer)
    (answers : (cursor : String) → ask cursor ≡ some (page_of limit keys cursor)) where
  -- After the last key of a page come the keys that the page left.
  rest_after :
      (before d : List String) (c : String) (left : List String)
      → keys ≡ before ++ (d ++ c ∷ left)
      → select (after c) keys ≡ left
  rest_after before d c left e =
      let e' = e ∙ sym (append_assoc before d (c ∷ left)) in
      let given : (c == "") ≡ false = ground (
        arith,
        eq_iff c "",
        All-middle (λ c. c ≢ "") (before ++ d) c left (subst (All (λ c. c ≢ "")) e' named),
      ) in
      ap (λ start. select (λ k. if start then true else text_ltb c k) keys) given
      ∙ ap (select (text_ltb c)) e'
      ∙ select-after (before ++ d) c left (subst Ascending e' ascending)

  follow_rest :
      (fuel : ℕ) (cursor : String) (before rest : List String)
      → keys ≡ before ++ rest
      → select (after cursor) keys ≡ rest
      → length rest < fuel
      → follow ask fuel cursor ≡ some rest
  unfolding follow
  follow_rest zero cursor before rest e sel h = absurd (omega arith)
  follow_rest (suc fuel) cursor before rest e sel h =
      ap (proceed (follow ask fuel)) (answers cursor)
      ∙ ap (λ r. proceed (follow ask fuel) (some (take limit r, next_cursor limit (take limit r))))
          sel
      ∙ elim (Bool-cases (length (take limit rest) == limit)) [
        | inr more ↦
            ap (λ c. proceed (follow ask fuel) (some (take limit rest, c)))
              (not_full limit (take limit rest) more)
            ∙ ap some (take_short limit rest (λ full. absurd (ground (arith, full, more))))
        | inl full ↦
            let full' : length (take limit rest) ≡ limit = ground (arith, full) in
            let (d, c, last, split) = last_of_full limit (take limit rest) pos full' in
            let left = drop limit rest in
            let whole = take-drop limit rest in
            ap (λ c. proceed (follow ask fuel) (some (take limit rest, c))) last
            ∙ ap (prepend (take limit rest)) (
                follow_rest fuel c (before ++ take limit rest) left
                  (e
                    ∙ ap (λ r. before ++ r) (sym whole)
                    ∙ sym (append_assoc before (take limit rest) left))
                  (rest_after before d c left (
                    e
                    ∙ ap (λ r. before ++ r)
                        (sym whole ∙ ap (λ l. l ++ left) split ∙ append_assoc d (c ∷ []) left)))
                  (omega (arith, length-drop limit rest full')))
            ∙ ap some whole
      ]

  -- From the start the client gets every key, once and in order, and stops.
  pub follow_all : follow ask (length keys + 1) "" ≡ some keys
  follow_all = follow_rest (length keys + 1) "" [] keys refl (select-from_start keys) (omega arith)
