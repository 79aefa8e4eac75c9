-- ===== src/Prelude/Tables.antt =====
-- A SQL table as the list of its rows, in the order of insertion; a WHERE clause is a test of a row.
use mathlib.Core.Path.{◌≡◌, refl}
use mathlib.Core.Logic.{◌⊎◌}
use mathlib.Core.Bool.{Bool, true, false, ◌||◌, ◌&&◌}
use mathlib.Core.Option.{Option, none, some}
use mathlib.Core.List.{List, [], ◌∷◌, ◌++◌}
use native.Mathlib.Omega.{arith}
use Prim.Native.Nat.{ℕ}
use robby.Prelude.Tests.{ltb, if◌then◌else◌}

module _ {ℓ} {A : Type ℓ} where
  -- SELECT … WHERE, for a test that a key makes true of one row at most.
  unfoldable pub select_one : (A → Bool) → List A → Option A
  select_one p [] = none
  select_one p (r ∷ rs) = if p r then some r else select_one p rs

  -- SELECT … WHERE
  unfoldable pub select : (A → Bool) → List A → List A
  select p [] = []
  select p (r ∷ rs) = let rest = select p rs in if p r then r ∷ rest else rest

  -- DELETE … WHERE
  unfoldable pub delete : (A → Bool) → List A → List A
  delete p [] = []
  delete p (r ∷ rs) = let rest = delete p rs in if p r then rest else r ∷ rest

  -- UPDATE … SET … WHERE
  unfoldable pub update : (A → Bool) → (A → A) → List A → List A
  update p f [] = []
  update p f (r ∷ rs) = (if p r then f r else r) ∷ update p f rs

  -- Whether any row passes; for UPDATE and DELETE, whether rows are affected.
  unfoldable pub some_row : (A → Bool) → List A → Bool
  some_row p [] = false
  some_row p (r ∷ rs) = p r || some_row p rs

  -- ORDER BY a number, ascending; rows with one key stay in the order of the table.
  unfoldable pub insert_by : (A → ℕ) → A → List A → List A
  insert_by key x [] = x ∷ []
  insert_by key x (r ∷ rs) =
      let rest = insert_by key x rs in if ltb (key r) (key x) then r ∷ rest else x ∷ r ∷ rs

  unfoldable pub order_by : (A → ℕ) → List A → List A
  unfolding insert_by
  order_by key [] = []
  order_by key (r ∷ rs) = insert_by key r (order_by key rs)

  pub select_one_sound :
      (p : A → Bool) (rs : List A) (r : A) → select_one p rs ≡ some r → p r ≡ true
  unfolding select_one
  select_one_sound p [] r h = ground arith
  select_one_sound p (x ∷ rs) r h = ground (arith, select_one_sound p rs r)

  pub select_one-append_none :
      (p : A → Bool) (rs : List A) (x : A)
      → select_one p rs ≡ none
      → p x ≡ true
      → select_one p (rs ++ x ∷ []) ≡ some x
  unfolding select_one
  select_one-append_none p [] x h px = ground arith
  select_one-append_none p (y ∷ rs) x h px = ground (arith, select_one-append_none p rs x)

  pub select_one-append_other :
      (p : A → Bool) (rs : List A) (x : A)
      → p x ≡ false
      → select_one p (rs ++ x ∷ []) ≡ select_one p rs
  unfolding select_one
  select_one-append_other p [] x px = ground arith
  select_one-append_other p (y ∷ rs) x px = ground (arith, select_one-append_other p rs x)

  -- Deleting rows that the test does not see.
  pub select_one-delete_other :
      (p q : A → Bool) (rs : List A)
      → ((r : A) → p r ≡ true → q r ≡ false)
      → select_one p (delete q rs) ≡ select_one p rs
  unfolding select_one delete
  select_one-delete_other p q [] h = refl
  select_one-delete_other p q (r ∷ rs) h = ground (arith, h r, select_one-delete_other p q rs h)

  -- Deleting all rows that the test could see.
  pub select_one-delete_all :
      (p q : A → Bool) (rs : List A)
      → ((r : A) → p r ≡ true → q r ≡ true)
      → select_one p (delete q rs) ≡ none
  unfolding select_one delete
  select_one-delete_all p q [] h = refl
  select_one-delete_all p q (r ∷ rs) h = ground (arith, h r, select_one-delete_all p q rs h)

  -- An update that no test of the query sees.
  pub select_one-update_self :
      (p : A → Bool) (f : A → A) (rs : List A) (r : A)
      → ((x : A) → p x ≡ true → p (f x) ≡ true)
      → select_one p rs ≡ some r
      → select_one p (update p f rs) ≡ some (f r)
  unfolding select_one update
  select_one-update_self p f [] r h e = ground arith
  select_one-update_self p f (x ∷ rs) r h e = ground (arith, h x, select_one-update_self p f rs r h)

  pub select_one-update_other :
      (p q : A → Bool) (f : A → A) (rs : List A)
      → ((x : A) → q x ≡ true → p x ≡ false)
      → ((x : A) → q x ≡ true → p (f x) ≡ false)
      → select_one p (update q f rs) ≡ select_one p rs
  unfolding select_one update
  select_one-update_other p q f [] h k = refl
  select_one-update_other p q f (x ∷ rs) h k =
      ground (arith, h x, k x, select_one-update_other p q f rs h k)

  pub some_row-select_one :
      (p : A → Bool) (rs : List A) (r : A) → select_one p rs ≡ some r → some_row p rs ≡ true
  unfolding some_row select_one
  some_row-select_one p [] r h = ground arith
  some_row-select_one p (x ∷ rs) r h = ground (arith, some_row-select_one p rs r)

  pub select_one-of_some_row :
      (p : A → Bool) (rs : List A) → some_row p rs ≡ false → select_one p rs ≡ none
  unfolding some_row select_one
  select_one-of_some_row p [] h = refl
  select_one-of_some_row p (x ∷ rs) h = ground (arith, select_one-of_some_row p rs)

  -- Every row that a query returns passes its test.
  pub select-delete_none :
      (p q : A → Bool) (rs : List A)
      → ((r : A) → p r ≡ true → q r ≡ true)
      → select p (delete q rs) ≡ []
  unfolding select delete
  select-delete_none p q [] h = refl
  select-delete_none p q (r ∷ rs) h = ground (arith, h r, select-delete_none p q rs h)

  pub select-delete_other :
      (p q : A → Bool) (rs : List A)
      → ((r : A) → p r ≡ true → q r ≡ false)
      → select p (delete q rs) ≡ select p rs
  unfolding select delete
  select-delete_other p q [] h = refl
  select-delete_other p q (r ∷ rs) h = ground (arith, h r, select-delete_other p q rs h)

  pub select_one-append_some :
      (p : A → Bool) (rs : List A) (x r : A)
      → select_one p rs ≡ some r
      → select_one p (rs ++ x ∷ []) ≡ some r
  unfolding select_one
  select_one-append_some p [] x r h = ground arith
  select_one-append_some p (y ∷ rs) x r h = ground (arith, select_one-append_some p rs x r)

  -- An update leaves the row that a query finds, or applies to it, if it keeps the test's verdict.
  pub select_one-update_cases :
      (p q : A → Bool) (f : A → A) (rs : List A) (r : A)
      → ((x : A) → p (f x) ≡ p x)
      → select_one p rs ≡ some r
      → (select_one p (update q f rs) ≡ some r) ⊎ (select_one p (update q f rs) ≡ some (f r))
  unfolding select_one update
  select_one-update_cases p q f [] r h e = ground arith
  select_one-update_cases p q f (x ∷ rs) r h e =
      ground (arith, h x, select_one-update_cases p q f rs r h)

  pub some_row-delete_all :
      (p q : A → Bool) (rs : List A)
      → ((r : A) → p r ≡ true → q r ≡ true)
      → some_row p (delete q rs) ≡ false
  unfolding some_row delete
  some_row-delete_all p q [] h = refl
  some_row-delete_all p q (r ∷ rs) h = ground (arith, h r, some_row-delete_all p q rs h)

  pub some_row-delete_none :
      (p q : A → Bool) (rs : List A) → some_row p rs ≡ false → some_row p (delete q rs) ≡ false
  unfolding some_row delete
  some_row-delete_none p q [] h = refl
  some_row-delete_none p q (r ∷ rs) h = ground (arith, some_row-delete_none p q rs)

  pub some_row-append_none :
      (p : A → Bool) (rs : List A) (x : A)
      → some_row p rs ≡ false
      → p x ≡ false
      → some_row p (rs ++ x ∷ []) ≡ false
  unfolding some_row
  some_row-append_none p [] x h k = ground arith
  some_row-append_none p (r ∷ rs) x h k = ground (arith, some_row-append_none p rs x)

  pub some_row_mono :
      (p q : A → Bool) (rs : List A)
      → ((r : A) → p r ≡ true → q r ≡ true)
      → some_row q rs ≡ false
      → some_row p rs ≡ false
  unfolding some_row
  some_row_mono p q [] h k = refl
  some_row_mono p q (r ∷ rs) h k = ground (arith, h r, some_row_mono p q rs h)

  pub some_row-of_none :
      (p : A → Bool) (rs : List A) → select_one p rs ≡ none → some_row p rs ≡ false
  unfolding some_row select_one
  some_row-of_none p [] h = refl
  some_row-of_none p (x ∷ rs) h = ground (arith, some_row-of_none p rs)

  pub some_row-insert_by :
      (p : A → Bool) (key : A → ℕ) (x : A) (rs : List A)
      → some_row p (insert_by key x rs) ≡ (p x || some_row p rs)
  unfolding some_row insert_by
  some_row-insert_by p key x [] = refl
  some_row-insert_by p key x (r ∷ rs) = ground (arith, some_row-insert_by p key x rs)

  -- Sorting keeps whether a row passes.
  pub some_row-order_by :
      (p : A → Bool) (key : A → ℕ) (rs : List A) → some_row p (order_by key rs) ≡ some_row p rs
  unfolding some_row order_by
  some_row-order_by p key [] = refl
  some_row-order_by p key (r ∷ rs) =
      rw (some_row-insert_by p key r (order_by key rs), some_row-order_by p key rs) refl

  pub some_row-select :
      (p q : A → Bool) (rs : List A) → some_row p (select q rs) ≡ some_row (λ r. q r && p r) rs
  unfolding some_row select
  some_row-select p q [] = refl
  some_row-select p q (r ∷ rs) = ground (arith, some_row-select p q rs)
