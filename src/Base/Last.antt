-- ===== src/Base/Last.antt =====
-- The last row of a table: what a search and a filter make of it.
use mathlib.Core.Path.{◌≡◌, refl, ap}
use mathlib.Core.Logic.{◌⊎◌, inl, inr}
use mathlib.Core.Bool.{Bool, true, false}
use mathlib.Core.Option.{some}
use mathlib.Core.List.{List, [], ◌∷◌, ◌++◌}
use native.Mathlib.Omega.{arith}
use sha.Base.Tests.{if◌then◌else◌, Bool-cases}
use sha.Base.Lists.{all, find_first, select_where, add_row}

module _ {ℓ} {A : Type ℓ} where
  pub find_first-select_where :
      (p q : A → Bool)
      → ((x : A) → q x ≡ true → p x ≡ true)
      → (xs : List A) → find_first q (select_where p xs) ≡ find_first q xs
  unfolding find_first select_where
  find_first-select_where p q le [] = refl
  find_first-select_where p q le (x ∷ xs) = elim (Bool-cases (p x)) [
    | inl e ↦ rw e (ap (λ r. if q x then some x else r) (find_first-select_where p q le xs))
    | inr e ↦ rw e (skip (Bool-cases (q x)) e (find_first-select_where p q le xs))
  ]
    where
      skip :
          ((q x ≡ true) ⊎ (q x ≡ false))
          → p x ≡ false
          → find_first q (select_where p xs) ≡ find_first q xs
          → find_first q (select_where p xs) ≡ (if q x then some x else find_first q xs)
      skip (inl t) e r = cc (le x t, e)
      skip (inr f) e r = rw f r

  pub select_where-add_row :
      (p : A → Bool) (r : A) (xs : List A)
      → p r ≡ true
      → select_where p (add_row r xs) ≡ select_where p xs ++ (r ∷ [])
  unfolding select_where
  select_where-add_row p r [] h = rw h refl
  select_where-add_row p r (x ∷ xs) h = elim (Bool-cases (p x)) [
    | inl e ↦ rw e (ap (λ t. x ∷ t) (select_where-add_row p r xs h))
    | inr e ↦ rw e (select_where-add_row p r xs h)
  ]

  -- The last of a list, where no earlier one fits.
  pub find_first-last :
      (p q : A → Bool)
      → ((x : A) → p x ≡ true → q x ≡ false)
      → (xs : List A) (r : A) → all p xs ≡ true
      → q r ≡ true
      → find_first q (xs ++ (r ∷ [])) ≡ some r
  unfolding find_first all
  find_first-last p q apart [] r h k = rw k refl
  find_first-last p q apart (x ∷ xs) r h k =
      let e : q x ≡ false = apart x (ground arith) in
      rw e (find_first-last p q apart xs r (ground arith) k)

  pub all-append_last :
      (p q : A → Bool)
      → ((x : A) → p x ≡ true → q x ≡ true)
      → (xs : List A) (r : A) → all p xs ≡ true
      → q r ≡ true
      → all q (xs ++ (r ∷ [])) ≡ true
  unfolding all
  all-append_last p q le [] r h k = ground arith
  all-append_last p q le (x ∷ xs) r h k =
      let e : q x ≡ true = le x (ground arith) in
      let s = all-append_last p q le xs r (ground arith) k in ground arith
