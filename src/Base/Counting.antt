-- ===== src/Base/Counting.antt =====
-- How many rows a filter selects: ordering a table does not change it.
use Prim.Native.Nat.{ℕ, suc, ◌+◌}
use mathlib.Core.Path.{◌≡◌, refl, ap, ◌∙◌}
use mathlib.Core.Logic.{inl, inr}
use mathlib.Core.Bool.{Bool, ◌&&◌}
use mathlib.Core.List.{List, [], ◌∷◌}
use native.Mathlib.Omega.{arith}
use sha.Base.Tests.{if◌then◌else◌, Bool-cases}
use sha.Base.Lists.{length, select_where, insert_by, order_by}

module _ {ℓ} {A : Type ℓ} (before : A → A → Bool) where
  length-insert_by : (a : A) (xs : List A) → length (insert_by before a xs) ≡ suc (length xs)
  unfolding insert_by
  length-insert_by a [] = refl
  length-insert_by a (x ∷ xs) = elim (Bool-cases (before a x)) [
    | inl e ↦ rw e refl
    | inr e ↦ rw e (ap suc (length-insert_by a xs))
  ]

  pub length-order_by : (xs : List A) → length (order_by before xs) ≡ length xs
  unfolding order_by
  length-order_by [] = refl
  length-order_by (x ∷ xs) = length-insert_by x (order_by before xs) ∙ ap suc (length-order_by xs)

module _ {ℓ} {A : Type ℓ} (p : A → Bool) where
  abbrev count : List A → ℕ
  count xs = length (select_where p xs)

  abbrev one_if : Bool → ℕ
  one_if b = if b then 1 else 0

  count-cons : (x : A) (xs : List A) → count (x ∷ xs) ≡ one_if (p x) + count xs
  unfolding select_where
  count-cons x xs = elim (Bool-cases (p x)) [
    | inl e ↦ rw e (omega arith)
    | inr e ↦ rw e (omega arith)
  ]

  count-insert_by :
      (before : A → A → Bool) (a : A) (xs : List A)
      → count (insert_by before a xs) ≡ one_if (p a) + count xs
  unfolding insert_by
  count-insert_by before a [] = count-cons a []
  count-insert_by before a (x ∷ xs) = elim (Bool-cases (before a x)) [
    | inl e ↦ rw e (count-cons a (x ∷ xs))
    | inr e ↦
        let u = count-cons x (insert_by before a xs) in
        let v = count-insert_by before a xs in let w = count-cons x xs in rw e (omega arith)
  ]

  pub count-order_by : (before : A → A → Bool) (xs : List A) → count (order_by before xs) ≡ count xs
  unfolding order_by
  count-order_by before [] = refl
  count-order_by before (x ∷ xs) =
      let u = count-insert_by before x (order_by before xs) in
      let v = count-order_by before xs in let w = count-cons x xs in omega arith

  -- Filtering twice is filtering by both.
  pub select_where-select_where :
      (q : A → Bool) (xs : List A)
      → select_where p (select_where q xs) ≡ select_where (λ x. q x && p x) xs
  unfolding select_where
  select_where-select_where q [] = refl
  select_where-select_where q (x ∷ xs) = elim (Bool-cases (q x)) [
    | inl e ↦ elim (Bool-cases (p x)) [
      | inl f ↦ rw (e, f) (ap (λ t. x ∷ t) (select_where-select_where q xs))
      | inr f ↦ rw (e, f) (select_where-select_where q xs)
    ]
    | inr e ↦ rw e (select_where-select_where q xs)
  ]
