-- ===== src/Base/Filters.antt =====
-- Whether some row of a table has a property, once the table was filtered or ordered.
use mathlib.Core.Path.{◌≡◌, refl, ap, ◌∙◌}
use mathlib.Core.Logic.{inl, inr}
use mathlib.Core.Bool.{Bool, ◌&&◌, ◌||◌}
use mathlib.Core.List.{List, [], ◌∷◌, ◌++◌}
use native.Mathlib.Omega.{arith}
use sha.Base.Tests.{Bool-cases}
use sha.Base.Lists.{any, select_where, insert_by, order_by}

module _ {ℓ} {A : Type ℓ} (p : A → Bool) where
  pub any-append : (xs ys : List A) → any p (xs ++ ys) ≡ (any p xs || any p ys)
  unfolding any
  any-append [] ys = refl
  any-append (x ∷ xs) ys = ground (arith, any-append xs ys)

  pub any-select_where :
      (q : A → Bool) (xs : List A) → any p (select_where q xs) ≡ any (λ x. q x && p x) xs
  unfolding any select_where
  any-select_where q [] = refl
  any-select_where q (x ∷ xs) = elim (Bool-cases (q x)) [
    | inl e ↦ rw e (ap (λ b. p x || b) (any-select_where q xs))
    | inr e ↦ rw e (any-select_where q xs)
  ]

  pub any-insert_by :
      (before : A → A → Bool) (a : A) (xs : List A)
      → any p (insert_by before a xs) ≡ (p a || any p xs)
  unfolding any insert_by
  any-insert_by before a [] = refl
  any-insert_by before a (x ∷ xs) = elim (Bool-cases (before a x)) [
    | inl e ↦ rw e refl
    | inr e ↦ rw (e, any-insert_by before a xs) (ground arith)
  ]

  pub any-order_by : (before : A → A → Bool) (xs : List A) → any p (order_by before xs) ≡ any p xs
  unfolding any order_by
  any-order_by before [] = refl
  any-order_by before (x ∷ xs) =
      any-insert_by before x (order_by before xs) ∙ ap (λ b. p x || b) (any-order_by before xs)
