-- ===== src/Base/Sets.antt =====
-- Membership tests and duplicates over values that can be compared.
use mathlib.Core.Path.{◌≡◌, refl, subst}
use mathlib.Core.Logic.{◌↔◌, inl, inr}
use mathlib.Core.Bool.{Bool, true, false, ◌||◌}
use mathlib.Core.List.{List, [], ◌∷◌, Memᴰ}
use native.Mathlib.Omega.{arith}
use sha.Base.Tests.{Eq, ◌===◌, Bool-cases, if◌then◌else◌}

-- `value in values`
unfoldable pub contains {ℓ} : {A : Type ℓ} ⦃e : Eq A⦄ → A → List A → Bool
contains a [] = false
contains a (x ∷ xs) = a === x || contains a xs

module _ {ℓ} {A : Type ℓ} ⦃e : Eq A⦄ where
  pub contains-mem : (a : A) (xs : List A) → contains a xs ≡ true → Memᴰ a xs
  unfolding contains
  contains-mem a [] h = cc
  contains-mem a (x ∷ xs) h = elim (Bool-cases (a === x)) [
    | inl t ↦ Memᴰ.head ((e.agrees_iff a x).0 t)
    | inr f ↦ Memᴰ.tail (contains-mem a xs (ground arith))
  ]

  pub mem-contains : (a : A) (xs : List A) → Memᴰ a xs → contains a xs ≡ true
  unfolding contains
  mem-contains a [] m = elim m [ ]
  mem-contains a (x ∷ xs) (Memᴰ.head p) = ground (arith, (e.agrees_iff a x).1 p)
  mem-contains a (x ∷ xs) (Memᴰ.tail m) = ground (arith, mem-contains a xs m)

-- The loop of `has_duplicates`: `seen` holds the values met so far.
unfoldable pub dup_from {ℓ} : {A : Type ℓ} ⦃e : Eq A⦄ → List A → List A → Bool
dup_from seen [] = false
dup_from seen (x ∷ xs) = let rest = dup_from (x ∷ seen) xs in if contains x seen then true else rest

-- `has_duplicates` of backend/app/utils.py, with no key function.
unfoldable pub has_duplicates {ℓ} : {A : Type ℓ} ⦃e : Eq A⦄ → List A → Bool
unfolding dup_from
has_duplicates xs = dup_from [] xs

-- No value of the list stands again behind it.
abbrev pub Distinct {ℓ} : {A : Type ℓ} → List A → Type ℓ
Distinct [] = Unit
Distinct (x ∷ xs) = ¬ Memᴰ x xs × Distinct xs

abbrev pub Apart {ℓ} : {A : Type ℓ} → List A → List A → Type ℓ
Apart {A} seen xs = (a : A) → Memᴰ a seen → Memᴰ a xs → ⊥

module _ {ℓ} {A : Type ℓ} ⦃e : Eq A⦄ where
  dup_from-Distinct : (seen xs : List A) → dup_from seen xs ≡ false → Distinct xs × Apart seen xs
  unfolding dup_from
  dup_from-Distinct seen [] h = (tt, λ a m n. elim n [ ])
  dup_from-Distinct seen (x ∷ xs) h = elim (Bool-cases (contains x seen)) [
    | inl old ↦ cc (rw old at h)
    | inr new ↦
        let (d, apart) = dup_from-Distinct (x ∷ seen) xs (rw new at h) in
        ((apart x (Memᴰ.head refl), d), split new apart)
  ]
    where
      split : contains x seen ≡ false → Apart (x ∷ seen) xs → Apart seen (x ∷ xs)
      split new apart a m (Memᴰ.head p) = cc (mem-contains x seen (subst (λ y. Memᴰ y seen) p m))
      split new apart a m (Memᴰ.tail n) = apart a (Memᴰ.tail m) n

  Distinct-dup_from : (seen xs : List A) → Distinct xs → Apart seen xs → dup_from seen xs ≡ false
  unfolding dup_from
  Distinct-dup_from seen [] d apart = refl
  Distinct-dup_from seen (x ∷ xs) d apart = elim (Bool-cases (contains x seen)) [
    | inl old ↦ absurd (apart x (contains-mem x seen old) (Memᴰ.head refl))
    | inr new ↦ rw new (Distinct-dup_from (x ∷ seen) xs d.1 grown)
  ]
    where
      grown : Apart (x ∷ seen) xs
      grown a (Memᴰ.head p) n = d.0 (subst (λ y. Memᴰ y xs) p n)
      grown a (Memᴰ.tail m) n = apart a m (Memᴰ.tail n)

  -- `has_duplicates` is false exactly when all values are distinct.
  pub has_duplicates_iff : (xs : List A) → (has_duplicates xs ≡ false) ↔ Distinct xs
  unfolding has_duplicates
  has_duplicates_iff xs =
      (λ h. (dup_from-Distinct [] xs h).0, λ d. Distinct-dup_from [] xs d (λ a m n. elim m [ ]))
