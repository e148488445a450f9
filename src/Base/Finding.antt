-- ===== src/Base/Finding.antt =====
-- Where a search finds a row again after the table was written.
use mathlib.Core.Path.{◌≡◌, refl, ap, ◌∙◌}
use mathlib.Core.Bool.{Bool, true, false}
use mathlib.Core.Option.{none, some}
use mathlib.Core.List.{List, [], ◌∷◌, Memᴰ}
use native.Mathlib.Omega.{arith}
use mathlib.Core.Logic.{inl, inr}
use sha.Base.Tests.{if◌then◌else◌, Bool-cases, Option-cases}
use sha.Base.Lists.{
  any, find_first, select_where, update_where, update_first, add_row, find_first-none,
}

module _ {ℓ} {A : Type ℓ} (p : A → Bool) where
  pub find_first-none_of_any : (xs : List A) → any p xs ≡ false → find_first p xs ≡ none
  unfolding any find_first
  find_first-none_of_any [] h = refl
  find_first-none_of_any (x ∷ xs) h =
      let r = find_first-none_of_any xs (ground arith) in
      let e : p x ≡ false = ground arith in rw e r

  -- A row that no earlier one hides is found once it is added.
  pub find_first-add_row :
      (r : A) (xs : List A)
      → find_first p xs ≡ none
      → p r ≡ true
      → find_first p (add_row r xs) ≡ some r
  unfolding find_first
  find_first-add_row r [] h k = rw k refl
  find_first-add_row r (x ∷ xs) h k = elim (Bool-cases (p x)) [
    | inl e ↦ cc (rw (e, find_first) at h)
    | inr e ↦ rw e (find_first-add_row r xs (rw (e, find_first) at h) k)
  ]

  kept :
      (test : A → Bool) (f : A → A)
      → ((x : A) → p (f x) ≡ p x)
      → (y : A) → p (if test y then f y else y) ≡ p y
  kept test f keeps y = elim (Bool-cases (test y)) [ inl e ↦ rw e (keeps y) | inr e ↦ rw e refl ]

  -- A write that keeps what the search asks for does not change which row it finds.
  pub find_first-update_where :
      (test : A → Bool) (f : A → A)
      → ((x : A) → p (f x) ≡ p x)
      → (xs : List A) {x : A} → find_first p xs ≡ some x
      → find_first p (update_where test f xs) ≡ some (if test x then f x else x)
  unfolding find_first update_where
  find_first-update_where test f keeps [] h = cc
  find_first-update_where test f keeps (y ∷ ys) {x} h =
      let same : p (if test y then f y else y) ≡ p y = kept test f keeps y in
      elim (Bool-cases (p y)) [
        | inl e ↦
            let q : y ≡ x = cc (rw (e, find_first) at h) in
            rw (same, e) (ap (λ z. some (if test z then f z else z)) q)
        | inr e ↦ rw (same, e) (find_first-update_where test f keeps ys (rw (e, find_first) at h))
      ]

  pub find_first_of_mem :
      (xs : List A) {x : A} → Memᴰ x xs → p x ≡ true → (y : A) × (find_first p xs ≡ some y)
  find_first_of_mem xs {x} m h = elim (Option-cases (find_first p xs)) [
    | inl e ↦ cc (find_first-none p xs e m, h)
    | inr found ↦ found
  ]

  -- What is written in the place of the row that was found is in the table.
  pub mem-update_first :
      (f : A → A) (xs : List A) {x : A}
      → find_first p xs ≡ some x
      → Memᴰ (f x) (update_first p f xs)
  unfolding find_first update_first
  mem-update_first f [] h = cc
  mem-update_first f (y ∷ ys) {x} h = elim (Bool-cases (p y)) [
    | inl e ↦ rw e (Memᴰ.head (ap f (cc (rw (e, find_first) at h))))
    | inr e ↦ rw e (Memᴰ.tail (mem-update_first f ys (rw (e, find_first) at h)))
  ]

pub mem-add_row_self {ℓ} : {A : Type ℓ} (r : A) (xs : List A) → Memᴰ r (add_row r xs)
mem-add_row_self r [] = Memᴰ.head refl
mem-add_row_self r (x ∷ xs) = Memᴰ.tail (mem-add_row_self r xs)

module _ {ℓ} {A : Type ℓ} where
  -- What is selected is in the table and has the property.
  pub mem-of-select_where :
      (p : A → Bool) {x : A} (xs : List A) → Memᴰ x (select_where p xs) → Memᴰ x xs × (p x ≡ true)
  unfolding select_where
  mem-of-select_where p [] m = elim m [ ]
  mem-of-select_where p {x} (y ∷ ys) m = elim (Bool-cases (p y)) [
    | inl e ↦ here e (λ k. mem-of-select_where p ys k) (rw (e, select_where) at m)
    | inr e ↦ there (mem-of-select_where p ys (rw (e, select_where) at m))
  ]
    where
      there : Memᴰ x ys × (p x ≡ true) → Memᴰ x (y ∷ ys) × (p x ≡ true)
      there (k, t) = (Memᴰ.tail k, t)

      here :
          p y ≡ true
          → (Memᴰ x (select_where p ys) → Memᴰ x ys × (p x ≡ true))
          → Memᴰ x (y ∷ select_where p ys)
          → Memᴰ x (y ∷ ys) × (p x ≡ true)
      here e later (Memᴰ.head q) = (Memᴰ.head q, rw q e)
      here e later (Memᴰ.tail k) = there (later k)

module _ {ℓ} {A : Type ℓ} (p : A → Bool) where
  -- The row that was found, written in its place, is found there by the same test.
  pub find_first-update_first :
      (f : A → A) (xs : List A) {x : A}
      → find_first p xs ≡ some x
      → p (f x) ≡ true
      → find_first p (update_first p f xs) ≡ some (f x)
  unfolding find_first update_first
  find_first-update_first f [] h k = cc
  find_first-update_first f (y ∷ ys) {x} h k = elim (Bool-cases (p y)) [
    | inl e ↦ let same : y ≡ x = cc (rw (e, find_first) at h) in rw e (rw same (rw k refl))
    | inr e ↦ rw (e, e) (find_first-update_first f ys (rw (e, find_first) at h) k)
  ]

  -- Another row that is written, and that the test took no more than before, is not found instead.
  pub find_first-keeps :
      (test : A → Bool) (f : A → A)
      → ((x : A) → p (f x) ≡ p x)
      → (xs : List A) {x : A} → find_first p xs ≡ some x
      → test x ≡ false
      → find_first p (update_first test f xs) ≡ some x
  unfolding find_first update_first
  find_first-keeps test f keeps [] h k = cc
  find_first-keeps test f keeps (y ∷ ys) {x} h k = elim (Bool-cases (p y)) [
    | inl e ↦
        let same : y ≡ x = cc (rw (e, find_first) at h) in rw (ap test same ∙ k, e) (ap some same)
    | inr e ↦ elim (Bool-cases (test y)) [
      | inl t ↦ rw (t, keeps y, e) (rw (e, find_first) at h)
      | inr t ↦ rw (t, e) (find_first-keeps test f keeps ys (rw (e, find_first) at h) k)
    ]
  ]
