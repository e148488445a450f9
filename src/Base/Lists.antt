-- ===== src/Base/Lists.antt =====
-- Tables as lists: what the code does with rows by a Boolean test.
use Prim.Native.Nat.{ℕ, suc}
use mathlib.Core.Path.{◌≡◌, refl, sym, subst, ap}
use mathlib.Core.Logic.{inl, inr}
use mathlib.Core.Bool.{Bool, true, false, ◌&&◌, ◌||◌}
use mathlib.Core.Option.{Option, none, some}
use mathlib.Core.List.{List, [], ◌∷◌, ◌++◌, Memᴰ}
use native.Mathlib.Omega.{arith}
use sha.Base.Tests.{if◌then◌else◌, Bool-cases}

abbrev pub All {ℓ κ} : {A : Type ℓ} → (A → Type κ) → List A → Type κ
All P [] = Unit
All P (x ∷ xs) = P x × All P xs

module _ {ℓ} {A : Type ℓ} where
  abbrev pub length : List A → ℕ
  length [] = 0
  length (x ∷ xs) = suc (length xs)

  -- `any(test(x) for x in xs)`
  unfoldable pub any : (A → Bool) → List A → Bool
  any p [] = false
  any p (x ∷ xs) = p x || any p xs

  unfoldable pub all : (A → Bool) → List A → Bool
  all p [] = true
  all p (x ∷ xs) = p x && all p xs

  -- The first row that passes a test.
  unfoldable pub find_first : (A → Bool) → List A → Option A
  find_first p [] = none
  find_first p (x ∷ xs) = if p x then some x else find_first p xs

  -- The rows that pass a test, in order.
  unfoldable pub select_where : (A → Bool) → List A → List A
  select_where p [] = []
  select_where p (x ∷ xs) = let rest = select_where p xs in if p x then x ∷ rest else rest

  -- `UPDATE ... WHERE`: the rows that pass a test are changed.
  unfoldable pub update_where : (A → Bool) → (A → A) → List A → List A
  update_where p f [] = []
  update_where p f (x ∷ xs) = (if p x then f x else x) ∷ update_where p f xs

  -- An object that was loaded is written back: the first row that passes the test is changed.
  unfoldable pub update_first : (A → Bool) → (A → A) → List A → List A
  update_first p f [] = []
  update_first p f (x ∷ xs) = let rest = update_first p f xs in if p x then f x ∷ xs else x ∷ rest

  -- `session.add`: rows are kept in the order in which they were added.
  abbrev pub add_row : A → List A → List A
  add_row r rows = rows ++ r ∷ []

module _ {ℓ} {A : Type ℓ} (p : A → Bool) where
  pub find_first-some : (xs : List A) {x : A} → find_first p xs ≡ some x → (p x ≡ true) × Memᴰ x xs
  unfolding find_first
  find_first-some [] h = cc
  find_first-some (y ∷ xs) h = elim (Bool-cases (p y)) [
    | inl e ↦ found e (rw (e, find_first) at h)
    | inr e ↦ skip (find_first-some xs (rw (e, find_first) at h))
  ]
    where
      found : {x : A} → p y ≡ true → some y ≡ some x → (p x ≡ true) × Memᴰ x (y ∷ xs)
      found {x} e h' = (ground arith, Memᴰ.head (ground arith))

      skip : {x : A} → (p x ≡ true) × Memᴰ x xs → (p x ≡ true) × Memᴰ x (y ∷ xs)
      skip t = (t.0, Memᴰ.tail t.1)

  pub find_first-none : (xs : List A) {x : A} → find_first p xs ≡ none → Memᴰ x xs → p x ≡ false
  unfolding find_first
  find_first-none [] h m = elim m [ ]
  find_first-none (y ∷ xs) h (Memᴰ.head e) = ground arith
  find_first-none (y ∷ xs) h (Memᴰ.tail m) = find_first-none xs (ground arith) m

module _ {ℓ κ} {A : Type ℓ} (P : A → Type κ) where
  pub All-mem : (xs : List A) {x : A} → All P xs → Memᴰ x xs → P x
  All-mem [] h m = elim m [ ]
  All-mem (y ∷ xs) h (Memᴰ.head e) = subst P (sym e) h.0
  All-mem (y ∷ xs) h (Memᴰ.tail m) = All-mem xs h.1 m

  pub All-add_row : (r : A) (xs : List A) → All P xs → P r → All P (add_row r xs)
  All-add_row r [] h k = (k, tt)
  All-add_row r (x ∷ xs) h k = (h.0, All-add_row r xs h.1 k)

  pub All-update_where :
      (p : A → Bool) (f : A → A)
      → ((x : A) → P x → p x ≡ true → P (f x))
      → (xs : List A) → All P xs
      → All P (update_where p f xs)
  unfolding update_where
  All-update_where p f keep [] h = tt
  All-update_where p f keep (x ∷ xs) h = elim (Bool-cases (p x)) [
    | inl e ↦ rw e (keep x h.0 e, All-update_where p f keep xs h.1)
    | inr e ↦ rw e (h.0, All-update_where p f keep xs h.1)
  ]

  pub All-find_first :
      (p : A → Bool) (xs : List A) {x : A} → All P xs → find_first p xs ≡ some x → P x
  All-find_first p xs h e = All-mem xs h (find_first-some p xs e).1

module _ {ℓ} {A : Type ℓ} (p : A → Bool) (f : A → A) where
  -- Where a row of an updated table comes from.
  pub mem-update_where :
      (xs : List A) {y : A}
      → Memᴰ y (update_where p f xs)
      → (x : A) × Memᴰ x xs × (y ≡ (if p x then f x else x))
  unfolding update_where
  mem-update_where [] m = elim m [ ]
  mem-update_where (x ∷ xs) (Memᴰ.head e) = (x, Memᴰ.head refl, e)
  mem-update_where (x ∷ xs) (Memᴰ.tail m) =
      let (z, m', e) = mem-update_where xs m in (z, Memᴰ.tail m', e)

  pub length-update_where : (xs : List A) → length (update_where p f xs) ≡ length xs
  unfolding update_where
  length-update_where [] = refl
  length-update_where (x ∷ xs) = ap suc (length-update_where xs)

pub length-add_row {ℓ} :
    {A : Type ℓ} (r : A) (xs : List A) → length (add_row r xs) ≡ suc (length xs)
length-add_row r [] = refl
length-add_row r (x ∷ xs) = ap suc (length-add_row r xs)

module _ {ℓ} {A : Type ℓ} (before : A → A → Bool) where
  -- `order_by`: a row is placed in front of the first row that it stands before.
  unfoldable pub insert_by : A → List A → List A
  insert_by a [] = a ∷ []
  insert_by a (x ∷ xs) = let rest = insert_by a xs in if before a x then a ∷ x ∷ xs else x ∷ rest

  unfoldable pub order_by : List A → List A
  unfolding insert_by
  order_by [] = []
  order_by (x ∷ xs) = insert_by x (order_by xs)

  mem-insert_by_self : (a : A) (xs : List A) → Memᴰ a (insert_by a xs)
  unfolding insert_by
  mem-insert_by_self a [] = Memᴰ.head refl
  mem-insert_by_self a (x ∷ xs) = elim (Bool-cases (before a x)) [
    | inl e ↦ rw e (Memᴰ.head refl)
    | inr e ↦ rw e (Memᴰ.tail (mem-insert_by_self a xs))
  ]

  mem-insert_by : (a : A) {b : A} (xs : List A) → Memᴰ b xs → Memᴰ b (insert_by a xs)
  unfolding insert_by
  mem-insert_by a [] m = elim m [ ]
  mem-insert_by a (x ∷ xs) (Memᴰ.head p) = elim (Bool-cases (before a x)) [
    | inl e ↦ rw e (Memᴰ.tail (Memᴰ.head p))
    | inr e ↦ rw e (Memᴰ.head p)
  ]
  mem-insert_by a (x ∷ xs) (Memᴰ.tail m) = elim (Bool-cases (before a x)) [
    | inl e ↦ rw e (Memᴰ.tail (Memᴰ.tail m))
    | inr e ↦ rw e (Memᴰ.tail (mem-insert_by a xs m))
  ]

  pub mem-order_by : {b : A} (xs : List A) → Memᴰ b xs → Memᴰ b (order_by xs)
  unfolding order_by
  mem-order_by [] m = elim m [ ]
  mem-order_by (x ∷ xs) (Memᴰ.head p) =
      subst (λ y. Memᴰ y (insert_by x (order_by xs))) (sym p) (mem-insert_by_self x (order_by xs))
  mem-order_by (x ∷ xs) (Memᴰ.tail m) = mem-insert_by x (order_by xs) (mem-order_by xs m)

  mem-of-insert_by : (a : A) {b : A} (xs : List A) → Memᴰ b (insert_by a xs) → Memᴰ b (a ∷ xs)
  unfolding insert_by
  mem-of-insert_by a [] m = m
  mem-of-insert_by a {b} (x ∷ xs) m = elim (Bool-cases (before a x)) [
    | inl e ↦ (rw e at m)
    | inr e ↦ later (λ n. mem-of-insert_by a xs n) (rw e at m)
  ]
    where
      swap : Memᴰ b (a ∷ xs) → Memᴰ b (a ∷ x ∷ xs)
      swap (Memᴰ.head p) = Memᴰ.head p
      swap (Memᴰ.tail n) = Memᴰ.tail (Memᴰ.tail n)

      later :
          (Memᴰ b (insert_by a xs) → Memᴰ b (a ∷ xs))
          → Memᴰ b (x ∷ insert_by a xs)
          → Memᴰ b (a ∷ x ∷ xs)
      later k (Memᴰ.head p) = Memᴰ.tail (Memᴰ.head p)
      later k (Memᴰ.tail n) = swap (k n)

  -- Ordering rows adds none.
  pub mem-of-order_by : {b : A} (xs : List A) → Memᴰ b (order_by xs) → Memᴰ b xs
  unfolding order_by
  mem-of-order_by [] m = m
  mem-of-order_by {b} (x ∷ xs) m =
      place (λ n. mem-of-order_by xs n) (mem-of-insert_by x (order_by xs) m)
    where
      place : (Memᴰ b (order_by xs) → Memᴰ b xs) → Memᴰ b (x ∷ order_by xs) → Memᴰ b (x ∷ xs)
      place k (Memᴰ.head p) = Memᴰ.head p
      place k (Memᴰ.tail n) = Memᴰ.tail (k n)

module _ {ℓ} {A : Type ℓ} (p : A → Bool) where
  pub mem-select_where : {x : A} (xs : List A) → Memᴰ x xs → p x ≡ true → Memᴰ x (select_where p xs)
  unfolding select_where
  mem-select_where [] m h = elim m [ ]
  mem-select_where (y ∷ xs) (Memᴰ.head e) h = rw (subst (λ z. p z ≡ true) e h) (Memᴰ.head e)
  mem-select_where (y ∷ xs) (Memᴰ.tail m) h = elim (Bool-cases (p y)) [
    | inl e ↦ rw e (Memᴰ.tail (mem-select_where xs m h))
    | inr e ↦ rw e (mem-select_where xs m h)
  ]

module _ {ℓ} {A : Type ℓ} (p : A → Bool) where
  pub all_of_mem : (xs : List A) → ((x : A) → Memᴰ x xs → p x ≡ true) → all p xs ≡ true
  unfolding all
  all_of_mem [] h = refl
  all_of_mem (x ∷ xs) h = rw (h x (Memᴰ.head refl)) (all_of_mem xs (λ y m. h y (Memᴰ.tail m)))

  pub mem-all : (xs : List A) {x : A} → all p xs ≡ true → Memᴰ x xs → p x ≡ true
  unfolding all
  mem-all [] h m = elim m [ ]
  mem-all (y ∷ xs) h (Memᴰ.head e) = rw e (ground arith)
  mem-all (y ∷ xs) h (Memᴰ.tail m) = mem-all xs (ground arith) m

module _ {ℓ} {A : Type ℓ} (p : A → Bool) where
  pub all-add_row :
      (r : A) (xs : List A) → all p xs ≡ true → p r ≡ true → all p (add_row r xs) ≡ true
  unfolding all
  all-add_row r [] h k = rw k refl
  all-add_row r (x ∷ xs) h k = let k' = all-add_row r xs (ground arith) k in ground arith

  -- A change that keeps a test keeps it of the whole table.
  pub all-update_first :
      (test : A → Bool) (f : A → A)
      → ((x : A) → p x ≡ true → p (f x) ≡ true)
      → (xs : List A) → all p xs ≡ true
      → all p (update_first test f xs) ≡ true
  unfolding all update_first
  all-update_first test f keep [] h = refl
  all-update_first test f keep (x ∷ xs) h = elim (Bool-cases (test x)) [
    | inl e ↦ let k = keep x (ground arith) in rw (e, k) (ground arith)
    | inr e ↦ let k = all-update_first test f keep xs (ground arith) in rw (e, k) (ground arith)
  ]

  -- Where no row passes one test, all pass another that asks no more than its failure.
  pub all_of_none :
      (test : A → Bool)
      → ((x : A) → test x ≡ false → p x ≡ true)
      → (xs : List A) → any test xs ≡ false
      → all p xs ≡ true
  unfolding all any
  all_of_none test imp [] h = refl
  all_of_none test imp (x ∷ xs) h =
      let k = imp x (ground arith) in
      let k' = all_of_none test imp xs (ground arith) in rw (k, k') refl
