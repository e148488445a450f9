-- ===== src/Evolution/Tables.antt =====
-- Two versions of a table, related row by row.
use sha.Base.{
  ◌≡◌, refl, Bool, true, List, [], ◌∷◌, ◌++◌, update_where, add_row, Bool-cases, inl, inr, some,
  sym, ap₂, subst, Memᴰ, find_first, update_first,
}

-- Every old row has its successor in its place; further rows may follow.
abbrev pub Evolves {ℓ} : {A : Type ℓ} → (A → A → Type 0) → List A → List A → Type 0
Evolves R [] ys = Unit
Evolves R (x ∷ xs) [] = ⊥
Evolves R (x ∷ xs) (y ∷ ys) = R x y × Evolves R xs ys

module _ {ℓ} {A : Type ℓ} (R : A → A → Type 0) (same : (x : A) → R x x) where
  pub Evolves-refl : (xs : List A) → Evolves R xs xs
  Evolves-refl [] = tt
  Evolves-refl (x ∷ xs) = (same x, Evolves-refl xs)

  pub Evolves-add_row : (r : A) (xs : List A) → Evolves R xs (add_row r xs)
  Evolves-add_row r [] = tt
  Evolves-add_row r (x ∷ xs) = (same x, Evolves-add_row r xs)

  -- An update whose changes are moves of the rows that it selects.
  pub Evolves-update_where :
      (p : A → Bool) (f : A → A)
      → ((x : A) → p x ≡ true → R x (f x))
      → (xs : List A) → Evolves R xs (update_where p f xs)
  unfolding update_where
  Evolves-update_where p f move [] = tt
  Evolves-update_where p f move (x ∷ xs) = elim (Bool-cases (p x)) [
    | inl e ↦ rw e (move x e, Evolves-update_where p f move xs)
    | inr e ↦ rw e (same x, Evolves-update_where p f move xs)
  ]

module _ {ℓ} {A : Type ℓ} (R : A → A → Type 0) (same : (x : A) → R x x) (p : A → Bool)
    (f : A → A) where
  pub Evolves-update_first :
      (xs : List A) {x : A}
      → find_first p xs ≡ some x
      → R x (f x)
      → Evolves R xs (update_first p f xs)
  unfolding update_first find_first
  Evolves-update_first [] h move = tt
  Evolves-update_first (y ∷ xs) {x} h move = elim (Bool-cases (p y)) [
    | inl e ↦
        let h' : some y ≡ some x = (rw e at h) in
        let q : y ≡ x = (cc) in rw e (subst (λ z. R z (f z)) (sym q) move, Evolves-refl R same xs)
    | inr e ↦
        let h' : find_first p xs ≡ some x = (rw e at h) in
        rw e (same y, Evolves-update_first xs h' move)
  ]

  -- The same, where the change is a move of any row.
  pub Evolves-update_first_all :
      ((x : A) → R x (f x)) → (xs : List A) → Evolves R xs (update_first p f xs)
  unfolding update_first
  Evolves-update_first_all move [] = tt
  Evolves-update_first_all move (y ∷ xs) = elim (Bool-cases (p y)) [
    | inl e ↦ rw e (move y, Evolves-refl R same xs)
    | inr e ↦ rw e (same y, Evolves-update_first_all move xs)
  ]

pub Evolves-trans {ℓ} :
    {A : Type ℓ} (R : A → A → Type 0)
    → ((x y z : A) → R x y → R y z → R x z)
    → (xs ys zs : List A) → Evolves R xs ys
    → Evolves R ys zs
    → Evolves R xs zs
Evolves-trans R chain [] ys zs h k = tt
Evolves-trans R chain (x ∷ xs) [] zs h k = absurd h
Evolves-trans R chain (x ∷ xs) (y ∷ ys) [] h k = absurd k
Evolves-trans R chain (x ∷ xs) (y ∷ ys) (z ∷ zs) h k =
    (chain x y z h.0 k.0, Evolves-trans R chain xs ys zs h.1 k.1)

-- Where an old row is now.
pub Evolves-mem {ℓ} :
    {A : Type ℓ} (R : A → A → Type 0) (xs ys : List A) {x : A}
    → Evolves R xs ys
    → Memᴰ x xs
    → (y : A) × Memᴰ y ys × R x y
Evolves-mem R [] ys h m = elim m [ ]
Evolves-mem R (x ∷ xs) [] h m = absurd h
Evolves-mem R (x ∷ xs) (y ∷ ys) h (Memᴰ.head e) =
    (y, Memᴰ.head refl, subst (λ z. R z y) (sym e) h.0)
Evolves-mem R (x ∷ xs) (y ∷ ys) h (Memᴰ.tail m) =
    let (z, n, r) = Evolves-mem R xs ys h.1 m in (z, Memᴰ.tail n, r)

-- A table whose rows stay is the old one with rows behind it.
pub Evolves-prefix :
    {A : Type 0} (xs ys : List A)
    → Evolves (λ (x y : A). x ≡ y) xs ys
    → (later : List A) × (ys ≡ xs ++ later)
Evolves-prefix [] ys h = (ys, refl)
Evolves-prefix (x ∷ xs) [] h = absurd h
Evolves-prefix (x ∷ xs) (y ∷ ys) h =
    let (later, e) = Evolves-prefix xs ys h.1 in (later, ap₂ (λ z zs. z ∷ zs) (sym h.0) e)
