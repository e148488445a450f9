-- ===== src/Model/Tx/Keeps.antt =====
-- How a transaction relates the database after it to the one before: one rule for each way to
-- build a transaction.
use sha.Base.{
  subst, ◌≡◌, refl, Bool, true, false, Option, none, some, Result, ok, err, HttpError,
  if◌then◌else◌,
}
use sha.Model.Rows.{Db}
use sha.Model.Tx.{Tx, pure, raise, or_raise, check, gets, raise_if, modify, ◌>>=◌}

-- Inversion of a block that succeeds.
pub >>=-eq-ok {ℓ κ} :
    {A : Type ℓ} {B : Type κ} (m : Tx A) (f : A → Tx B) (db : Db) {b : B} {db' : Db}
    → (m >>= f) db ≡ ok (b, db')
    → (a : A) × (mid : Db) × (m db ≡ ok (a, mid)) × (f a mid ≡ ok (b, db'))
unfolding ◌>>=◌
>>=-eq-ok {A} {B} m f db {b} {db'} h = invert (m db) refl h
  where
    invert :
        (r : Result (A × Db))
        → m db ≡ r
        → elim r [ ok (a, mid) ↦ f a mid | err e ↦ err e ] ≡ ok (b, db')
        → (a : A) × (mid : Db) × (m db ≡ ok (a, mid)) × (f a mid ≡ ok (b, db'))
    invert (ok (a, mid)) e h' = (a, mid, e, h')
    invert (err x) e h' = cc

pub check-eq-ok {ℓ} :
    {A : Type ℓ} (r : Result A) (db : Db) {a : A} {db' : Db}
    → check r db ≡ ok (a, db')
    → (r ≡ ok a) × (db ≡ db')
unfolding check
check-eq-ok (ok b) db h = (cc, cc)
check-eq-ok (err e) db h = cc

pub or_raise-eq-ok {ℓ} :
    {A : Type ℓ} (o : Option A) (e : HttpError) (db : Db) {a : A} {db' : Db}
    → or_raise o e db ≡ ok (a, db')
    → (o ≡ some a) × (db ≡ db')
unfolding or_raise
or_raise-eq-ok none e db h = cc
or_raise-eq-ok (some b) e db h = (cc, cc)

-- The same, where the first step is a check or a row that must be there.
pub >>=-check {ℓ κ} :
    {A : Type ℓ} {B : Type κ} (r : Result A) (f : A → Tx B) (db : Db) {b : B} {db' : Db}
    → (check r >>= f) db ≡ ok (b, db')
    → (a : A) × (r ≡ ok a) × (f a db ≡ ok (b, db'))
unfolding check ◌>>=◌
>>=-check (ok a) f db h = (a, refl, h)
>>=-check (err e) f db h = cc

pub >>=-or_raise {ℓ κ} :
    {A : Type ℓ} {B : Type κ} (o : Option A) (e : HttpError) (f : A → Tx B) (db : Db) {b : B}
    {db' : Db}
    → (or_raise o e >>= f) db ≡ ok (b, db')
    → (a : A) × (o ≡ some a) × (f a db ≡ ok (b, db'))
unfolding or_raise ◌>>=◌
>>=-or_raise (some a) e f db h = (a, refl, h)
>>=-or_raise none e f db h = cc

pub raise_if-eq-ok :
    (t : Bool) (e : HttpError) (db : Db) {u : Unit} {db' : Db}
    → raise_if t e db ≡ ok (u, db')
    → (t ≡ false) × (db ≡ db')
unfolding raise_if
raise_if-eq-ok true e db h = cc
raise_if-eq-ok false e db h = (refl, cc)

-- A relation between two states that can be chained.
pub record IsPreorder (R : Db → Db → Type 0) : Type 0 where
  pub same : (db : Db) → R db db
  pub chain : (a b c : Db) → R a b → R b c → R a c

-- Where `m` succeeds, the states before and after are related.
pub record Keeps {ℓ} {A : Type ℓ} (R : Db → Db → Type 0) (m : Tx A) : Type ℓ where
  pub at : (db : Db) {a : A} {db' : Db} → m db ≡ ok (a, db') → R db db'

module _ {R : Db → Db → Type 0} (order : IsPreorder R) where
  Keeps_same : {a b : Db} → a ≡ b → R a b
  Keeps_same {a} p = subst (λ x. R a x) p (order.same a)

  module _ {ℓ} {A : Type ℓ} where
    pub Keeps-pure : (a : A) → Keeps R (pure a)
    unfolding pure
    Keeps-pure a = record { at = λ db h. Keeps_same (cc) }

    pub Keeps-raise : (e : HttpError) → Keeps R (raise {A = A} e)
    unfolding raise
    Keeps-raise e = record { at = λ db h. cc }

    pub Keeps-gets : (f : Db → A) → Keeps R (gets f)
    unfolding gets
    Keeps-gets f = record { at = λ db h. Keeps_same (cc) }

    pub Keeps-check : (r : Result A) → Keeps R (check r)
    Keeps-check r = record { at = λ db h. Keeps_same (check-eq-ok r db h).1 }

    pub Keeps-or_raise : (o : Option A) (e : HttpError) → Keeps R (or_raise o e)
    Keeps-or_raise o e = record { at = λ db h. Keeps_same (or_raise-eq-ok o e db h).1 }

    pub Keeps-if : (b : Bool) (m n : Tx A) → Keeps R m → Keeps R n → Keeps R (if b then m else n)
    Keeps-if true m n km kn = km
    Keeps-if false m n km kn = kn

  pub Keeps-raise_if : (b : Bool) (e : HttpError) → Keeps R (raise_if b e)
  Keeps-raise_if b e = record { at = λ db h. Keeps_same (raise_if-eq-ok b e db h).1 }

  pub Keeps-modify : (f : Db → Db) → ((db : Db) → R db (f db)) → Keeps R (modify f)
  unfolding modify
  Keeps-modify f k = record { at = λ db {a} {db'} h. subst (λ x. R db x) (cc) (k db) }

  pub Keeps-bind {ℓ κ} :
      {A : Type ℓ} {B : Type κ} (m : Tx A) (f : A → Tx B)
      → Keeps R m
      → ((a : A) → Keeps R (f a))
      → Keeps R (m >>= f)
  Keeps-bind m f km kf = record {
    at = λ db h.
        let (a, mid, e, h') = >>=-eq-ok m f db h in
        order.chain db mid _ (km.at db e) ((kf a).at mid h');
  }
