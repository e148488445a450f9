-- ===== src/Base/Results.antt =====
-- The outcome of a handler, and a database transaction.
use Prim.Native.Nat.{ℕ}
use Prim.Native.String.{String}
use mathlib.Core.Path.{◌≡◌, refl}
use mathlib.Core.Bool.{Bool, true, false}
use mathlib.Core.Option.{Option, none, some}

-- `HTTPException(status_code, detail)`
pub data HttpError : Type 0 where
  http : ℕ → String → HttpError

-- What a handler's step returns: an exception, or a value.
pub data Result {ℓ} (A : Type ℓ) : Type ℓ where
  err : HttpError → Result A
  ok : A → Result A

module _ {ℓ κ} {A : Type ℓ} {B : Type κ} where
  infixl 5 ◌>>=◌
  abbrev pub ◌>>=◌ : Result A → (A → Result B) → Result B
  err raised >>= next = err raised
  ok value >>= next = next value

  -- A chain that succeeds has succeeded at each link.
  pub >>=-eq-ok :
      (first : Result A) {next : A → Result B} {last : B}
      → (first >>= next) ≡ ok last
      → (value : A) × (first ≡ ok value) × (next value ≡ ok last)
  >>=-eq-ok (err raised) h = cc
  >>=-eq-ok (ok value) h = (value, refl, h)

module _ {ℓ} {B : Type ℓ} where
  infixl 5 ◌>>◌
  abbrev pub ◌>>◌ : Result (Unit {0}) → Result B → Result B
  first >> next = first >>= λ done. next

  pub >>-eq-ok :
      (first : Result (Unit {0})) {next : Result B} {last : B}
      → (first >> next) ≡ ok last
      → (first ≡ ok tt) × (next ≡ ok last)
  >>-eq-ok (err raised) h = cc
  >>-eq-ok (ok done) h = (refl, h)

-- `if test: raise error`
abbrev pub raise_if : Bool → HttpError → Result (Unit {0})
raise_if true e = err e
raise_if false e = ok tt

-- `if value is None: raise error`
abbrev pub or_raise {ℓ} : {A : Type ℓ} → Option A → HttpError → Result A
or_raise none e = err e
or_raise (some a) e = ok a

pub raise_if-eq-ok : (t : Bool) (e : HttpError) → raise_if t e ≡ ok tt → t ≡ false
raise_if-eq-ok true e h = cc
raise_if-eq-ok false e h = refl

pub or_raise-eq-ok {ℓ} :
    {A : Type ℓ} (o : Option A) (e : HttpError) {a : A} → or_raise o e ≡ ok a → o ≡ some a
or_raise-eq-ok none e h = cc
or_raise-eq-ok (some b) e h = cc
