-- ===== src/Model/Tx.antt =====
-- A handler's work inside `with session.begin()`: the database comes back only where nothing was
-- raised, since the block rolls back all that it wrote when an exception leaves it.
pub mod Keeps
use sha.Base.{Bool, true, false, Option, none, some, Result, ok, err, HttpError}
use sha.Model.Rows.{Db}

abbrev pub Tx {ℓ} : Type ℓ → Type ℓ
Tx A = Db → Result (A × Db)

module _ {ℓ} {A : Type ℓ} where
  unfoldable pub pure : A → Tx A
  pure a db = ok (a, db)

  unfoldable pub raise : HttpError → Tx A
  raise e db = err e

  unfoldable pub or_raise : Option A → HttpError → Tx A
  or_raise none e db = err e
  or_raise (some a) e db = ok (a, db)

  -- A check that reads no table and may raise.
  unfoldable pub check : Result A → Tx A
  check (ok a) db = ok (a, db)
  check (err e) db = err e

  unfoldable pub gets : (Db → A) → Tx A
  gets f db = ok (f db, db)

unfoldable pub raise_if : Bool → HttpError → Tx (Unit {0})
raise_if true e db = err e
raise_if false e db = ok (tt, db)

unfoldable pub modify : (Db → Db) → Tx (Unit {0})
modify f db = ok (tt, f db)

infixl 5 ◌>>=◌ ◌>>◌
-- Opening this opens the operations above too.
unfoldable pub ◌>>=◌ {ℓ κ} : {A : Type ℓ} {B : Type κ} → Tx A → (A → Tx B) → Tx B
unfolding pure raise or_raise check gets raise_if modify
◌>>=◌ m f db = elim (m db) [ ok (a, db') ↦ f a db' | err e ↦ err e ]

abbrev pub ◌>>◌ {ℓ} : {B : Type ℓ} → Tx (Unit {0}) → Tx B → Tx B
m >> k = m >>= λ _. k

-- The end of the block: commit, or roll back.
unfoldable pub run_tx {ℓ} : {A : Type ℓ} → Tx A → Db → Result A × Db
run_tx m db = elim (m db) [ ok (a, db') ↦ (ok a, db') | err e ↦ (err e, db) ]
