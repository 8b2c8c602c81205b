-- ===== src/Server/Api/Flow.antt =====
-- Handlers with early returns: a response, or a value to go on with, and the database.
use oastrix.Prelude.{◌⊎◌, inl, inr, refl, arith, ◌≡◌, Bool, true, false, Option, none, some}
use oastrix.Failure.{Result, ok, err}
use oastrix.Db.{Db, Exec}
use oastrix.Server.Api.Types.{Response}

-- A handler has returned, or goes on with a value.
pub data Flow {ℓ} (A : Type ℓ) : Type ℓ where
  returned : Response → Flow A
  next : A → Flow A

abbrev pub Handler {ℓ} : Type ℓ → Type ℓ
Handler A = Db → Flow A × Db

abbrev pub go_on {ℓ κ} : {A : Type ℓ} {B : Type κ} → Flow A × Db → (A → Handler B) → Flow B × Db
go_on (returned r, db) k = (returned r, db)
go_on (next a, db) k = k a db

infixl 5 ◌>>=◌ ◌>>◌
abbrev pub ◌>>=◌ {ℓ κ} : {A : Type ℓ} {B : Type κ} → Handler A → (A → Handler B) → Handler B
◌>>=◌ m k db = go_on (m db) k

abbrev pub ◌>>◌ {κ} : {B : Type κ} → Handler (Unit {0}) → Handler B → Handler B
m >> k = m >>= λ _. k

-- An early return unless the test holds.
abbrev pub guard : Bool → Response → Handler (Unit {0})
guard true r db = (next tt, db)
guard false r db = (returned r, db)

abbrev pub present {ℓ} : {A : Type ℓ} → Option A → Response → Handler A
present none r db = (returned r, db)
present (some a) r db = (next a, db)

abbrev pub on_error {ℓ} : {A : Type ℓ} → Result A × Db → Response → Flow A × Db
on_error (ok a, db) r = (next a, db)
on_error (err e, db) r = (returned r, db)

-- An operation on the database, and the response to its error.
abbrev pub attempt {ℓ} : {A : Type ℓ} → Exec A → Response → Handler A
attempt m r db = on_error (m db) r

abbrev pub reply {ℓ} : {A : Type ℓ} → Response → Handler A
reply r db = (returned r, db)

-- What a handler that always returns sends.
abbrev pub response_of : Flow ⊥ × Db → Response × Db
response_of (returned r, db) = (r, db)
response_of (next a, db) = absurd a

module _ {ℓ κ} {A : Type ℓ} {B : Type κ} where
  pub go_on_next :
      (m : Flow A × Db) (k : A → Handler B) (a : A) → m.0 ≡ next a → go_on m k ≡ k a m.1
  go_on_next (next b, db) k a h = ground arith
  go_on_next (returned r, db) k a h = cc

  pub go_on-returned :
      (m : Flow A × Db) (k : A → Handler B) (r : Response)
      → m.0 ≡ returned r
      → go_on m k ≡ (returned r, m.1)
  go_on-returned (returned s, db) k r h = ground arith
  go_on-returned (next b, db) k r h = cc

pub Flow-cases {ℓ} :
    {A : Type ℓ} (f : Flow A) → ((r : Response) × (f ≡ returned r)) ⊎ ((a : A) × (f ≡ next a))
Flow-cases (returned r) = inl (r, refl)
Flow-cases (next a) = inr (a, refl)

-- What holds of the database after a step, and is kept by what comes after it, holds in the end.
pub go_on-keeps {ℓ κ μ} :
    {A : Type ℓ} {B : Type κ} (P : Db → Type μ) (m : Flow A × Db) (k : A → Handler B)
    → P m.1
    → ((a : A) → m.0 ≡ next a → (db : Db) → P db → P (k a db).1)
    → P (go_on m k).1
go_on-keeps P (returned r, db) k h step = h
go_on-keeps P (next a, db) k h step = step a refl db h

pub on_error-db {ℓ} : {A : Type ℓ} (m : Result A × Db) (r : Response) → (on_error m r).1 ≡ m.1
on_error-db (ok a, db) r = refl
on_error-db (err e, db) r = refl
