-- ===== src/Run.antt =====
-- A call that may end the process: by a failed `assert`, or by a jump through a null pointer; or whose
-- loop still runs when the fuel of its model is used up.
use datastor_qos.Base.{◌≡◌, refl, ◌⊎◌, inl, inr, Bool, true, false}

pub data Fault : Type 0 where
  assertion_failed null_dereference out_of_fuel : Fault

pub data Run {ℓ} (A : Type ℓ) : Type ℓ where
  returns : A → Run A
  aborts : Fault → Run A

infixl 5 ◌>>=◌ ◌>>◌
abbrev pub ◌>>=◌ {ℓ κ} : {A : Type ℓ} {B : Type κ} → Run A → (A → Run B) → Run B
returns a >>= f = f a
aborts e >>= f = aborts e

abbrev pub ◌>>◌ {ℓ} : {B : Type ℓ} → Run (Unit {0}) → Run B → Run B
m >> k = m >>= λ _. k

-- `assert ( b )`
abbrev pub assert : Bool → Run (Unit {0})
assert true = returns tt
assert false = aborts assertion_failed

pub Run-cases {ℓ} :
    {A : Type ℓ} (r : Run A) → ((a : A) × (r ≡ returns a)) ⊎ ((f : Fault) × (r ≡ aborts f))
Run-cases (returns a) = inl (a, refl)
Run-cases (aborts f) = inr (f, refl)

-- The call returns, and its result satisfies `P`.
abbrev pub Ends {ℓ} : {A : Type ℓ} → Run A → (A → Type 0) → Type 0
Ends (returns a) P = P a
Ends (aborts f) P = ⊥

abbrev pub Returns {ℓ κ} : {A : Type ℓ} → Run A → (A → Type κ) → Type (ℓ ⊔ κ)
Returns {A} r P = (a : A) × (r ≡ returns a) × P a

pub Ends-bind {ℓ κ} :
    {A : Type ℓ} {B : Type κ} (m : Run A) (f : A → Run B) (P : A → Type 0) (Q : B → Type 0)
    → Ends m P
    → ((a : A) → P a → Ends (f a) Q)
    → Ends (m >>= f) Q
Ends-bind (returns a) f P Q h k = k a h
Ends-bind (aborts e) f P Q h k = h

pub Ends_mono {ℓ} :
    {A : Type ℓ} (m : Run A) (P Q : A → Type 0) → Ends m P → ((a : A) → P a → Q a) → Ends m Q
Ends_mono (returns a) P Q h k = k a h
Ends_mono (aborts e) P Q h k = h

pub Ends-Returns {ℓ} : {A : Type ℓ} (m : Run A) (P : A → Type 0) → Ends m P → Returns m P
Ends-Returns (returns a) P h = (a, refl, h)
Ends-Returns (aborts e) P h = elim h [ ]
