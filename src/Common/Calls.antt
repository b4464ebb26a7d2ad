-- ===== src/Common/Calls.antt =====
-- How a C++ call ends: with a value, with an exception, in `abort` (a failed `af_assert`, which
-- raises SIGABRT), or in undefined behaviour.
use mathlib.Core.Bool.{Bool, true, false}
use mathlib.Core.Path.{◌≡◌, refl}

pub data Result {ℓ} (A : Type ℓ) : Type ℓ where
  ok : A → Result A
  raised : Result A
  aborted : Result A
  undefined : Result A

infixl 5 ◌>>=◌
abbrev pub ◌>>=◌ {ℓ κ} : {A : Type ℓ} {B : Type κ} → Result A → (A → Result B) → Result B
ok a >>= f = f a
raised >>= f = raised
aborted >>= f = aborted
undefined >>= f = undefined

-- A sequence that ends with a value has passed through a value.
pub record Passes {ℓ κ} {A : Type ℓ} {B : Type κ} (m : Result A) (f : A → Result B) (b : B)
    : Type (ℓ ⊔ κ) where
  pub between : A
  pub before : m ≡ ok between
  pub after : f between ≡ ok b

pub bind-Passes {ℓ κ} :
    {A : Type ℓ} {B : Type κ} (f : A → Result B) (m : Result A) {b : B}
    → (m >>= f) ≡ ok b
    → Passes m f b
bind-Passes f (ok a) h = record { between = a; before = refl; after = h }
bind-Passes f raised h = cc
bind-Passes f aborted h = cc
bind-Passes f undefined h = cc

infixl 5 ◌>>◌
abbrev pub ◌>>◌ {ℓ} : {B : Type ℓ} → Result (Unit {0}) → Result B → Result B
m >> k = m >>= λ _. k

abbrev pub af_assert : Bool → Result (Unit {0})
af_assert true = ok tt
af_assert false = aborted

-- `af_exception` behind a test
abbrev pub unless_throw : Bool → Result (Unit {0})
unless_throw true = ok tt
unless_throw false = raised

pub af_assert-eq-ok {ℓ} :
    {B : Type ℓ} (test : Bool) (k : Result B) {b : B}
    → (af_assert test >> k) ≡ ok b
    → (test ≡ true) × (k ≡ ok b)
af_assert-eq-ok true k h = (refl, h)
af_assert-eq-ok false k h = cc

pub ok-injective {ℓ} : {A : Type ℓ} {a b : A} → ok a ≡ ok b → a ≡ b
ok-injective h = cc

-- A method that changes its object: an exception leaves the object in the state that it carries.
pub data Outcome {ℓ} (S : Type ℓ) : Type ℓ where
  returns : S → Outcome S
  throws : S → Outcome S
  aborts : Outcome S
  faults : Outcome S
