-- ===== src/Prelude/Outcome.antt =====
-- Operations that give a result or an error, or panic.
use mathlib.Core.Path.{◌≡◌, refl, ap}
use mathlib.Core.Logic.{◌≢◌, ◌⊎◌, inl, inr}
use mathlib.Core.Option.{Option, none, some}

-- A result, an error, or a panic.
pub data Outcome {ℓ} (A : Type ℓ) : Type ℓ where
  ok : A → Outcome A
  err : Outcome A
  panic : Outcome A

infixl 5 ◌>>=◌
abbrev pub ◌>>=◌ {ℓ κ} : {A : Type ℓ} {B : Type κ} → Outcome A → (A → Outcome B) → Outcome B
ok a >>= f = f a
err >>= f = err
panic >>= f = panic

abbrev pub of_option {ℓ} : {A : Type ℓ} → Option A → Outcome A
of_option none = err
of_option (some a) = ok a

pub Outcome-cases {ℓ} :
    {A : Type ℓ} (o : Outcome A) → ((a : A) × (o ≡ ok a)) ⊎ (o ≡ err) ⊎ (o ≡ panic)
Outcome-cases (ok a) = inl (a, refl)
Outcome-cases err = inr (inl refl)
Outcome-cases panic = inr (inr refl)

-- `unwrap` on an Option that an error does not take up
abbrev pub expect {ℓ} : {A : Type ℓ} → Option A → Outcome A
expect none = panic
expect (some a) = ok a

-- Inversion of a step that panicked.
pub bind-eq-panic {ℓ κ} :
    {A : Type ℓ} {B : Type κ} (m : Outcome A) (f : A → Outcome B)
    → (m >>= f) ≡ panic
    → (m ≡ panic) ⊎ ((a : A) × (m ≡ ok a) × (f a ≡ panic))
bind-eq-panic (ok a) f h = inr (a, refl, h)
bind-eq-panic err f h = cc
bind-eq-panic panic f h = inl refl

-- Inversion of a step that succeeded.
pub bind-eq-ok {ℓ κ} :
    {A : Type ℓ} {B : Type κ} (m : Outcome A) (f : A → Outcome B) {b : B}
    → (m >>= f) ≡ ok b
    → (a : A) × (m ≡ ok a) × (f a ≡ ok b)
bind-eq-ok (ok a) f h = (a, refl, h)
bind-eq-ok err f h = cc
bind-eq-ok panic f h = cc

pub of_option-eq-ok {ℓ} : {A : Type ℓ} (o : Option A) {a : A} → of_option o ≡ ok a → o ≡ some a
of_option-eq-ok none h = cc
of_option-eq-ok (some x) {a} h = let same : x ≡ a = cc in ap some same

pub of_option-ne-panic {ℓ} : {A : Type ℓ} (o : Option A) → of_option o ≢ panic
of_option-ne-panic none h = cc
of_option-ne-panic (some a) h = cc

pub bind-ne-panic {ℓ κ} :
    {A : Type ℓ} {B : Type κ} (m : Outcome A) (f : A → Outcome B)
    → m ≢ panic
    → ((a : A) → f a ≢ panic)
    → (m >>= f) ≢ panic
bind-ne-panic (ok a) f h k = k a
bind-ne-panic err f h k = λ e. cc
bind-ne-panic panic f h k = absurd (h refl)
