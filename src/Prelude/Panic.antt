-- ===== src/Prelude/Panic.antt =====
-- Operations that may panic, as `unwrap` does on `None`: `none` is the panic.
use mathlib.Core.Path.{◌≡◌, refl}
use mathlib.Core.Bool.{Bool, true, false}
use mathlib.Core.Option.{Option, none, some}
use mathlib.Core.List.{List, [], ◌∷◌, ◌++◌}

infixl 5 ◌>>=◌
abbrev pub ◌>>=◌ {ℓ κ} : {A : Type ℓ} {B : Type κ} → Option A → (A → Option B) → Option B
none >>= f = none
some a >>= f = f a

-- Iterator::flat_map and Iterator::all with a closure that may panic. `all` stops at the first
-- item that fails.
abbrev pub try_flat_map {ℓ κ} :
    {A : Type ℓ} {B : Type κ} → (A → Option (List B)) → List A → Option (List B)
try_flat_map f [] = some []
try_flat_map f (x ∷ xs) = do ys ← f x; rest ← try_flat_map f xs; some (ys ++ rest)

abbrev pub try_all {ℓ} : {A : Type ℓ} → (A → Option Bool) → List A → Option Bool
try_all p [] = some true
try_all p (x ∷ xs) =
    let rest = try_all p xs in do holds ← p x; elim holds [ true ↦ rest | false ↦ some false ]

-- Inversion of a step that did not panic.
pub >>=-eq-some {ℓ κ} :
    {A : Type ℓ} {B : Type κ} (m : Option A) (f : A → Option B) {b : B}
    → (m >>= f) ≡ some b
    → (a : A) × (m ≡ some a) × (f a ≡ some b)
>>=-eq-some none f h = cc
>>=-eq-some (some a) f h = (a, refl, h)
