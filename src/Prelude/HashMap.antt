-- ===== src/Prelude/HashMap.antt =====
-- std::collections::HashMap as an association list. The order of the entries stands for the
-- unspecified but fixed order in which the table is iterated.
use mathlib.Core.Path.{◌≡◌, refl}
use mathlib.Core.Bool.{false}
use mathlib.Core.Option.{Option, none, some}
use mathlib.Core.List.{List, [], ◌∷◌}
use native.Mathlib.Omega.{arith}
use mathlib.Core.Path.{subst, ap}
use mathlib.Core.Logic.{inl, inr}
use horust.Prelude.Tests.{Bool-cases, Eq, ◌==◌, if◌then◌else◌, beq_refl, beq_ne, eq_of_beq}
use horust.Prelude.Lists.{In, In-cons, here, there}

abbrev pub HashMap {ℓ κ} : Type ℓ → Type κ → Type (ℓ ⊔ κ)
HashMap K V = List (K × V)

abbrev pub keys {ℓ κ} : {K : Type ℓ} {V : Type κ} → HashMap K V → List K
keys [] = []
keys ((k, v) ∷ m) = k ∷ keys m

module _ {ℓ κ} {K : Type ℓ} {V : Type κ} ⦃e : Eq K⦄ where
  abbrev pub get : HashMap K V → K → Option V
  get [] k = none
  get ((j, v) ∷ m) k = if j == k then some v else get m k

  -- An existing key keeps its slot.
  abbrev pub insert : HashMap K V → K → V → HashMap K V
  insert [] k v = (k, v) ∷ []
  insert ((j, w) ∷ m) k v = if j == k then (j, v) ∷ m else (j, w) ∷ insert m k v

  abbrev pub remove : HashMap K V → K → HashMap K V
  remove [] k = []
  remove ((j, w) ∷ m) k = let rest = remove m k in if j == k then rest else (j, w) ∷ rest

  -- Iterator::collect and Extend::extend: a later entry replaces an earlier one.
  abbrev pub extend : HashMap K V → List (K × V) → HashMap K V
  extend m [] = m
  extend m ((k, v) ∷ xs) = extend (insert m k v) xs

  -- entry(k).or_insert(v)
  abbrev pub or_insert : HashMap K V → K → V → HashMap K V
  or_insert m k v = elim (get m k) [ none ↦ insert m k v | some _ ↦ m ]

  pub get-insert :
      (m : HashMap K V) (k j : K) (v : V)
      → get (insert m k v) j ≡ (if k == j then some v else get m j)
  get-insert [] k j v = refl
  get-insert ((i, w) ∷ m) k j v =
      ground (arith, get-insert m k j v, e.beq_iff i j, e.beq_iff k j, e.beq_iff i k)

  pub get-remove :
      (m : HashMap K V) (k j : K) → get (remove m k) j ≡ (if k == j then none else get m j)
  get-remove [] k j = ground arith
  get-remove ((i, w) ∷ m) k j =
      ground (arith, get-remove m k j, e.beq_iff i j, e.beq_iff k j, e.beq_iff i k)

  pub get-insert_self : (m : HashMap K V) (k : K) (v : V) → get (insert m k v) k ≡ some v
  get-insert_self m k v = simp (get-insert, beq_refl)

  pub get-insert_ne :
      (m : HashMap K V) (k j : K) (v : V) → (k == j) ≡ false → get (insert m k v) j ≡ get m j
  get-insert_ne m k j v h = rw (get-insert m k j v, h)

  module _ {μ} (P : V → Type μ) where
    -- A property of all values.
    abbrev pub AllValues : HashMap K V → Type μ
    AllValues [] = Unit
    AllValues ((k, v) ∷ m) = P v × AllValues m

    pub AllValues-get : (m : HashMap K V) (k : K) {v : V} → AllValues m → get m k ≡ some v → P v
    AllValues-get [] k h e = cc
    AllValues-get ((j, w) ∷ m) k {v} h e = elim (Bool-cases (j == k)) [
      | inl p ↦ let q : w ≡ v = ground arith in subst P q h.0
      | inr p ↦ AllValues-get m k h.1 (ground arith)
    ]

    pub AllValues-insert :
        (m : HashMap K V) (k : K) {v : V} → AllValues m → P v → AllValues (insert m k v)
    AllValues-insert [] k h p = (p, tt)
    AllValues-insert ((j, w) ∷ m) k h p = elim (Bool-cases (j == k)) [
      | inl q ↦ rw q (p, h.1)
      | inr q ↦ rw q (h.0, AllValues-insert m k h.1 p)
    ]

  -- Each key has one entry.
  abbrev pub IsDistinct : HashMap K V → Type κ
  IsDistinct [] = Unit
  IsDistinct ((k, v) ∷ m) = (get m k ≡ none) × IsDistinct m

  pub insert-IsDistinct :
      (m : HashMap K V) (k : K) (v : V) → IsDistinct m → IsDistinct (insert m k v)
  insert-IsDistinct [] k v h = (refl, tt)
  insert-IsDistinct ((j, w) ∷ m) k v h = elim (Bool-cases (j == k)) [
    | inl p ↦ rw p h
    | inr p ↦ rw p (
      rw (get-insert_ne m k j v (beq_ne {a = k} {b = j} (λ q. ground (arith, e.beq_iff j k)))) h.0,
      insert-IsDistinct m k v h.1,
    )
  ]

  -- An entry is found under its key.
  pub get-In : (m : HashMap K V) (k : K) (v : V) → IsDistinct m → In (k, v) m → get m k ≡ some v
  get-In ((j, w) ∷ m) k v h i = elim (In-cons i) [
    | inl same ↦
        let key : k ≡ j = ap (λ (x : K × V). x.0) same in
        let value : v ≡ w = ap (λ (x : K × V). x.1) same in ground (arith, e.beq_iff j k)
    | inr later ↦ elim (Bool-cases (j == k)) [
      | inl p ↦
          let same : j ≡ k = eq_of_beq p in
          let lost : get m k ≡ none = subst (λ (x : K). get m x ≡ none) same h.0 in
          let found = get-In m k v h.1 later in ground arith
      | inr p ↦ rw p (get-In m k v h.1 later)
    ]
  ]
  get-In [] k v h i = elim i [ ]

  pub In-get : (m : HashMap K V) (k : K) (v : V) → get m k ≡ some v → In (k, v) m
  In-get [] k v h = absurd (ground arith)
  In-get ((j, w) ∷ m) k v h = elim (Bool-cases (j == k)) [
    | inl p ↦
        let key : j ≡ k = eq_of_beq p in
        let value : w ≡ v = ground arith in
        subst (λ (x : K × V). In x ((j, w) ∷ m)) (rw (key, value) refl) here
    | inr p ↦ there (In-get m k v (ground arith))
  ]
