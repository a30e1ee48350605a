-- ===== src/Prelude/Strings.antt =====
-- The methods of `str` that the program uses.
use Prim.Native.String
use Prim.Native.String.{String}
use Prim.Native.Char.{code}
use mathlib.Core.Path.{◌≡◌, refl, sym, ap, ◌∙◌}
use mathlib.Core.Logic.{inl, inr}
use mathlib.Core.Bool.{Bool, true, false, ◌&&◌, ◌||◌}
use native.Mathlib.Omega.{arith}
use text.Mathlib.TextEquality.{eq_iff}
use text.Mathlib.TextLemmas.{nil-append, cons-append}
use horust.Prelude.Tests.{◌==◌, String_eq, nat_eq, Bool-cases}

infixr 66 ◌⊕◌
abbrev pub ◌⊕◌ : String → String → String
a ⊕ b = String.◌++◌ a b

-- str::starts_with and str::ends_with
abbrev pub starts_with : String → String → Bool
starts_with s String.[] = true
starts_with String.[] (String.◌∷◌ c p) = false
starts_with (String.◌∷◌ c s) (String.◌∷◌ d p) = nat_eq (code c) (code d) && starts_with s p

abbrev pub ends_with : String → String → Bool
ends_with String.[] p = p == ""
ends_with (String.◌∷◌ c s) p = String.◌∷◌ c s == p || ends_with s p

pub starts_with-append : (p s : String) → starts_with (p ⊕ s) p ≡ true
starts_with-append String.[] s = refl
starts_with-append (String.◌∷◌ c p) s =
    rw (cons-append c p s) (ground (arith, starts_with-append p s))

ends_with_refl : (p : String) → ends_with p p ≡ true
ends_with_refl String.[] = refl
ends_with_refl (String.◌∷◌ c p) = ground (arith, eq_iff (String.◌∷◌ c p) (String.◌∷◌ c p))

pub ends_with-eq-true : (s p : String) → ends_with s p ≡ true → (a : String) × (s ≡ a ⊕ p)
ends_with-eq-true String.[] p h =
    let e : p ≡ "" = (eq_iff p "").0 h in (String.[], sym e ∙ sym (nil-append p))
ends_with-eq-true (String.◌∷◌ c s) p h = elim (Bool-cases (String.◌∷◌ c s == p)) [
  | inl e ↦ (String.[], (eq_iff (String.◌∷◌ c s) p).0 e ∙ sym (nil-append p))
  | inr e ↦
      let (a, f) = ends_with-eq-true s p (ground arith) in
      (String.◌∷◌ c a, ap (λ t. String.◌∷◌ c t) f ∙ sym (cons-append c a p))
]

pub ends_with-append : (s p : String) → ends_with (s ⊕ p) p ≡ true
ends_with-append String.[] p = rw (nil-append p) (ends_with_refl p)
ends_with-append (String.◌∷◌ c s) p = rw (cons-append c s p) (ground (arith, ends_with-append s p))
