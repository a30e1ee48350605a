-- ===== src/Prelude/Unary.antt =====
-- A notation of the numbers for the tests: a stroke for each one.
use Prim.Native.Nat.{ℕ, zero, suc}
use Prim.Native.String.{String}
use mathlib.Core.Path.{◌≡◌, refl, sym, ap}
use text.Mathlib.TextLemmas.{cons-ne-nil, tail-eq_of_cons-eq}
use horust.Prelude.Display.{Display}

abbrev strokes : ℕ → String
strokes zero = ""
strokes (suc n) = String.◌∷◌ "1" (strokes n)

pub strokes_inj : (a b : ℕ) → strokes a ≡ strokes b → a ≡ b
strokes_inj zero zero e = refl
strokes_inj zero (suc b) e = absurd (cons-ne-nil "1" (strokes b) (sym e))
strokes_inj (suc a) zero e = absurd (cons-ne-nil "1" (strokes a) e)
strokes_inj (suc a) (suc b) e = ap suc (strokes_inj a b (tail-eq_of_cons-eq e))

abbrev pub unary : Display
unary = record { show = strokes; show_inj = strokes_inj }
