-- ===== src/Prelude/Display.antt =====
-- How the standard library writes an unsigned integer in decimal (its `Display`): different numbers
-- differ in text.
use Prim.Native.Nat.{ℕ}
use Prim.Native.String.{String}
use mathlib.Core.Path.{◌≡◌}

pub record Display : Type 0 where
  pub show : ℕ → String
  pub show_inj : (a b : ℕ) → show a ≡ show b → a ≡ b
