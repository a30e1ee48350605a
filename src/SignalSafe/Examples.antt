-- ===== src/SignalSafe/Examples.antt =====
-- A child that could not change its user, with the error number of a refused permission.
use horust.Prelude.{◌≡◌, refl, true, false, some, List, [], ◌∷◌, arith, ℕ}
use horust.Prelude.Int.{pos, negsuc}
use horust.SignalSafe.{i32_to_str_bytes, text, panic_ssafe}
use horust.SignalSafe.Digits
use horust.SignalSafe.Digits.{read_i32}
use horust.SignalSafe.Messages

i32_to_str_bytes_lem_example :
    (bytes : List ℕ) × (i32_to_str_bytes (negsuc 9) ≡ some bytes) × (read_i32 bytes ≡ negsuc 9)
i32_to_str_bytes_lem_example = Digits.i32_to_str_bytes_lem (negsuc 9) (omega arith)

panic_ssafe_lem_example :
    panic_ssafe "set uid failed"
      (some "web")
      (record { number = pos 1; desc = "Operation not permitted" })
      (pos 101)
      (record { is_open = true; written = [] })
    ≡ some (record { is_open = false; written = text "web" ∷ [] }, pos 101)
panic_ssafe_lem_example =
    Messages.panic_ssafe_lem "set uid failed" (some "web")
      (record { number = pos 1; desc = "Operation not permitted" }) (pos 101)
      (record { is_open = true; written = [] }) (omega arith) refl
