-- ===== src/SignalSafe.antt =====
-- What a forked child prints when it fails, horust/src/horust/signal_safe.rs. `Stderr` is the standard
-- error of the child: whether its descriptor is open, and what was written to it. `stderr()` makes an
-- `OwnedFd` of the descriptor, and an `OwnedFd` closes its descriptor when it is dropped, here at the
-- end of the `write` that takes it; a write to a closed descriptor fails, and the failure is ignored.
pub mod Digits
pub mod Messages
mod Examples
use horust.Prelude.{
  ℕ, zero, suc, ◌+◌, ◌-◌, ◌*◌, ◌/◌, ◌%◌, ◌^◌, ◌≡◌, refl, Bool, true, false, String, Option, none,
  some, List, [], ◌∷◌, ◌++◌,
}
use horust.Prelude.Tests.{nat_eq, if◌then◌else◌}
use horust.Prelude.Int.{ℤ, pos, negsuc}
use horust.Prelude.Panic.{◌>>=◌}

abbrev pub i32_str_len : ℕ
i32_str_len = 11

abbrev pub base_ascii : ℕ
base_ascii = b'0'

abbrev pub minus_sign : ℕ
minus_sign = b'-'

-- The loop over the digits. `ret` is the part of the array that is written so far, at its end, and
-- `room` the number of bytes before it; the index of a byte before the first one makes the child panic.
unfoldable pub write_digits : ℕ → ℕ → List ℕ → Option (ℕ × List ℕ)
write_digits zero num ret = if nat_eq num 0 then some (0, ret) else none
write_digits (suc room) num ret =
    let n = num % 10 in
    let rest = write_digits room ((num - n) / 10) ((n + base_ascii) ∷ ret) in
    if nat_eq num 0 then some (suc room, ret) else rest

-- A byte before those that are written.
abbrev write_byte : ℕ → ℕ × List ℕ → Option (ℕ × List ℕ)
write_byte b (zero, ret) = none
write_byte b (suc room, ret) = some (room, b ∷ ret)

abbrev pub magnitude : ℤ → ℕ
magnitude (pos n) = n
magnitude (negsuc n) = suc n

abbrev is_negative : ℤ → Bool
is_negative (pos n) = false
is_negative (negsuc n) = true

-- The bytes `&ret[digits..]` that the caller reads.
unfoldable pub i32_to_str_bytes : ℤ → Option (List ℕ)
i32_to_str_bytes num = do
  zeroed ←
      if nat_eq (magnitude num) 0
      then write_byte base_ascii (i32_str_len, [])
      else some (i32_str_len, [])
  (room, ret) ← write_digits zeroed.0 (magnitude num) zeroed.1
  (_, bytes) ← if is_negative num then write_byte minus_sign (room, ret) else some (room, ret)
  some bytes

pub data Piece : Type 0 where
  text : String → Piece
  bytes : List ℕ → Piece

pub record Stderr : Type 0 where
  pub is_open : Bool
  pub written : List Piece

-- `write(stderr(), ...)`
abbrev pub write : Piece → Stderr → Stderr
write p s = if s.is_open then record { is_open = false; written = s.written ++ p ∷ [] } else s

abbrev eprint_ssafe : String → Stderr → Stderr
eprint_ssafe s = write (text s)

abbrev new_line : String
new_line = "\n"

-- The error number and its description.
pub record Errno : Type 0 where
  pub number : ℤ
  pub desc : String

unfoldable pub eprint_ssafe_errno : Errno → Stderr → Option Stderr
eprint_ssafe_errno e s = do
  digits ← i32_to_str_bytes e.number
  let opened = eprint_ssafe "Errno: (" (eprint_ssafe new_line s)
  let numbered = eprint_ssafe ") " (write (bytes digits) opened)
  some (eprint_ssafe new_line (eprint_ssafe e.desc numbered))

abbrev print_service : Option String → Stderr → Stderr
print_service none s = s
print_service (some name) s = eprint_ssafe ": " (eprint_ssafe name s)

-- The standard error, and the status with which the child exits.
unfoldable pub panic_ssafe : String → Option String → Errno → ℤ → Stderr → Option (Stderr × ℤ)
panic_ssafe message service errno status s = do
  s' ← eprint_ssafe_errno errno (eprint_ssafe message (print_service service s))
  some (s', status)
