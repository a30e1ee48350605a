-- ===== src/SignalSafe/Digits.antt =====
-- The bytes of a number are its decimal digits.
use horust.Prelude.{
  ℕ, zero, suc, ◌+◌, ◌-◌, ◌*◌, ◌/◌, ◌%◌, ◌^◌, ◌<◌, ◌≤◌, ◌≡◌, refl, ◌∙◌, ap, inl, inr, false, some,
  List, [], ◌∷◌, arith,
}
use horust.Prelude.Tests.{nat_eq, if◌then◌else◌, Bool-cases}
use horust.Prelude.Lists.{All}
use horust.Prelude.Int.{ℤ, pos, negsuc}
use horust.SignalSafe.{base_ascii, minus_sign, write_digits, magnitude, i32_to_str_bytes}

-- The value of a byte as a digit, which a digit alone has.
abbrev IsDigit : ℕ → Type 0
IsDigit b = (base_ascii ≤ b) × (b < base_ascii + 10)

-- The number that digits stand for, the number before them given.
abbrev pub number : ℕ → List ℕ → ℕ
number acc [] = acc
number acc (b ∷ bs) = number (acc * 10 + (b - base_ascii)) bs

-- The integer that a text in decimal stands for.
abbrev negate : ℕ → ℤ
negate zero = pos 0
negate (suc n) = negsuc n

abbrev pub read_i32 : List ℕ → ℤ
read_i32 [] = pos 0
read_i32 (b ∷ bs) = if nat_eq b minus_sign then negate (number 0 bs) else pos (number 0 (b ∷ bs))

-- With room for the digits and one byte more, the digits come before what is written.
write_digits_lem :
    (room num : ℕ) (ret : List ℕ)
    → num < 10 ^ room
    → All IsDigit ret
    → (room' : ℕ) × (out : List ℕ) × (write_digits (suc room) num ret ≡ some (suc room', out))
      × (number 0 out ≡ number num ret)
      × All IsDigit out
unfolding write_digits
write_digits_lem zero num ret h d =
    let e : num ≡ 0 = omega arith in (0, ret, ground arith, ap (λ x. number x ret) (omega arith), d)
write_digits_lem (suc room) num ret h d = elim (Bool-cases (nat_eq num 0)) [
  | inl e ↦ (suc room, ret, ground arith, ap (λ x. number x ret) (ground arith), d)
  | inr e ↦
      let (room', out, f, g, d') =
        write_digits_lem room ((num - num % 10) / 10) ((num % 10 + base_ascii) ∷ ret) (omega arith)
          ((omega arith, omega arith), d) in
      (room', out, ground arith, g ∙ ap (λ x. number x ret) (omega arith), d')
]

read_i32-digits : (bs : List ℕ) (n : ℕ) → All IsDigit bs → number 0 bs ≡ n → read_i32 bs ≡ pos n
read_i32-digits [] n d e = ground arith
read_i32-digits (b ∷ bs) n d e =
    let other : nat_eq b minus_sign ≡ false = ground (arith, d.0) in rw other (rw e refl)

-- The bytes of a number that is not 0, once its digits are written.
bytes_pos :
    (n room : ℕ) (out : List ℕ)
    → write_digits 11 (suc n) [] ≡ some (suc room, out)
    → i32_to_str_bytes (pos (suc n)) ≡ some out
unfolding i32_to_str_bytes
bytes_pos n room out e = ground arith

bytes_negsuc :
    (n room : ℕ) (out : List ℕ)
    → write_digits 11 (suc n) [] ≡ some (suc room, out)
    → i32_to_str_bytes (negsuc n) ≡ some (minus_sign ∷ out)
unfolding i32_to_str_bytes
bytes_negsuc n room out e = ground arith

bytes_zero : i32_to_str_bytes (pos 0) ≡ some (base_ascii ∷ [])
unfolding i32_to_str_bytes write_digits
bytes_zero = refl

-- Every `i32` is written, without a panic, as a text that reads as the same number: there is room in
-- the array for all its digits and its sign.
pub i32_to_str_bytes_lem :
    (num : ℤ)
    → magnitude num ≤ 2 ^ 31
    → (bytes : List ℕ) × (i32_to_str_bytes num ≡ some bytes) × (read_i32 bytes ≡ num)
i32_to_str_bytes_lem (pos zero) h = (base_ascii ∷ [], bytes_zero, refl)
i32_to_str_bytes_lem (pos (suc n)) h =
    let (room, out, e, f, d) = write_digits_lem 10 (suc n) [] (omega arith) tt in
    (out, bytes_pos n room out e, read_i32-digits out (suc n) d f)
i32_to_str_bytes_lem (negsuc n) h =
    let (room, out, e, f, d) = write_digits_lem 10 (suc n) [] (omega arith) tt in
    (minus_sign ∷ out, bytes_negsuc n room out e, rw f refl)
