-- ===== src/SignalSafe/Messages.antt =====
-- Which part of its message a failing child prints.
use horust.Prelude.{
  ◌^◌, ◌≤◌, ◌≡◌, refl, true, false, String, Option, none, some, List, [], ◌∷◌, ◌++◌,
}
use horust.Prelude.Int.{ℤ}
use horust.SignalSafe.{magnitude, Piece, text, Stderr, Errno, eprint_ssafe_errno, panic_ssafe}
use horust.SignalSafe.Digits.{i32_to_str_bytes_lem}

-- The first part of the message: the name of the service, if there is one.
abbrev pub first_piece : String → Option String → String
first_piece message none = message
first_piece message (some name) = name

-- Nothing more is printed once the standard error is closed.
eprint_ssafe_errno-closed :
    (errno : Errno) (written : List Piece)
    → magnitude errno.number ≤ 2 ^ 31
    → eprint_ssafe_errno errno (record { is_open = false; written = written })
      ≡ some (record { is_open = false; written = written })
unfolding eprint_ssafe_errno
eprint_ssafe_errno-closed errno written h =
    let (bytes, e, f) = i32_to_str_bytes_lem errno.number h in rw e refl

-- A child that fails exits with the given status, and prints the first part of its message alone, the
-- name of its service or else the text: that write closes the standard error, and the writes of the
-- rest, the text and the error number among them, fail unseen.
pub panic_ssafe_lem :
    (message : String) (service : Option String) (errno : Errno) (status : ℤ) (s : Stderr)
    → magnitude errno.number ≤ 2 ^ 31
    → s.is_open ≡ true
    → panic_ssafe message service errno status s
      ≡ some (
        record { is_open = false; written = s.written ++ text (first_piece message service) ∷ [] },
        status,
      )
unfolding panic_ssafe
panic_ssafe_lem message none errno status s h o = rw (o, eprint_ssafe_errno-closed errno _ h) refl
panic_ssafe_lem message (some name) errno status s h o =
    rw (o, eprint_ssafe_errno-closed errno _ h) refl
