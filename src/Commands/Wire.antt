-- ===== src/Commands/Wire.antt =====
-- A codec for the tests: a message as the codes of its characters behind a tag, with texts and numbers
-- preceded by their length or sign.
use Prim.Native.Nat.{Ordering, compare}
use Prim.Native.Char.{Char, char, code, IsLt}
use horust.Prelude.{ℕ, zero, suc, ◌≡◌, refl, String, Option, none, some, List, [], ◌∷◌}
use horust.Prelude.Int.{pos, negsuc}
use horust.Prelude.Panic.{◌>>=◌}
use horust.Commands.Proto.{
  status_request, change_request, status_response, error, request, response, Message,
}
use horust.Commands.Client.{Codec}

abbrev Both : Ordering → Ordering → Type 0
Both Ordering.lt o = IsLt o
Both Ordering.eq _ = ⊥
Both Ordering.gt _ = ⊥

abbrev Either : Ordering → Ordering → Ordering → Type 0
Either Ordering.lt _ _ = Unit
Either Ordering.eq o p = Both o p
Either Ordering.gt o p = Both o p

abbrev test_lt : (o : Ordering) → Option (IsLt o)
test_lt Ordering.lt = some tt
test_lt Ordering.eq = none
test_lt Ordering.gt = none

abbrev test_both : (o p : Ordering) → Option (Both o p)
test_both Ordering.lt p = test_lt p
test_both Ordering.eq p = none
test_both Ordering.gt p = none

abbrev test : (o p q : Ordering) → Option (Either o p q)
test Ordering.lt p q = some tt
test Ordering.eq p q = test_both p q
test Ordering.gt p q = test_both p q

test_lt-some : (o : Ordering) (h : IsLt o) → test_lt o ≡ some h
test_lt-some Ordering.lt h = refl
test_lt-some Ordering.eq h = absurd h
test_lt-some Ordering.gt h = absurd h

test_both-some : (o p : Ordering) (h : Both o p) → test_both o p ≡ some h
test_both-some Ordering.lt p h = test_lt-some p h
test_both-some Ordering.eq p h = absurd h
test_both-some Ordering.gt p h = absurd h

test-some : (o p q : Ordering) (h : Either o p q) → test o p q ≡ some h
test-some Ordering.lt p q h = refl
test-some Ordering.eq p q h = test_both-some p q h
test-some Ordering.gt p q h = test_both-some p q h

to_char : ℕ → Option Char
to_char n = do h ← test (compare n 55296) (compare 57343 n) (compare n 1114112); some (char n h)

to_char-code : (c : Char) → to_char (code c) ≡ some c
unfolding to_char
to_char-code (char n h) =
    rw (test-some (compare n 55296) (compare 57343 n) (compare n 1114112) h) refl

abbrev codes : String → List ℕ
codes String.[] = []
codes (String.◌∷◌ c s) = code c ∷ codes s

to_text : List ℕ → Option String
to_text [] = some ""
to_text (n ∷ ns) = do c ← to_char n; s ← to_text ns; some (String.◌∷◌ c s)

to_text-codes : (s : String) → to_text (codes s) ≡ some s
unfolding to_text
to_text-codes String.[] = refl
to_text-codes (String.◌∷◌ c s) = rw (to_char-code c, to_text-codes s) refl

abbrev encode : Message → List ℕ
encode none = []
encode (some (request none)) = 0 ∷ []
encode (some (request (some (status_request n)))) = 0 ∷ 0 ∷ codes n
encode (some (request (some (change_request n (pos k))))) = 0 ∷ 1 ∷ 0 ∷ k ∷ codes n
encode (some (request (some (change_request n (negsuc k))))) = 0 ∷ 1 ∷ 1 ∷ k ∷ codes n
encode (some (response none)) = 1 ∷ []
encode (some (response (some (status_response n (pos k))))) = 1 ∷ 1 ∷ 0 ∷ k ∷ codes n
encode (some (response (some (status_response n (negsuc k))))) = 1 ∷ 1 ∷ 1 ∷ k ∷ codes n
encode (some (response (some (error s)))) = 1 ∷ 0 ∷ codes s

decode : List ℕ → Option Message
decode [] = some none
decode (zero ∷ []) = some (some (request none))
decode (zero ∷ zero ∷ t) = do n ← to_text t; some (some (request (some (status_request n))))
decode (zero ∷ suc b ∷ zero ∷ k ∷ t) = do
  n ← to_text t
  some (some (request (some (change_request n (pos k)))))
decode (zero ∷ suc b ∷ suc c ∷ k ∷ t) = do
  n ← to_text t
  some (some (request (some (change_request n (negsuc k)))))
decode (suc a ∷ []) = some (some (response none))
decode (suc a ∷ zero ∷ t) = do s ← to_text t; some (some (response (some (error s))))
decode (suc a ∷ suc b ∷ zero ∷ k ∷ t) = do
  n ← to_text t
  some (some (response (some (status_response n (pos k)))))
decode (suc a ∷ suc b ∷ suc c ∷ k ∷ t) = do
  n ← to_text t
  some (some (response (some (status_response n (negsuc k)))))
decode _ = none

decode-encode : (m : Message) → decode (encode m) ≡ some m
unfolding decode
decode-encode none = refl
decode-encode (some (request none)) = refl
decode-encode (some (request (some (status_request n)))) = rw (to_text-codes n) refl
decode-encode (some (request (some (change_request n (pos k))))) = rw (to_text-codes n) refl
decode-encode (some (request (some (change_request n (negsuc k))))) = rw (to_text-codes n) refl
decode-encode (some (response none)) = refl
decode-encode (some (response (some (status_response n (pos k))))) = rw (to_text-codes n) refl
decode-encode (some (response (some (status_response n (negsuc k))))) = rw (to_text-codes n) refl
decode-encode (some (response (some (error s)))) = rw (to_text-codes s) refl

pub wire : Codec
wire = record { encode = encode; decode = decode; decode-encode = decode-encode }
