-- ===== src/Formats/Environment/Precedence.antt =====
-- Which of its sources an environment variable comes from.
use horust.Prelude.{
  ◌≡◌, refl, ◌∙◌, ◌⊎◌, inl, inr, Bool, true, false, String, Option, none, some, List, [], ◌∷◌,
  arith,
}
use horust.Prelude.Tests.{◌==◌, if◌then◌else◌, String_eq, Bool-cases, Option-cases, eq_of_beq}
use horust.Prelude.Lists.{All, contains, filter_map}
use horust.Prelude.HashMap.{HashMap, get, insert, extend, or_insert, get-insert}
use horust.Formats.Service.{Environment}
use horust.Formats.Environment.{Variables, var, predefined, add_term, exported, fill, environment}
use text.Mathlib.TextEquality.{eq_iff}

-- The first that is there.
abbrev pub or_else : Option String → Option String → Option String
or_else none b = b
or_else (some a) b = some a

or_else_assoc : (a b c : Option String) → or_else (or_else a b) c ≡ or_else a (or_else b c)
or_else_assoc none b c = refl
or_else_assoc (some x) b c = refl

get-if :
    (b : Bool) (m : HashMap String String) (j : String)
    → get (if b then m else []) j ≡ (if b then get m j else none)
get-if true m j = refl
get-if false m j = refl

get-or_insert :
    (m : HashMap String String) (k j x : String)
    → get (or_insert m k x) j ≡ or_else (get m j) (if k == j then some x else none)
get-or_insert m k j x = ground (arith, get-insert m k j x, eq_iff k j)

get-fill :
    (m : HashMap String String) (xs : List (String × String)) (j : String)
    → get (fill m xs) j ≡ or_else (get m j) (get xs j)
get-fill m [] j = ground arith
get-fill m ((k, x) ∷ xs) j = ground (arith, get-fill (or_insert m k x) xs j, get-or_insert m k j x)

get-add_term :
    (t : Option String) (m : HashMap String String) (j : String)
    → get (add_term t m) j ≡ or_else (get m j) (if "TERM" == j then t else none)
get-add_term none m j = ground arith
get-add_term (some t) m j = get-or_insert m "TERM" j t

-- Entries whose values all come from one function of the key.
module _ (f : String → Option String) where
  abbrev Agrees : List (String × String) → Type 0
  Agrees = All (λ entry. f entry.0 ≡ some entry.1)

  Agrees-get :
      (xs : List (String × String)) (j : String) {y : String}
      → Agrees xs
      → get xs j ≡ some y
      → f j ≡ some y
  Agrees-get [] j h e = cc
  Agrees-get ((k, x) ∷ xs) j {y} h e = elim (Bool-cases (k == j)) [
    | inl p ↦
        let same : k ≡ j = eq_of_beq p in
        let value : x ≡ y = ground arith in rw (← same) (rw (← value) h.0)
    | inr p ↦ Agrees-get xs j h.1 (ground arith)
  ]

  Agrees-insert :
      (m : List (String × String)) (k x : String) → Agrees m → f k ≡ some x → Agrees (insert m k x)
  Agrees-insert [] k x h e = (e, tt)
  Agrees-insert ((j, w) ∷ m) k x h e = elim (Bool-cases (j == k)) [
    | inl p ↦ let same : j ≡ k = eq_of_beq p in rw p (rw same e, h.1)
    | inr p ↦ rw p (h.0, Agrees-insert m k x h.1 e)
  ]

  Agrees-extend : (m xs : List (String × String)) → Agrees m → Agrees xs → Agrees (extend m xs)
  Agrees-extend m [] h g = h
  Agrees-extend m ((k, x) ∷ xs) h g =
      Agrees-extend (insert m k x) xs (Agrees-insert m k x h g.0) g.1

  get-extend :
      (m xs : List (String × String)) (j : String)
      → Agrees xs
      → get (extend m xs) j ≡ or_else (get xs j) (get m j)
  get-extend m [] j h = refl
  get-extend m ((k, x) ∷ xs) j h =
      get-extend (insert m k x) xs j h.1 ∙ rw (get-insert m k j x) (last (Option-cases (get xs j)))
    where
      last :
          (get xs j ≡ none) ⊎ ((y : String) × (get xs j ≡ some y))
          → or_else (get xs j) (if k == j then some x else get m j)
            ≡ or_else (if k == j then some x else get xs j) (get m j)
      last (inl e) = ground arith
      last (inr (y, e)) = elim (Bool-cases (k == j)) [
        | inl p ↦
            let same : k ≡ j = eq_of_beq p in
            let there : f j ≡ some y = Agrees-get xs j h.1 e in
            let here : f j ≡ some x = rw (← same) h.0 in ground arith
        | inr p ↦ ground arith
      ]

module _ (v : Variables) where
  Agrees-exported : (names : List String) → Agrees (var v) (filter_map (exported v) names)
  Agrees-exported [] = tt
  Agrees-exported (n ∷ names) = elim (Option-cases (var v n)) [
    | inl e ↦ rw (e, filter_map) (Agrees-exported names)
    | inr (x, e) ↦ rw (e, filter_map) (e, Agrees-exported names)
  ]

  get-exported :
      (names : List String) (j : String)
      → get (filter_map (exported v) names) j ≡ (if contains names j then var v j else none)
  get-exported [] j = refl
  get-exported (n ∷ names) j = ground (arith, get-exported names j, eq_iff n j)

  get-re_export :
      (m : HashMap String String) (names : List String) (j : String)
      → get (extend m (extend [] (filter_map (exported v) names))) j
        ≡ or_else (if contains names j then var v j else none) (get m j)
  get-re_export m names j =
      let agree = Agrees-exported names in
      get-extend (var v) m (extend [] (filter_map (exported v) names)) j
        (Agrees-extend (var v) [] _ tt agree)
      ∙ rw (get-extend (var v) [] (filter_map (exported v) names) j agree, get-exported names j)
          (ground arith)

  get-predefined :
      (m : HashMap String String) (user home : String) (j : String)
      → get (extend m (extend [] (predefined v user home))) j
        ≡ or_else (get (predefined v user home) j) (get m j)
  get-predefined m user home j =
      get-extend (get (predefined v user home)) m (extend [] (predefined v user home)) j
        (refl, (refl, (refl, (refl, tt))))

-- A variable of the new process comes from the first of its sources that has it: the additional ones of
-- the service, then those of Horust if re-exported by name, then the host, path, user and home that are
-- always set, then all of Horust's own if kept, and the terminal of Horust.
pub environment-get :
    (v : Variables) (e : Environment) (user_name user_home k : String)
    → get (environment v e user_name user_home) k
      ≡ or_else (get e.additional k) (
          or_else (if contains e.re_export k then var v k else none) (
            or_else (get (predefined v user_name user_home) k) (
              or_else
                (if e.keep_env then var v k else none)
                (if "TERM" == k then var v "TERM" else none))))
unfolding environment
environment-get v e user home k =
    let kept : HashMap String String = if e.keep_env then v.vars else [] in
    let initial = extend kept (extend [] (predefined v user home)) in
    let with_term = add_term (var v "TERM") initial in
    get-fill e.additional (extend with_term (extend [] (filter_map (exported v) e.re_export))) k
    ∙ rw
        (
          get-re_export v with_term e.re_export k,
          get-add_term (var v "TERM") initial k,
          get-predefined v kept user home k,
          or_else_assoc (get (predefined v user home) k) (get kept k)
              (if "TERM" == k then var v "TERM" else none),
          get-if e.keep_env v.vars k,
        )
        refl
