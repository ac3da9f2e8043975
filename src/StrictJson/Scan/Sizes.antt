-- ===== src/StrictJson/Scan/Sizes.antt =====
-- Reading a token never leaves more text than there was.
use Prim.Native.Char.{Char, code}
use Prim.Native.String
use text.Mathlib.Text.{starts_with}
use mpas.Prelude.{
  ℕ, zero, suc, ◌+◌, ◌≤◌, ◌≡◌, String, Bool, not, ◌&&◌, Option, none, some, arith, if_both,
  if◌then◌else◌,
}
use mpas.Prelude.Chars.{drop, size, is_digit}
use mpas.Prelude.Eq.{◌==◌, nat_eq}
use mpas.StrictJson.Scan.{
  Split, push, push_some, Token, unexpected, object_opens, array_opens, string_starts, true_read,
  false_read, null_read, number_read, skip_whitespace, eat, scan_string, digits, digits_or,
  integer_part, fraction_part, sign_part, exponent_part, minus_part, number_tail, number_prefix,
  word_or_number, next_token,
}

-- Nothing, or no more than the text that was there.
abbrev pub Within : ℕ → Option Split → Type 0
Within n none = Unit
Within n (some r) = size r.1 ≤ n

pub size-skip_whitespace : (s : String) → size (skip_whitespace s) ≤ size s
unfolding skip_whitespace
size-skip_whitespace String.[] = omega arith
size-skip_whitespace (String.◌∷◌ c s) = ground (arith, size-skip_whitespace s)

pub size-eat : (c : ℕ) (s r : String) → eat c s ≡ some r → size r + 1 ≤ size s
unfolding eat
size-eat c String.[] r h = cc
size-eat c (String.◌∷◌ d s) r h = ground (arith, h)

size-push_some : (c : Char) (n : ℕ) (o : Option Split) → Within n o → Within (suc n) (push_some c o)
size-push_some c n none h = tt
size-push_some c n (some r) h = omega (arith, h)

pub size-scan_string : (s : String) (b : Bool) → Within (size s) (scan_string b s)
unfolding scan_string
size-scan_string String.[] b = tt
size-scan_string (String.◌∷◌ c s) b =
    let escapes = not b && code c == b'\\' in
    if_both (Within (suc (size s))) (not b && code c == b'"') {x = some (String.◌∷◌ c String.[], s)}
      {y = push_some c (scan_string escapes s)} (omega arith)
      (size-push_some c (size s) (scan_string escapes s) (size-scan_string s escapes))

size-drop : (n : ℕ) (s : String) → size (drop n s) ≤ size s
unfolding drop
size-drop zero s = omega arith
size-drop (suc n) String.[] = omega arith
size-drop (suc n) (String.◌∷◌ c s) = omega (arith, size-drop n s)

size-digits : (s : String) → size ((digits s).1) ≤ size s
unfolding digits
size-digits String.[] = omega arith
size-digits (String.◌∷◌ c s) = ground (arith, size-digits s)

size-digits_or :
    (n : ℕ) (o : Split) (front s : String)
    → size o.1 ≤ n
    → size s ≤ n
    → size ((digits_or o front s).1) ≤ n
unfolding digits_or digits
size-digits_or n o front s h k =
    let (found, rest) = digits s in
    elim found
      as (λ t.
        size ((elim t as (λ _. Split) [ String.[] ↦ o | more ↦ (String.◌++◌ front more, rest) ]).1)
        ≤ n) [ String.[] ↦ h | String.◌∷◌ d more ↦ omega (arith, k, size-digits s) ]

size-integer_part : (s : String) → Within (size s) (integer_part s)
unfolding integer_part
size-integer_part String.[] = tt
size-integer_part (String.◌∷◌ c s) =
    let P = Within (suc (size s)) in
    if_both P (code c == b'0') {x = some (String.◌∷◌ c String.[], s)}
      {y = if is_digit (code c) then some (push c (digits s)) else none} (omega arith)
      (if_both P (is_digit (code c)) {x = some (push c (digits s))} {y = none}
        (omega (arith, size-digits s)) tt)

size-fraction_part : (s : String) → size ((fraction_part s).1) ≤ size s
unfolding fraction_part
size-fraction_part String.[] = omega arith
size-fraction_part (String.◌∷◌ c s) =
    let kept : Split = (String.[], String.◌∷◌ c s) in
    ground (arith, size-digits_or (suc (size s)) kept (String.◌∷◌ c String.[]) s)

size-sign_part : (s : String) → size ((sign_part s).1) ≤ size s
unfolding sign_part
size-sign_part String.[] = omega arith
size-sign_part (String.◌∷◌ c s) = ground arith

size-exponent_part : (s : String) → size ((exponent_part s).1) ≤ size s
unfolding exponent_part
size-exponent_part String.[] = omega arith
size-exponent_part (String.◌∷◌ c s) =
    let (sign, rest) = sign_part s in
    let kept : Split = (String.[], String.◌∷◌ c s) in
    ground (arith, size-sign_part s, size-digits_or (suc (size s)) kept (String.◌∷◌ c sign) rest)

size-minus_part : (s : String) → size ((minus_part s).1) ≤ size s
unfolding minus_part
size-minus_part String.[] = omega arith
size-minus_part (String.◌∷◌ c s) = ground arith

size-number_tail :
    (n : ℕ) (minus : String) (r : Split) → size r.1 ≤ n → size ((number_tail minus r).1) ≤ n
unfolding number_tail
size-number_tail n minus r h =
    let f = size-fraction_part (r.1) in
    let e = size-exponent_part ((fraction_part (r.1)).1) in omega (arith, f, e, h)

number_tail-Within :
    (n k : ℕ) (minus : String) (o : Option Split)
    → k ≤ n
    → Within k o
    → Within n (elim o [ none ↦ none | some whole ↦ some (number_tail minus whole) ])
number_tail-Within n k minus none l h = tt
number_tail-Within n k minus (some r) l h = size-number_tail n minus r (omega (arith, l, h))

size-number_prefix : (s : String) → Within (size s) (number_prefix s)
unfolding number_prefix
size-number_prefix s =
    number_tail-Within (size s) (size ((minus_part s).1)) _ _ (size-minus_part s)
      (size-integer_part ((minus_part s).1))

-- A token leaves no more than the text it was read from, and less where it opens something.
abbrev pub TokenWithin : ℕ → Token → Type 0
TokenWithin n (object_opens r) = size r + 1 ≤ n
TokenWithin n (array_opens r) = size r + 1 ≤ n
TokenWithin n (string_starts r) = size r ≤ n
TokenWithin n (true_read r) = size r ≤ n
TokenWithin n (false_read r) = size r ≤ n
TokenWithin n (null_read r) = size r ≤ n
TokenWithin n (number_read number r) = size r ≤ n
TokenWithin n _ = Unit

record Bounded (n : ℕ) (t : Token) : Type 0 where
  pub holds : TokenWithin n t

number-Bounded :
    (n : ℕ) (o : Option Split)
    → Within n o
    → Bounded n (elim o [ none ↦ unexpected | some r ↦ number_read r.0 r.1 ])
number-Bounded n none h = record { holds = tt }
number-Bounded n (some r) h = record { holds = h }

word_or_number-Bounded : (s : String) → Bounded (size s) (word_or_number s)
unfolding word_or_number
word_or_number-Bounded s =
    let P = Bounded (size s) in
    let T = true_read (drop 4 s) in
    let F = false_read (drop 5 s) in
    let N = null_read (drop 4 s) in
    if_both P (starts_with s "true") {x = T} (record { holds = size-drop 4 s })
      (if_both P (starts_with s "false") {x = F} (record { holds = size-drop 5 s })
        (if_both P (starts_with s "null") {x = N} (record { holds = size-drop 4 s })
          (number-Bounded (size s) _ (size-number_prefix s))))

next_token-Bounded : (s : String) → Bounded (size s) (next_token s)
unfolding next_token
next_token-Bounded String.[] = record { holds = tt }
next_token-Bounded (String.◌∷◌ c s) =
    let P = Bounded (suc (size s)) in
    let text = String.◌∷◌ c s in
    if_both P (code c == b'{') {x = object_opens s} (record { holds = omega arith })
      (if_both P (code c == b'[') {x = array_opens s} (record { holds = omega arith })
        (if_both P (code c == b'"') {x = string_starts text} (record { holds = omega arith })
          (word_or_number-Bounded text)))

pub next_token-TokenWithin : (s : String) → TokenWithin (size s) (next_token s)
next_token-TokenWithin s = (next_token-Bounded s).holds
