-- ===== src/StrictJson/Scan.antt =====
-- The character level of `strictJsonParse` (sdk/protocol/src/utils/strict-json.ts). The position in
-- the text is the part of the text that is left.
pub mod Sizes
use Prim.Native.Char.{Char, code}
use Prim.Native.String
use mpas.Prelude.{
  ℕ, zero, suc, String, Bool, true, false, not, ◌&&◌, ◌||◌, Option, none, some, if◌then◌else◌,
}
use mpas.Prelude.Eq.{◌==◌, nat_eq}
use mpas.Prelude.Chars.{drop, is_digit}
use text.Mathlib.Text.{starts_with}

-- What was read, and what is left.
abbrev pub Split : Type 0
Split = String × String

abbrev pub push : Char → Split → Split
push c (front, back) = (String.◌∷◌ c front, back)

abbrev pub push_some : Char → Option Split → Option Split
push_some c none = none
push_some c (some s) = some (push c s)

abbrev pub is_white : ℕ → Bool
is_white c = c == b' ' || c == b'\t' || c == b'\n' || c == b'\r'

unfoldable pub skip_whitespace : String → String
skip_whitespace String.[] = String.[]
skip_whitespace (String.◌∷◌ c s) =
    let rest = skip_whitespace s in if is_white (code c) then rest else String.◌∷◌ c s

-- The text behind `expected`, if it stands next.
unfoldable pub eat : ℕ → String → Option String
eat expected String.[] = none
eat expected (String.◌∷◌ c s) = if code c == expected then some s else none

-- The literal up to its closing quote. An escaped character is passed over unread.
unfoldable pub scan_string : Bool → String → Option Split
scan_string escaped String.[] = none
scan_string escaped (String.◌∷◌ c s) =
    let more = scan_string (not escaped && code c == b'\\') s in
    if not escaped && code c == b'"' then some (String.◌∷◌ c String.[], s) else push_some c more

-- `\d*`.
unfoldable pub digits : String → Split
digits String.[] = (String.[], String.[])
digits (String.◌∷◌ c s) =
    let more = digits s in if is_digit (code c) then push c more else (String.[], String.◌∷◌ c s)

-- What `\d+` matches, appended to `front`; where it fails, an optional group matches nothing.
digits_or : Split → String → String → Split
unfolding digits
digits_or otherwise front text =
    let (found, rest) = digits text in
    elim found [ String.[] ↦ otherwise | more ↦ (String.◌++◌ front more, rest) ]

-- `(?:0|[1-9]\d*)`.
integer_part : String → Option Split
unfolding digits
integer_part String.[] = none
integer_part (String.◌∷◌ c s) =
    if code c == b'0'
    then some (String.◌∷◌ c String.[], s)
    else if is_digit (code c)
    then some (push c (digits s))
    else none

-- `(?:\.\d+)?`.
fraction_part : String → Split
unfolding digits_or
fraction_part String.[] = (String.[], String.[])
fraction_part (String.◌∷◌ c s) =
    if code c == b'.'
    then digits_or (String.[], String.◌∷◌ c s) (String.◌∷◌ c String.[]) s
    else (String.[], String.◌∷◌ c s)

-- `[+-]?`.
sign_part : String → Split
sign_part String.[] = (String.[], String.[])
sign_part (String.◌∷◌ c s) =
    if code c == b'+' || code c == b'-'
    then (String.◌∷◌ c String.[], s)
    else (String.[], String.◌∷◌ c s)

-- `(?:[eE][+-]?\d+)?`.
exponent_part : String → Split
unfolding digits_or sign_part
exponent_part String.[] = (String.[], String.[])
exponent_part (String.◌∷◌ c s) =
    let (sign, rest) = sign_part s in
    if code c == b'e' || code c == b'E'
    then digits_or (String.[], String.◌∷◌ c s) (String.◌∷◌ c sign) rest
    else (String.[], String.◌∷◌ c s)

-- `-?`.
minus_part : String → Split
minus_part String.[] = (String.[], String.[])
minus_part (String.◌∷◌ c s) =
    if code c == b'-' then (String.◌∷◌ c String.[], s) else (String.[], String.◌∷◌ c s)

-- The behind parts of the number, from its integer part on.
number_tail : String → Split → Split
unfolding fraction_part exponent_part
number_tail minus (whole, rest) =
    let (fraction, rest) = fraction_part rest in
    let (exponent, rest) = exponent_part rest in
    (String.◌++◌ minus (String.◌++◌ whole (String.◌++◌ fraction exponent)), rest)

-- `NUMBER_PATTERN` at the front of the text.
pub number_prefix : String → Option Split
unfolding minus_part integer_part number_tail
number_prefix text =
    let (minus, rest) = minus_part text in
    elim (integer_part rest) [ none ↦ none | some whole ↦ some (number_tail minus whole) ]

-- What `parseValue` finds behind white space.
pub data Token : Type 0 where
  ended unexpected : Token
  object_opens array_opens string_starts : String → Token
  true_read false_read null_read : String → Token
  number_read : String → String → Token

word_or_number : String → Token
unfolding drop number_prefix
word_or_number text =
    if starts_with text "true"
    then true_read (drop 4 text)
    else if starts_with text "false"
    then false_read (drop 5 text)
    else if starts_with text "null"
    then null_read (drop 4 text)
    else elim (number_prefix text) [ none ↦ unexpected | some r ↦ number_read r.0 r.1 ]

unfoldable pub next_token : String → Token
unfolding word_or_number
next_token String.[] = ended
next_token (String.◌∷◌ c s) =
    if code c == b'{'
    then object_opens s
    else if code c == b'['
    then array_opens s
    else if code c == b'"'
    then string_starts (String.◌∷◌ c s)
    else word_or_number (String.◌∷◌ c s)
