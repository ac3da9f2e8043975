-- ===== src/Prelude/Decimal.antt =====
-- JavaScript's `String(n)` of a natural number.
use Prim.Native.Char.{Char, code}
use Prim.Native.Nat.{ℕ, zero, suc, ◌+◌, ◌-◌, ◌*◌, ◌/◌, ◌%◌, ◌<◌, ◌≤◌}
use mathlib.Core.Path.{◌≡◌, refl, ap, ◌∙◌}
use mathlib.Core.Bool.{true}
use mathlib.Core.Logic.{inl, inr}
use text.Mathlib.TextLemmas.{cons-append, nil-append}
use native.Mathlib.Omega.{arith}
use mpas.Prelude.Chars.{size, is_digit, all_chars}
use Prim.Native.String
use Prim.Native.String.{String}
use mathlib.Core.List.{List, [], ◌∷◌}
use mpas.Prelude.Tests.{Bool-cases, ltb→lt, ltb, or_else, if◌then◌else◌}
use mpas.Prelude.Lists.{get_elem?}

abbrev digit_texts : List String
digit_texts = "0" ∷ "1" ∷ "2" ∷ "3" ∷ "4" ∷ "5" ∷ "6" ∷ "7" ∷ "8" ∷ "9" ∷ []

digit : ℕ → String
digit n = or_else (get_elem? digit_texts (n % 10)) ""

-- A number has at most as many digits as its value plus one, which is the fuel.
decimal_from : ℕ → ℕ → String → String
unfolding digit
decimal_from zero n tail_text = tail_text
decimal_from (suc f) n tail_text =
    let more = decimal_from f (n / 10) (String.◌++◌ (digit n) tail_text) in
    if ltb n 10 then String.◌++◌ (digit n) tail_text else more

unfoldable pub decimal : ℕ → String
unfolding decimal_from
decimal n = decimal_from (n + 1) n ""

-- JavaScript's `Number` of a text of digits, behind those that were read.
unfoldable pub digits_value : ℕ → String → ℕ
digits_value n String.[] = n
digits_value n (String.◌∷◌ c s) = digits_value (10 * n + (code c - b'0')) s

same_last : (n : ℕ) → digit n ≡ digit (n % 10)
unfolding digit
same_last n =
    let same : n % 10 ≡ n % 10 % 10 = omega arith in
    ap (λ m. or_else (get_elem? digit_texts m) "") same

digit_char :
    (d : ℕ)
    → d < 10
    → (c : Char) × (digit d ≡ String.◌∷◌ c String.[])
      × (is_digit (code c) ≡ true)
      × (code c - b'0' ≡ d)
unfolding digit
digit_char zero h = ("0", refl, refl, refl)
digit_char (suc zero) h = ("1", refl, refl, refl)
digit_char (suc (suc zero)) h = ("2", refl, refl, refl)
digit_char (suc (suc (suc zero))) h = ("3", refl, refl, refl)
digit_char (suc (suc (suc (suc zero)))) h = ("4", refl, refl, refl)
digit_char (suc (suc (suc (suc (suc zero))))) h = ("5", refl, refl, refl)
digit_char (suc (suc (suc (suc (suc (suc zero)))))) h = ("6", refl, refl, refl)
digit_char (suc (suc (suc (suc (suc (suc (suc zero))))))) h = ("7", refl, refl, refl)
digit_char (suc (suc (suc (suc (suc (suc (suc (suc zero)))))))) h = ("8", refl, refl, refl)
digit_char (suc (suc (suc (suc (suc (suc (suc (suc (suc zero))))))))) h = ("9", refl, refl, refl)
digit_char (suc (suc (suc (suc (suc (suc (suc (suc (suc (suc d)))))))))) h =
    absurd (omega (arith, h))

put_before : (c : Char) (s : String) → String.◌++◌ (String.◌∷◌ c String.[]) s ≡ String.◌∷◌ c s
put_before c s = cons-append c String.[] s ∙ ap (λ t. String.◌∷◌ c t) (nil-append s)

-- The last digit of a number, in front of a text.
last_digit :
    (n acc : ℕ) (s : String)
    → (digits_value acc (String.◌++◌ (digit n) s) ≡ digits_value (10 * acc + n % 10) s)
      × (all_chars is_digit (String.◌++◌ (digit n) s) ≡ all_chars is_digit s)
      × (size (String.◌++◌ (digit n) s) ≡ size s + 1)
unfolding digits_value all_chars
last_digit n acc s =
    let (c, same, is, value) = digit_char (n % 10) (omega arith) in
    let front : String.◌++◌ (digit n) s ≡ String.◌∷◌ c s =
      ap (λ t. String.◌++◌ t s) (same_last n ∙ same) ∙ put_before c s in
    rw front (rw (value, is) (refl, refl, omega arith))

decimal_from_lem :
    (f n : ℕ) (s : String)
    → n < f
    → (digits_value 0 (decimal_from f n s) ≡ digits_value n s)
      × (all_chars is_digit (decimal_from f n s) ≡ all_chars is_digit s)
      × (size s + 1 ≤ size (decimal_from f n s))
unfolding decimal_from
decimal_from_lem zero n s h = absurd (omega (arith, h))
decimal_from_lem (suc f) n s h = elim (Bool-cases (ltb n 10)) [
  | inl small ↦
      let (value, digits, longer) = last_digit n 0 s in
      let same : 10 * 0 + n % 10 ≡ n = omega (arith, ltb→lt n 10 small) in
      rw small (value ∙ ap (λ m. digits_value m s) same, digits, omega (arith, longer))
  | inr large ↦
      let shorter : n / 10 < f = ground (arith, large, h) in
      let rest = String.◌++◌ (digit n) s in
      let (value, digits, longer) = decimal_from_lem f (n / 10) rest shorter in
      let (value2, digits2, longer2) = last_digit n (n / 10) s in
      let same : 10 * (n / 10) + n % 10 ≡ n = omega arith in
      rw large (
        value ∙ value2 ∙ ap (λ m. digits_value m s) same,
        digits ∙ digits2,
        omega (arith, longer, longer2),
      )
]

-- A number is read back from its text, which is not empty and has digits alone.
pub decimal_lem :
    (n : ℕ)
    → (digits_value 0 (decimal n) ≡ n)
      × (all_chars is_digit (decimal n) ≡ true)
      × (1 ≤ size (decimal n))
unfolding decimal digits_value all_chars
decimal_lem n =
    let (value, digits, longer) = decimal_from_lem (n + 1) n "" (omega arith) in
    (value, digits, longer)
