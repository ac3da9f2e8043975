-- ===== src/StrictJson.antt =====
-- `strictJsonParse` (sdk/protocol/src/utils/strict-json.ts): a recursive-descent parser that refuses
-- repeated member names. The two conversions that it leaves to JavaScript are parameters. The
-- messages of the errors are left out; an object keeps the order of its text.
pub mod Scan
mod Total
mod Unique
mod Tests
use Prim.Native.String
use mpas.Prelude.{
  ℕ, zero, suc, ◌+◌, ◌*◌, String, Bool, true, false, Option, none, some, List, [], ◌∷◌,
  if◌then◌else◌,
}
use mpas.Prelude.Eq.{includes, string_eq}
use mpas.Prelude.Chars.{size}
use mpas.Prelude.Result.{Result, ok, err, ◌>>=◌}
use mpas.Mpas.Json.{Json, null, bool, num, str, arr, obj, Items, nil, cons, Members, end, member}
use mpas.Prelude.Decimal.{decimal}
use mpas.StrictJson.Scan.{
  Token, ended, unexpected, object_opens, array_opens, string_starts, true_read, false_read,
  null_read, number_read, skip_whitespace, eat, scan_string, next_token,
}

-- `Number` on a text that matches `NUMBER_PATTERN`, and `JSON.parse` on a quoted literal (`none`
-- where it throws).
pub record Builtins : Type 1 where
  pub Num : Type 0
  pub number : String → Num
  pub string_literal : String → Option String

-- `out_of_fuel` belongs to the model only.
pub data ParseFault : Type 0 where
  duplicate_key : String → String → ParseFault
  syntax_error out_of_fuel : ParseFault

pub found : Option String → Result ParseFault String
found none = err syntax_error
found (some rest) = ok rest

abbrev pub expect : ℕ → String → Result ParseFault String
expect c text = found (eat c (skip_whitespace text))

-- Two characters may be read twice by two nested calls.
abbrev pub fuel_for : String → ℕ
fuel_for text = 2 * size text + 2

module _ (js : Builtins) where
  abbrev pub Read : Type 0 → Type 0
  Read A = Result ParseFault (A × String)

  decoded : Option (String × String) → Read String
  decoded none = err syntax_error
  decoded (some (literal, rest)) = elim (js.string_literal (String.◌++◌ "\"" literal)) [
    | none ↦ err syntax_error
    | some text ↦ ok (text, rest)
  ]

  pub parse_string : String → Read String
  unfolding decoded eat scan_string found
  parse_string text = found (eat b'"' text) >>= λ rest. decoded (scan_string false rest)

  -- `seen.has(key)`, and the colon.
  abbrev pub checked_key : String → List String → Read String → Read String
  checked_key path seen read = do
    (key, rest) ← read
    elim (includes key seen) [
      | true ↦ err (duplicate_key key path)
      | false ↦ expect b':' rest >>= λ value. ok (key, value)
    ]

  -- `parseObject` and `parseArray`, around their loops.
  pub object_behind : (String → Read (Members js.Num)) → String → Read (Json js.Num)
  unfolding eat skip_whitespace
  object_behind loop rest = elim (eat b'}' (skip_whitespace rest)) [
    | none ↦ loop rest >>= λ r. ok (obj r.0, r.1)
    | some behind ↦ ok (obj end, behind)
  ]

  pub array_behind : (String → Read (Items js.Num)) → String → Read (Json js.Num)
  unfolding eat skip_whitespace
  array_behind loop rest = elim (eat b']' (skip_whitespace rest)) [
    | none ↦ loop rest >>= λ r. ok (arr r.0, r.1)
    | some behind ↦ ok (arr nil, behind)
  ]

  pub value_at :
      (String → Read (Members js.Num)) → (String → Read (Items js.Num)) → Token → Read (Json js.Num)
  unfolding parse_string object_behind array_behind
  value_at members items (object_opens rest) = object_behind members rest
  value_at members items (array_opens rest) = array_behind items rest
  value_at members items (string_starts rest) = parse_string rest >>= λ r. ok (str r.0, r.1)
  value_at members items (true_read rest) = ok (bool true, rest)
  value_at members items (false_read rest) = ok (bool false, rest)
  value_at members items (null_read rest) = ok (null, rest)
  value_at members items (number_read number rest) = ok (num (js.number number), rest)
  value_at members items _ = err syntax_error

  mutual
    unfolding skip_whitespace eat next_token parse_string found value_at

    pub parse_value : ℕ → String → String → Read (Json js.Num)
    parse_value zero path text = err out_of_fuel
    parse_value (suc f) path text =
        value_at (parse_members f path []) (parse_items f path 0)
          (next_token (skip_whitespace text))

    -- The loop of `parseObject`, from the names seen.
    pub parse_members : ℕ → String → List String → String → Read (Members js.Num)
    parse_members zero path seen text = err out_of_fuel
    parse_members (suc f) path seen text = do
      (key, rest) ← checked_key path seen (parse_string (skip_whitespace text))
      (value, rest) ← parse_value f (String.◌++◌ path (String.◌++◌ "." key)) rest
      elim (eat b',' (skip_whitespace rest)) [
        | some behind ↦
            parse_members f path (key ∷ seen) behind >>= λ r. ok (member key value r.0, r.1)
        | none ↦ expect b'}' rest >>= λ behind. ok (member key value end, behind)
      ]

    -- The loop of `parseArray`, from the position in the array.
    pub parse_items : ℕ → String → ℕ → String → Read (Items js.Num)
    parse_items zero path i text = err out_of_fuel
    parse_items (suc f) path i text = do
      (value, rest) ←
          parse_value f (String.◌++◌ path (String.◌++◌ "[" (String.◌++◌ (decimal i) "]"))) text
      elim (eat b',' (skip_whitespace rest)) [
        | some behind ↦ parse_items f path (i + 1) behind >>= λ r. ok (cons value r.0, r.1)
        | none ↦ expect b']' rest >>= λ behind. ok (cons value nil, behind)
      ]

  abbrev pub at_end : Json js.Num → String → Result ParseFault (Json js.Num)
  at_end value String.[] = ok value
  at_end value (String.◌∷◌ c s) = err syntax_error

  unfoldable pub strict_json_parse : String → Result ParseFault (Json js.Num)
  unfolding parse_value skip_whitespace
  strict_json_parse text =
      parse_value (fuel_for text) "$" text >>= λ r. at_end r.0 (skip_whitespace r.1)
