-- ===== src/Policy/Conditions.antt =====
-- The conditions of policy entries (sdk/protocol/src/lib/policy-engine.ts): operators over the
-- value that a JSON pointer finds. `undefined` is `none`.
pub mod Paths
use text.Mathlib.Text.{starts_with}
use mpas.Prelude.{
  String, Bool, true, false, not, ◌&&◌, Option, none, some, List, [], ◌∷◌, any, is_some,
  if◌then◌else◌,
}
use mpas.Prelude.Eq.{◌==◌, string_eq}
use mpas.Prelude.Result.{Result, ok, err, ◌>>=◌}
use mpas.Mpas.Json.{Json, null, bool, num, str, arr, obj, items}
use mpas.Mpas.Numbers.{Numbers}
use mpas.Mpas.Package.{ActionEnvelope, envelope_json}
use mpas.Policy.Pointer.{get_json_pointer_value}

pub data ConditionSource : Type 0 where
  execution_payload action_envelope : ConditionSource

pub data ConditionOp : Type 0 where
  eq neq is_in not_in gt gte lt lte exists not_exists contains prefix : ConditionOp

-- The path is required by the type, but `validateMatch` lets `exists` and `notExists` omit it.
pub record PolicyCondition (N : Type 0) : Type 0 where
  pub source : ConditionSource
  pub path : Option String
  pub op : ConditionOp
  pub value : Option (Json N)

-- What evaluation may throw: `UnparseableNumericValueError`, or the `TypeError` of
-- `pointer.split` on `undefined`.
pub data Fault : Type 0 where
  unparseable_numeric_value type_error : Fault

abbrev pub bool_beq : Bool → Bool → Bool
bool_beq true b = b
bool_beq false b = not b

module _ (ns : Numbers) where
  open ns use {Num, num_eq, num_lt, num_le, is_finite, of_text}

  -- `===`. The package and the policy are parsed apart, so an object or array of one is never
  -- identical to one of the other.
  json_identical : Json Num → Json Num → Bool
  json_identical null null = true
  json_identical (bool a) (bool b) = bool_beq a b
  json_identical (num a) (num b) = num_eq a b
  json_identical (str a) (str b) = a == b
  json_identical _ _ = false

  pub strictly_equal : Option (Json Num) → Option (Json Num) → Bool
  unfolding json_identical
  strictly_equal none none = true
  strictly_equal (some a) (some b) = json_identical a b
  strictly_equal _ _ = false

  -- `Array.isArray(list) && list.includes(value)`.
  pub array_includes : Option (Json Num) → Option (Json Num) → Bool
  array_includes (some (arr vs)) value = any (λ v. strictly_equal (some v) value) (items vs)
  array_includes _ value = false

  abbrev pub is_array : Option (Json Num) → Bool
  is_array (some (arr vs)) = true
  is_array _ = false

  abbrev parsed : Option Num → Result Fault (Option Num)
  parsed none = err unparseable_numeric_value
  parsed (some n) = ok (some n)

  -- `toNumber`; `ok none` is NaN. No value of a JSON text is a `bigint`.
  pub to_number : Option (Json Num) → Result Fault (Option Num)
  to_number none = ok none
  to_number (some (num n)) = if is_finite n then ok (some n) else err unparseable_numeric_value
  to_number (some (str text)) = parsed (of_text text)
  to_number (some _) = err unparseable_numeric_value

  -- A comparison with NaN is false.
  abbrev compared : (Num → Num → Bool) → Option Num → Option Num → Bool
  compared test (some a) (some b) = test a b
  compared test _ _ = false

  compare_numbers : (Num → Num → Bool) → Option (Json Num) → Option (Json Num) → Result Fault Bool
  unfolding to_number
  compare_numbers test actual value = do
    a ← to_number actual
    b ← to_number value
    ok (compared test a b)

  abbrev is_prefix : Option (Json Num) → Option (Json Num) → Bool
  is_prefix (some (str text)) (some (str start)) = starts_with text start
  is_prefix _ _ = false

  unfoldable pub operator_holds :
      ConditionOp → Option (Json Num) → Option (Json Num) → Result Fault Bool
  unfolding compare_numbers strictly_equal array_includes
  operator_holds eq actual value = ok (strictly_equal actual value)
  operator_holds neq actual value = ok (not (strictly_equal actual value))
  operator_holds is_in actual value = ok (array_includes value actual)
  operator_holds not_in actual value = ok (is_array value && not (array_includes value actual))
  operator_holds gt actual value = compare_numbers (λ a b. num_lt b a) actual value
  operator_holds gte actual value = compare_numbers (λ a b. num_le b a) actual value
  operator_holds lt actual value = compare_numbers num_lt actual value
  operator_holds lte actual value = compare_numbers num_le actual value
  operator_holds exists actual value = ok (is_some actual)
  operator_holds not_exists actual value = ok (not (is_some actual))
  operator_holds contains actual value = ok (array_includes actual value)
  operator_holds prefix actual value = ok (is_prefix actual value)

  source_value : ConditionSource → Json Num → ActionEnvelope Num → Json Num
  source_value execution_payload payload envelope = payload
  source_value action_envelope payload envelope = envelope_json envelope

  pointed : Option String → Json Num → Result Fault (Option (Json Num))
  pointed none source = err type_error
  pointed (some path) source = ok (get_json_pointer_value ns source path)

  unfoldable pub condition_matches :
      PolicyCondition Num → Json Num → ActionEnvelope Num → Result Fault Bool
  unfolding source_value pointed operator_holds
  condition_matches c payload envelope = do
    actual ← pointed c.path (source_value c.source payload envelope)
    operator_holds c.op actual c.value

  -- `conditions.every(...)`, which stops at the first condition that fails or throws.
  unfoldable pub matches_conditions :
      List (PolicyCondition Num) → Json Num → ActionEnvelope Num → Result Fault Bool
  matches_conditions [] payload envelope = ok true
  matches_conditions (c ∷ cs) payload envelope = do
    holds ← condition_matches c payload envelope
    if holds then matches_conditions cs payload envelope else ok false
