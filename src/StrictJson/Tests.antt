-- ===== src/StrictJson/Tests.antt =====
-- Texts with and without repeated names.
use mpas.Prelude.{ℕ, ◌≡◌, ◌≢◌, refl, String, true, some}
use mpas.Prelude.Decimal.{decimal}
use mpas.Prelude.Result.{ok, err}
use mpas.Prelude.Chars.{size}
use mpas.Mpas.Json.{Json, bool, num, arr, obj, nil, cons, end, member}
use mpas.StrictJson.{Builtins, duplicate_key, syntax_error, out_of_fuel, strict_json_parse}
use mpas.StrictJson.Total.{strict_json_parse_returns}
use mpas.StrictJson.Unique.{IsStrict, strict_json_parse-IsStrict}

-- Numbers are the lengths of their texts, and literals keep their quotes.
abbrev lengths : Builtins
lengths = record { Num = ℕ; number = size; string_literal = λ t. some t }

abbrev two_members : String
two_members = "{ \"a\" : [true, -1.5e3], \"b\\\"\" : {} }"

abbrev two_members_value : Json ℕ
two_members_value =
    obj (
      member "\"a\"" (arr (cons (bool true) (cons (num 6) nil))) (member "\"b\\\"\"" (obj end) end))

two_members_parse : strict_json_parse lengths two_members ≡ ok two_members_value
unfolding strict_json_parse
two_members_parse = refl

repeated_name :
    strict_json_parse lengths "[{\"x\":{\"a\":1,\"a\":null}}]"
    ≡ err (duplicate_key "\"a\"" "$[0].\"x\"")
unfolding strict_json_parse decimal
repeated_name = refl

trailing_text : strict_json_parse lengths "01" ≡ err syntax_error
unfolding strict_json_parse
trailing_text = refl

strict_json_parse_returns_example : strict_json_parse lengths two_members ≢ err out_of_fuel
strict_json_parse_returns_example = strict_json_parse_returns lengths two_members

strict_json_parse-IsStrict_example : IsStrict two_members_value
strict_json_parse-IsStrict_example =
    strict_json_parse-IsStrict lengths two_members two_members_value two_members_parse
