-- ===== src/Policy/Pointer.antt =====
-- `getJsonPointerValue` of sdk/protocol/src/lib/policy-engine.ts, RFC 6901 pointers as the source
-- resolves them. `undefined` is `none`.
use Prim.Native.Char.{Char, code}
use mathlib.Core.List.{tail}
use mpas.Prelude.{
  ℕ, ◌+◌, String, ◌&&◌, Option, none, some, List, [], ◌∷◌, map, length, if◌then◌else◌,
}
use mpas.Prelude.Eq.{◌==◌, string_eq, nat_eq}
use mpas.Prelude.Text.{split}
use mpas.Prelude.Decimal.{decimal}
use mpas.Prelude.Assoc.{lookup}
use mpas.Mpas.Json.{Json, num, arr, obj, items, members}
use mpas.Mpas.Numbers.{Numbers}

-- `replaceAll` of the two characters `a` `b` by `with_char`.
replace_all : ℕ → ℕ → Char → String → String
replace_all a b with_char String.[] = String.[]
replace_all a b with_char (String.◌∷◌ c String.[]) = String.◌∷◌ c String.[]
replace_all a b with_char (String.◌∷◌ c (String.◌∷◌ d s)) =
    let replaced = String.◌∷◌ with_char (replace_all a b with_char s) in
    let kept = String.◌∷◌ c (replace_all a b with_char (String.◌∷◌ d s)) in
    if (code c == a) && (code d == b) then replaced else kept

pub unescape : String → String
unfolding replace_all
unescape part = replace_all b'~' b'0' "~" (replace_all b'~' b'1' "/" part)

module _ (ns : Numbers) where
  open ns use {Num, of_nat}

  -- The element of an array under the property name `part`.
  item_at : ℕ → String → List (Json Num) → Option (Json Num)
  item_at i part [] = none
  item_at i part (v ∷ vs) =
      let rest = item_at (i + 1) part vs in if decimal i == part then some v else rest

  -- An own property of an object or an array; any other value ends the walk.
  own_property : String → Json Num → Option (Json Num)
  unfolding item_at decimal
  own_property part (obj ms) = lookup part (members ms)
  own_property part (arr vs) =
      if part == "length"
      then some (num (of_nat (length (items vs))))
      else item_at 0 part (items vs)
  own_property part _ = none

  walk : List String → Option (Json Num) → Option (Json Num)
  unfolding own_property
  walk [] current = current
  walk (part ∷ parts) none = none
  walk (part ∷ parts) (some current) = walk parts (own_property part current)

  unfoldable pub get_json_pointer_value : Json Num → String → Option (Json Num)
  unfolding walk split unescape
  get_json_pointer_value value pointer =
      if pointer == ""
      then some value
      else walk (map unescape (tail (split b'/' pointer))) (some value)
