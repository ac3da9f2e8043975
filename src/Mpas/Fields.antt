-- ===== src/Mpas/Fields.antt =====
-- Reading a JSON value whose shape is not known yet: property access, `typeof`, own keys.
use mpas.Prelude.{String, Bool, true, false, not, Option, none, some, List, [], map, find, is_some}
use mpas.Prelude.Eq.{◌==◌, includes, string_eq}
use mpas.Prelude.Assoc.{lookup}
use mpas.Mpas.Json.{Json, str, arr, obj, Members, items, members}

module _ {N : Type 0} where
  abbrev pub keys : Members N → List String
  keys ms = map (λ (m : String × Json N). m.0) (members ms)

  -- `value.name`, where `undefined` is `none`.
  unfoldable pub field : String → Json N → Option (Json N)
  unfolding lookup
  field name (obj ms) = lookup name (members ms)
  field name _ = none

  abbrev pub field_of : String → Option (Json N) → Option (Json N)
  field_of name none = none
  field_of name (some value) = field name value

  abbrev pub has_own : String → Json N → Bool
  has_own name value = is_some (field name value)

  -- A JSON object.
  abbrev pub is_record : Option (Json N) → Bool
  is_record (some (obj ms)) = true
  is_record _ = false

  abbrev pub as_text : Option (Json N) → Option String
  as_text (some (str text)) = some text
  as_text _ = none

  -- `typeof value === "string" && test(value)`.
  abbrev pub text_with : (String → Bool) → Option (Json N) → Bool
  text_with test value = elim (as_text value) [ none ↦ false | some text ↦ test text ]

  -- `value === "…"`.
  abbrev pub is_text : String → Option (Json N) → Bool
  is_text expected value = text_with (λ text. text == expected) value

  abbrev pub own_keys : Option (Json N) → List String
  own_keys (some (obj ms)) = keys ms
  own_keys _ = []

  abbrev pub as_items : Option (Json N) → Option (List (Json N))
  as_items (some (arr vs)) = some (items vs)
  as_items _ = none

  abbrev pub first_unexpected_key : Option (Json N) → List String → Option String
  first_unexpected_key value allowed = find (λ key. not (includes key allowed)) (own_keys value)

  -- No key but the allowed ones.
  abbrev pub only_keys : List String → Option (Json N) → Bool
  only_keys allowed value = not (is_some (first_unexpected_key value allowed))
