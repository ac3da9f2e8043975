-- ===== src/Verification/Formats.antt =====
-- The formats that verification.ts tests with regular expressions, and the readers of hashes,
-- decisions and timestamps: a value that passes its test is read into its type.
use Prim.Native.Char.{code}
use mpas.Prelude.{
  ℕ, ◌+◌, leb, String, Bool, true, false, not, ◌&&◌, ◌||◌, Option, none, some, List, [], ◌∷◌,
  length, every, if◌then◌else◌,
}
use mpas.Prelude.Eq.{◌==◌, string_eq, nat_eq, includes}
use mpas.Prelude.Chars.{size, drop, is_digit, is_lower, is_upper, all_chars, matches_classes}
use mpas.Prelude.Text.{split}
use mpas.Mpas.{HashObject, Decision, propose, approve, reject, abstain}
use mpas.Mpas.Fields.{field_of, field, is_record, only_keys, as_text, text_with}
use mpas.Mpas.Json.{Json}
use mpas.Suites.{is_base64url_char}
use mpas.Verification.Env.{Env}
use text.Mathlib.Text.{starts_with}

-- `\s`.
is_space : ℕ → Bool
is_space c =
    (leb 9 c && leb c 13)
    || c == 32
    || c == 160
    || c == 5760
    || (leb 8192 c && leb c 8202)
    || c == 8232
    || c == 8233
    || c == 8239
    || c == 8287
    || c == 12288
    || c == 65279

-- `[a-z0-9]+:\S+$`, from behind `did:`; the flag tells whether a character of the method was read.
did_rest : Bool → String → Bool
unfolding is_space all_chars
did_rest started String.[] = false
did_rest started (String.◌∷◌ c s) =
    let more = did_rest true s in
    if code c == b':'
    then started && not (s == "") && all_chars (λ d. not (is_space d)) s
    else if is_lower (code c) || is_digit (code c)
    then more
    else false

unfoldable pub is_did_text : String → Bool
unfolding did_rest drop
is_did_text text = starts_with text "did:" && did_rest false (drop 4 text)

-- One class for each character of a shape: `d` is a digit, any other character itself.
shape : String → List (ℕ → Bool)
shape String.[] = []
shape (String.◌∷◌ c s) =
    (if code c == b'd' then (λ d. is_digit d) else (λ d. d == code c)) ∷ shape s

unfoldable pub is_envelope_shape : String → Bool
unfolding matches_classes shape
is_envelope_shape text = matches_classes (shape "dddd-dd-ddTdd:dd:dd.dddZ") text

unfoldable pub is_mpas_shape : String → Bool
unfolding matches_classes shape is_envelope_shape
is_mpas_shape text = matches_classes (shape "dddd-dd-ddTdd:dd:ddZ") text || is_envelope_shape text

abbrev to_lower : ℕ → ℕ
to_lower c = if is_upper c then c + 32 else c

abbrev is_hex : ℕ → Bool
is_hex c = is_digit c || (leb b'a' (to_lower c) && leb (to_lower c) b'f')

-- `h` a hexadecimal digit, `v` one of 1 to 8, `w` one of 8, 9, a and b, in any case.
uuid_shape : String → List (ℕ → Bool)
uuid_shape String.[] = []
uuid_shape (String.◌∷◌ c s) =
    (if code c == b'h'
      then (λ d. is_hex d)
      else if code c == b'v'
      then (λ d. leb b'1' d && leb d b'8')
      else if code c == b'w'
      then (λ d. d == b'8' || d == b'9' || to_lower d == b'a' || to_lower d == b'b')
      else (λ d. to_lower d == code c))
    ∷ uuid_shape s

is_uuid_urn : String → Bool
unfolding matches_classes uuid_shape
is_uuid_urn text = matches_classes (uuid_shape "urn:uuid:hhhhhhhh-hhhh-vhhh-whhh-hhhhhhhhhhhh") text

-- `[0-9A-HJKMNP-TV-Z]`.
abbrev is_ulid_char : ℕ → Bool
is_ulid_char c =
    is_digit c || (is_upper c && not (c == b'I' || c == b'L' || c == b'O' || c == b'U'))

is_ulid_urn : String → Bool
unfolding drop all_chars
is_ulid_urn text =
    starts_with text "urn:ulid:" && size text == 35 && all_chars is_ulid_char (drop 9 text)

-- `hasSafeReplayDomain`, of the value and the scope of an Action ID.
unfoldable pub has_safe_replay_domain : String → Option String → Bool
unfolding is_uuid_urn is_ulid_urn is_did_text
has_safe_replay_domain value scope =
    is_uuid_urn value
    || is_ulid_urn value
    || is_did_text value
    || elim scope [ none ↦ false | some text ↦ not (text == "") ]

nonempty_base64url : String → Bool
unfolding all_chars
nonempty_base64url text = not (text == "") && all_chars is_base64url_char text

unfoldable pub is_compact_jws : String → Bool
unfolding split nonempty_base64url
is_compact_jws text =
    let parts = split b'.' text in length parts == 3 && every nonempty_base64url parts

abbrev hash_algorithms : List String
hash_algorithms = "sha-256" ∷ "sha-384" ∷ "sha-512" ∷ "sha3-256" ∷ "sha3-384" ∷ "sha3-512" ∷ []

unfoldable pub hashes_equal : HashObject → HashObject → Bool
hashes_equal left right = left.alg == right.alg && left.value == right.value

-- A timestamp with its instant.
pub record Time : Type 0 where
  pub text : String
  pub instant : ℕ

hash_fields : Bool → Option String → Option String → Option HashObject
unfolding all_chars nonempty_base64url
hash_fields closed (some alg) (some value) =
    if closed && includes alg hash_algorithms && nonempty_base64url value
    then some (record { alg = alg; value = value })
    else none
hash_fields closed _ _ = none

decision_named : String → Option Decision
decision_named text =
    if text == "propose"
    then some propose
    else if text == "approve"
    then some approve
    else if text == "reject"
    then some reject
    else if text == "abstain"
    then some abstain
    else none

module _ {N : Type 0} where
  unfoldable pub is_did : Option (Json N) → Bool
  unfolding is_did_text
  is_did value = text_with is_did_text value

  -- `isHashObject`.
  unfoldable pub read_hash : Option (Json N) → Option HashObject
  unfolding field hash_fields
  read_hash value =
      hash_fields (is_record value && only_keys ("alg" ∷ "value" ∷ []) value)
        (as_text (field_of "alg" value)) (as_text (field_of "value" value))

  -- `isDecision`.
  unfoldable pub read_decision : Option (Json N) → Option Decision
  unfolding decision_named
  read_decision value = elim (as_text value) [ none ↦ none | some text ↦ decision_named text ]

module _ (env : Env) where
  timed : String → Option ℕ → Option Time
  timed text none = none
  timed text (some instant) = some (record { text = text; instant = instant })

  read_time : (String → Bool) → Option String → Option Time
  unfolding timed
  read_time is_shape none = none
  read_time is_shape (some text) = if is_shape text then timed text (env.date_parse text) else none

  -- `isMpasTimestamp` and `isEnvelopeTimestamp`.
  unfoldable pub read_mpas_time : Option (Json env.crypto.js.Num) → Option Time
  unfolding read_time is_mpas_shape
  read_mpas_time value = read_time is_mpas_shape (as_text value)

  unfoldable pub read_envelope_time : Option (Json env.crypto.js.Num) → Option Time
  unfolding read_time is_envelope_shape
  read_envelope_time value = read_time is_envelope_shape (as_text value)
