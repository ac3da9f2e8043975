-- ===== src/Suites.antt =====
-- The checks of sdk/protocol/src/lib/signature-suites.ts around public keys and compact JWS, and
-- those of did-jwk.ts and `verificationKid` (signer.ts) on DIDs that hold a key. A function that
-- throws returns `none`.
pub mod Authentic
use Prim.Native.String
use mpas.Prelude.{
  ℕ, zero, suc, ◌+◌, ◌*◌, ltb, String, Bool, true, false, not, ◌&&◌, ◌||◌, Option, none, some, List,
  [], ◌∷◌, length, take, every, any, is_empty, if◌then◌else◌,
}
use mpas.Prelude.Eq.{◌==◌, string_eq, nat_eq, option_eq, includes}
use mpas.Prelude.Chars.{drop, is_digit, is_lower, is_upper, all_chars}
use mpas.Prelude.Distinct.{distinct}
use mpas.Prelude.Text.{split}
use mpas.Prelude.Result.{Result, ok, err, ◌>>=◌, ◌>>◌}
use mpas.Mpas.{Did}
use mpas.Mpas.Fields.{field, has_own, is_record, as_text, as_items, is_text, text_with}
use mpas.Mpas.Json.{Json, bool}
use mpas.StrictJson.{Builtins, strict_json_parse}
use text.Mathlib.Text.{starts_with}

pub data Thrown : Type 0 where
  thrown : Thrown

-- What the checks take from node:crypto, jose and `Buffer`.
pub record Crypto : Type 1 where
  pub js : Builtins
  -- `Buffer.from(text, "base64url")`, and `toString("base64url")` and `toString("utf8")`.
  pub from_base64url : String → List ℕ
  pub to_base64url : List ℕ → String
  pub utf8 : List ℕ → String
  -- `ECDH.convertKey` accepts the two coordinates.
  pub is_on_curve : List ℕ → List ℕ → Bool
  -- `importJWK` and `compactVerify` with this one algorithm: the payload, or `none` if one throws.
  pub compact_verify : String → Json js.Num → String → Option (List ℕ)

abbrev pub need {ℓ} : {A : Type ℓ} → Option A → Result Thrown A
need none = err thrown
need (some a) = ok a

-- `if (!test) throw`.
abbrev pub guard : Bool → Result Thrown (Unit {0})
guard true = ok tt
guard false = err thrown

abbrev pub caught {ℓ κ} : {E : Type ℓ} {A : Type κ} → Result E A → Result Thrown A
caught (ok a) = ok a
caught (err e) = err thrown

pub data SignatureSuite : Type 0 where
  ed25519 p256 : SignatureSuite

abbrev pub suite_id : SignatureSuite → String
suite_id ed25519 = "Ed25519"
suite_id p256 = "P-256"

abbrev pub suite_kty : SignatureSuite → String
suite_kty ed25519 = "OKP"
suite_kty p256 = "EC"

abbrev pub jws_algorithm : SignatureSuite → String
jws_algorithm ed25519 = "EdDSA"
jws_algorithm p256 = "ES256"

abbrev p256_order : ℕ
p256_order = 115792089210356248762697446949407573529996955224135760342422259061068512044369

abbrev private_members : List String
private_members = "d" ∷ "p" ∷ "q" ∷ "dp" ∷ "dq" ∷ "qi" ∷ "oth" ∷ "k" ∷ []

-- `[A-Za-z0-9_-]`.
abbrev pub is_base64url_char : ℕ → Bool
is_base64url_char c = is_digit c || is_lower c || is_upper c || c == b'_' || c == b'-'

-- `BigInt` of the bytes, the first one highest.
big_endian : ℕ → List ℕ → ℕ
big_endian n [] = n
big_endian n (b ∷ bs) = big_endian (256 * n + b) bs

pub valid_scalar : List ℕ → Bool
unfolding big_endian
valid_scalar bytes = let value = big_endian 0 bytes in ltb 0 value && ltb value p256_order

-- `bytes.subarray(n)`.
abbrev after : ℕ → List ℕ → List ℕ
after zero bytes = bytes
after (suc n) [] = []
after (suc n) (b ∷ bytes) = after n bytes

pub validate_signature_encoding : SignatureSuite → List ℕ → Result Thrown (Unit {0})
unfolding valid_scalar
validate_signature_encoding ed25519 signature = guard (length signature == 64)
validate_signature_encoding p256 signature = do
  guard (length signature == 64)
  guard (valid_scalar (take 32 signature) && valid_scalar (after 32 signature))

module _ (crypto : Crypto) where
  abbrev pub Jwk : Type 0
  Jwk = Json crypto.js.Num

  unfoldable pub decode_base64url : Bool → String → Result Thrown (List ℕ)
  unfolding all_chars
  decode_base64url allow_empty value = do
    guard (all_chars is_base64url_char value && (allow_empty || not (value == "")))
    guard (crypto.to_base64url (crypto.from_base64url value) == value)
    ok (crypto.from_base64url value)

  fixed_bytes : Option Jwk → Result Thrown (List ℕ)
  unfolding decode_base64url
  fixed_bytes value = do
    text ← need (as_text value)
    decoded ← decode_base64url false text
    guard (length decoded == 32)
    ok decoded

  fits_suite : Jwk → SignatureSuite → Bool
  unfolding field
  fits_suite jwk suite =
      is_text (suite_kty suite) (field "kty" jwk) && is_text (suite_id suite) (field "crv" jwk)

  -- The one suite whose type and curve the key has.
  matching_suite : Jwk → Result Thrown SignatureSuite
  unfolding fits_suite
  matching_suite jwk =
      if fits_suite jwk ed25519
      then ok ed25519
      else if fits_suite jwk p256
      then ok p256
      else err thrown

  curve_point : Jwk → SignatureSuite → List ℕ → Result Thrown (Unit {0})
  unfolding fixed_bytes field
  curve_point jwk ed25519 x = ok tt
  curve_point jwk p256 x = do y ← fixed_bytes (field "y" jwk); guard (crypto.is_on_curve x y)

  abbrev is_operation : Jwk → Bool
  is_operation op = is_text "sign" (some op) || is_text "verify" (some op)

  abbrev operation_names : List Jwk → List String
  operation_names [] = []
  operation_names (op ∷ ops) = elim (as_text (some op)) [
    | none ↦ operation_names ops
    | some name ↦ name ∷ operation_names ops
  ]

  -- A set of operations without repetitions, among them the one that is wanted.
  key_ops_permit : Option String → List Jwk → Bool
  unfolding distinct
  key_ops_permit operation ops =
      not (is_empty ops)
      && every is_operation ops
      && (length (distinct (operation_names ops)) == length ops)
      && elim operation [ none ↦ true | some name ↦ includes name (operation_names ops) ]

  validate_metadata : Jwk → SignatureSuite → Option String → Result Thrown (Unit {0})
  unfolding field key_ops_permit
  validate_metadata jwk suite operation = do
    guard (not (has_own "alg" jwk) || is_text (jws_algorithm suite) (field "alg" jwk))
    guard (not (has_own "use" jwk) || is_text "sig" (field "use" jwk))
    guard (
        not (has_own "key_ops" jwk) || elim (as_items (field "key_ops" jwk)) [
          | none ↦ false
          | some ops ↦ key_ops_permit operation ops
        ])

  pub resolve_signature_suite : Jwk → Result Thrown SignatureSuite
  unfolding matching_suite fixed_bytes curve_point validate_metadata field
  resolve_signature_suite jwk = do
    guard (is_record (some jwk))
    suite ← matching_suite jwk
    x ← fixed_bytes (field "x" jwk)
    curve_point jwk suite x
    validate_metadata jwk suite none
    ok suite

  unfoldable pub validate_public_jwk : Jwk → Option String → Result Thrown SignatureSuite
  unfolding resolve_signature_suite validate_metadata field
  validate_public_jwk jwk operation = do
    suite ← resolve_signature_suite jwk
    guard (not (any (λ name. has_own name jwk) private_members))
    validate_metadata jwk suite operation
    ok suite

  -- The members that a DID is derived from.
  pub normalize_public_jwk : Jwk → Result Thrown (SignatureSuite × Option String × Option String)
  unfolding validate_public_jwk field
  normalize_public_jwk jwk = do
    suite ← validate_public_jwk jwk none
    ok (
      suite,
      as_text (field "x" jwk),
      elim suite [ ed25519 ↦ none | p256 ↦ as_text (field "y" jwk) ],
    )

  pub same_public_key : Jwk → Jwk → Result Thrown Bool
  unfolding normalize_public_jwk
  same_public_key left right = do
    (suite, x, y) ← normalize_public_jwk left
    (suite2, x2, y2) ← normalize_public_jwk right
    ok ((suite_id suite == suite_id suite2) && (x == x2) && (y == y2))

  unfoldable pub is_did_jwk : Did → Bool
  is_did_jwk did = starts_with did "did:jwk:"

  unfoldable pub did_jwk_to_jwk : Did → Result Thrown Jwk
  unfolding is_did_jwk drop decode_base64url validate_public_jwk
  did_jwk_to_jwk did = do
    guard (is_did_jwk did)
    bytes ← decode_base64url false (drop 8 did)
    jwk ← caught (strict_json_parse crypto.js (crypto.utf8 bytes))
    guard (is_record (some jwk))
    validate_public_jwk jwk (some "verify") >>= λ _. ok jwk

  pub did_jwk_to_kid : Did → String
  did_jwk_to_kid did = String.◌++◌ did "#0"

  -- `verificationKid` of a key with its DID.
  unfoldable pub verification_kid : Jwk → Did → Result Thrown String
  unfolding is_did_jwk did_jwk_to_jwk same_public_key did_jwk_to_kid field
  verification_kid public_key did = elim (is_did_jwk did) [
    | true ↦ do
      embedded ← did_jwk_to_jwk did
      same ← same_public_key embedded public_key
      guard same
      ok (did_jwk_to_kid did)
    | false ↦ do kid ← need (as_text (field "kid" public_key)); guard (not (kid == "")); ok kid
  ]

  abbrev is_false : Option Jwk → Bool
  is_false (some (bool b)) = not b
  is_false _ = false

  pub header_fits : SignatureSuite → String → Jwk → Bool
  unfolding field
  header_fits suite expected_kid header =
      is_record (some header)
      && is_text (jws_algorithm suite) (field "alg" header)
      && is_text expected_kid (field "kid" header)
      && not (is_false (field "b64" header))

  verify_parts : SignatureSuite → String → List String → Result Thrown (Unit {0})
  unfolding header_fits decode_base64url validate_signature_encoding
  verify_parts suite expected_kid (protected ∷ payload ∷ signature ∷ []) = do
    bytes ← decode_base64url false protected
    header ← caught (strict_json_parse crypto.js (crypto.utf8 bytes))
    guard (header_fits suite expected_kid header)
    decode_base64url true payload >>= λ _. ok tt
    bytes ← decode_base64url false signature
    validate_signature_encoding suite bytes
  verify_parts suite expected_kid _ = err thrown

  unfoldable pub verify_suite_compact_jws : String → Jwk → String → Result Thrown (List ℕ)
  unfolding validate_public_jwk verify_parts split
  verify_suite_compact_jws jws public_jwk expected_kid = do
    suite ← validate_public_jwk public_jwk (some "verify")
    verify_parts suite expected_kid (split b'.' jws)
    need (crypto.compact_verify jws public_jwk (jws_algorithm suite))
