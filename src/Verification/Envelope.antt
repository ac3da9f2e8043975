-- ===== src/Verification/Envelope.antt =====
-- `validateActionEnvelope`, `isActionEnvelopeExpired` and `exceedsMaxEnvelopeValidity` of
-- sdk/protocol/src/lib/verification.ts. An envelope that passes is read into a record. A difference
-- of instants is compared as a sum, which is the same on integers.
pub mod Timely
use Prim.Native.String
use mpas.Prelude.{
  ℕ, ◌+◌, ltb, leb, String, Bool, true, false, not, ◌&&◌, ◌||◌, Option, none, some, List, [], ◌∷◌,
  if◌then◌else◌,
}
use mpas.Prelude.Eq.{◌==◌, string_eq}
use mpas.Prelude.Result.{Result, ok, err, ◌>>=◌, ◌>>◌, ensure, or_error}
use mpas.Mpas.{Did, HashObject, ActionId}
use mpas.Mpas.Fields.{
  field, field_of, has_own, is_record, only_keys, as_text, is_text, first_unexpected_key,
}
use mpas.Mpas.Json.{Json}
use mpas.Verification.Env.{Env}
use mpas.Verification.Formats.{Time, is_did, read_hash, read_envelope_time}

pub data EnvelopeErrorCode : Type 0 where
  invalid_action_envelope expired_action_envelope : EnvelopeErrorCode

pub record ValidationError : Type 0 where
  pub code : EnvelopeErrorCode
  pub path : String

pub record Envelope : Type 0 where
  pub proposer_did : Did
  pub application_did : Did
  pub profile_id : Did
  pub profile_format : Option String
  pub execution_payload_hash : HashObject
  pub action_id : ActionId
  pub created_at : Time
  pub expires_at : Time

-- The clock and its tolerance; `none` is `checkTime: false`.
pub record Clock : Type 0 where
  pub now : ℕ
  pub tolerance : ℕ

abbrev pub invalid : String → ValidationError
invalid path = record { code = invalid_action_envelope; path = path }

-- `if (key) …`: an empty text counts as no key.
abbrev pub truthy : Option String → Option String
truthy none = none
truthy (some key) = if key == "" then none else some key

-- No undeclared field that the code notices.
abbrev pub declared {ℓ} :
    {N : Type 0} {E : Type ℓ} → (String → E) → List String → Option (Json N) → Result E (Unit {0})
declared error allowed value = elim (truthy (first_unexpected_key value allowed)) [
  | none ↦ ok tt
  | some key ↦ err (error key)
]

abbrev envelope_fields : List String
envelope_fields =
    "version" ∷ "type" ∷ "proposer" ∷ "target" ∷ "executionProfile" ∷ "executionPayloadHash"
    ∷ "actionId" ∷ "createdAt" ∷ "expiresAt" ∷ []

-- The `requiredChecks`.
require_fields : {N : Type 0} → Json N → List String → Result ValidationError (Unit {0})
unfolding field
require_fields envelope [] = ok tt
require_fields envelope (name ∷ names) = do
  ensure (has_own name envelope) (invalid (String.◌++◌ "$." name))
  require_fields envelope names

module _ {N : Type 0} where
  read_proposer : Option (Json N) → Result ValidationError Did
  unfolding field is_did
  read_proposer proposer = do
    ensure
        (is_record proposer && only_keys ("did" ∷ []) proposer && is_did (field_of "did" proposer))
        (invalid "$.proposer.did")
    or_error (as_text (field_of "did" proposer)) (invalid "$.proposer.did")

  read_target : Option (Json N) → Result ValidationError Did
  unfolding field is_did
  read_target target = do
    ensure (is_record target && is_did (field_of "applicationDid" target))
        (invalid "$.target.applicationDid")
    or_error (as_text (field_of "applicationDid" target)) (invalid "$.target.applicationDid")

  read_profile : Option (Json N) → Result ValidationError (Did × Option String)
  unfolding field is_did
  read_profile profile = do
    ensure
        (is_record profile
          && only_keys ("id" ∷ "format" ∷ []) profile
          && is_did (field_of "id" profile))
        (invalid "$.executionProfile.id")
    id ← or_error (as_text (field_of "id" profile)) (invalid "$.executionProfile.id")
    format ← elim (field_of "format" profile) [
      | none ↦ ok none
      | some value ↦ elim (as_text (some value)) [
        | none ↦ err (invalid "$.executionProfile.format")
        | some text ↦ ok (some text)
      ]
    ]
    ok (id, format)

  read_action_id : Option (Json N) → Result ValidationError ActionId
  unfolding field
  read_action_id action_id = do
    ensure (is_record action_id && only_keys ("value" ∷ "scope" ∷ []) action_id)
        (invalid "$.actionId.value")
    value ← or_error (truthy (as_text (field_of "value" action_id))) (invalid "$.actionId.value")
    scope ← elim (field_of "scope" action_id) [
      | none ↦ ok none
      | some text ↦ elim (truthy (as_text (some text))) [
        | none ↦ err (invalid "$.actionId.scope")
        | some scope ↦ ok (some scope)
      ]
    ]
    ok (record { value = value; scope = scope })

module _ (env : Env) where
  abbrev pub EnvJson : Type 0
  EnvJson = Json env.crypto.js.Num

  -- The checks up to the ones that look at a clock.
  unfoldable pub read_envelope : EnvJson → Result ValidationError Envelope
  unfolding field require_fields read_proposer read_target read_profile read_hash read_action_id
      read_envelope_time
  read_envelope envelope = do
    ensure (is_record (some envelope)) (invalid "$")
    declared (λ key. invalid (String.◌++◌ "$." key)) envelope_fields (some envelope)
    require_fields envelope envelope_fields
    ensure (is_text "1" (field "version" envelope)) (invalid "$.version")
    ensure (is_text "ActionEnvelope" (field "type" envelope)) (invalid "$.type")
    proposer ← read_proposer (field "proposer" envelope)
    application ← read_target (field "target" envelope)
    (profile, format) ← read_profile (field "executionProfile" envelope)
    hash ←
        or_error (read_hash (field "executionPayloadHash" envelope))
          (invalid "$.executionPayloadHash")
    action_id ← read_action_id (field "actionId" envelope)
    created ← or_error (read_envelope_time env (field "createdAt" envelope)) (invalid "$.createdAt")
    expires ← or_error (read_envelope_time env (field "expiresAt" envelope)) (invalid "$.expiresAt")
    ensure (ltb created.instant expires.instant) (invalid "$.expiresAt")
    ok (record {
      proposer_did = proposer;
      application_did = application;
      profile_id = profile;
      profile_format = format;
      execution_payload_hash = hash;
      action_id = action_id;
      created_at = created;
      expires_at = expires;
    })

  unfoldable pub check_clock : Option Clock → Bool → Envelope → Result ValidationError (Unit {0})
  check_clock none check_expiry envelope = ok tt
  check_clock (some clock) check_expiry envelope = do
    ensure (leb envelope.created_at.instant (clock.now + clock.tolerance)) (invalid "$.createdAt")
    ensure (not (check_expiry && leb (envelope.expires_at.instant + clock.tolerance) clock.now))
        (record { code = expired_action_envelope; path = "$.expiresAt" })

  unfoldable pub validate_action_envelope :
      Option Clock → Bool → EnvJson → Result ValidationError Envelope
  unfolding read_envelope check_clock
  validate_action_envelope clock check_expiry envelope = do
    read ← read_envelope envelope
    check_clock clock check_expiry read
    ok read

unfoldable pub is_action_envelope_expired : Envelope → ℕ → Bool
is_action_envelope_expired envelope now = leb envelope.expires_at.instant now

unfoldable pub exceeds_max_envelope_validity : Envelope → ℕ → ℕ → Bool
exceeds_max_envelope_validity envelope max_validity now =
    ltb (now + max_validity) envelope.expires_at.instant
