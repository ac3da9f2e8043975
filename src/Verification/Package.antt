-- ===== src/Verification/Package.antt =====
-- `verifyActionPackage` of sdk/protocol/src/lib/verification.ts, with the execution profiles it
-- trusts. The trace callback `onStep` is left out.
pub mod Accepted
pub mod Backing
use mpas.Prelude.{
  ℕ, String, Bool, true, false, not, ◌&&◌, Option, none, some, List, [], ◌∷◌, map, filter, find,
  any, is_empty, or_else, if◌then◌else◌,
}
use mpas.Prelude.Eq.{◌==◌, string_eq, option_eq}
use mpas.Prelude.Result.{Result, ok, err, ◌>>=◌, ◌>>◌, ensure, or_error, map_error}
use mpas.Mpas.{Did, HashObject, ActionId, propose, decision_eq}
use mpas.Mpas.Fields.{field, is_record, only_keys, as_text}
use mpas.Mpas.Json.{Json}
use mpas.Verification.Env.{Env}
use mpas.Verification.Formats.{has_safe_replay_domain, hashes_equal}
use mpas.Verification.Envelope.{
  Envelope, ValidationError, EnvelopeErrorCode, invalid_action_envelope, expired_action_envelope,
  EnvJson, Clock, validate_action_envelope, exceeds_max_envelope_validity,
}
use mpas.Verification.Structure.{
  ActionPackage, parse_action_package, validate_approval_bundle_structure,
}
use mpas.Verification.Approvals.{
  ApprovalBundleError, VerifiedApproval, TrustedSigner, verify_approval_bundle,
}
use mpas.Verification.Times.{ApprovalTimeOptions}
use text.Mathlib.Text.{starts_with}

pub data VerificationFailureCode : Type 0 where
  invalid_action_package invalid_envelope : VerificationFailureCode
  expired_envelope envelope_validity_too_long : VerificationFailureCode
  unsupported_execution_profile invalid_execution_payload : VerificationFailureCode
  invalid_action_id payload_hash_mismatch approval_bundle_invalid : VerificationFailureCode
  malformed_bundle missing_proposer_approval unknown_application : VerificationFailureCode

pub record Rejection : Type 0 where
  pub code : VerificationFailureCode
  pub path : String

abbrev pub default_max_envelope_validity_ms : ℕ
default_max_envelope_validity_ms = 86400000

abbrev pub envelope_failure : EnvelopeErrorCode → VerificationFailureCode
envelope_failure invalid_action_envelope = invalid_envelope
envelope_failure expired_action_envelope = expired_envelope

module _ (env : Env) where
  pub record TrustedExecutionProfile : Type 0 where
    pub id : Did
    pub format : String
    pub validate_payload : EnvJson env → Bool
    pub hash_payload : EnvJson env → HashObject
    pub validate_action_id : Option (ActionId → Bool)

  pub record TrustedApplicationProfile : Type 0 where
    pub application_did : Did
    pub execution_profile : TrustedExecutionProfile

  pub record VerificationConfig : Type 0 where
    pub trusted_signers : List (TrustedSigner env)
    pub trusted_application_profiles : Option (List TrustedApplicationProfile)
    pub trusted_application_dids : Option (List Did)
    pub now : ℕ
    pub timestamp_tolerance_ms : Option ℕ
    pub max_envelope_validity_ms : Option ℕ

  pub record Verified : Type 0 where
    pub action_id : String
    pub application_did : Did
    pub operation_name : Option String
    pub action_envelope_hash : HashObject
    pub verified_approvals : List VerifiedApproval

  unfoldable pub is_mcp_tool_call_payload : EnvJson env → Bool
  unfolding field
  is_mcp_tool_call_payload payload =
      is_record (some payload)
      && only_keys ("name" ∷ "arguments" ∷ []) (some payload)
      && elim (as_text (field "name" payload)) [ none ↦ false | some name ↦ not (name == "") ]
      && is_record (field "arguments" payload)

  -- `hasSafeReplayDomain` of an Action ID.
  unfoldable pub safe_action_id : ActionId → Bool
  unfolding has_safe_replay_domain
  safe_action_id id = has_safe_replay_domain id.value id.scope

  unfoldable pub mcp_tool_call_execution_profile : TrustedExecutionProfile
  unfolding is_mcp_tool_call_payload safe_action_id
  mcp_tool_call_execution_profile = record {
    id = "did:web:profiles.oma3.org:mcp";
    format = "mcp.toolsCall";
    validate_payload = is_mcp_tool_call_payload;
    hash_payload = env.compute_json_hash;
    validate_action_id = some safe_action_id;
  }

  unfoldable pub trusted_application_bindings : VerificationConfig → List TrustedApplicationProfile
  unfolding mcp_tool_call_execution_profile
  trusted_application_bindings config = elim config.trusted_application_profiles [
    | some profiles ↦ profiles
    | none ↦
        map
          (λ did. record {
            application_did = did;
            execution_profile = mcp_tool_call_execution_profile;
          })
          (or_else config.trusted_application_dids [])
  ]

  unfoldable pub verify_payload_binding : EnvJson env → Envelope → TrustedExecutionProfile → Bool
  unfolding hashes_equal
  verify_payload_binding payload envelope profile =
      profile.validate_payload payload
      && hashes_equal (profile.hash_payload payload) envelope.execution_payload_hash

  unfoldable pub operation_name_from_payload : EnvJson env → Option String
  unfolding field
  operation_name_from_payload payload = as_text (field "name" payload)

  abbrev pub rejects : VerificationFailureCode → String → Rejection
  rejects code path = record { code = code; path = path }

  abbrev pub tolerance_of : VerificationConfig → ℕ
  tolerance_of config = or_else config.timestamp_tolerance_ms 0

  abbrev pub clock_of : VerificationConfig → Clock
  clock_of config = record { now = config.now; tolerance = tolerance_of config }

  abbrev pub options_of : VerificationConfig → Envelope → ApprovalTimeOptions
  options_of config envelope = record {
    action_envelope = some envelope;
    now = config.now;
    tolerance = tolerance_of config;
  }

  -- The code of an error in the package depends on where its path points.
  abbrev parse_failure : String → Rejection
  parse_failure path =
      if starts_with path "$.approvalBundle"
      then rejects malformed_bundle path
      else rejects invalid_action_package path

  unfoldable pub parsed_package : EnvJson env → Result Rejection (ActionPackage env)
  parsed_package json = map_error parse_failure (parse_action_package env json)

  unfoldable pub timely_envelope : VerificationConfig → EnvJson env → Result Rejection Envelope
  timely_envelope config json =
      map_error (λ (e : ValidationError). rejects (envelope_failure e.code) e.path)
        (validate_action_envelope env (some (clock_of config)) true json)

  abbrev pub is_for_application : Envelope → TrustedApplicationProfile → Bool
  is_for_application envelope b = b.application_did == envelope.application_did

  abbrev pub is_for_profile : Envelope → TrustedApplicationProfile → Bool
  is_for_profile envelope b =
      b.execution_profile.id == envelope.profile_id
      && some b.execution_profile.format == envelope.profile_format

  -- Two lookups: the bindings of the target application, and the first of them for the profile.
  unfoldable pub authorized_profile :
      VerificationConfig → Envelope → Result Rejection TrustedExecutionProfile
  authorized_profile config envelope = do
    let matches = filter (is_for_application envelope) (trusted_application_bindings config)
    ensure (not (is_empty matches))
        (rejects unknown_application "$.actionEnvelope.target.applicationDid")
    binding ←
        or_error (find (is_for_profile envelope) matches)
          (rejects unsupported_execution_profile "$.actionEnvelope.executionProfile")
    ok binding.execution_profile

  abbrev pub valid_action_id : TrustedExecutionProfile → ActionId → Bool
  valid_action_id profile = or_else profile.validate_action_id safe_action_id

  -- A `propose` Approval that the Proposer of the envelope signed.
  abbrev pub is_proposer_approval : Did → VerifiedApproval → Bool
  is_proposer_approval did verified =
      (verified.approval.decision == propose) && (verified.signer_did == did)

  unfoldable pub verified_bundle :
      VerificationConfig
      → Envelope
      → EnvJson env
      → EnvJson env
      → Result Rejection (List VerifiedApproval)
  verified_bundle config envelope envelope_json bundle_json =
      map_error (rejects malformed_bundle) (validate_approval_bundle_structure env bundle_json)
      >>= λ _.
          map_error (λ (e : ApprovalBundleError). rejects approval_bundle_invalid e.path)
            (verify_approval_bundle env (env.compute_json_hash envelope_json) config.trusted_signers
              (options_of config envelope) bundle_json)

  unfoldable pub verify_action_package :
      EnvJson env → VerificationConfig → Result Rejection Verified
  verify_action_package json config = do
    parts ← parsed_package json
    envelope ← timely_envelope config parts.action_envelope
    ensure
        (not (
          exceeds_max_envelope_validity envelope
            (or_else config.max_envelope_validity_ms default_max_envelope_validity_ms) config.now))
        (rejects envelope_validity_too_long "$.actionEnvelope.expiresAt")
    profile ← authorized_profile config envelope
    ensure (profile.validate_payload parts.execution_payload)
        (rejects invalid_execution_payload "$.executionPayload")
    ensure (valid_action_id profile envelope.action_id)
        (rejects invalid_action_id "$.actionEnvelope.actionId.scope")
    ensure (verify_payload_binding parts.execution_payload envelope profile)
        (rejects payload_hash_mismatch "$.actionEnvelope.executionPayloadHash")
    approvals ← verified_bundle config envelope parts.action_envelope parts.approval_bundle
    ensure (any (is_proposer_approval envelope.proposer_did) approvals)
        (rejects missing_proposer_approval "$.approvalBundle.approvals")
    ok (record {
      action_id = envelope.action_id.value;
      application_did = envelope.application_did;
      operation_name = operation_name_from_payload parts.execution_payload;
      action_envelope_hash = env.compute_json_hash parts.action_envelope;
      verified_approvals = approvals;
    })
