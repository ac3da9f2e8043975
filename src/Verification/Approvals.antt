-- ===== src/Verification/Approvals.antt =====
-- `verifyApprovalBundle` of sdk/protocol/src/lib/verification.ts.
pub mod Endorsed
use Prim.Native.String
use mpas.Prelude.{
  ℕ, ◌+◌, ltb, leb, String, Bool, true, false, not, ◌&&◌, ◌||◌, Option, none, some, List, [], ◌∷◌,
  get_elem?, if◌then◌else◌,
}
use mpas.Prelude.Assoc.{Assoc, lookup, insert}
use mpas.Prelude.Eq.{◌==◌, string_eq, option_eq}
use mpas.Prelude.Text.{split}
use mpas.Prelude.Result.{Result, ok, err, ◌>>=◌, ◌>>◌, ensure, or_error, map_error, none_or}
use mpas.Mpas.{Did, HashObject, Decision, decision_eq}
use mpas.Mpas.Fields.{field, is_record, only_keys, is_text, as_text}
use mpas.Mpas.Json.{Json}
use mpas.StrictJson.{strict_json_parse}
use mpas.Suites.{
  Thrown, Jwk, is_did_jwk, did_jwk_to_jwk, verification_kid, verify_suite_compact_jws,
}
use mpas.Verification.Env.{Env}
use mpas.Verification.Formats.{Time, is_did, read_hash, read_decision, read_mpas_time, hashes_equal}
use mpas.Verification.Envelope.{Envelope, EnvJson}
use mpas.Verification.Structure.{
  Approval, ApprovalBundle, approval_path, validate_approval_bundle_structure, ◌/◌,
}
use mpas.Verification.Payload.{
  ApprovalBundleErrorCode, action_envelope_hash_mismatch, approval_hash_mismatch,
  malformed_approval_bundle, untrusted_signer, invalid_signature, approval_payload_mismatch,
  non_canonical_approval_payload, approval_time_invalid, CanonicalApprovalPayload,
  decode_approval_jws,
}
use mpas.Verification.Times.{ApprovalTimeOptions, validate_approval_time}

pub record ApprovalBundleError : Type 0 where
  pub code : ApprovalBundleErrorCode
  pub path : String

pub record VerifiedApproval : Type 0 where
  pub approval : Approval
  pub signer_did : Did

abbrev pub text_of : Option Time → Option String
text_of none = none
text_of (some t) = some t.text

module _ (env : Env) where
  pub record TrustedSigner : Type 0 where
    pub did : Did
    pub public_jwk : Option (Jwk env.crypto)

  -- `undefined` where no key can be resolved.
  unfoldable pub resolve_trusted_signer_jwk : TrustedSigner → Option (Jwk env.crypto)
  unfolding is_did_jwk did_jwk_to_jwk
  resolve_trusted_signer_jwk signer = elim (is_did_jwk env.crypto signer.did) [
    | true ↦ elim (did_jwk_to_jwk env.crypto signer.did) [ err e ↦ none | ok jwk ↦ some jwk ]
    | false ↦ signer.public_jwk
  ]

  -- `new Map(trustedSigners.map(…))`: a later signer of the same DID replaces an earlier one.
  pub signers_by_did : Assoc Did TrustedSigner → List TrustedSigner → Assoc Did TrustedSigner
  unfolding insert
  signers_by_did known [] = known
  signers_by_did known (s ∷ signers) = signers_by_did (insert s.did s known) signers

  -- The signed payload says what the Approval says, and who signed it.
  unfoldable pub payload_agrees : CanonicalApprovalPayload → Approval → Did → Bool
  unfolding hashes_equal
  payload_agrees payload approval did =
      hashes_equal payload.action_envelope_hash approval.action_envelope_hash
      && payload.decision == approval.decision
      && payload.created_at.text == approval.created_at.text
      && text_of payload.expires_at == text_of approval.expires_at
      && payload.signer_did == did

  -- The key identifier and the payload; `Thrown` where one of the two calls throws.
  unfoldable pub verified_signature :
      Approval → TrustedSigner → Jwk env.crypto → Result Thrown (List ℕ)
  unfolding verification_kid verify_suite_compact_jws
  verified_signature approval signer jwk = verification_kid env.crypto jwk signer.did >>= λ kid.
      verify_suite_compact_jws env.crypto approval.signature_value jwk kid

  module _ (envelope_hash : HashObject) (signers : List TrustedSigner)
      (options : ApprovalTimeOptions) where
    abbrev fails : ApprovalBundleErrorCode → String → ApprovalBundleError
    fails code path = record { code = code; path = path }

    timely : ℕ → Approval → Result ApprovalBundleError (Unit {0})
    unfolding validate_approval_time approval_path
    timely i approval =
        none_or (λ name. fails approval_time_invalid (approval_path i / ("." / name)))
          (validate_approval_time approval options)

    -- The checks on one Approval of the bundle, at its position.
    unfoldable pub verify_bundled_approval :
        ℕ → Approval → Result ApprovalBundleError VerifiedApproval
    unfolding hashes_equal decode_approval_jws lookup signers_by_did resolve_trusted_signer_jwk
        verified_signature payload_agrees timely approval_path
    verify_bundled_approval i approval = do
      ensure (hashes_equal approval.action_envelope_hash envelope_hash)
          (fails approval_hash_mismatch (approval_path i / ".actionEnvelopeHash"))
      payload ←
          map_error (λ code. fails code (approval_path i / ".signature.value"))
            (decode_approval_jws env approval.signature_value)
      signer ←
          or_error (lookup payload.signer_did (signers_by_did [] signers))
            (fails untrusted_signer (approval_path i / ".signature"))
      jwk ←
          or_error (resolve_trusted_signer_jwk signer)
            (fails untrusted_signer (approval_path i / ".signature"))
      map_error (λ _. fails invalid_signature (approval_path i / ".signature"))
            (verified_signature approval signer jwk)
          >>= λ _. ok tt
      ensure (payload_agrees payload approval signer.did)
          (fails approval_payload_mismatch (approval_path i))
      timely i approval
      ok (record { approval = approval; signer_did = signer.did })

    verify_each : ℕ → List Approval → Result ApprovalBundleError (List VerifiedApproval)
    unfolding verify_bundled_approval
    verify_each i [] = ok []
    verify_each i (a ∷ approvals) = do
      verified ← verify_bundled_approval i a
      rest ← verify_each (i + 1) approvals
      ok (verified ∷ rest)

    unfoldable pub verify_approval_bundle :
        EnvJson env → Result ApprovalBundleError (List VerifiedApproval)
    unfolding validate_approval_bundle_structure hashes_equal verify_each
    verify_approval_bundle bundle = do
      read ←
          map_error (fails malformed_approval_bundle)
            (validate_approval_bundle_structure env bundle)
      ensure (hashes_equal read.action_envelope_hash envelope_hash)
          (fails action_envelope_hash_mismatch "$.approvalBundle.actionEnvelopeHash")
      verify_each 0 read.approvals
