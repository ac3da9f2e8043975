-- ===== src/Verification/Payload.antt =====
-- `decodeApprovalJws` and `isCanonicalApprovalPayload` of sdk/protocol/src/lib/verification.ts: what
-- the middle part of a compact JWS says, not verified yet.
use mpas.Prelude.{String, ◌&&◌, Option, none, some, List, [], ◌∷◌, get_elem?}
use mpas.Prelude.Eq.{◌==◌, string_eq, option_eq}
use mpas.Prelude.Text.{split}
use mpas.Prelude.Result.{Result, ok, ◌>>=◌, ◌>>◌, ensure, or_error, map_error}
use mpas.Mpas.{Did, HashObject, Decision, decision_eq}
use mpas.Mpas.Fields.{field, is_record, only_keys, is_text, as_text}
use mpas.StrictJson.{strict_json_parse}
use mpas.Verification.Env.{Env}
use mpas.Verification.Formats.{Time, is_did, read_hash, read_decision, read_mpas_time}
use mpas.Verification.Envelope.{EnvJson}

pub data ApprovalBundleErrorCode : Type 0 where
  action_envelope_hash_mismatch approval_hash_mismatch : ApprovalBundleErrorCode
  malformed_approval_bundle untrusted_signer : ApprovalBundleErrorCode
  invalid_signature approval_payload_mismatch : ApprovalBundleErrorCode
  non_canonical_approval_payload approval_time_invalid : ApprovalBundleErrorCode

pub record CanonicalApprovalPayload : Type 0 where
  pub action_envelope_hash : HashObject
  pub decision : Decision
  pub signer_did : Did
  pub created_at : Time
  pub expires_at : Option Time

abbrev payload_fields : List String
payload_fields =
    "type" ∷ "actionEnvelopeHash" ∷ "decision" ∷ "signerDid" ∷ "createdAt" ∷ "expiresAt" ∷ []

module _ (env : Env) where
  -- `isCanonicalApprovalPayload`.
  read_payload : EnvJson env → Result ApprovalBundleErrorCode CanonicalApprovalPayload
  unfolding field read_hash read_decision is_did read_mpas_time
  read_payload value = do
    ensure
        (is_record (some value)
          && only_keys payload_fields (some value)
          && is_text "ApprovalPayload" (field "type" value)
          && is_did (field "signerDid" value))
        approval_payload_mismatch
    hash ← or_error (read_hash (field "actionEnvelopeHash" value)) approval_payload_mismatch
    decision ← or_error (read_decision (field "decision" value)) approval_payload_mismatch
    did ← or_error (as_text (field "signerDid" value)) approval_payload_mismatch
    created ← or_error (read_mpas_time env (field "createdAt" value)) approval_payload_mismatch
    expires ← elim (field "expiresAt" value) [
      | none ↦ ok none
      | some time ↦
          or_error (read_mpas_time env (some time)) approval_payload_mismatch >>= λ t. ok (some t)
    ]
    ok (record {
      action_envelope_hash = hash;
      decision = decision;
      signer_did = did;
      created_at = created;
      expires_at = expires;
    })

  parsed_payload : String → Result ApprovalBundleErrorCode (EnvJson env)
  unfolding strict_json_parse
  parsed_payload text =
      map_error (λ _. approval_payload_mismatch) (strict_json_parse env.crypto.js text)

  unfoldable pub decode_approval_jws :
      String → Result ApprovalBundleErrorCode CanonicalApprovalPayload
  unfolding split parsed_payload read_payload
  decode_approval_jws jws = do
    part ← or_error (get_elem? (split b'.' jws) 1) approval_payload_mismatch
    let text = env.crypto.utf8 (env.crypto.from_base64url part)
    value ← parsed_payload text
    payload ← read_payload value
    ensure (env.canonicalize value == text) non_canonical_approval_payload
    ok payload
