-- ===== src/Verification/Structure.antt =====
-- `parseActionPackage` and `validateApprovalBundleStructure` of sdk/protocol/src/lib/verification.ts.
-- A bundle that passes is read into a record.
use Prim.Native.String
use mpas.Prelude.{
  ℕ, ◌+◌, String, Bool, true, false, not, ◌&&◌, ◌||◌, Option, none, some, List, [], ◌∷◌, is_empty,
}
use mpas.Prelude.Chars.{drop}
use mpas.Prelude.Decimal.{decimal}
use mpas.Prelude.Result.{Result, ok, ◌>>=◌, ◌>>◌, ensure, or_error, map_error}
use mpas.Mpas.{HashObject, Decision}
use mpas.Mpas.Fields.{field, field_of, has_own, is_record, only_keys, as_text, as_items, is_text}
use mpas.Mpas.Json.{Json, null}
use mpas.Verification.Env.{Env}
use mpas.Verification.Formats.{
  Time, is_did, read_hash, read_decision, read_mpas_time, is_compact_jws,
}
use mpas.Verification.Envelope.{ValidationError, declared, EnvJson, validate_action_envelope}

pub record Approval : Type 0 where
  pub action_envelope_hash : HashObject
  pub decision : Decision
  pub signature_value : String
  pub created_at : Time
  pub expires_at : Option Time

pub record ApprovalBundle : Type 0 where
  pub action_envelope_hash : HashObject
  pub approvals : List Approval

infixr 55 ◌/◌
abbrev pub ◌/◌ : String → String → String
prefix / name = String.◌++◌ prefix name

abbrev bundle_fields : List String
bundle_fields =
    "version" ∷ "type" ∷ "actionEnvelopeHash" ∷ "approvals" ∷ "assembledBy" ∷ "createdAt" ∷ []

abbrev approval_fields : List String
approval_fields =
    "version" ∷ "type" ∷ "actionEnvelopeHash" ∷ "decision" ∷ "signature" ∷ "createdAt" ∷ "expiresAt"
    ∷ []

abbrev package_fields : List String
package_fields =
    "version" ∷ "type" ∷ "executionPayload" ∷ "actionEnvelope" ∷ "approvalBundle" ∷ "createdAt" ∷ []

-- The errors of these two functions are told apart by their paths alone.
abbrev pub Checked {ℓ} : Type ℓ → Type ℓ
Checked A = Result String A

abbrev is_null : {N : Type 0} → Option (Json N) → Bool
is_null (some null) = true
is_null _ = false

unfoldable pub approval_path : ℕ → String
unfolding decimal
approval_path i = "$.approvalBundle.approvals[" / (decimal i / "]")

module _ (env : Env) where
  -- An optional timestamp: absent, or well formed.
  optional_time : Option (EnvJson env) → String → Checked (Option Time)
  unfolding read_mpas_time
  optional_time none path = ok none
  optional_time (some value) path =
      or_error (read_mpas_time env (some value)) path >>= λ time. ok (some time)

  read_signature : Option (EnvJson env) → String → Checked String
  unfolding field is_compact_jws
  read_signature signature path = do
    ensure
        (is_record signature
          && only_keys ("format" ∷ "value" ∷ []) signature
          && is_text "jws" (field_of "format" signature))
        path
    text ← or_error (as_text (field_of "value" signature)) path
    ensure (is_compact_jws text) path
    ok text

  read_approval : ℕ → EnvJson env → Checked Approval
  unfolding field read_hash read_decision read_signature read_mpas_time optional_time approval_path
  read_approval i approval = do
    ensure (is_record (some approval)) (approval_path i)
    declared (λ key. approval_path i / ("." / key)) approval_fields (some approval)
    ensure (is_text "1" (field "version" approval)) (approval_path i / ".version")
    ensure (is_text "Approval" (field "type" approval)) (approval_path i / ".type")
    hash ←
        or_error (read_hash (field "actionEnvelopeHash" approval))
          (approval_path i / ".actionEnvelopeHash")
    decision ← or_error (read_decision (field "decision" approval)) (approval_path i / ".decision")
    signature ← read_signature (field "signature" approval) (approval_path i / ".signature")
    created ←
        or_error (read_mpas_time env (field "createdAt" approval)) (approval_path i / ".createdAt")
    expires ← optional_time (field "expiresAt" approval) (approval_path i / ".expiresAt")
    ok (record {
      action_envelope_hash = hash;
      decision = decision;
      signature_value = signature;
      created_at = created;
      expires_at = expires;
    })

  read_approvals : ℕ → List (EnvJson env) → Checked (List Approval)
  unfolding read_approval
  read_approvals i [] = ok []
  read_approvals i (v ∷ vs) = do
    approval ← read_approval i v
    rest ← read_approvals (i + 1) vs
    ok (approval ∷ rest)

  unfoldable pub validate_approval_bundle_structure : EnvJson env → Checked ApprovalBundle
  unfolding field read_hash is_did optional_time read_approvals
  validate_approval_bundle_structure bundle = do
    ensure (is_record (some bundle)) "$.approvalBundle"
    declared (λ key. "$.approvalBundle." / key) bundle_fields (some bundle)
    ensure (is_text "1" (field "version" bundle)) "$.approvalBundle.version"
    ensure (is_text "ApprovalBundle" (field "type" bundle)) "$.approvalBundle.type"
    hash ←
        or_error (read_hash (field "actionEnvelopeHash" bundle))
          "$.approvalBundle.actionEnvelopeHash"
    ensure (not (has_own "assembledBy" bundle) || is_did (field "assembledBy" bundle))
        "$.approvalBundle.assembledBy"
    optional_time (field "createdAt" bundle) "$.approvalBundle.createdAt" >>= λ _. ok tt
    approvals ← or_error (as_items (field "approvals" bundle)) "$.approvalBundle.approvals"
    ensure (not (is_empty approvals)) "$.approvalBundle.approvals"
    read ← read_approvals 0 approvals
    ok (record { action_envelope_hash = hash; approvals = read })

  -- The parts of a package that parses.
  pub record ActionPackage : Type 0 where
    pub execution_payload : EnvJson env
    pub action_envelope : EnvJson env
    pub approval_bundle : EnvJson env

  -- `$` of an error in the envelope becomes `$.actionEnvelope`.
  envelope_path : ValidationError → String
  unfolding drop
  envelope_path e = "$.actionEnvelope" / drop 1 e.path

  unfoldable pub parse_action_package : EnvJson env → Checked ActionPackage
  unfolding field envelope_path validate_action_envelope validate_approval_bundle_structure
      optional_time
  parse_action_package json = do
    ensure (is_record (some json)) "$"
    declared (λ key. "$." / key) package_fields (some json)
    ensure (is_text "1" (field "version" json)) "$.version"
    ensure (is_text "ActionPackage" (field "type" json)) "$.type"
    payload ← or_error (field "executionPayload" json) "$.executionPayload"
    ensure (not (is_null (some payload))) "$.executionPayload"
    envelope ← or_error (field "actionEnvelope" json) "$.actionEnvelope"
    ensure (is_record (some envelope)) "$.actionEnvelope"
    map_error envelope_path (validate_action_envelope env none false envelope) >>= λ _. ok tt
    bundle ← or_error (field "approvalBundle" json) "$.approvalBundle"
    ensure (is_record (some bundle)) "$.approvalBundle"
    validate_approval_bundle_structure bundle >>= λ _. ok tt
    optional_time (field "createdAt" json) "$.createdAt" >>= λ _. ok tt
    ok (record {
      execution_payload = payload;
      action_envelope = envelope;
      approval_bundle = bundle;
    })
