-- ===== src/Coordination/Validation.antt =====
-- The checks of cli/src/coordination/store.ts on Action Packages and Authorization Requirements.
-- Checks of the JSON shape that the types of the model guarantee are left out.
use text.Mathlib.Text.{starts_with}
use mpas.Prelude.{
  ℕ, ltb, leb, String, Bool, true, false, not, ◌&&◌, Option, none, some, List, [], ◌++◌, map,
  length, is_empty, every, or_else, if◌then◌else◌,
}
use mpas.Prelude.Eq.{◌==◌, string_eq, nat_eq}
use mpas.Prelude.Distinct.{distinct}
use mpas.Prelude.Result.{Result, ok, err, ◌>>◌}
use mpas.Mpas.{Did, HashObject, ThresholdRequirement, OverrideSigner, ApprovalRequirements}
use mpas.Mpas.Package.{ActionPackage, envelope_json}
use mpas.Mpas.Response.{
  AuthorizationRequirements, additional_approvals_required, AuthorizationResult,
}
use mpas.Coordination.Env.{Env}
use mpas.Coordination.Errors.{
  ServiceError, invalid_request, artifact_hash_mismatch, permission_denied, expired,
}

pub hashes_equal : HashObject → HashObject → Bool
hashes_equal left right = (left.alg == right.alg) && (left.value == right.value)

-- `throw` unless the test passes.
abbrev pub require : Bool → ServiceError → Result ServiceError (Unit {0})
require true e = ok tt
require false e = err e

pub thresholds_for : ApprovalRequirements → List ThresholdRequirement
thresholds_for r = or_else r.any_of [] ++ or_else r.all_of []

abbrev pub overrides_of : ApprovalRequirements → List OverrideSigner
overrides_of r = or_else r.override_signers []

abbrev is_did : String → Bool
is_did text = starts_with text "did:"

well_formed_threshold : ThresholdRequirement → Bool
well_formed_threshold t = every is_did t.eligible_signers

well_formed_override : OverrideSigner → Bool
well_formed_override o = is_did o.signer && not (is_empty o.permissions)

abbrev pub unique : List String → Bool
unique xs = length (distinct xs) == length xs

-- Unique eligible Signers, enough of them.
pub achievable : ThresholdRequirement → Bool
achievable t =
    unique t.eligible_signers
    && (leb 1 t.threshold && leb t.threshold (length (distinct t.eligible_signers)))

abbrev is_additional : AuthorizationResult → Bool
is_additional additional_approvals_required = true
is_additional _ = false

-- The checks on the approval paths, from `const thresholds` on.
pub validate_paths : ApprovalRequirements → Result ServiceError (Unit {0})
validate_paths r = do
  require (not (is_empty (thresholds_for r) && is_empty (overrides_of r))) invalid_request
  require (every achievable (thresholds_for r)) invalid_request
  require (unique (map (λ (o : OverrideSigner). o.signer) (overrides_of r))) invalid_request

module _ (env : Env) where
  validate_expiry : Option String → ℕ → Result ServiceError (Unit {0})
  validate_expiry none now = ok tt
  validate_expiry (some text) now = elim (env.date_parse text) [
    | none ↦ err invalid_request
    | some expires_at ↦ require (ltb now expires_at) expired
  ]

  validate_bound :
      AuthorizationRequirements
      → ApprovalRequirements
      → HashObject
      → Option Did
      → ℕ
      → Result ServiceError (Unit {0})
  unfolding well_formed_threshold well_formed_override hashes_equal validate_expiry validate_paths
  validate_bound r approval_requirements action_envelope_hash verifier_did now = do
    require (every well_formed_threshold (thresholds_for approval_requirements)) invalid_request
    require (every well_formed_override (overrides_of approval_requirements)) invalid_request
    require (is_additional r.result) invalid_request
    require (hashes_equal r.action_envelope_hash action_envelope_hash) artifact_hash_mismatch
    require (or_else verifier_did r.verifier_did == r.verifier_did) permission_denied
    validate_expiry r.expires_at now
    validate_paths approval_requirements

  pub validate_authorization_requirements :
      AuthorizationRequirements → HashObject → Option Did → ℕ → Result ServiceError (Unit {0})
  unfolding validate_bound
  validate_authorization_requirements r action_envelope_hash verifier_did now =
      if not (is_did r.verifier_did) then err invalid_request else elim r.approval_requirements [
        | none ↦ err invalid_request
        | some a ↦ validate_bound r a action_envelope_hash verifier_did now
      ]

  pub envelope_hash : ActionPackage env.Num → HashObject
  envelope_hash p = env.compute_json_hash (envelope_json p.action_envelope)

  pub validate_action_package_bindings : ActionPackage env.Num → Result ServiceError (Unit {0})
  unfolding hashes_equal envelope_hash
  validate_action_package_bindings p = do
    require
        (hashes_equal (env.compute_json_hash p.execution_payload)
          p.action_envelope.execution_payload_hash)
        artifact_hash_mismatch
    require (hashes_equal (envelope_hash p) p.approval_bundle.action_envelope_hash)
        artifact_hash_mismatch
