-- ===== src/Coordination/Workflow/Submission.antt =====
-- Decisions and cancellation: `submitApproval`, `cancelAction` and their checks.
use mpas.Prelude.{
  ℕ, String, Bool, true, not, ◌||◌, Option, none, some, List, [], ◌∷◌, ◌++◌, map, filter, find, set,
  is_some, if◌then◌else◌,
}
use mpas.Prelude.Text.{split}
use mpas.Prelude.Eq.{◌==◌, string_eq}
use mpas.Prelude.Result.{Result, ok, err, ◌>>=◌, ◌>>◌}
use mpas.Mpas.{Did, Decision, decision_eq, Timestamp, HashObject, ActionId}
use mpas.Mpas.Package.{Approval}
use mpas.Approval.{
  SignerDecision, ApprovalRequirementsStatus, satisfied, pending, unreachable,
  evaluate_approval_requirements,
}
use mpas.Coordination.Env.{Env, CanonicalApprovalPayload}
use mpas.Coordination.Errors.{
  ServiceError, action_not_found, approval_hash_mismatch, approval_signer_missing,
  approval_decision_mismatch, self_approval_denied, signer_decision_conflict,
  action_not_awaiting_approvals, not_proposer, action_expired, action_ready, action_rejected,
  conflicting_decisions,
}
use mpas.Coordination.Validation.{require}
use mpas.Coordination.Workflow.{
  CoordinationState, awaiting_approvals, ready_for_submission, rejected, cancelled, expired,
  is_state, StoredApproval, StoredAction, Workflows, requirements_of, proposer_of, effective_state,
  by_hash, by_id,
}

pub record ApprovalSubmission : Type 0 where
  pub action_envelope_hash : HashObject
  pub approval : Approval

pub record CancelRequest : Type 0 where
  pub action_id : ActionId
  pub proposer_did : Did

-- What `approvalPreflight` returns, with the position of the stored action.
pub record Preflight (env : Env) : Type 0 where
  pub position : ℕ
  pub stored : StoredAction env
  pub signer_did : Did
  pub decision : Decision
  pub duplicate : Bool

abbrev pub as_decision : StoredApproval → SignerDecision
as_decision a = record { signer_did = a.signer_did; decision = a.decision }

module _ (env : Env) where
  -- A compact JWS has three parts; the second is the payload.
  middle_part : List String → Option String
  middle_part (header ∷ payload ∷ signature ∷ []) = some payload
  middle_part _ = none

  pub decode_approval_payload : Approval → Option CanonicalApprovalPayload
  unfolding middle_part
  decode_approval_payload a = elim (middle_part (split b'.' a.signature_value)) [
    | none ↦ none
    | some part ↦ env.parse_payload part
  ]

  abbrev pub prior_of : StoredAction env → Did → Option StoredApproval
  prior_of s signer_did =
      find (λ (entry : StoredApproval). entry.signer_did == signer_did) s.approvals

  -- A prior decision is final.
  abbrev pub agrees : Option StoredApproval → Decision → Bool
  agrees none decision = true
  agrees (some entry) decision = entry.decision == decision

  abbrev pub preflight_of : ℕ → StoredAction env → Did → Decision → Preflight env
  preflight_of i s signer_did decision = record {
    position = i;
    stored = s;
    signer_did = signer_did;
    decision = decision;
    duplicate = is_some (prior_of s signer_did);
  }

  -- The checks on one stored action and one signed payload.
  unfoldable pub check_decision :
      ℕ
      → StoredAction env
      → Approval
      → CanonicalApprovalPayload
      → Did
      → Result ServiceError (Preflight env)
  check_decision i s approval payload signer_did = do
    require (approval.decision == payload.decision) approval_decision_mismatch
    require (not (signer_did == proposer_of env s)) self_approval_denied
    require (agrees (prior_of s signer_did) payload.decision) signer_decision_conflict
    require (is_state s.state awaiting_approvals || is_some (prior_of s signer_did))
        action_not_awaiting_approvals
    ok (preflight_of i s signer_did payload.decision)

  unfoldable pub check_payload :
      ℕ
      → StoredAction env
      → Approval
      → Option CanonicalApprovalPayload
      → Result ServiceError (Preflight env)
  unfolding check_decision
  check_payload i s approval none = err approval_hash_mismatch
  check_payload i s approval (some payload) = do
    require (payload.action_envelope_hash.value == s.action_ref.action_envelope_hash.value)
        approval_hash_mismatch
    elim payload.signer_did [
      | none ↦ err approval_signer_missing
      | some signer_did ↦
          if signer_did == ""
          then err approval_signer_missing
          else check_decision i s approval payload signer_did
    ]

  unfoldable pub check_stored :
      Option (ℕ × StoredAction env) → Approval → ℕ → Result ServiceError (Preflight env)
  unfolding check_payload decode_approval_payload
  check_stored none approval now = err action_not_found
  check_stored (some (i, s)) approval now =
      let state = effective_state env s now in
      if is_state state cancelled || is_state state expired then err action_not_found else do
        require (approval.action_envelope_hash.value == s.action_ref.action_envelope_hash.value)
            approval_hash_mismatch
        check_payload i s approval (decode_approval_payload approval)

  unfoldable pub approval_preflight :
      Workflows env → ApprovalSubmission → ℕ → Result ServiceError (Preflight env)
  unfolding check_stored
  approval_preflight w r now =
      check_stored (by_hash env w r.action_envelope_hash.value) r.approval now

  -- The decisions that count for the workflow.
  abbrev pub decisions_of : StoredAction env → List SignerDecision
  decisions_of s =
      map as_decision (filter (λ entry. not (entry.signer_did == proposer_of env s)) s.approvals)

  unfoldable pub record_decision : Preflight env → Approval → Timestamp → StoredAction env
  record_decision p approval at = if p.duplicate then p.stored else record (p.stored) {
    approvals =
        p.stored.approvals
        ++ record { approval = approval; signer_did = p.signer_did; decision = p.decision } ∷ [];
    updated_at = at;
  }

  unfoldable pub apply_status :
      StoredAction env → Timestamp → ApprovalRequirementsStatus → StoredAction env
  apply_status s at satisfied = record s { state = ready_for_submission; updated_at = at }
  apply_status s at unreachable = record s {
    state = rejected;
    rejected_at = some at;
    updated_at = at;
  }
  apply_status s at pending = s

  -- `none` is the error of the evaluation; the decision is recorded by then.
  unfoldable pub settle : StoredAction env → Timestamp → Option (StoredAction env)
  unfolding apply_status
  settle s at =
      if is_state s.state awaiting_approvals
      then elim (evaluate_approval_requirements (requirements_of env s) (decisions_of s)) [
        | none ↦ none
        | some status ↦ some (apply_status s at status)
      ]
      else some s

  -- What is stored and answered, given the result of `settle`.
  unfoldable pub outcome :
      Workflows env
      → ℕ
      → StoredAction env
      → Option (StoredAction env)
      → Workflows env × Result ServiceError CoordinationState
  outcome w i s none = (record w { actions = set w.actions i s }, err conflicting_decisions)
  outcome w i s (some s') = (record w { actions = set w.actions i s' }, ok s'.state)

  unfoldable pub finish_submission :
      Workflows env
      → ℕ
      → StoredAction env
      → Timestamp
      → Workflows env × Result ServiceError CoordinationState
  unfolding settle outcome
  finish_submission w i s at = outcome w i s (settle s at)

  unfoldable pub submit_checked :
      Workflows env
      → ApprovalSubmission
      → Timestamp
      → Result ServiceError (Preflight env)
      → Workflows env × Result ServiceError CoordinationState
  unfolding finish_submission record_decision
  submit_checked w r at (err e) = (w, err e)
  submit_checked w r at (ok p) = finish_submission w p.position (record_decision p r.approval at) at

  -- The new store and the state that is answered, or the error that is thrown.
  unfoldable pub submit_approval :
      Workflows env
      → ApprovalSubmission
      → ℕ
      → Timestamp
      → Workflows env × Result ServiceError CoordinationState
  unfolding submit_checked
  submit_approval w r now at = submit_checked w r at (approval_preflight w r now)

  unfoldable pub validate_cancel_found :
      Option (ℕ × StoredAction env) → CancelRequest → ℕ → Result ServiceError (ℕ × StoredAction env)
  validate_cancel_found none r now = err action_not_found
  validate_cancel_found (some (i, s)) r now =
      if is_state s.state cancelled then err action_not_found else do
        require (proposer_of env s == r.proposer_did) not_proposer
        require (not (is_state (effective_state env s now) expired)) action_expired
        require (not (is_state s.state ready_for_submission)) action_ready
        require (not (is_state s.state rejected)) action_rejected
        ok (i, s)

  unfoldable pub validate_cancel_action :
      Workflows env → CancelRequest → ℕ → Result ServiceError (ℕ × StoredAction env)
  unfolding validate_cancel_found
  validate_cancel_action w r now = validate_cancel_found (by_id env w r.action_id.value) r now

  unfoldable pub cancel_stored : StoredAction env → Timestamp → StoredAction env
  cancel_stored s at = record s { state = cancelled; cancelled_at = some at; updated_at = at }

  unfoldable pub cancel_action :
      Workflows env → CancelRequest → ℕ → Timestamp → Result ServiceError (Workflows env)
  unfolding validate_cancel_action cancel_stored
  cancel_action w r now at = do
    found ← validate_cancel_action w r now
    ok (record w { actions = set w.actions found.0 (cancel_stored found.1 at) })
