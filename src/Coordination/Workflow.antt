-- ===== src/Coordination/Workflow.antt =====
-- Approval workflows of cli/src/coordination/store.ts. Stored actions are shared objects: the two
-- maps, by Action ID and by envelope hash, hold positions in one list of them. The clock's
-- milliseconds (`now`) and the time that is written down (`at`) are arguments.
pub mod Submission
pub mod Poll
pub mod Lifecycle
pub mod Soundness
pub mod History
pub mod Cancellation
mod Tests
use mpas.Prelude.{
  ℕ, leb, String, Bool, true, false, not, ◌&&◌, ◌||◌, Option, none, some, List, [], ◌∷◌, ◌++◌, map,
  length, filter, find, any, get_elem?, set, is_some, or_else, if◌then◌else◌,
}
use Prim.Native.Char.{Char, code}
use Prim.Native.String
use mpas.Prelude.Eq.{◌==◌, string_eq, includes}
use mpas.Prelude.Assoc.{Assoc, lookup, insert}
use mpas.Prelude.Result.{Result, ok, err, ◌>>=◌, ◌>>◌}
use mpas.Mpas.{
  Did, Decision, decision_eq, approve, reject, Timestamp, HashObject, ActionId,
  ThresholdRequirement, ApprovalRequirements,
}
use mpas.Mpas.Package.{ActionPackage, Approval}
use mpas.Mpas.Response.{AuthorizationRequirements}
use mpas.Approval.{
  SignerDecision, ApprovalRequirementsStatus, satisfied, pending, unreachable,
  evaluate_approval_requirements, permits,
}
use mpas.Prelude.Text.{split}
use mpas.Coordination.Env.{Env, CanonicalApprovalPayload}
use mpas.Coordination.Errors.{
  ServiceError, action_not_found, approval_hash_mismatch, approval_signer_missing,
  approval_decision_mismatch, self_approval_denied, signer_decision_conflict,
  action_not_awaiting_approvals, not_proposer, action_expired, action_ready, action_rejected,
  action_id_conflict, conflicting_decisions,
}
use mpas.Coordination.Validation.{
  require, validate_authorization_requirements, validate_action_package_bindings, envelope_hash,
  thresholds_for, overrides_of,
}

pub data CoordinationState : Type 0 where
  awaiting_approvals ready_for_submission rejected cancelled expired : CoordinationState

pub record ActionRef : Type 0 where
  pub action_id : ActionId
  pub action_envelope_hash : HashObject

pub record StoredApproval : Type 0 where
  pub approval : Approval
  pub signer_did : Did
  pub decision : Decision

abbrev pub is_state : CoordinationState → CoordinationState → Bool
is_state awaiting_approvals awaiting_approvals = true
is_state ready_for_submission ready_for_submission = true
is_state rejected rejected = true
is_state cancelled cancelled = true
is_state expired expired = true
is_state _ _ = false

-- The states that `expireIfNeeded` leaves alone.
abbrev pub is_final : CoordinationState → Bool
is_final s = is_state s cancelled || (is_state s expired || is_state s rejected)

module _ (env : Env) where
  pub record StoredAction : Type 0 where
    pub action_package : ActionPackage env.Num
    pub authorization_requirements : AuthorizationRequirements
    pub action_ref : ActionRef
    pub state : CoordinationState
    pub approvals : List StoredApproval
    pub created_at : Timestamp
    pub updated_at : Timestamp
    pub cancelled_at : Option Timestamp
    pub rejected_at : Option Timestamp

  -- `Map` values are positions in `actions`.
  pub record Workflows : Type 0 where
    pub actions : List StoredAction
    pub actions_by_id : Assoc String ℕ
    pub actions_by_envelope_hash : Assoc String ℕ

  pub record CoordinationActionRequest : Type 0 where
    pub action_package : ActionPackage env.Num
    pub authorization_requirements : AuthorizationRequirements

  pub record WorkflowResult : Type 0 where
    pub action_ref : ActionRef
    pub state : CoordinationState
    pub created_at : Timestamp
    pub created : Bool

  -- The approval requirements, which validation has seen to be there.
  abbrev pub requirements_of : StoredAction → ApprovalRequirements
  requirements_of s =
      or_else s.authorization_requirements.approval_requirements
        (record { any_of = none; all_of = none; override_signers = none })

  abbrev pub proposer_of : StoredAction → Did
  proposer_of s = s.action_package.action_envelope.proposer_did

  pub is_past : StoredAction → ℕ → Bool
  is_past s now = elim (env.date_parse s.action_package.action_envelope.expires_at) [
    | none ↦ false
    | some expires_at ↦ leb expires_at now
  ]

  pub expire_if_needed : ℕ → Timestamp → StoredAction → StoredAction
  unfolding is_past
  expire_if_needed now at s =
      if is_final s.state
      then s
      else if is_past s now
      then record s { state = expired; updated_at = at }
      else s

  pub effective_state : StoredAction → ℕ → CoordinationState
  unfolding is_past
  effective_state s now =
      if is_final s.state then s.state else if is_past s now then expired else s.state

  -- The stored action at a position that a map holds.
  abbrev pub deref : Option ℕ → List StoredAction → Option (ℕ × StoredAction)
  deref none heap = none
  deref (some i) heap = elim (get_elem? heap i) [ none ↦ none | some s ↦ some (i, s) ]

  pub by_hash : Workflows → String → Option (ℕ × StoredAction)
  by_hash w hash = deref (lookup hash w.actions_by_envelope_hash) w.actions

  pub by_id : Workflows → String → Option (ℕ × StoredAction)
  by_id w id = deref (lookup id w.actions_by_id) w.actions

  abbrev id_conflict : Option (ℕ × StoredAction) → HashObject → Bool
  id_conflict none hash = false
  id_conflict (some (i, s)) hash = not (s.action_ref.action_envelope_hash.value == hash.value)

  pub validate_create_workflow :
      Workflows → CoordinationActionRequest → ℕ → Result ServiceError (Unit {0})
  unfolding by_id
  validate_create_workflow w r now = do
    validate_action_package_bindings env r.action_package
    let hash = envelope_hash env r.action_package
    validate_authorization_requirements env r.authorization_requirements hash none now
    require (not (id_conflict (by_id w r.action_package.action_envelope.action_id.value) hash))
        action_id_conflict

  pub new_action : CoordinationActionRequest → HashObject → Timestamp → StoredAction
  new_action r hash at = record {
    action_package = r.action_package;
    authorization_requirements = r.authorization_requirements;
    action_ref = record {
      action_id = r.action_package.action_envelope.action_id;
      action_envelope_hash = hash;
    };
    state = awaiting_approvals;
    approvals = [];
    created_at = at;
    updated_at = at;
    cancelled_at = none;
    rejected_at = none;
  }

  abbrev pub result_for : StoredAction → Bool → WorkflowResult
  result_for s created = record {
    action_ref = s.action_ref;
    state = s.state;
    created_at = s.created_at;
    created = created;
  }

  pub store_new : Workflows → StoredAction → Workflows
  store_new w s = record {
    actions = w.actions ++ s ∷ [];
    actions_by_id = insert s.action_ref.action_id.value (length w.actions) w.actions_by_id;
    actions_by_envelope_hash =
        insert s.action_ref.action_envelope_hash.value (length w.actions)
          w.actions_by_envelope_hash;
  }

  pub create_found :
      Workflows
      → CoordinationActionRequest
      → HashObject
      → ℕ
      → Timestamp
      → Option (ℕ × StoredAction)
      → Workflows × WorkflowResult
  unfolding store_new expire_if_needed new_action
  create_found w r hash now at none =
      let s = new_action r hash at in (store_new w s, result_for s true)
  create_found w r hash now at (some (i, s)) =
      let s' = expire_if_needed now at s in
      (record w { actions = set w.actions i s' }, result_for s' false)

  pub create_workflow :
      Workflows
      → CoordinationActionRequest
      → ℕ
      → Timestamp
      → Result ServiceError (Workflows × WorkflowResult)
  unfolding validate_create_workflow create_found by_hash
  create_workflow w r now at = do
    validate_create_workflow w r now
    let hash = envelope_hash env r.action_package
    ok (create_found w r hash now at (by_hash w hash.value))
