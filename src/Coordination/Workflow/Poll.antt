-- ===== src/Coordination/Workflow/Poll.antt =====
-- What participants read: `poll`, and the queries of the store.
use mathlib.Core.List.{flat_map}
use mpas.Prelude.{
  ℕ, leb, min, String, Bool, true, false, not, ◌&&◌, ◌||◌, Option, none, some, List, [], ◌∷◌, ◌++◌,
  map, length, filter, find, any, set, is_some, or_else, if◌then◌else◌,
}
use mpas.Prelude.Eq.{◌==◌, string_eq, includes}
use mpas.Prelude.Distinct.{distinct}
use mpas.Prelude.Assoc.{lookup}
use mpas.Mpas.{
  Did, Decision, approve, reject, decision_eq, Timestamp, ThresholdRequirement, OverrideSigner,
  ApprovalRequirements,
}
use mpas.Mpas.Package.{ActionPackage, Approval}
use mpas.Mpas.Response.{AuthorizationRequirements}
use mpas.Approval.{permits}
use mpas.Coordination.Env.{Env}
use mpas.Coordination.Validation.{thresholds_for, overrides_of}
use mpas.Coordination.Workflow.{
  CoordinationState, awaiting_approvals, ready_for_submission, rejected, cancelled, expired,
  is_state, ActionRef, StoredApproval, StoredAction, Workflows, requirements_of, proposer_of,
  expire_if_needed, by_hash, by_id, deref,
}

pub record CoordinationProgress : Type 0 where
  pub required : ℕ
  pub collected : ℕ
  pub pending : List Did

approved_signers_for : ThresholdRequirement → Decision → List StoredApproval → List Did
approved_signers_for t decision approvals = distinct (
    map (λ (entry : StoredApproval). entry.signer_did)
      (filter
        (λ entry. includes entry.signer_did t.eligible_signers && (entry.decision == decision))
        approvals))

is_threshold_satisfied : ThresholdRequirement → List StoredApproval → Bool
unfolding approved_signers_for
is_threshold_satisfied t approvals =
    leb t.threshold (length (approved_signers_for t (or_else t.decision approve) approvals))

first_of : List ThresholdRequirement → Option ThresholdRequirement
first_of [] = none
first_of (t ∷ ts) = some t

progress_of : Option ThresholdRequirement → List StoredApproval → CoordinationProgress
unfolding approved_signers_for
progress_of none approvals = record { required = 0; collected = 0; pending = [] }
progress_of (some t) approvals = record {
  required = t.threshold;
  collected =
      min (length (approved_signers_for t (or_else t.decision approve) approvals)) t.threshold;
  pending =
      filter (λ did. not (any (λ (entry : StoredApproval). entry.signer_did == did) approvals))
        t.eligible_signers;
}

-- The first threshold that is not satisfied, or else the first.
pub progress_for : ApprovalRequirements → List StoredApproval → CoordinationProgress
unfolding is_threshold_satisfied first_of progress_of
progress_for requirements approvals =
    let thresholds = thresholds_for requirements in
    let unmet = find (λ t. not (is_threshold_satisfied t approvals)) thresholds in
    progress_of (elim unmet [ some t ↦ some t | none ↦ first_of thresholds ]) approvals

module _ (env : Env) where
  pub record ApprovalRequest : Type 0 where
    pub action_ref : ActionRef
    pub action_package : ActionPackage env.Num
    pub authorization_requirements : AuthorizationRequirements
    pub requested_decision : Decision

  pub record ActionUpdate : Type 0 where
    pub action_ref : ActionRef
    pub state : CoordinationState
    pub expires_at : Timestamp
    pub cancelled_at : Option Timestamp
    pub rejected_at : Option Timestamp
    pub progress : Option CoordinationProgress
    pub action_package : Option (ActionPackage env.Num)

  override_decision : Option OverrideSigner → Decision
  override_decision none = reject
  override_decision (some o) = if permits "approve" o then approve else reject

  -- `requirement?.decision ?? (override may approve ? "approve" : "reject")`.
  requested : Option ThresholdRequirement → Option OverrideSigner → Decision
  unfolding override_decision
  requested none o = override_decision o
  requested (some t) o = or_else t.decision (override_decision o)

  pub approval_request_for : StoredAction env → Did → Option ApprovalRequest
  unfolding requested
  approval_request_for s did =
      let r = requirements_of env s in
      let t =
        find (λ (entry : ThresholdRequirement). includes did entry.eligible_signers)
          (thresholds_for r) in
      let o = find (λ (entry : OverrideSigner). entry.signer == did) (overrides_of r) in
      if not (is_some t) && not (is_some o)
      then none
      else if any (λ (entry : StoredApproval). entry.signer_did == did) s.approvals
      then none
      else some (record {
        action_ref = s.action_ref;
        action_package = s.action_package;
        authorization_requirements = s.authorization_requirements;
        requested_decision = requested t o;
      })

  -- The collected Approvals are added to those that the package brought, once each by signature.
  pub build_completed_action_package : StoredAction env → Timestamp → ActionPackage env.Num
  build_completed_action_package s at =
      let bundle = s.action_package.approval_bundle in
      let existing = map (λ (a : Approval). a.signature_value) bundle.approvals in
      let collected =
        filter (λ (a : Approval). not (includes a.signature_value existing))
          (map (λ (entry : StoredApproval). entry.approval) s.approvals) in
      record (s.action_package) {
        approval_bundle = record bundle {
          action_envelope_hash = s.action_ref.action_envelope_hash;
          approvals = bundle.approvals ++ collected;
          created_at = some at;
        };
      }

  base_update : StoredAction env → ActionUpdate
  base_update s = record {
    action_ref = s.action_ref;
    state = s.state;
    expires_at = s.action_package.action_envelope.expires_at;
    cancelled_at = none;
    rejected_at = none;
    progress = none;
    action_package = none;
  }

  -- Each state's fields, as the early returns set them.
  update_for : CoordinationState → StoredAction env → Timestamp → ActionUpdate
  unfolding base_update
  update_for cancelled s at = record (base_update s) { cancelled_at = s.cancelled_at }
  update_for rejected s at = record (base_update s) { rejected_at = s.rejected_at }
  update_for expired s at = base_update s
  update_for awaiting_approvals s at = record (base_update s) {
    progress = some (progress_for (requirements_of env s) s.approvals);
  }
  update_for ready_for_submission s at = record (base_update s) {
    progress = some (progress_for (requirements_of env s) s.approvals);
    action_package = some (build_completed_action_package s at);
  }

  pub build_action_update : StoredAction env → Timestamp → ActionUpdate
  unfolding update_for
  build_action_update s at = update_for s.state s at

  pub record PollResponse : Type 0 where
    pub approval_requests : List ApprovalRequest
    pub action_updates : List ActionUpdate

  option_list {ℓ} : {A : Type ℓ} → Option A → List A
  option_list none = []
  option_list (some a) = a ∷ []

  request_of : StoredAction env → Did → List ApprovalRequest
  unfolding option_list
  request_of s did =
      if is_state s.state awaiting_approvals then option_list (approval_request_for s did) else []

  update_of : StoredAction env → Did → Timestamp → List ActionUpdate
  update_of s did at = if proposer_of env s == did then build_action_update s at ∷ [] else []

  -- One round of the loop: the action is expired in place, and then reported.
  unfoldable pub poll_one :
      ℕ
      → Timestamp
      → Did
      → List (StoredAction env)
      → Option (ℕ × StoredAction env)
      → List (StoredAction env) × PollResponse
  unfolding request_of update_of
  poll_one now at did heap none = (heap, record { approval_requests = []; action_updates = [] })
  poll_one now at did heap (some (j, s)) =
      let s' = expire_if_needed env now at s in
      (
        set heap j s',
        record { approval_requests = request_of s' did; action_updates = update_of s' did at },
      )

  unfoldable pub poll_from :
      ℕ
      → Timestamp
      → Did
      → List (String × ℕ)
      → List (StoredAction env)
      → List (StoredAction env) × PollResponse
  unfolding poll_one
  poll_from now at did [] heap = (heap, record { approval_requests = []; action_updates = [] })
  poll_from now at did ((id, i) ∷ rest) heap =
      let (heap', here) = poll_one now at did heap (deref env (some i) heap) in
      let (heap'', more) = poll_from now at did rest heap' in
      (
        heap'',
        record {
          approval_requests = here.approval_requests ++ more.approval_requests;
          action_updates = here.action_updates ++ more.action_updates;
        },
      )

  unfoldable pub poll : Workflows env → Did → ℕ → Timestamp → Workflows env × PollResponse
  unfolding poll_from
  poll w did now at =
      let (heap, response) = poll_from now at did w.actions_by_id w.actions in
      (record w { actions = heap }, response)

  pub proposer_for_action : Workflows env → String → Option Did
  proposer_for_action w id = elim (by_id env w id) [
    | none ↦ none
    | some f ↦ some (proposer_of env f.1)
  ]

  pub has_action_envelope_hash : Workflows env → String → Bool
  has_action_envelope_hash w hash = is_some (lookup hash w.actions_by_envelope_hash)

  eligible_in : ApprovalRequirements → Did → Bool
  eligible_in r did =
      any (λ (t : ThresholdRequirement). includes did t.eligible_signers) (thresholds_for r)
      || any (λ (o : OverrideSigner). o.signer == did) (overrides_of r)

  pub is_eligible_signer : Workflows env → String → Did → Bool
  unfolding eligible_in
  is_eligible_signer w hash did = elim (by_hash env w hash) [
    | none ↦ false
    | some f ↦ eligible_in (requirements_of env f.1) did
  ]

  participants_of : StoredAction env → List Did
  participants_of s =
      let r = requirements_of env s in
      distinct (
        proposer_of env s
        ∷ s.authorization_requirements.verifier_did
        ∷ (flat_map (λ (t : ThresholdRequirement). t.eligible_signers) (thresholds_for r)
            ++ map (λ (o : OverrideSigner). o.signer) (overrides_of r)))

  pub participants_for_action_hash : Workflows env → String → List Did
  unfolding participants_of
  participants_for_action_hash w hash = elim (by_hash env w hash) [
    | none ↦ []
    | some f ↦ participants_of f.1
  ]

  has_work : StoredAction env → Did → Bool
  has_work s did =
      (is_state s.state awaiting_approvals && is_some (approval_request_for s did))
      || (proposer_of env s == did)

  -- The action at a position is expired in place.
  unfoldable pub expire_at :
      ℕ
      → Timestamp
      → List (StoredAction env)
      → Option (ℕ × StoredAction env)
      → List (StoredAction env)
  expire_at now at heap none = heap
  expire_at now at heap (some (i, s)) = set heap i (expire_if_needed env now at s)

  unfoldable pub work_at : ℕ → Timestamp → Did → Option (ℕ × StoredAction env) → Bool
  unfolding has_work
  work_at now at did none = false
  work_at now at did (some (i, s)) = has_work (expire_if_needed env now at s) did

  -- The loop returns at the first action with work; the ones before it and it have been expired.
  unfoldable pub outstanding_from :
      ℕ
      → Timestamp
      → Did
      → List (String × ℕ)
      → List (StoredAction env)
      → List (StoredAction env) × Bool
  unfolding work_at expire_at
  outstanding_from now at did [] heap = (heap, false)
  outstanding_from now at did ((id, i) ∷ rest) heap =
      let found = deref env (some i) heap in
      let heap' = expire_at now at heap found in
      let more = outstanding_from now at did rest heap' in
      if work_at now at did found then (heap', true) else more

  unfoldable pub has_outstanding_coordination_work :
      Workflows env → Did → ℕ → Timestamp → Workflows env × Bool
  unfolding outstanding_from
  has_outstanding_coordination_work w did now at =
      let (heap, found) = outstanding_from now at did w.actions_by_id w.actions in
      (record w { actions = heap }, found)
