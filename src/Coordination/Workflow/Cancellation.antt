-- ===== src/Coordination/Workflow/Cancellation.antt =====
-- When `cancelAction` succeeds, and what it then does.
use mpas.Prelude.{
  ℕ, ◌≡◌, ◌↔◌, refl, ap, Bool, true, false, not, some, set, arith, eq_iff, Bool-cases, inl, inr,
  if◌then◌else◌,
}
use mpas.Prelude.Eq.{◌==◌, string_eq}
use mpas.Prelude.Result.{ok, bind-eq-ok}
use mpas.Mpas.{Timestamp}
use mpas.Coordination.Env.{Env}
use mpas.Coordination.Errors.{not_proposer, action_expired, action_ready, action_rejected}
use mpas.Coordination.Workflow.{
  CoordinationState, awaiting_approvals, ready_for_submission, rejected, cancelled, expired,
  is_state, is_final, is_past, StoredAction, Workflows, by_id, proposer_of, effective_state,
}
use mpas.Coordination.Workflow.Submission.{
  CancelRequest, validate_cancel_found, validate_cancel_action, cancel_stored, cancel_action,
}
use mpas.Coordination.Workflow.Soundness.{required}
use mpas.Coordination.Workflow.History.{cancel_found, made_inj, absent_ne_ok}

effective_lem :
    (st : CoordinationState) (b : Bool)
    → is_state st cancelled ≡ false
    → not (is_state (if is_final st then st else if b then expired else st) expired) ≡ true
    → not (is_state st ready_for_submission) ≡ true
    → not (is_state st rejected) ≡ true
    → (if is_final st then st else if b then expired else st) ≡ awaiting_approvals
effective_lem st b h1 h2 h3 h4 = ground arith

awaiting_tests :
    (st : CoordinationState) (b : Bool)
    → (if is_final st then st else if b then expired else st) ≡ awaiting_approvals
    → (is_state st cancelled ≡ false)
      × (is_state st ready_for_submission ≡ false)
      × (is_state st rejected ≡ false)
awaiting_tests st b h = ground arith

module _ (env : Env) where
  pub record IsCancelled (w w' : Workflows env) (r : CancelRequest) (now : ℕ) (at : Timestamp)
      : Type 0 where
    pub position : ℕ
    pub stored : StoredAction env
    pub found : by_id env w r.action_id.value ≡ some (position, stored)
    pub proposer : proposer_of env stored ≡ r.proposer_did
    pub awaiting : effective_state env stored now ≡ awaiting_approvals
    pub written : record w { actions = set w.actions position (cancel_stored env stored at) } ≡ w'

  validated :
      (r : CancelRequest) (now i : ℕ) (s : StoredAction env)
      → validate_cancel_found env (some (i, s)) r now ≡ ok (i, s)
      → (proposer_of env s ≡ r.proposer_did) × (effective_state env s now ≡ awaiting_approvals)
  unfolding validate_cancel_found
  validated r now i s h = elim (Bool-cases (is_state s.state cancelled)) [
    | inl x ↦ absurd (absent_ne_ok env (i, s) (rw x at h))
    | inr x ↦
        let (a, h1) =
          required (proposer_of env s == r.proposer_did) not_proposer _ (i, s) (rw x at h) in
        let (b, h2) =
          required (not (is_state (effective_state env s now) expired)) action_expired _ (i, s)
            h1 in
        let (c, h3) =
          required (not (is_state s.state ready_for_submission)) action_ready _ (i, s) h2 in
        let (d, h4) =
          required (not (is_state s.state rejected)) action_rejected (ok (i, s)) (i, s) h3 in
        (
          (eq_iff (proposer_of env s) r.proposer_did).0 a,
          unfold effective_state in effective_lem s.state (is_past env s now) x b c d,
        )
  ]

  valid :
      (r : CancelRequest) (now i : ℕ) (s : StoredAction env)
      → proposer_of env s ≡ r.proposer_did
      → effective_state env s now ≡ awaiting_approvals
      → validate_cancel_found env (some (i, s)) r now ≡ ok (i, s)
  unfolding validate_cancel_found
  valid r now i s p e =
      let (a, b, c) = awaiting_tests s.state (is_past env s now) (unfold effective_state in e) in
      rw (a, (eq_iff (proposer_of env s) r.proposer_did).1 p, e, b, c) refl

  cancel_sound :
      (w w' : Workflows env) (r : CancelRequest) (now : ℕ) (at : Timestamp)
      → cancel_action env w r now at ≡ ok w'
      → IsCancelled w w' r now at
  unfolding cancel_action validate_cancel_action
  cancel_sound w w' r now at h =
      let (found, passed, made) = bind-eq-ok (validate_cancel_action env w r now) _ h in
      let here = cancel_found env (by_id env w r.action_id.value) r now found passed in
      let (p, e) = validated r now found.0 found.1 (rw here at passed) in
      record {
        position = found.0;
        stored = found.1;
        found = here;
        proposer = p;
        awaiting = e;
        written = made_inj env _ w' made;
      }

  cancel_complete :
      (w w' : Workflows env) (r : CancelRequest) (now : ℕ) (at : Timestamp)
      → IsCancelled w w' r now at
      → cancel_action env w r now at ≡ ok w'
  unfolding cancel_action validate_cancel_action
  cancel_complete w w' r now at c =
      rw (c.found, valid r now c.position c.stored c.proposer c.awaiting) (ap ok c.written)

-- A cancellation succeeds exactly when the Action ID names a stored action of that Proposer which
-- awaits approvals and has not expired; it then marks that action as cancelled and changes nothing
-- else.
pub cancel_action-IsCancelled_iff :
    (env : Env) (w w' : Workflows env) (r : CancelRequest) (now : ℕ) (at : Timestamp)
    → (cancel_action env w r now at ≡ ok w') ↔ IsCancelled env w w' r now at
cancel_action-IsCancelled_iff env w w' r now at =
    (cancel_sound env w w' r now at, cancel_complete env w w' r now at)
