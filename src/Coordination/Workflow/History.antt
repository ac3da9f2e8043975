-- ===== src/Coordination/Workflow/History.antt =====
-- Histories of the approval workflows: creation, decisions, cancellation and polling in any order.
use mpas.Prelude.{
  ℕ, String, ◌≡◌, ◌≢◌, refl, ap, not, Option, none, some, List, [], ◌∷◌, All, All-get_elem?,
  All-of_positions, get_elem?-append_cases, Bool-cases, inl, inr,
}
use mpas.Prelude.Eq.{◌==◌, string_eq}
use mpas.Prelude.Result.{Result, ok, err, bind-eq-ok}
use mpas.Mpas.{Did, Timestamp, HashObject}
use mpas.Coordination.Env.{Env}
use mpas.Coordination.Errors.{
  ServiceError, action_not_found, not_proposer, action_expired, action_ready, action_rejected,
}
use mpas.Coordination.Validation.{envelope_hash}
use mpas.Coordination.Workflow.{
  is_state, cancelled, expired, ready_for_submission, rejected, proposer_of, effective_state,
  StoredAction, Workflows, CoordinationActionRequest, WorkflowResult, by_hash, by_id, deref,
  expire_if_needed, new_action, store_new, create_found, create_workflow, validate_create_workflow,
}
use mpas.Coordination.Workflow.Submission.{
  ApprovalSubmission, CancelRequest, submit_approval, validate_cancel_found, validate_cancel_action,
  cancel_stored, cancel_action,
}
use mpas.Coordination.Workflow.Poll.{
  poll_one, poll_from, poll, expire_at, work_at, outstanding_from,
  has_outstanding_coordination_work,
}
use mpas.Coordination.Workflow.Lifecycle.{IsSound, expire-IsSound, cancel-IsSound}
use mpas.Coordination.Workflow.Soundness.{
  required, AllSound, set-AllSound, deref_lem, submit_approval-IsSound,
}

module _ (env : Env) where
  pub data Op : Type 0 where
    create : CoordinationActionRequest env → Op
    submit : ApprovalSubmission → Op
    cancel : CancelRequest → Op
    poll_for : Did → Op
    look_for_work : Did → Op

  after_create :
      Workflows env → Result ServiceError (Workflows env × WorkflowResult env) → Workflows env
  after_create w (ok made) = made.0
  after_create w (err e) = w

  after_cancel : Workflows env → Result ServiceError (Workflows env) → Workflows env
  after_cancel w (ok w') = w'
  after_cancel w (err e) = w

  -- A call that throws leaves the store as `submit_approval` says, and otherwise as it was.
  pub step : Workflows env → Op → ℕ → Timestamp → Workflows env
  unfolding after_create after_cancel
  step w (create r) now at = after_create w (create_workflow env w r now at)
  step w (submit r) now at = (submit_approval env w r now at).0
  step w (cancel r) now at = after_cancel w (cancel_action env w r now at)
  step w (poll_for did) now at = (poll env w did now at).0
  step w (look_for_work did) now at = (has_outstanding_coordination_work env w did now at).0

  pub run : Workflows env → List (Op × ℕ × Timestamp) → Workflows env
  run w [] = w
  run w ((op, now, at) ∷ ops) = run (step w op now at) ops

  abbrev pub empty_store : Workflows env
  empty_store = record { actions = []; actions_by_id = []; actions_by_envelope_hash = [] }

  found-AllSound :
      (w : Workflows env) (r : CoordinationActionRequest env) (hash : HashObject) (now : ℕ)
      (at : Timestamp) (o : Option (ℕ × StoredAction env))
      → ((i : ℕ) (s : StoredAction env) → o ≡ some (i, s) → IsSound env s)
      → AllSound env w
      → AllSound env (create_found env w r hash now at o).0
  unfolding create_found store_new new_action
  found-AllSound w r hash now at none f all = λ i s h.
      elim (get_elem?-append_cases w.actions (new_action env r hash at) i s h) [
        | inl old ↦ all i s old
        | inr new ↦
            rw (← new) (record { others = tt; once = tt; ready = λ p. cc; refused = λ p. cc })
      ]
  found-AllSound w r hash now at (some (i, s)) f all =
      set-AllSound env w i (expire_if_needed env now at s) all
        (expire-IsSound env now at s (f i s refl))

  one-AllSound :
      (now : ℕ) (at : Timestamp) (did : Did) (w : Workflows env) (o : Option (ℕ × StoredAction env))
      → ((i : ℕ) (s : StoredAction env) → o ≡ some (i, s) → IsSound env s)
      → AllSound env w
      → AllSound env (record w { actions = (poll_one env now at did w.actions o).0 })
  unfolding poll_one
  one-AllSound now at did w none f all = all
  one-AllSound now at did w (some (i, s)) f all =
      set-AllSound env w i (expire_if_needed env now at s) all
        (expire-IsSound env now at s (f i s refl))

  polled-AllSound :
      (now : ℕ) (at : Timestamp) (did : Did) (ids : List (String × ℕ)) (w : Workflows env)
      → AllSound env w
      → AllSound env (record w { actions = (poll_from env now at did ids w.actions).0 })
  unfolding poll_from
  polled-AllSound now at did [] w all = all
  polled-AllSound now at did ((id, i) ∷ ids) w all =
      polled-AllSound now at did ids
        (record w {
          actions = (poll_one env now at did w.actions (deref env (some i) w.actions)).0;
        })
        (one-AllSound now at did w (deref env (some i) w.actions)
          (λ j s found. all j s (deref_lem env (some i) w.actions j s found)) all)

  expired-AllSound :
      (now : ℕ) (at : Timestamp) (w : Workflows env) (o : Option (ℕ × StoredAction env))
      → ((i : ℕ) (s : StoredAction env) → o ≡ some (i, s) → IsSound env s)
      → AllSound env w
      → AllSound env (record w { actions = expire_at env now at w.actions o })
  unfolding expire_at
  expired-AllSound now at w none f all = all
  expired-AllSound now at w (some (i, s)) f all =
      set-AllSound env w i (expire_if_needed env now at s) all
        (expire-IsSound env now at s (f i s refl))

  searched-AllSound :
      (now : ℕ) (at : Timestamp) (did : Did) (ids : List (String × ℕ)) (w : Workflows env)
      → AllSound env w
      → AllSound env (record w { actions = (outstanding_from env now at did ids w.actions).0 })
  unfolding outstanding_from
  searched-AllSound now at did [] w all = all
  searched-AllSound now at did ((id, i) ∷ ids) w all =
      let found = deref env (some i) w.actions in
      let next : Workflows env = record w { actions = expire_at env now at w.actions found } in
      let here : AllSound env next =
        expired-AllSound now at w found (λ j s f. all j s (deref_lem env (some i) w.actions j s f))
          all in
      elim (Bool-cases (work_at env now at did found)) [
        | inl x ↦ rw x here
        | inr x ↦ rw x (searched-AllSound now at did ids next here)
      ]

  pub made_inj {ℓ} :
      {A : Type ℓ} (a b : A) → ok a ≡ (let r : Result ServiceError A = ok b in r) → a ≡ b
  made_inj a b h = cc

  pub absent_ne_ok : (f : ℕ × StoredAction env) → err action_not_found ≢ ok f
  absent_ne_ok f h = cc

  -- What is cancelled is what was found.
  pub cancel_found :
      (o : Option (ℕ × StoredAction env)) (r : CancelRequest) (now : ℕ) (f : ℕ × StoredAction env)
      → validate_cancel_found env o r now ≡ ok f
      → o ≡ some f
  unfolding validate_cancel_found
  cancel_found none r now f h = cc
  cancel_found (some (i, s)) r now f h = elim (Bool-cases (is_state s.state cancelled)) [
    | inl x ↦ absurd (absent_ne_ok f (rw x at h))
    | inr x ↦
        let (a, h1) = required (proposer_of env s == r.proposer_did) not_proposer _ f (rw x at h) in
        let (b, h2) =
          required (not (is_state (effective_state env s now) expired)) action_expired _ f h1 in
        let (c, h3) = required (not (is_state s.state ready_for_submission)) action_ready _ f h2 in
        let (d, h4) = required (not (is_state s.state rejected)) action_rejected (ok (i, s)) f h3 in
        ap some (made_inj (i, s) f h4)
  ]

  cancelled-AllSound :
      (w w' : Workflows env) (r : CancelRequest) (now : ℕ) (at : Timestamp)
      → AllSound env w
      → cancel_action env w r now at ≡ ok w'
      → AllSound env w'
  unfolding cancel_action validate_cancel_action by_id
  cancelled-AllSound w w' r now at all h =
      let (found, valid, made) = bind-eq-ok (validate_cancel_action env w r now) _ h in
      rw (← made_inj _ w' made) (
        set-AllSound env w found.0 (cancel_stored env found.1 at) all (
          cancel-IsSound env at found.1 (
            all found.0 found.1 (
              deref_lem env _ w.actions found.0 found.1
                (cancel_found (by_id env w r.action_id.value) r now found valid)))))

  created-AllSound :
      (w : Workflows env) (r : CoordinationActionRequest env) (now : ℕ) (at : Timestamp)
      (made : Workflows env × WorkflowResult env)
      → AllSound env w
      → create_workflow env w r now at ≡ ok made
      → AllSound env made.0
  unfolding create_workflow by_hash
  created-AllSound w r now at made all h =
      let hash = envelope_hash env r.action_package in
      let (u, valid, same) = bind-eq-ok (validate_create_workflow env w r now) _ h in
      rw (← made_inj _ made same) (
        found-AllSound w r hash now at (by_hash env w hash.value)
          (λ i s f. all i s (deref_lem env _ w.actions i s f)) all)

  step-AllSound :
      (w : Workflows env) (op : Op) (now : ℕ) (at : Timestamp)
      → AllSound env w
      → AllSound env (step w op now at)
  unfolding step after_create after_cancel poll has_outstanding_coordination_work
  step-AllSound w (create r) now at all = go (create_workflow env w r now at) refl
    where
      go :
          (x : Result ServiceError (Workflows env × WorkflowResult env))
          → create_workflow env w r now at ≡ x
          → AllSound env (after_create w x)
      go (ok made) h = created-AllSound w r now at made all h
      go (err e) h = all
  step-AllSound w (submit r) now at all =
      All-get_elem? (IsSound env) _
        (submit_approval-IsSound env w r now at (All-of_positions (IsSound env) w.actions all))
  step-AllSound w (cancel r) now at all = go (cancel_action env w r now at) refl
    where
      go :
          (x : Result ServiceError (Workflows env))
          → cancel_action env w r now at ≡ x
          → AllSound env (after_cancel w x)
      go (ok w') h = cancelled-AllSound w w' r now at all h
      go (err e) h = all
  step-AllSound w (poll_for did) now at all = polled-AllSound now at did w.actions_by_id w all
  step-AllSound w (look_for_work did) now at all =
      searched-AllSound now at did w.actions_by_id w all

  run-AllSound :
      (w : Workflows env) (ops : List (Op × ℕ × Timestamp))
      → AllSound env w
      → AllSound env (run w ops)
  unfolding run
  run-AllSound w [] all = all
  run-AllSound w ((op, now, at) ∷ ops) all =
      run-AllSound (step w op now at) ops (step-AllSound w op now at all)

  nothing_stored : AllSound env empty_store
  nothing_stored i s h = cc

-- In every history of creations, decisions, cancellations and polls from an empty store, refused
-- calls included: the Proposer has decided on no stored action, nobody has decided twice on one, an
-- action that is ready has satisfied its approval expression by the decisions that it holds, and for
-- one that is rejected the expression is unreachable by them.
pub run-IsSound :
    (env : Env) (ops : List (Op env × ℕ × Timestamp))
    → All (IsSound env) (run env (empty_store env) ops).actions
run-IsSound env ops =
    All-of_positions (IsSound env) _ (run-AllSound env (empty_store env) ops (nothing_stored env))
