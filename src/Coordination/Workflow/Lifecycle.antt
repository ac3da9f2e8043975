-- ===== src/Coordination/Workflow/Lifecycle.antt =====
-- What may happen to a stored action, and what is true of it at every moment.
use mathlib.Core.List.{append-nil, append_assoc}
use mpas.Prelude.{
  ℕ, ◌≡◌, ◌≢◌, ◌⊎◌, refl, sym, ap, ◌∙◌, true, false, some, List, [], ◌++◌, map, All, arith,
  if◌then◌else◌,
}
use mpas.Prelude.Eq.{◌==◌, string_eq}
use mpas.Prelude.Distinct.{IsDistinct}
use mpas.Mpas.{Timestamp}
use mpas.Approval.{satisfied, unreachable, evaluate_approval_requirements}
use mpas.Coordination.Env.{Env}
use mpas.Coordination.Workflow.{
  CoordinationState, awaiting_approvals, ready_for_submission, rejected, cancelled, expired,
  is_final, is_past, StoredApproval, StoredAction, requirements_of, proposer_of, expire_if_needed,
}
use mpas.Coordination.Workflow.Submission.{decisions_of, cancel_stored}

-- Which states can follow a state.
abbrev pub Moves : CoordinationState → CoordinationState → Type 0
Moves awaiting_approvals t = Unit
Moves ready_for_submission t = (t ≡ ready_for_submission) ⊎ (t ≡ expired)
Moves rejected t = t ≡ rejected
Moves cancelled t = t ≡ cancelled
Moves expired t = t ≡ expired

pub Moves-refl : (s : CoordinationState) → Moves s s
Moves-refl s = ground arith

pub Moves-trans : (s t u : CoordinationState) → Moves s t → Moves t u → Moves s u
Moves-trans s t u p q = ground arith

module _ (env : Env) where
  -- Identity, package and requirements stay; decisions are only added, and only while approvals
  -- are awaited; the state moves forward.
  pub record Evolves (s s' : StoredAction env) : Type 0 where
    pub action_package : s'.action_package ≡ s.action_package
    pub authorization_requirements : s'.authorization_requirements ≡ s.authorization_requirements
    pub action_ref : s'.action_ref ≡ s.action_ref
    pub created_at : s'.created_at ≡ s.created_at
    pub approvals : (more : List StoredApproval) × (s'.approvals ≡ s.approvals ++ more)
    pub frozen : s.state ≢ awaiting_approvals → s'.approvals ≡ s.approvals
    pub state : Moves s.state s'.state

  pub record IsSound (s : StoredAction env) : Type 0 where
    -- The Proposer has not decided.
    pub others :
        All (λ (a : StoredApproval). (a.signer_did == proposer_of env s) ≡ false) s.approvals
    -- Nobody has decided twice.
    pub once : IsDistinct (map (λ (a : StoredApproval). a.signer_did) s.approvals)
    pub ready :
        s.state ≡ ready_for_submission
        → evaluate_approval_requirements (requirements_of env s) (decisions_of env s)
          ≡ some satisfied
    pub refused :
        s.state ≡ rejected
        → evaluate_approval_requirements (requirements_of env s) (decisions_of env s)
          ≡ some unreachable

  pub Evolves-refl : (s : StoredAction env) → Evolves s s
  Evolves-refl s = record {
    action_package = refl;
    authorization_requirements = refl;
    action_ref = refl;
    created_at = refl;
    approvals = ([], sym (append-nil s.approvals));
    frozen = λ h. refl;
    state = Moves-refl s.state;
  }

  still_decided :
      (s t : CoordinationState) → Moves s t → s ≢ awaiting_approvals → t ≢ awaiting_approvals
  still_decided s t m n = ground arith

  pub Evolves-trans : {a b c : StoredAction env} → Evolves a b → Evolves b c → Evolves a c
  Evolves-trans {a} {b} {c} p q = record {
    action_package = q.action_package ∙ p.action_package;
    authorization_requirements = q.authorization_requirements ∙ p.authorization_requirements;
    action_ref = q.action_ref ∙ p.action_ref;
    created_at = q.created_at ∙ p.created_at;
    approvals =
        let (xs, e) = p.approvals in
        let (ys, f) = q.approvals in
        (
          xs ++ ys,
          f ∙ ap (λ (l : List StoredApproval). l ++ ys) e ∙ append_assoc a.approvals xs ys,
        );
    frozen = λ n. q.frozen (still_decided a.state b.state p.state n) ∙ p.frozen n;
    state = Moves-trans a.state b.state c.state p.state q.state;
  }

  pub expire-Evolves :
      (now : ℕ) (at : Timestamp) (s : StoredAction env) → Evolves s (expire_if_needed env now at s)
  unfolding expire_if_needed
  expire-Evolves now at s = record {
    action_package = ground arith;
    authorization_requirements = ground arith;
    action_ref = ground arith;
    created_at = ground arith;
    approvals = ([], ground (arith, append-nil s.approvals));
    frozen = λ n. ground arith;
    state = ground arith;
  }

  pub expire-IsSound :
      (now : ℕ) (at : Timestamp) (s : StoredAction env)
      → IsSound s
      → IsSound (expire_if_needed env now at s)
  unfolding expire_if_needed
  expire-IsSound now at s v =
      let past : StoredAction env = record s { state = expired; updated_at = at } in
      let gone : IsSound past = record {
        others = v.others;
        once = v.once;
        ready = λ h. cc;
        refused = λ h. cc;
      } in
      elim (is_final s.state)
        as (λ b. IsSound (if b then s else if is_past env s now then past else s)) [
          | true ↦ v
          | false ↦ elim (is_past env s now) as (λ b. IsSound (if b then past else s)) [
            | true ↦ gone
            | false ↦ v
          ]
        ]

  pub cancel-Evolves :
      (at : Timestamp) (s : StoredAction env)
      → s.state ≡ awaiting_approvals
      → Evolves s (cancel_stored env s at)
  unfolding cancel_stored
  cancel-Evolves at s h = record {
    action_package = refl;
    authorization_requirements = refl;
    action_ref = refl;
    created_at = refl;
    approvals = ([], sym (append-nil s.approvals));
    frozen = λ n. refl;
    state = rw h tt;
  }

  pub cancel-IsSound :
      (at : Timestamp) (s : StoredAction env) → IsSound s → IsSound (cancel_stored env s at)
  unfolding cancel_stored
  cancel-IsSound at s v = record {
    others = v.others;
    once = v.once;
    ready = λ h. cc;
    refused = λ h. cc;
  }
