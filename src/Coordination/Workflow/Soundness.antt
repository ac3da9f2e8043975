-- ===== src/Coordination/Workflow/Soundness.antt =====
-- Submissions keep every stored action sound.
use mathlib.Core.List.{map-append}
use mathlib.Core.Bool.{true≢false}
use mpas.Prelude.{
  eq_iff, ℕ, ◌≡◌, ◌≢◌, refl, sym, ap, ◌∙◌, Bool, true, false, not, ◌||◌, Option, none, some, List,
  [], ◌∷◌, ◌++◌, map, find, All, All-append, All-get_elem?, All-of_positions, get_elem?, set,
  get_elem?-set_cases, is_some, arith, Bool-cases, inl, inr, if◌then◌else◌, some_inj,
}
use mpas.Prelude.Eq.{◌==◌, string_eq, includes}
use mpas.Prelude.Distinct.{IsDistinct}
use mpas.Prelude.Result.{Result, ok, err, ◌>>◌}
use mpas.Mpas.{Did, Timestamp, decision_eq}
use mpas.Mpas.Package.{Approval}
use mpas.Approval.{
  ApprovalRequirementsStatus, satisfied, pending, unreachable, evaluate_approval_requirements,
}
use mpas.Coordination.Env.{Env, CanonicalApprovalPayload}
use mpas.Coordination.Errors.{
  ServiceError, approval_signer_missing, approval_hash_mismatch, action_not_found,
  approval_decision_mismatch, self_approval_denied, signer_decision_conflict,
  action_not_awaiting_approvals,
}
use mpas.Coordination.Validation.{require}
use mpas.Coordination.Workflow.{
  CoordinationState, awaiting_approvals, ready_for_submission, rejected, is_state, StoredApproval,
  StoredAction, Workflows, requirements_of, proposer_of, effective_state, cancelled, expired, deref,
  by_hash,
}
use mpas.Coordination.Workflow.Submission.{
  decode_approval_payload, Preflight, prior_of, agrees, preflight_of, check_decision, check_payload,
  check_stored, approval_preflight, decisions_of, record_decision, apply_status, settle, outcome,
  finish_submission, submit_checked, submit_approval, ApprovalSubmission,
}
use mpas.Coordination.Workflow.Lifecycle.{IsSound}

pub required {ℓ} :
    {A : Type ℓ} (b : Bool) (e : ServiceError) (m : Result ServiceError A) (a : A)
    → (require b e >> m) ≡ ok a
    → (b ≡ true) × (m ≡ ok a)
required true e m a h = (refl, h)
required false e m a h = cc

abbrev signers_of : List StoredApproval → List Did
signers_of approvals = map (λ (a : StoredApproval). a.signer_did) approvals

find_none_lem :
    (did : Did) (approvals : List StoredApproval)
    → is_some (find (λ (a : StoredApproval). a.signer_did == did) approvals) ≡ false
    → includes did (map (λ (a : StoredApproval). a.signer_did) approvals) ≡ false
find_none_lem did [] h = refl
find_none_lem did (a ∷ approvals) h = elim (Bool-cases (a.signer_did == did)) [
  | inl x ↦ absurd (true≢false (ground (arith, x, h)))
  | inr x ↦ ground (arith, x, h, find_none_lem did approvals)
]

includes-append :
    (y : Did) (xs ys : List Did) → includes y (xs ++ ys) ≡ (includes y xs || includes y ys)
includes-append y [] ys = refl
includes-append y (x ∷ xs) ys = ground (arith, includes-append y xs ys)

append-IsDistinct :
    (xs : List Did) (x : Did) → IsDistinct xs → includes x xs ≡ false → IsDistinct (xs ++ x ∷ [])
append-IsDistinct [] x d n = (refl, tt)
append-IsDistinct (y ∷ xs) x d n = (
  ground (arith, d, n, includes-append y xs (x ∷ []), eq_iff x y, eq_iff y x),
  append-IsDistinct xs x d.1 (ground (arith, n)),
)

awaiting_lem :
    (s : CoordinationState) (b : Bool)
    → (is_state s awaiting_approvals || b) ≡ true
    → b ≡ false
    → s ≡ awaiting_approvals
awaiting_lem s b h n = ground (arith, h, n)

waiting_ne_ready : awaiting_approvals ≢ ready_for_submission
waiting_ne_ready h = cc

waiting_ne_rejected : awaiting_approvals ≢ rejected
waiting_ne_rejected h = cc

module _ (env : Env) where
  err_ne_ok : (p : Preflight env) → err approval_signer_missing ≢ ok p
  err_ne_ok p h = cc

  missing_ne_ok : (p : Preflight env) → err action_not_found ≢ ok p
  missing_ne_ok p h = cc

  none_ne_found : {A : Type 0} {a : A} → none ≢ some a
  none_ne_found h = cc

  preflight_inj :
      (p q : Preflight env)
      → ok p ≡ (let r : Result ServiceError (Preflight env) = ok q in r)
      → p ≡ q
  preflight_inj p q h = cc

  -- What the checks on a decision have established.
  pub record IsAdmitted (p : Preflight env) : Type 0 where
    pub other : (p.signer_did == proposer_of env p.stored) ≡ false
    pub first :
        p.duplicate
        ≡ is_some (find (λ (a : StoredApproval). a.signer_did == p.signer_did) p.stored.approvals)
    pub open_state : p.duplicate ≡ false → p.stored.state ≡ awaiting_approvals

  checked-IsAdmitted :
      (i : ℕ) (s : StoredAction env) (approval : Approval) (payload : CanonicalApprovalPayload)
      (did : Did) (p : Preflight env)
      → check_decision env i s approval payload did ≡ ok p
      → IsAdmitted p × (p.stored ≡ s)
  unfolding check_decision
  checked-IsAdmitted i s approval payload did p h =
      let (a, h1) =
        required (approval.decision == payload.decision) approval_decision_mismatch _ p h in
      let (b, h2) = required (not (did == proposer_of env s)) self_approval_denied _ p h1 in
      let (c, h3) =
        required (agrees env (prior_of env s did) payload.decision) signer_decision_conflict _ p
          h2 in
      let (d, h4) =
        required (is_state s.state awaiting_approvals || is_some (prior_of env s did))
          action_not_awaiting_approvals (ok (preflight_of env i s did payload.decision)) p h3 in
      rw (← preflight_inj _ p h4) (
        record {
          other = ground (arith, b);
          first = refl;
          open_state = λ n. awaiting_lem s.state (is_some (prior_of env s did)) d n;
        },
        refl,
      )

  recorded-IsSound :
      (p : Preflight env) (approval : Approval) (at : Timestamp)
      → IsAdmitted p
      → IsSound env p.stored
      → IsSound env (record_decision env p approval at)
  unfolding record_decision
  recorded-IsSound p approval at a v = elim (Bool-cases p.duplicate) [
    | inl x ↦ rw x v
    | inr x ↦
        let waiting : p.stored.state ≡ awaiting_approvals = a.open_state x in
        rw x (record {
          others = All-append _ p.stored.approvals _ v.others (a.other, tt);
          once = rw (map-append (λ (d : StoredApproval). d.signer_did) p.stored.approvals _) (
              append-IsDistinct (signers_of p.stored.approvals) p.signer_did v.once
                (find_none_lem p.signer_did p.stored.approvals (sym a.first ∙ x)));
          ready = λ h. absurd (waiting_ne_ready (sym waiting ∙ h));
          refused = λ h. absurd (waiting_ne_rejected (sym waiting ∙ h));
        })
  ]

  applied-IsSound :
      (s : StoredAction env) (at : Timestamp) (status : ApprovalRequirementsStatus)
      → evaluate_approval_requirements (requirements_of env s) (decisions_of env s) ≡ some status
      → IsSound env s
      → IsSound env (apply_status env s at status)
  unfolding apply_status
  applied-IsSound s at satisfied e v = record {
    others = v.others;
    once = v.once;
    ready = λ h. e;
    refused = λ h. cc;
  }
  applied-IsSound s at unreachable e v = record {
    others = v.others;
    once = v.once;
    ready = λ h. cc;
    refused = λ h. e;
  }
  applied-IsSound s at pending e v = v

  settled_cases :
      (s s' : StoredAction env) (at : Timestamp) (o : Option ApprovalRequirementsStatus)
      → elim o [ none ↦ none | some status ↦ some (apply_status env s at status) ] ≡ some s'
      → (status : ApprovalRequirementsStatus) × (o ≡ some status)
        × (apply_status env s at status ≡ s')
  settled_cases s s' at none h = cc
  settled_cases s s' at (some status) h = (status, refl, some_inj h)

  settle-IsSound :
      (s s' : StoredAction env) (at : Timestamp)
      → settle env s at ≡ some s'
      → IsSound env s
      → IsSound env s'
  unfolding settle
  settle-IsSound s s' at h v = elim (Bool-cases (is_state s.state awaiting_approvals)) [
    | inl x ↦
        let (status, found, same) = settled_cases s s' at _ (rw x at h) in
        rw (← same) (applied-IsSound s at status found v)
    | inr x ↦ rw (← some_inj (rw x at h)) v
  ]

  -- Every stored action is sound.
  abbrev pub AllSound : Workflows env → Type 0
  AllSound w = (i : ℕ) (s : StoredAction env) → get_elem? w.actions i ≡ some s → IsSound env s

  pub set-AllSound :
      (w : Workflows env) (i : ℕ) (s : StoredAction env)
      → AllSound w
      → IsSound env s
      → AllSound (record w { actions = set w.actions i s })
  set-AllSound w i s all v j t h = elim (get_elem?-set_cases w.actions i j s t h) [
    | inl (same, made) ↦ rw (← made) v
    | inr old ↦ all j t old
  ]

  signer_case :
      (i : ℕ) (s : StoredAction env) (approval : Approval) (payload : CanonicalApprovalPayload)
      (o : Option Did) (p : Preflight env)
      → elim o [
        | none ↦ err approval_signer_missing
        | some did ↦
            if did == ""
            then err approval_signer_missing
            else check_decision env i s approval payload did
      ]
        ≡ ok p
      → IsAdmitted p × (p.stored ≡ s)
  signer_case i s approval payload none p h = cc
  signer_case i s approval payload (some did) p h = elim (Bool-cases (did == "")) [
    | inl x ↦ absurd (err_ne_ok p (rw x at h))
    | inr x ↦ checked-IsAdmitted i s approval payload did p (rw x at h)
  ]

  payload-IsAdmitted :
      (i : ℕ) (s : StoredAction env) (approval : Approval) (o : Option CanonicalApprovalPayload)
      (p : Preflight env)
      → check_payload env i s approval o ≡ ok p
      → IsAdmitted p × (p.stored ≡ s)
  unfolding check_payload
  payload-IsAdmitted i s approval none p h = cc
  payload-IsAdmitted i s approval (some payload) p h =
      let (a, h1) =
        required (payload.action_envelope_hash.value == s.action_ref.action_envelope_hash.value)
          approval_hash_mismatch _ p h in
      signer_case i s approval payload payload.signer_did p h1

  stored-IsAdmitted :
      (o : Option (ℕ × StoredAction env)) (approval : Approval) (now : ℕ) (p : Preflight env)
      → check_stored env o approval now ≡ ok p
      → (i : ℕ) × (s : StoredAction env) × (o ≡ some (i, s)) × IsAdmitted p × (p.stored ≡ s)
  unfolding check_stored
  stored-IsAdmitted none approval now p h = cc
  stored-IsAdmitted (some (i, s)) approval now p h =
      elim (Bool-cases (
        is_state (effective_state env s now) cancelled
        || is_state (effective_state env s now) expired)) [
          | inl x ↦ absurd (missing_ne_ok p (rw x at h))
          | inr x ↦
              let (a, h1) =
                required
                  (approval.action_envelope_hash.value == s.action_ref.action_envelope_hash.value)
                  approval_hash_mismatch _ p (rw x at h) in
              let (v, same) =
                payload-IsAdmitted i s approval (decode_approval_payload env approval) p h1 in
              (i, s, refl, v, same)
        ]

  abbrev placed : ℕ → Option (StoredAction env) → Option (ℕ × StoredAction env)
  placed j o = elim o [ none ↦ none | some t ↦ some (j, t) ]

  deref_of :
      (i j : ℕ) (s : StoredAction env) (o : Option (StoredAction env))
      → placed j o ≡ some (i, s)
      → (j ≡ i) × (o ≡ some s)
  deref_of i j s none h = cc
  deref_of i j s (some t) h = (
    ap (λ (f : ℕ × StoredAction env). f.0) (some_inj h),
    ap (λ (f : ℕ × StoredAction env). some f.1) (some_inj h),
  )

  pub deref_lem :
      (o : Option ℕ) (heap : List (StoredAction env)) (i : ℕ) (s : StoredAction env)
      → deref env o heap ≡ some (i, s)
      → get_elem? heap i ≡ some s
  deref_lem none heap i s h = cc
  deref_lem (some j) heap i s h =
      let (same, found) = deref_of i j s (get_elem? heap j) h in
      ap (get_elem? heap) (sym same) ∙ found

  finished-AllSound :
      (w : Workflows env) (i : ℕ) (s : StoredAction env) (at : Timestamp)
      (o : Option (StoredAction env))
      → settle env s at ≡ o
      → AllSound w
      → IsSound env s
      → AllSound (outcome env w i s o).0
  unfolding outcome
  finished-AllSound w i s at none h all v = set-AllSound w i s all v
  finished-AllSound w i s at (some s') h all v =
      set-AllSound w i s' all (settle-IsSound s s' at h v)

  checked-AllSound :
      (w : Workflows env) (r : ApprovalSubmission) (now : ℕ) (at : Timestamp)
      (c : Result ServiceError (Preflight env))
      → approval_preflight env w r now ≡ c
      → AllSound w
      → AllSound (submit_checked env w r at c).0
  unfolding submit_checked finish_submission approval_preflight by_hash
  checked-AllSound w r now at (err e) h all = all
  checked-AllSound w r now at (ok p) h all =
      let (i, s, found, admitted, same) =
        stored-IsAdmitted (by_hash env w r.action_envelope_hash.value) r.approval now p h in
      let sound : IsSound env p.stored = rw same (all i s (deref_lem _ w.actions i s found)) in
      finished-AllSound w p.position (record_decision env p r.approval at) at _ refl all
        (recorded-IsSound p r.approval at admitted sound)

-- A submission keeps every stored action sound, whatever its outcome, errors included: the Proposer
-- has not decided, nobody has decided twice, an action that is ready has satisfied its approval
-- expression by the decisions that it holds, and for one that is rejected the expression is
-- unreachable by them.
pub submit_approval-IsSound :
    (env : Env) (w : Workflows env) (r : ApprovalSubmission) (now : ℕ) (at : Timestamp)
    → All (IsSound env) w.actions
    → All (IsSound env) (submit_approval env w r now at).0.actions
unfolding submit_approval
submit_approval-IsSound env w r now at all = All-of_positions (IsSound env) _ (
    checked-AllSound env w r now at (approval_preflight env w r now) refl
      (All-get_elem? (IsSound env) w.actions all))
