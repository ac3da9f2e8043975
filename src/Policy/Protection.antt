-- ===== src/Policy/Protection.antt =====
-- What protects an action: the Proposer's own Approvals count for nothing, more Approvals undo
-- nothing, a rejecting entry is final, and every reported rule is short of Signers.
use mpas.Prelude.{
  ◌≡◌, ◌≢◌, refl, true, List, [], ◌∷◌, any, All, All-map, filter, arith, Bool-cases, inl, inr, ◌&&◌,
}
use mpas.Prelude.Eq.{◌==◌, string_eq}
use mpas.Prelude.Result.{Result, ok, err}
use mpas.Mpas.{Did, Decision, decision_eq}
use mpas.Mpas.Numbers.{Numbers}
use mpas.Mpas.Package.{ActionPackage}
use mpas.Policy.Evaluation.{Requirement, VerifiedApproval}
use mpas.Policy.Evaluation.Satisfaction.{voted, evaluate_requirement-Satisfies_iff}
use mpas.Policy.Evaluation.Votes.{Includes, satisfied_mono, by_others, own_approvals_ignored}
use mpas.Policy.Conditions.{Fault, unparseable_numeric_value, type_error}
use mpas.Policy.{
  PolicyEntry, requires, rejects, PolicyConfig, satisfied, rejected, action_blocked_by_policy,
  conflicting_signer_decisions, conflicting, is_reject, effective_requirement, matching_entries,
  decide_entries, evaluate_policy,
}
use mpas.Policy.Conflicts.{IsConsistent, conflicting-IsConsistent_iff}
use mpas.Policy.Matching.{
  IsEvaluable, Met, EntryMet, PolicyMet, selected, holds, matching_of_evaluable,
}
use mpas.Policy.Verdict.{satisfied_iff, verdict}

voted-by_others :
    (p did : Did) (d : Decision) (approvals : List VerifiedApproval)
    → voted did d (by_others p approvals) ≡ true
    → voted did d approvals ≡ true
voted-by_others p did d [] v = v
voted-by_others p did d (a ∷ approvals) v = elim (Bool-cases (a.signer_did == p)) [
  | inl e ↦ ground (arith, e, voted-by_others p did d approvals)
  | inr e ↦ ground (arith, e, voted-by_others p did d approvals)
]

by_others-IsConsistent :
    (p : Did) (approvals : List VerifiedApproval)
    → IsConsistent approvals
    → IsConsistent (by_others p approvals)
by_others-IsConsistent p approvals h did d d' v w =
    h did d d' (voted-by_others p did d approvals v) (voted-by_others p did d' approvals w)

verdict-by_others :
    (ns : Numbers) (package' : ActionPackage ns.Num) (approvals : List VerifiedApproval)
    (policy : PolicyConfig ns.Num) (r : Result Fault (List (PolicyEntry ns.Num)))
    → verdict ns package' (by_others package'.action_envelope.proposer_did approvals) policy r
      ≡ verdict ns package' approvals policy r
unfolding decide_entries
verdict-by_others ns package' approvals policy (ok matched) = rw (
    own_approvals_ignored approvals _ package'.action_envelope.proposer_did
      (effective_requirement matched policy))
verdict-by_others ns package' approvals policy (err unparseable_numeric_value) = refl
verdict-by_others ns package' approvals policy (err type_error) = refl

-- Where no Signer contradicted itself, the Approvals that the Proposer gave change nothing in the
-- policy's result, in no branch of it.
pub own_approvals_change_nothing :
    (ns : Numbers) (package' : ActionPackage ns.Num) (approvals : List VerifiedApproval)
    (policy : PolicyConfig ns.Num)
    → IsConsistent approvals
    → evaluate_policy ns package' (by_others package'.action_envelope.proposer_did approvals) policy
      ≡ evaluate_policy ns package' approvals policy
unfolding evaluate_policy
own_approvals_change_nothing ns package' approvals policy c =
    let p = package'.action_envelope.proposer_did in
    rw
      (
        (conflicting-IsConsistent_iff approvals).1 c,
        (conflicting-IsConsistent_iff (by_others p approvals)).1
            (by_others-IsConsistent p approvals c),
      )
      (verdict-by_others ns package' approvals policy
        (matching_entries ns (selected ns package' approvals policy) package'))

module _ (ns : Numbers) (package' : ActionPackage ns.Num) (approvals more : List VerifiedApproval)
    (policy : PolicyConfig ns.Num) (larger : Includes approvals more) where
  Met-mono : (r : Requirement) → Met ns package' approvals policy r → Met ns package' more policy r
  Met-mono r s = (evaluate_requirement-Satisfies_iff more _ _ r).0 (
      satisfied_mono approvals more _ _ r larger
        ((evaluate_requirement-Satisfies_iff approvals _ _ r).1 s))

  EntryMet-mono :
      (entry : PolicyEntry ns.Num)
      → EntryMet ns package' approvals policy entry
      → EntryMet ns package' more policy entry
  EntryMet-mono (requires m r) s = Met-mono r s
  EntryMet-mono (rejects m) s = s

  PolicyMet-mono : PolicyMet ns package' approvals policy → PolicyMet ns package' more policy
  PolicyMet-mono p = record {
    evaluable = p.evaluable;
    entries = All-map (λ entry f m. EntryMet-mono entry (f m)) _ p.entries;
    default = λ n. Met-mono policy.default_requirement (p.default n);
  }

-- A satisfied policy stays satisfied under every larger set of Approvals in which no Signer
-- contradicts itself.
pub more_approvals_keep :
    (ns : Numbers) (package' : ActionPackage ns.Num) (approvals more : List VerifiedApproval)
    (policy : PolicyConfig ns.Num)
    → Includes approvals more
    → IsConsistent more
    → evaluate_policy ns package' approvals policy ≡ ok satisfied
    → evaluate_policy ns package' more policy ≡ ok satisfied
more_approvals_keep ns package' approvals more policy larger c h =
    (satisfied_iff ns package' more policy).1 (
      c,
      PolicyMet-mono ns package' approvals more policy larger
          ((satisfied_iff ns package' approvals policy).0 h).1,
    )

any_kept :
    (ns : Numbers) (package' : ActionPackage ns.Num) (entries : List (PolicyEntry ns.Num))
    → any (λ e. is_reject e && holds ns package' e) entries
      ≡ any is_reject (filter (holds ns package') entries)
any_kept ns package' [] = refl
any_kept ns package' (e ∷ entries) = elim (Bool-cases (holds ns package' e)) [
  | inl h ↦ ground (arith, h, any_kept ns package' entries)
  | inr h ↦ ground (arith, h, any_kept ns package' entries)
]

-- A matching entry that rejects is final: whatever the Approvals, as long as no Signer
-- contradicted itself and the selected entries can be evaluated, and whatever the other entries
-- ask for, the action is blocked.
pub matching_reject_blocks :
    (ns : Numbers) (package' : ActionPackage ns.Num) (approvals : List VerifiedApproval)
    (policy : PolicyConfig ns.Num)
    → IsConsistent approvals
    → All (IsEvaluable ns package') (selected ns package' approvals policy)
    → any (λ e. is_reject e && holds ns package' e) (selected ns package' approvals policy) ≡ true
    → evaluate_policy ns package' approvals policy ≡ ok (rejected action_blocked_by_policy)
unfolding evaluate_policy decide_entries
matching_reject_blocks ns package' approvals policy c evaluable r = ground (
  arith,
  (conflicting-IsConsistent_iff approvals).1 c,
  matching_of_evaluable ns package' _ evaluable,
  any_kept ns package' (selected ns package' approvals policy),
)

-- A Signer with two different decisions has the package rejected, whatever the policy.
pub contradiction_rejects :
    (ns : Numbers) (package' : ActionPackage ns.Num) (approvals : List VerifiedApproval)
    (policy : PolicyConfig ns.Num) (did : Did) (d d' : Decision)
    → voted did d approvals ≡ true
    → voted did d' approvals ≡ true
    → d ≢ d'
    → evaluate_policy ns package' approvals policy ≡ ok (rejected conflicting_signer_decisions)
unfolding evaluate_policy
contradiction_rejects ns package' approvals policy did d d' v w n =
    elim (Bool-cases (conflicting approvals)) [
      | inl e ↦ ground (arith, e)
      | inr e ↦ absurd (n ((conflicting-IsConsistent_iff approvals).0 e did d d' v w))
    ]
