-- ===== src/Policy/Verdict.antt =====
-- The results of `evaluatePolicy`: exactly when it is satisfied, what rejects, what Approvals can
-- change.
use mpas.Prelude.{
  ◌≡◌, ◌↔◌, refl, true, false, List, [], ◌∷◌, any, All, filter, is_empty, arith, Bool-cases, inl,
  inr,
}
use mpas.Prelude.Result.{Result, ok, err}
use mpas.Mpas.Numbers.{Numbers}
use mpas.Mpas.Package.{ActionPackage}
use mpas.Policy.Evaluation.{VerifiedApproval, UnsatisfiedThreshold, evaluate_requirement}
use mpas.Policy.Evaluation.Satisfaction.{evaluate_requirement-Satisfies_iff}
use mpas.Policy.Conditions.{Fault, unparseable_numeric_value, type_error}
use mpas.Policy.{
  PolicyEntry, PolicyConfig, PolicyResult, satisfied, malformed, conflicting, is_reject,
  effective_requirement, matching_entries, decide_entries, evaluate_policy, matched_requirements,
}
use mpas.Policy.Conflicts.{IsConsistent, conflicting-IsConsistent_iff}
use mpas.Policy.Matching.{
  Met, EntryMet, PolicyMet, selected, holds, matching_found, matching_of_evaluable, All-met,
  met-All, entries_met, met_entries, none-Matches, Matches-none, combine-Met, Met-combine,
}

module _ (ns : Numbers) (package' : ActionPackage ns.Num) (approvals : List VerifiedApproval)
    (policy : PolicyConfig ns.Num) where
  abbrev pub verdict : Result Fault (List (PolicyEntry ns.Num)) → Result Fault PolicyResult
  verdict r = elim r [
    | ok matched ↦ ok (decide_entries ns matched package' approvals policy)
    | err unparseable_numeric_value ↦ ok malformed
    | err type_error ↦ err type_error
  ]

  verdict_satisfied :
      (r : Result Fault (List (PolicyEntry ns.Num)))
      → verdict r ≡ ok satisfied
      → (matched : List (PolicyEntry ns.Num)) × (r ≡ ok matched)
        × (decide_entries ns matched package' approvals policy ≡ satisfied)
  verdict_satisfied (ok matched) h = (matched, refl, cc)
  verdict_satisfied (err unparseable_numeric_value) h = cc
  verdict_satisfied (err type_error) h = cc

  abbrev reported : List (PolicyEntry ns.Num) → List UnsatisfiedThreshold
  reported matched =
      evaluate_requirement approvals policy.signer_groups package'.action_envelope.proposer_did
        (effective_requirement matched policy)

  decide_satisfied :
      (matched : List (PolicyEntry ns.Num))
      → decide_entries ns matched package' approvals policy ≡ satisfied
      → (any is_reject matched ≡ false) × (reported matched ≡ [])
  unfolding decide_entries
  decide_satisfied matched h = ground arith

  satisfied_decide :
      (matched : List (PolicyEntry ns.Num))
      → any is_reject matched ≡ false
      → reported matched ≡ []
      → decide_entries ns matched package' approvals policy ≡ satisfied
  unfolding decide_entries
  satisfied_decide matched n e = ground arith

  effective-Met :
      (matched : List (PolicyEntry ns.Num))
      → any is_reject matched ≡ false
      → Met ns package' approvals policy (effective_requirement matched policy)
      → All (EntryMet ns package' approvals policy) matched
        × (is_empty matched ≡ true → Met ns package' approvals policy policy.default_requirement)
  unfolding effective_requirement
  effective-Met [] n s = (tt, λ _. s)
  effective-Met (e ∷ rest) n s = (
    All-met ns package' approvals policy (e ∷ rest) n
        (combine-Met ns package' approvals policy (matched_requirements (e ∷ rest)) s),
    λ h. absurd (ground arith),
  )

  Met-effective :
      (matched : List (PolicyEntry ns.Num))
      → All (EntryMet ns package' approvals policy) matched
      → (is_empty matched ≡ true → Met ns package' approvals policy policy.default_requirement)
      → Met ns package' approvals policy (effective_requirement matched policy)
  unfolding effective_requirement
  Met-effective [] a d = d refl
  Met-effective (e ∷ rest) a d =
      Met-combine ns package' approvals policy (matched_requirements (e ∷ rest))
        (met-All ns package' approvals policy (e ∷ rest) a).1

  policy_sound :
      evaluate_policy ns package' approvals policy ≡ ok satisfied
      → IsConsistent approvals × PolicyMet ns package' approvals policy
  unfolding evaluate_policy
  policy_sound h = elim (Bool-cases (conflicting approvals)) [
    | inl e ↦ absurd (ground (arith, e))
    | inr e ↦
        let (matched, found, decided) =
          verdict_satisfied (matching_entries ns (selected ns package' approvals policy) package')
            (ground (arith, e)) in
        let (evaluable, same) = matching_found ns package' _ matched found in
        let (calm, quiet) = decide_satisfied matched decided in
        let (a, d) =
          effective-Met matched calm
            ((evaluate_requirement-Satisfies_iff approvals _ _ _).0 quiet) in
        (
          (conflicting-IsConsistent_iff approvals).0 e,
          record {
            evaluable = evaluable;
            entries = entries_met ns package' approvals policy _ (rw same at a);
            default = λ n. d (rw same (Matches-none ns package' approvals policy _ n));
          },
        )
  ]

  policy_complete :
      IsConsistent approvals
      → PolicyMet ns package' approvals policy
      → evaluate_policy ns package' approvals policy ≡ ok satisfied
  unfolding evaluate_policy
  policy_complete c p =
      let found = matching_of_evaluable ns package' _ p.evaluable in
      let matched = filter (holds ns package') (selected ns package' approvals policy) in
      let a = met_entries ns package' approvals policy _ p.entries in
      let m =
        Met-effective matched a (λ h. p.default (none-Matches ns package' approvals policy _ h)) in
      let decided =
        satisfied_decide matched (met-All ns package' approvals policy matched a).0
          ((evaluate_requirement-Satisfies_iff approvals _ _ _).1 m) in
      ground (arith, (conflicting-IsConsistent_iff approvals).1 c, found, decided)

-- A policy is satisfied exactly when no Signer contradicted itself, the conditions of the entries
-- selected by the operation's name can be evaluated, every entry whose conditions hold is met (so
-- none of them rejects), and the default requirement is met if no entry's conditions hold.
pub satisfied_iff :
    (ns : Numbers) (package' : ActionPackage ns.Num) (approvals : List VerifiedApproval)
    (policy : PolicyConfig ns.Num)
    → (evaluate_policy ns package' approvals policy ≡ ok satisfied)
      ↔ (IsConsistent approvals × PolicyMet ns package' approvals policy)
satisfied_iff ns package' approvals policy = (
  policy_sound ns package' approvals policy,
  λ h. policy_complete ns package' approvals policy h.0 h.1,
)
