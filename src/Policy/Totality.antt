-- ===== src/Policy/Totality.antt =====
-- When `evaluatePolicy` returns a result, and when it throws.
use mpas.Prelude.{
  ◌≡◌, ◌≢◌, ◌↔◌, ◌⊎◌, refl, ap, Bool, List, [], ◌∷◌, ◌++◌, All, arith, Bool-cases, inl, inr,
}
use mpas.Prelude.Result.{Result, ok, err, ◌>>=◌}
use mpas.Mpas.Numbers.{Numbers}
use mpas.Mpas.Package.{ActionPackage}
use mpas.Policy.Evaluation.{VerifiedApproval}
use mpas.Policy.Conditions.{Fault, unparseable_numeric_value, type_error}
use mpas.Policy.Conditions.Paths.{HasPath, conditions_fault, StopsAt, conditions-StopsAt_iff}
use mpas.Policy.{
  PolicyEntry, PolicyConfig, PolicyResult, malformed, rejected, conflicting_signer_decisions,
  conflicting, entry_conditions, matching_entries, evaluate_policy,
}
use mpas.Policy.Conflicts.{IsConsistent, conflicting-IsConsistent_iff}
use mpas.Policy.Matching.{selected, entry_result, IsEvaluable}
use mpas.Policy.Verdict.{verdict}

matching_fault :
    (ns : Numbers) (package' : ActionPackage ns.Num) (entries : List (PolicyEntry ns.Num))
    → All (λ entry. All HasPath (entry_conditions entry)) entries
    → matching_entries ns entries package' ≢ err type_error
unfolding matching_entries
matching_fault ns package' [] h = cc
matching_fault ns package' (e ∷ entries) (h, hs) = ground (
  arith,
  conditions_fault ns (entry_conditions e) package'.execution_payload package'.action_envelope h,
  matching_fault ns package' entries hs,
)

verdict_returns :
    (ns : Numbers) (package' : ActionPackage ns.Num) (approvals : List VerifiedApproval)
    (policy : PolicyConfig ns.Num) (r : Result Fault (List (PolicyEntry ns.Num)))
    → r ≢ err type_error
    → (result : PolicyResult) × (verdict ns package' approvals policy r ≡ ok result)
verdict_returns ns package' approvals policy (ok matched) n = (_, refl)
verdict_returns ns package' approvals policy (err unparseable_numeric_value) n = (malformed, refl)
verdict_returns ns package' approvals policy (err type_error) n = absurd (n refl)

-- If every condition of the selected entries has a path, evaluation returns a result: it throws
-- nothing, whatever the package, the Approvals and the values compared.
pub evaluate_policy_returns :
    (ns : Numbers) (package' : ActionPackage ns.Num) (approvals : List VerifiedApproval)
    (policy : PolicyConfig ns.Num)
    → All (λ entry. All HasPath (entry_conditions entry)) (selected ns package' approvals policy)
    → (result : PolicyResult) × (evaluate_policy ns package' approvals policy ≡ ok result)
unfolding evaluate_policy
evaluate_policy_returns ns package' approvals policy h = elim (Bool-cases (conflicting approvals)) [
  | inl e ↦ (rejected conflicting_signer_decisions, ground (arith, e))
  | inr e ↦ rw e (verdict_returns ns package' approvals policy _ (matching_fault ns package' _ h))
]

module _ (ns : Numbers) (package' : ActionPackage ns.Num) where
  -- Behind entries that can be evaluated, one reaches a condition without a path.
  pub record ThrowsAt (entries : List (PolicyEntry ns.Num)) : Type 0 where
    pub before : List (PolicyEntry ns.Num)
    pub entry : PolicyEntry ns.Num
    pub after : List (PolicyEntry ns.Num)
    pub split : entries ≡ before ++ entry ∷ after
    pub evaluable : All (IsEvaluable ns package') before
    pub stops :
        StopsAt ns package'.execution_payload package'.action_envelope (entry_conditions entry)

  -- An entry throws, or its result stands before a fault of the others.
  first_or_later :
      (r : Result Fault Bool) (rest : Result Fault (List (PolicyEntry ns.Num)))
      (both : Bool → List (PolicyEntry ns.Num) → List (PolicyEntry ns.Num))
      → (r >>= λ holds. rest >>= λ more. ok (both holds more)) ≡ err type_error
      → (r ≡ err type_error) ⊎ (((b : Bool) × (r ≡ ok b)) × (rest ≡ err type_error))
  first_or_later (err type_error) rest both h = inl refl
  first_or_later (err unparseable_numeric_value) rest both h = cc
  first_or_later (ok b) (err type_error) both h = inr ((b, refl), refl)
  first_or_later (ok b) (err unparseable_numeric_value) both h = cc
  first_or_later (ok b) (ok more) both h = cc

  found_throwing :
      (entries : List (PolicyEntry ns.Num))
      → matching_entries ns entries package' ≡ err type_error
      → ThrowsAt entries
  unfolding matching_entries
  found_throwing [] h = cc
  found_throwing (e ∷ entries) h = elim (first_or_later (entry_result ns package' e) _ _ h) [
    | inl now ↦ record {
      before = [];
      entry = e;
      after = entries;
      split = refl;
      evaluable = tt;
      stops = (conditions-StopsAt_iff ns _ _ (entry_conditions e)).0 now;
    }
    | inr (fine, later) ↦
        let t = found_throwing entries later in
        record {
          before = e ∷ t.before;
          entry = t.entry;
          after = t.after;
          split = ap (λ (l : List (PolicyEntry ns.Num)). e ∷ l) t.split;
          evaluable = (fine, t.evaluable);
          stops = t.stops;
        }
  ]

  throws :
      (before : List (PolicyEntry ns.Num)) (entry : PolicyEntry ns.Num)
      (after : List (PolicyEntry ns.Num))
      → All (IsEvaluable ns package') before
      → entry_result ns package' entry ≡ err type_error
      → matching_entries ns (before ++ entry ∷ after) package' ≡ err type_error
  unfolding matching_entries
  throws [] entry after h e = rw e refl
  throws (b ∷ before) entry after ((holds, h), hs) e = rw (h, throws before entry after hs e) refl

  matching-ThrowsAt_iff :
      (entries : List (PolicyEntry ns.Num))
      → (matching_entries ns entries package' ≡ err type_error) ↔ ThrowsAt entries
  matching-ThrowsAt_iff entries = (
    found_throwing entries,
    λ t. rw t.split (
        throws t.before t.entry t.after t.evaluable
          ((conditions-StopsAt_iff ns _ _ (entry_conditions t.entry)).1 t.stops)),
  )

  verdict_fault :
      (approvals : List VerifiedApproval) (policy : PolicyConfig ns.Num)
      (r : Result Fault (List (PolicyEntry ns.Num)))
      → verdict ns package' approvals policy r ≡ err type_error
      → r ≡ err type_error
  verdict_fault approvals policy (ok matched) h = cc
  verdict_fault approvals policy (err unparseable_numeric_value) h = cc
  verdict_fault approvals policy (err type_error) h = refl

-- Evaluation throws exactly when no Signer contradicted itself and, behind selected entries that
-- can be evaluated, an entry has a condition without a path behind conditions that all hold.
pub evaluate_policy-ThrowsAt_iff :
    (ns : Numbers) (package' : ActionPackage ns.Num) (approvals : List VerifiedApproval)
    (policy : PolicyConfig ns.Num)
    → (evaluate_policy ns package' approvals policy ≡ err type_error)
      ↔ (IsConsistent approvals × ThrowsAt ns package' (selected ns package' approvals policy))
unfolding evaluate_policy
evaluate_policy-ThrowsAt_iff ns package' approvals policy = (
  (λ h. elim (Bool-cases (conflicting approvals)) [
    | inl e ↦ absurd (ground (arith, e, h))
    | inr e ↦ (
      (conflicting-IsConsistent_iff approvals).0 e,
      (matching-ThrowsAt_iff ns package' _).0
          (verdict_fault ns package' approvals policy _ (rw e at h)),
    )
  ]),
  (λ (calm, t).
      rw
        (
          (conflicting-IsConsistent_iff approvals).1 calm,
          (matching-ThrowsAt_iff ns package' (selected ns package' approvals policy)).1 t,
        )
        refl),
)
