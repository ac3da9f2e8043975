-- ===== src/Policy/Tests.antt =====
-- The policy engine on a concrete package and policy: a transfer asks for an approval by `bob` or
-- `carol` when its amount is above 100, and `delete` is blocked.
use mpas.Prelude.{
  ℕ, ltb, leb, ◌≡◌, ◌↔◌, refl, Bool, ◌&&◌, true, false, Option, none, some, List, [], ◌∷◌, All, any,
  arith,
}
use mpas.Prelude.Eq.{nat_beq}
use mpas.Prelude.Assoc.{lookup, insert}
use mpas.Prelude.Distinct.{distinct}
use mpas.Prelude.Result.{ok, err}
use mpas.Mpas.{Did, approve, reject, HashObject}
use mpas.Mpas.Json.{Json, num, str, obj, end, member}
use mpas.Mpas.Numbers.{Numbers}
use mpas.Mpas.Package.{ActionPackage}
use mpas.Policy.Evaluation.{
  ThresholdRequirement, proposer_only, threshold, VerifiedApproval, counted_signers,
  evaluate_threshold, evaluate_requirement, resolve_eligible_signers,
}
use mpas.Policy.Evaluation.Satisfaction.{Satisfies, evaluate_requirement-Satisfies_iff}
use mpas.Policy.Evaluation.Votes.{by_others, own_approvals_ignored, satisfied_mono}
use mpas.Policy.Evaluation.Shortfall.{IsShort, evaluate_requirement-IsShort}
use mpas.Policy.Conditions.{
  PolicyCondition, execution_payload, gt, exists, type_error, matches_conditions, condition_matches,
  operator_holds,
}
use mpas.Policy.Conditions.Paths.{HasPath}
use mpas.Policy.Pointer.{get_json_pointer_value}
use mpas.Policy.{
  is_reject, PolicyEntry, requires, rejects, PolicyConfig, satisfied, rejected,
  action_blocked_by_policy, conflicting_signer_decisions, PolicyResult, conflicting_from,
  conflicting, action_name, entries_for, entry_conditions, effective_requirement,
  matched_requirements, combine, matching_entries, decide_entries, evaluate_policy,
}
use mpas.Policy.Conflicts.{IsConsistent, conflicting-IsConsistent_iff}
use mpas.Policy.Matching.{PolicyMet, selected, holds}
use mpas.Policy.Verdict.{satisfied_iff}
use mpas.Policy.Protection.{
  own_approvals_change_nothing, more_approvals_keep, matching_reject_blocks, contradiction_rejects,
}
use mpas.Policy.Totality.{evaluate_policy_returns, evaluate_policy-ThrowsAt_iff, ThrowsAt}

abbrev naturals : Numbers
naturals = record {
  Num = ℕ;
  num_eq = nat_beq;
  num_lt = ltb;
  num_le = leb;
  is_finite = λ n. true;
  of_nat = λ n. n;
  of_text = λ t. none;
}

abbrev some_hash : HashObject
some_hash = record { alg = "sha-256"; value = "h1" }

abbrev package_of : Json ℕ → ActionPackage ℕ
package_of payload = record {
  execution_payload = payload;
  action_envelope = record {
    proposer_did = "did:x:alice";
    target = record { application_did = "did:x:bank"; resource = none; fields = end };
    execution_profile = record { id = "did:x:profile"; format = none };
    execution_payload_hash = some_hash;
    action_id = record { value = "a1"; scope = none };
    created_at = "2026-01-01T00:00:00Z";
    expires_at = "2026-01-02T00:00:00Z";
  };
  approval_bundle = record {
    action_envelope_hash = some_hash;
    approvals = [];
    assembled_by = none;
    created_at = none;
  };
  created_at = none;
}

abbrev call : List (Option ℕ) → Json ℕ
call [] = obj (member "name" (str "delete") end)
call (none ∷ _) = obj (member "name" (str "pathless") end)
call (some n ∷ _) = obj (member "name" (str "transfer") (member "amount" (num n) end))

abbrev transfer : ActionPackage ℕ
transfer = package_of (call (some 200 ∷ []))

abbrev deletion : ActionPackage ℕ
deletion = package_of (call [])

abbrev pathless : ActionPackage ℕ
pathless = package_of (call (none ∷ []))

abbrev one_reviewer : ThresholdRequirement
one_reviewer = record {
  threshold = 1;
  eligible_signer_group = some "reviewers";
  eligible_signers = none;
  decision = none;
  description = none;
}

abbrev above_100 : PolicyCondition ℕ
above_100 = record {
  source = execution_payload;
  path = some "/amount";
  op = gt;
  value = some (num 100);
}

abbrev no_path : PolicyCondition ℕ
no_path = record { source = execution_payload; path = none; op = exists; value = none }

abbrev pathless_entry : PolicyEntry ℕ
pathless_entry = rejects (some (record { conditions = some (no_path ∷ []) }))

abbrev bank_policy : PolicyConfig ℕ
bank_policy = record {
  default_requirement = proposer_only;
  policies = some (
      (
        "transfer",
        requires (some (record { conditions = some (above_100 ∷ []) })) (threshold one_reviewer)
            ∷ [],
      )
      ∷ ("delete", rejects none ∷ [])
      ∷ ("pathless", pathless_entry ∷ [])
      ∷ []);
  signer_groups =
      some (("all", "did:x:alice" ∷ []) ∷ ("reviewers", "did:x:bob" ∷ "did:x:carol" ∷ []) ∷ []);
}

abbrev by : Did → VerifiedApproval
by did = record { signer_did = did; decision = approve }

abbrev own : List VerifiedApproval
own = by "did:x:alice" ∷ []

abbrev with_bob : List VerifiedApproval
with_bob = by "did:x:alice" ∷ by "did:x:bob" ∷ []

own-IsConsistent : IsConsistent own
own-IsConsistent =
    (conflicting-IsConsistent_iff own).0 (unfold conflicting conflicting_from lookup insert in refl)

with_bob-IsConsistent : IsConsistent with_bob
with_bob-IsConsistent =
    (conflicting-IsConsistent_iff with_bob).0
      (unfold conflicting conflicting_from lookup insert in refl)

transfer_approved : evaluate_policy naturals transfer with_bob bank_policy ≡ ok satisfied
unfolding evaluate_policy conflicting conflicting_from lookup insert action_name entries_for
    matching_entries decide_entries entry_conditions matches_conditions condition_matches
    operator_holds get_json_pointer_value effective_requirement matched_requirements combine
    evaluate_requirement evaluate_threshold counted_signers resolve_eligible_signers distinct
transfer_approved = refl

evaluate_requirement-Satisfies_iff_example :
    (evaluate_requirement with_bob bank_policy.signer_groups "did:x:alice" (threshold one_reviewer)
      ≡ [])
    ↔ Satisfies with_bob bank_policy.signer_groups "did:x:alice" (threshold one_reviewer)
evaluate_requirement-Satisfies_iff_example =
    evaluate_requirement-Satisfies_iff with_bob bank_policy.signer_groups "did:x:alice"
      (threshold one_reviewer)

own_approvals_ignored_example :
    evaluate_requirement
      (by_others "did:x:alice" with_bob)
      bank_policy.signer_groups
      "did:x:alice"
      (threshold one_reviewer)
    ≡ evaluate_requirement with_bob bank_policy.signer_groups "did:x:alice" (threshold one_reviewer)
own_approvals_ignored_example =
    own_approvals_ignored with_bob bank_policy.signer_groups "did:x:alice" (threshold one_reviewer)

with_bob_is_enough :
    evaluate_requirement with_bob bank_policy.signer_groups "did:x:alice" (threshold one_reviewer)
    ≡ []
unfolding evaluate_requirement evaluate_threshold counted_signers resolve_eligible_signers distinct
    lookup
with_bob_is_enough = refl

abbrev with_carol : List VerifiedApproval
with_carol = by "did:x:carol" ∷ with_bob

satisfied_mono_example :
    evaluate_requirement with_carol bank_policy.signer_groups "did:x:alice" (threshold one_reviewer)
    ≡ []
satisfied_mono_example =
    satisfied_mono with_bob with_carol bank_policy.signer_groups "did:x:alice"
      (threshold one_reviewer) (λ did d h. ground (arith, h)) with_bob_is_enough

evaluate_requirement-IsShort_example :
    All
      (IsShort own bank_policy.signer_groups "did:x:alice")
      (evaluate_requirement own bank_policy.signer_groups "did:x:alice" (threshold one_reviewer))
evaluate_requirement-IsShort_example =
    evaluate_requirement-IsShort own bank_policy.signer_groups "did:x:alice"
      (threshold one_reviewer)

conflicting-IsConsistent_iff_example : (conflicting with_carol ≡ false) ↔ IsConsistent with_carol
conflicting-IsConsistent_iff_example = conflicting-IsConsistent_iff with_carol

with_carol-IsConsistent : IsConsistent with_carol
with_carol-IsConsistent =
    (conflicting-IsConsistent_iff with_carol).0
      (unfold conflicting conflicting_from lookup insert in refl)

satisfied_iff_example :
    (evaluate_policy naturals transfer with_bob bank_policy ≡ ok satisfied)
    ↔ (IsConsistent with_bob × PolicyMet naturals transfer with_bob bank_policy)
satisfied_iff_example = satisfied_iff naturals transfer with_bob bank_policy

own_approvals_change_nothing_example :
    evaluate_policy naturals transfer (by_others "did:x:alice" with_bob) bank_policy
    ≡ evaluate_policy naturals transfer with_bob bank_policy
own_approvals_change_nothing_example =
    own_approvals_change_nothing naturals transfer with_bob bank_policy with_bob-IsConsistent

more_approvals_keep_example :
    evaluate_policy naturals transfer with_carol bank_policy ≡ ok satisfied
more_approvals_keep_example =
    more_approvals_keep naturals transfer with_bob with_carol bank_policy
      (λ did d h. ground (arith, h)) with_carol-IsConsistent transfer_approved

deletion_evaluable :
    All
      (λ e.
        (b : Bool) × (matches_conditions naturals
            (entry_conditions e)
            deletion.execution_payload
            deletion.action_envelope
          ≡ ok b))
      (selected naturals deletion with_bob bank_policy)
unfolding action_name entries_for lookup entry_conditions matches_conditions
deletion_evaluable = ((true, refl), tt)

deletion_rejects :
    any
      (λ e. is_reject e && holds naturals deletion e)
      (selected naturals deletion with_bob bank_policy)
    ≡ true
unfolding action_name entries_for lookup entry_conditions matches_conditions
deletion_rejects = refl

matching_reject_blocks_example :
    evaluate_policy naturals deletion with_bob bank_policy ≡ ok (rejected action_blocked_by_policy)
matching_reject_blocks_example =
    matching_reject_blocks naturals deletion with_bob bank_policy with_bob-IsConsistent
      deletion_evaluable deletion_rejects

abbrev bob_twice : List VerifiedApproval
bob_twice = by "did:x:bob" ∷ record { signer_did = "did:x:bob"; decision = reject } ∷ []

contradiction_rejects_example :
    evaluate_policy naturals transfer bob_twice bank_policy
    ≡ ok (rejected conflicting_signer_decisions)
contradiction_rejects_example =
    contradiction_rejects naturals transfer bob_twice bank_policy "did:x:bob" approve reject refl
      refl (λ h. cc)

transfer_has_paths :
    All (λ e. All HasPath (entry_conditions e)) (selected naturals transfer with_bob bank_policy)
unfolding action_name entries_for lookup entry_conditions
transfer_has_paths = ((refl, tt), tt)

evaluate_policy_returns_example :
    (result : PolicyResult) × (evaluate_policy naturals transfer with_bob bank_policy ≡ ok result)
evaluate_policy_returns_example =
    evaluate_policy_returns naturals transfer with_bob bank_policy transfer_has_paths

evaluate_policy-ThrowsAt_iff_example :
    (evaluate_policy naturals pathless own bank_policy ≡ err type_error)
    ↔ (IsConsistent own × ThrowsAt naturals pathless (selected naturals pathless own bank_policy))
evaluate_policy-ThrowsAt_iff_example =
    evaluate_policy-ThrowsAt_iff naturals pathless own bank_policy

-- The policy that names this package has such a condition.
pathless_package_throws : evaluate_policy naturals pathless own bank_policy ≡ err type_error
pathless_package_throws = evaluate_policy-ThrowsAt_iff_example.1 (
  own-IsConsistent,
  record {
    before = [];
    entry = pathless_entry;
    after = [];
    split = unfold action_name entries_for lookup in refl;
    evaluable = tt;
    stops = record {
      before = [];
      condition = no_path;
      after = [];
      split = unfold entry_conditions in refl;
      hold = tt;
      pathless = refl;
    };
  },
)
