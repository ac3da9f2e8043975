-- ===== src/Approval.antt =====
-- sdk/protocol/src/lib/approval-requirements.ts: do final Signer decisions satisfy an approval
-- expression, can they still, or not any more?
mod Extension
pub mod Finality
pub mod Quorum
mod Tests
use mpas.Prelude.{
  ℕ, ◌+◌, ◌≡◌, Bool, true, false, not, ◌&&◌, ◌||◌, Option, none, some, List, [], ◌∷◌, String,
  length, is_empty, filter, every, any, leb, or_else, is_some, if◌then◌else◌,
}
use mathlib.Core.Option
use mpas.Prelude.Eq.{◌==◌, includes, string_eq, option_eq}
use mpas.Prelude.Assoc.{Assoc, lookup, insert, has}
use mpas.Prelude.Distinct.{distinct}
use mpas.Mpas.{
  Did, Decision, approve, reject, decision_eq, ThresholdRequirement, OverrideSigner,
  ApprovalRequirements,
}

pub record SignerDecision : Type 0 where
  pub signer_did : Did
  pub decision : Decision

pub data ApprovalRequirementsStatus : Type 0 where
  satisfied pending unreachable : ApprovalRequirementsStatus

abbrev pub DecisionMap : Type 0
DecisionMap = Assoc Did Decision

-- The loop of `immutableDecisionMap`; `none` is the error that it throws.
pub decision_map_from : DecisionMap → List SignerDecision → Option DecisionMap
decision_map_from result [] = some result
decision_map_from result (entry ∷ rest) =
    let known = lookup entry.signer_did result in
    let more = decision_map_from (insert entry.signer_did entry.decision result) rest in
    if is_some known && not (known == some entry.decision) then none else more

pub immutable_decision_map : List SignerDecision → Option DecisionMap
unfolding decision_map_from
immutable_decision_map = decision_map_from []

-- The counters of the loop over the distinct eligible Signers.
pub matching : Decision → DecisionMap → List Did → ℕ
matching expected m dids = length (filter (λ did. lookup did m == some expected) dids)

pub undecided : DecisionMap → List Did → ℕ
undecided m dids = length (filter (λ did. lookup did m == none) dids)

pub threshold_status : ThresholdRequirement → DecisionMap → ApprovalRequirementsStatus
unfolding matching undecided
threshold_status r m =
    let expected = or_else r.decision approve in
    let eligible = distinct r.eligible_signers in
    if leb r.threshold (matching expected m eligible)
    then satisfied
    else if leb r.threshold (matching expected m eligible + undecided m eligible)
    then pending
    else unreachable

abbrev pub is_satisfied : ApprovalRequirementsStatus → Bool
is_satisfied satisfied = true
is_satisfied _ = false

abbrev pub is_unreachable : ApprovalRequirementsStatus → Bool
is_unreachable unreachable = true
is_unreachable _ = false

abbrev pub permits : String → OverrideSigner → Bool
permits permission entry = includes permission entry.permissions

-- `overrides.some(...)` over the Signers whose override has the permission and who decided so.
abbrev pub override_decided : String → Decision → List OverrideSigner → DecisionMap → Bool
override_decided permission d overrides m =
    any (λ entry. permits permission entry && (lookup entry.signer m == some d)) overrides

abbrev pub status_satisfied : DecisionMap → ThresholdRequirement → Bool
status_satisfied m entry = is_satisfied (threshold_status entry m)

abbrev pub status_reachable : DecisionMap → ThresholdRequirement → Bool
status_reachable m entry = not (is_unreachable (threshold_status entry m))

-- Both passes of the threshold paths, `anyOf` and `allOf`, under one test of a threshold.
abbrev pub paths_hold :
    (ThresholdRequirement → Bool) → List ThresholdRequirement → List ThresholdRequirement → Bool
paths_hold test any_of all_of = (is_empty any_of || any test any_of) && every test all_of

-- The body of `evaluateApprovalRequirements`, from the decision map on.
pub status_of : ApprovalRequirements → DecisionMap → ApprovalRequirementsStatus
status_of requirements m =
    let overrides = or_else requirements.override_signers [] in
    let any_of = or_else requirements.any_of [] in
    let all_of = or_else requirements.all_of [] in
    if override_decided "reject" reject overrides m
    then unreachable
    else if override_decided "approve" approve overrides m
    then satisfied
    else if paths_hold (status_satisfied m) any_of all_of
    then satisfied
    else if paths_hold (status_reachable m) any_of all_of
    then pending
    else if any (λ entry. permits "approve" entry && not (has entry.signer m)) overrides
    then pending
    else unreachable

-- `none` is the error thrown for conflicting decisions.
pub evaluate_approval_requirements :
    ApprovalRequirements → List SignerDecision → Option ApprovalRequirementsStatus
unfolding immutable_decision_map status_of
evaluate_approval_requirements requirements decisions =
    Option.map (status_of requirements) (immutable_decision_map decisions)
