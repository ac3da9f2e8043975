-- ===== src/Policy/Evaluation.antt =====
-- Requirements of sdk/protocol/src/lib/policy-engine.ts and their evaluation over verified
-- Approvals.
pub mod Satisfaction
pub mod Votes
pub mod Shortfall
use mathlib.Core.List.{flatten}
use mpas.Prelude.{
  ℕ, String, Bool, true, false, not, ◌&&◌, Option, none, some, List, [], ◌∷◌, map, length, is_empty,
  filter, any, leb, or_else, if◌then◌else◌,
}
use mpas.Prelude.Eq.{◌==◌, includes, string_eq, nat_eq}
use mpas.Prelude.Assoc.{Assoc, lookup}
use mpas.Prelude.Distinct.{distinct}
use mpas.Mpas.{Did, Decision, approve, decision_eq}

pub record ThresholdRequirement : Type 0 where
  pub threshold : ℕ
  pub eligible_signer_group : Option String
  pub eligible_signers : Option (List Did)
  pub decision : Option Decision
  pub description : Option String

mutual
  pub data Requirement : Type 0 where
    proposer_only : Requirement
    threshold : ThresholdRequirement → Requirement
    all_of : Requirements → Requirement
    any_of : Requirements → Requirement

  pub data Requirements : Type 0 where
    nil : Requirements
    cons : Requirement → Requirements → Requirements

abbrev pub SignerGroups : Type 0
SignerGroups = Assoc String (List Did)

-- What the evaluation reads of a `VerifiedApproval`.
pub record VerifiedApproval : Type 0 where
  pub signer_did : Did
  pub decision : Decision

pub record UnsatisfiedThreshold : Type 0 where
  pub requirement : ThresholdRequirement
  pub required_role : String
  pub required_decision : Decision
  pub threshold : ℕ
  pub found : ℕ
  pub eligible_signers : List Did

pub unsatisfiable_requirement : UnsatisfiedThreshold
unsatisfiable_requirement = record {
  requirement = record {
    threshold = 1;
    eligible_signer_group = none;
    eligible_signers = none;
    decision = none;
    description = none;
  };
  required_role = "(unsatisfiable requirement)";
  required_decision = approve;
  threshold = 1;
  found = 0;
  eligible_signers = [];
}

-- A missing or empty group name is falsy.
pub group_signers : Option String → Option SignerGroups → List Did
group_signers none groups = []
group_signers (some name) none = []
group_signers (some name) (some groups) = if name == "" then [] else or_else (lookup name groups) []

unfoldable pub resolve_eligible_signers : ThresholdRequirement → Option SignerGroups → List Did
unfolding group_signers
resolve_eligible_signers r groups =
    let inline = or_else r.eligible_signers [] in
    if is_empty inline then group_signers r.eligible_signer_group groups else inline

-- An Approval that counts: not the Proposer's own, with the required decision, by an eligible
-- Signer. An empty eligible set is `null` in the source, which has no members.
abbrev pub counts : Did → Decision → List Did → VerifiedApproval → Bool
counts proposer_did decision eligible approval =
    if approval.signer_did == proposer_did
    then false
    else if not (approval.decision == decision)
    then false
    else includes approval.signer_did eligible

-- The loop of `anyOf`: the first satisfied branch ends it; else the first branch stands for all.
pub evaluate_any : List (List UnsatisfiedThreshold) → List UnsatisfiedThreshold
unfolding unsatisfiable_requirement
evaluate_any [] = unsatisfiable_requirement ∷ []
evaluate_any (first ∷ rest) = if any is_empty (first ∷ rest) then [] else first

-- The `policy` argument of the source is read for its `signerGroups` alone.
module _ (approvals : List VerifiedApproval) (groups : Option SignerGroups)
    (proposer_did : Did) where
  -- The distinct Signers whose Approvals count.
  unfoldable pub counted_signers : Decision → List Did → List Did
  counted_signers decision eligible = distinct (
      map (λ approval. approval.signer_did)
        (filter (counts proposer_did decision eligible) approvals))

  unfoldable pub evaluate_threshold : ThresholdRequirement → List UnsatisfiedThreshold
  evaluate_threshold r =
      let decision = or_else r.decision approve in
      let eligible = resolve_eligible_signers r groups in
      let found = length (counted_signers decision eligible) in
      if r.threshold == 0
      then []
      else if leb r.threshold found
      then []
      else record {
        requirement = r;
        required_role = or_else r.eligible_signer_group "unknown";
        required_decision = decision;
        threshold = r.threshold;
        found = found;
        eligible_signers = eligible;
      }
        ∷ []

  unfoldable mutual
    pub evaluate_requirement : Requirement → List UnsatisfiedThreshold
    evaluate_requirement proposer_only = []
    evaluate_requirement (threshold r) = evaluate_threshold r
    evaluate_requirement (all_of rs) = flatten (evaluate_each rs)
    evaluate_requirement (any_of rs) = evaluate_any (evaluate_each rs)

    pub evaluate_each : Requirements → List (List UnsatisfiedThreshold)
    evaluate_each nil = []
    evaluate_each (cons r rs) = evaluate_requirement r ∷ evaluate_each rs
