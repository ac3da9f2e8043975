-- ===== src/Policy.antt =====
-- sdk/protocol/src/lib/policy-engine.ts, the JSON Verifier policy engine: proposer gating and the
-- evaluation of a policy for an Action Package. Messages are not modelled.
pub mod Evaluation
pub mod Pointer
pub mod Conditions
pub mod Conflicts
mod Matching
pub mod Verdict
pub mod Protection
pub mod Gate
pub mod Totality
mod Tests
use mpas.Prelude.{
  String, Bool, true, false, not, ◌&&◌, Option, none, some, List, [], ◌∷◌, is_empty, is_some, any,
  length, or_else, if◌then◌else◌,
}
use mpas.Prelude.Eq.{◌==◌, includes, string_eq, option_eq, nat_eq}
use mpas.Prelude.Assoc.{Assoc, lookup, insert}
use mpas.Prelude.Result.{Result, ok, err, ◌>>=◌}
use mpas.Mpas.{Did, Decision, decision_eq}
use mpas.Mpas.Json.{Json, str, obj, members}
use mpas.Mpas.Numbers.{Numbers}
use mpas.Mpas.Package.{ActionEnvelope, ActionPackage}
use mpas.Policy.Evaluation.{
  Requirement, all_of, Requirements, nil, cons, SignerGroups, VerifiedApproval,
  UnsatisfiedThreshold, evaluate_requirement,
}
use mpas.Policy.Conditions.{
  PolicyCondition, Fault, unparseable_numeric_value, type_error, matches_conditions,
}

pub record Match (N : Type 0) : Type 0 where
  pub conditions : Option (List (PolicyCondition N))

-- `RequirementPolicyEntry` or `RejectPolicyEntry`, each with its optional `match`.
pub data PolicyEntry (N : Type 0) : Type 0 where
  requires : Option (Match N) → Requirement → PolicyEntry N
  rejects : Option (Match N) → PolicyEntry N

pub record PolicyConfig (N : Type 0) : Type 0 where
  pub default_requirement : Requirement
  pub policies : Option (Assoc String (List (PolicyEntry N)))
  pub signer_groups : Option SignerGroups

pub data RejectionCode : Type 0 where
  action_blocked_by_policy conflicting_signer_decisions : RejectionCode

pub data PolicyResult : Type 0 where
  satisfied : PolicyResult
  rejected : RejectionCode → PolicyResult
  additional_approvals_required : List UnsatisfiedThreshold → PolicyResult
  -- The code is always NUMERIC_CONDITION_UNPARSEABLE here.
  malformed : PolicyResult

pub data ProposerGateResult : Type 0 where
  allowed proposer_not_authorized : ProposerGateResult

allowed_proposers : Option SignerGroups → Option (List Did)
allowed_proposers none = none
allowed_proposers (some groups) = elim (lookup "proposers" groups) [
  | some dids ↦ some dids
  | none ↦ lookup "all" groups
]

pub check_proposer_authorization : {N : Type 0} → Did → PolicyConfig N → ProposerGateResult
unfolding allowed_proposers
check_proposer_authorization proposer_did policy =
    let dids = or_else (allowed_proposers policy.signer_groups) [] in
    if is_empty dids
    then proposer_not_authorized
    else if includes proposer_did dids
    then allowed
    else proposer_not_authorized

-- The loop over the verified Approvals: has one Signer contradicted itself?
pub conflicting_from : Assoc Did Decision → List VerifiedApproval → Bool
conflicting_from decided [] = false
conflicting_from decided (a ∷ rest) =
    let prior = lookup a.signer_did decided in
    let more = conflicting_from (insert a.signer_did a.decision decided) rest in
    if is_some prior && not (prior == some a.decision) then true else more

pub conflicting : List VerifiedApproval → Bool
unfolding conflicting_from
conflicting = conflicting_from []

-- `matchedRequirements[0]` of one matched entry is that entry's requirement.
pub combine : Requirements → Requirement
combine (cons r nil) = r
combine rs = all_of rs

module _ {N : Type 0} where
  abbrev pub text_of : Option (Json N) → Option String
  text_of (some (str name)) = some name
  text_of _ = none

  -- `payload.name`, if the payload is an object and the name a text.
  pub action_name : Json N → Option String
  action_name (obj ms) = text_of (lookup "name" (members ms))
  action_name _ = none

  -- An empty name is falsy, so it selects no entries.
  pub entries_for : Option String → PolicyConfig N → List (PolicyEntry N)
  entries_for none policy = []
  entries_for (some name) policy =
      if name == "" then [] else or_else (lookup name (or_else policy.policies [])) []

  pub entry_conditions : PolicyEntry N → List (PolicyCondition N)
  entry_conditions (requires m _) = elim m [ none ↦ [] | some c ↦ or_else c.conditions [] ]
  entry_conditions (rejects m) = elim m [ none ↦ [] | some c ↦ or_else c.conditions [] ]

  abbrev pub is_reject : PolicyEntry N → Bool
  is_reject (requires _ _) = false
  is_reject (rejects _) = true

  pub matched_requirements : List (PolicyEntry N) → Requirements
  matched_requirements [] = nil
  matched_requirements (requires _ r ∷ rest) = cons r (matched_requirements rest)
  matched_requirements (rejects _ ∷ rest) = matched_requirements rest

  pub effective_requirement : List (PolicyEntry N) → PolicyConfig N → Requirement
  unfolding matched_requirements combine
  effective_requirement matched policy =
      if is_empty matched
      then policy.default_requirement
      else combine (matched_requirements matched)

module _ (ns : Numbers) where
  open ns use {Num}

  -- The entries whose conditions all hold, in order; an entry without conditions always matches.
  pub matching_entries :
      List (PolicyEntry Num) → ActionPackage Num → Result Fault (List (PolicyEntry Num))
  unfolding entry_conditions
  matching_entries [] package' = ok []
  matching_entries (entry ∷ rest) package' = do
    holds ←
        matches_conditions ns (entry_conditions entry) package'.execution_payload
          package'.action_envelope
    more ← matching_entries rest package'
    ok (if holds then entry ∷ more else more)

  pub decide_entries :
      List (PolicyEntry Num)
      → ActionPackage Num
      → List VerifiedApproval
      → PolicyConfig Num
      → PolicyResult
  unfolding effective_requirement
  decide_entries matched package' approvals policy =
      if any is_reject matched
      then rejected action_blocked_by_policy
      else let unsatisfied =
          evaluate_requirement approvals policy.signer_groups package'.action_envelope.proposer_did
            (effective_requirement matched policy) in
        if is_empty unsatisfied then satisfied else additional_approvals_required unsatisfied

  -- Every error but the unparseable number is thrown on.
  pub evaluate_policy :
      ActionPackage Num → List VerifiedApproval → PolicyConfig Num → Result Fault PolicyResult
  unfolding conflicting action_name entries_for matching_entries decide_entries
  evaluate_policy package' approvals policy =
      if conflicting approvals
      then ok (rejected conflicting_signer_decisions)
      else elim (matching_entries (entries_for (action_name package'.execution_payload) policy)
          package') [
            | ok matched ↦ ok (decide_entries matched package' approvals policy)
            | err unparseable_numeric_value ↦ ok malformed
            | err type_error ↦ err type_error
          ]
