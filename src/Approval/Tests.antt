-- ===== src/Approval/Tests.antt =====
-- Approval expressions on concrete decisions.
use mpas.Prelude.{◌≡◌, ◌≢◌, ◌↔◌, refl, none, some, [], ◌∷◌, ◌++◌}
use mpas.Prelude.Assoc.{lookup, insert}
use mpas.Prelude.Distinct.{distinct}
use mpas.Mpas.{approve, reject, ThresholdRequirement, ApprovalRequirements}
use mpas.Approval.{
  SignerDecision, satisfied, pending, unreachable, DecisionMap, decision_map_from,
  immutable_decision_map, matching, undecided, threshold_status, status_of,
  evaluate_approval_requirements,
}
use mpas.Approval.Extension.{Extends}
use mpas.Approval.Finality.{unreachable_final, satisfied_final}
use mpas.Approval.Quorum.{Quorum, satisfied-Quorum_iff, reachable-Quorum_iff}

abbrev two_of_three : ThresholdRequirement
two_of_three = record {
  threshold = 2;
  eligible_signers = "alice" ∷ "bob" ∷ "carol" ∷ [];
  decision = none;
  description = none;
}

abbrev only_two_of_three : ApprovalRequirements
only_two_of_three = record {
  any_of = some (two_of_three ∷ []);
  all_of = none;
  override_signers = none;
}

abbrev alice_approves : SignerDecision
alice_approves = record { signer_did = "alice"; decision = approve }

abbrev bob_approves : SignerDecision
bob_approves = record { signer_did = "bob"; decision = approve }

abbrev bob_rejects : SignerDecision
bob_rejects = record { signer_did = "bob"; decision = reject }

abbrev carol_rejects : SignerDecision
carol_rejects = record { signer_did = "carol"; decision = reject }

one_approval_is_pending :
    evaluate_approval_requirements only_two_of_three (alice_approves ∷ []) ≡ some pending
unfolding evaluate_approval_requirements immutable_decision_map decision_map_from status_of
    threshold_status matching undecided lookup insert distinct
one_approval_is_pending = refl

two_rejections :
    evaluate_approval_requirements only_two_of_three (bob_rejects ∷ carol_rejects ∷ [])
    ≡ some unreachable
unfolding evaluate_approval_requirements immutable_decision_map decision_map_from status_of
    threshold_status matching undecided lookup insert distinct
two_rejections = refl

then_an_approval :
    evaluate_approval_requirements only_two_of_three
      ((bob_rejects ∷ carol_rejects ∷ []) ++ alice_approves ∷ [])
    ≡ some unreachable
unfolding evaluate_approval_requirements immutable_decision_map decision_map_from status_of
    threshold_status matching undecided lookup insert distinct
then_an_approval = refl

unreachable_final_example : unreachable ≡ unreachable
unreachable_final_example =
    unreachable_final only_two_of_three (bob_rejects ∷ carol_rejects ∷ []) (alice_approves ∷ [])
      unreachable two_rejections then_an_approval

two_approvals :
    evaluate_approval_requirements only_two_of_three (alice_approves ∷ bob_approves ∷ [])
    ≡ some satisfied
unfolding evaluate_approval_requirements immutable_decision_map decision_map_from status_of
    threshold_status matching undecided lookup insert distinct
two_approvals = refl

then_a_rejection :
    evaluate_approval_requirements only_two_of_three
      ((alice_approves ∷ bob_approves ∷ []) ++ carol_rejects ∷ [])
    ≡ some satisfied
unfolding evaluate_approval_requirements immutable_decision_map decision_map_from status_of
    threshold_status matching undecided lookup insert distinct
then_a_rejection = refl

satisfied_final_example : satisfied ≡ satisfied
satisfied_final_example =
    satisfied_final only_two_of_three (alice_approves ∷ bob_approves ∷ []) (carol_rejects ∷ [])
      satisfied refl two_approvals then_a_rejection

abbrev alice_alone : DecisionMap
alice_alone = ("alice", approve) ∷ []

satisfied-Quorum_iff_example :
    (threshold_status two_of_three alice_alone ≡ satisfied) ↔ Quorum two_of_three alice_alone
satisfied-Quorum_iff_example = satisfied-Quorum_iff two_of_three alice_alone

reachable-Quorum_iff_example :
    (threshold_status two_of_three alice_alone ≢ unreachable)
    ↔ ((m' : DecisionMap) × Extends alice_alone m' × Quorum two_of_three m')
reachable-Quorum_iff_example = reachable-Quorum_iff two_of_three alice_alone
