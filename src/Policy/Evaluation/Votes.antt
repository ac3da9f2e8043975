-- ===== src/Policy/Evaluation/Votes.antt =====
-- How the evaluation depends on the Approvals: the Proposer's own never count, and a larger set of
-- Approvals satisfies what a smaller one did.
use mpas.Prelude.{
  ◌≡◌, refl, true, not, Option, List, [], ◌∷◌, filter, or_else, arith, Bool-cases, inl, inr,
}
use mpas.Prelude.Eq.{◌==◌, string_eq}
use mpas.Mpas.{Did, Decision, approve, decision_eq}
use mpas.Policy.Evaluation.{
  Requirement, proposer_only, threshold, all_of, any_of, Requirements, nil, cons, SignerGroups,
  VerifiedApproval, counts, counted_signers, evaluate_threshold, evaluate_requirement,
  evaluate_each,
}
use mpas.Policy.Evaluation.Satisfaction.{
  voted, Satisfies, by_proposer, by_quorum, by_all, by_any, SatisfiesAll, none_left, both,
  SatisfiesAny, this, later, evaluate_requirement-Satisfies_iff,
}

abbrev pub by_others : Did → List VerifiedApproval → List VerifiedApproval
by_others proposer_did approvals = filter (λ a. not (a.signer_did == proposer_did)) approvals

counts-by_others :
    (p : Did) (d : Decision) (eligible : List Did) (approvals : List VerifiedApproval)
    → filter (counts p d eligible) (by_others p approvals) ≡ filter (counts p d eligible) approvals
counts-by_others p d eligible [] = refl
counts-by_others p d eligible (a ∷ approvals) = elim (Bool-cases (a.signer_did == p)) [
  | inl own ↦ ground (arith, own, counts-by_others p d eligible approvals)
  | inr other ↦ ground (arith, other, counts-by_others p d eligible approvals)
]

module _ (approvals : List VerifiedApproval) (groups : Option SignerGroups)
    (proposer_did : Did) where
  mutual
    unfolding evaluate_requirement evaluate_threshold counted_signers

    same :
        (r : Requirement)
        → evaluate_requirement (by_others proposer_did approvals) groups proposer_did r
          ≡ evaluate_requirement approvals groups proposer_did r
    same proposer_only = refl
    same (threshold r) = simp counts-by_others
    same (all_of rs) = rw (same_each rs)
    same (any_of rs) = rw (same_each rs)

    same_each :
        (rs : Requirements)
        → evaluate_each (by_others proposer_did approvals) groups proposer_did rs
          ≡ evaluate_each approvals groups proposer_did rs
    same_each nil = refl
    same_each (cons r rs) = rw (same r, same_each rs)

-- Self-approval is impossible: the Proposer's own Approvals, whatever their number and decisions,
-- change nothing in what a requirement reports as unsatisfied.
pub own_approvals_ignored :
    (approvals : List VerifiedApproval) (groups : Option SignerGroups) (proposer_did : Did)
    (r : Requirement)
    → evaluate_requirement (by_others proposer_did approvals) groups proposer_did r
      ≡ evaluate_requirement approvals groups proposer_did r
own_approvals_ignored approvals groups proposer_did r = same approvals groups proposer_did r

-- Every vote of `approvals` is a vote of `more`.
abbrev pub Includes : List VerifiedApproval → List VerifiedApproval → Type 0
Includes approvals more =
    (did : Did) (d : Decision) → voted did d approvals ≡ true → voted did d more ≡ true

module _ (approvals more : List VerifiedApproval) (groups : Option SignerGroups)
    (proposer_did : Did) (larger : Includes approvals more) where
  mutual
    grow :
        (r : Requirement)
        → Satisfies approvals groups proposer_did r
        → Satisfies more groups proposer_did r
    grow proposer_only s = by_proposer
    grow (threshold r) (by_quorum q) = by_quorum (record {
      signers = q.signers;
      is_distinct = q.is_distinct;
      member = λ did e. (
        (q.member did e).0,
        (q.member did e).1,
        larger did (or_else r.decision approve) (q.member did e).2,
      );
      enough = q.enough;
    })
    grow (all_of rs) (by_all s) = by_all (grow_all rs s)
    grow (any_of rs) (by_any s) = by_any (grow_any rs s)

    grow_all :
        (rs : Requirements)
        → SatisfiesAll approvals groups proposer_did rs
        → SatisfiesAll more groups proposer_did rs
    grow_all nil s = none_left
    grow_all (cons r rs) (both s t) = both (grow r s) (grow_all rs t)

    grow_any :
        (rs : Requirements)
        → SatisfiesAny approvals groups proposer_did rs
        → SatisfiesAny more groups proposer_did rs
    grow_any nil s = elim s [ ]
    grow_any (cons r rs) (this s) = this (grow r s)
    grow_any (cons r rs) (later s) = later (grow_any rs s)

-- A requirement that a set of Approvals satisfies is satisfied by every set with at least its
-- votes: neither further Approvals, nor their order, nor repetitions undo it.
pub satisfied_mono :
    (approvals more : List VerifiedApproval) (groups : Option SignerGroups) (proposer_did : Did)
    (r : Requirement)
    → Includes approvals more
    → evaluate_requirement approvals groups proposer_did r ≡ []
    → evaluate_requirement more groups proposer_did r ≡ []
satisfied_mono approvals more groups proposer_did r larger e =
    (evaluate_requirement-Satisfies_iff more groups proposer_did r).1 (
      grow approvals more groups proposer_did larger r
        ((evaluate_requirement-Satisfies_iff approvals groups proposer_did r).0 e))
