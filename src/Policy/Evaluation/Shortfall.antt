-- ===== src/Policy/Evaluation/Shortfall.antt =====
-- What a reported rule says: which Signers are missing, and how many.
use mathlib.Core.List.{flatten}
use mpas.Prelude.{
  ◌<◌, ◌≤◌, ◌≡◌, ◌≢◌, refl, true, leb, length, or_else, eq_iff, Option, List, [], ◌∷◌, All,
  All-append, any, is_empty, arith, Bool-cases, inl, inr,
}
use mpas.Prelude.Eq.{◌==◌, includes, string_eq, nat_eq}
use mpas.Prelude.Distinct.{IsDistinct, length_le_of_subset}
use mpas.Mpas.{Did, approve}
use mpas.Policy.Evaluation.Satisfaction.{voted, counted_iff, counted-IsDistinct}
use mpas.Policy.Evaluation.{
  ThresholdRequirement, Requirement, proposer_only, threshold, all_of, any_of, Requirements, nil,
  cons, SignerGroups, VerifiedApproval, UnsatisfiedThreshold, evaluate_threshold, evaluate_any,
  evaluate_requirement, evaluate_each, resolve_eligible_signers, group_signers, counted_signers,
  unsatisfiable_requirement,
}

module _ (approvals : List VerifiedApproval) (groups : Option SignerGroups)
    (proposer_did : Did) where
  -- Distinct eligible Signers, none of them the Proposer, who decided as the rule requires.
  pub record Voters (r : ThresholdRequirement) (signers : List Did) : Type 0 where
    pub is_distinct : IsDistinct signers
    pub member :
        (did : Did)
        → includes did signers ≡ true
        → (did ≢ proposer_did)
          × (includes did (resolve_eligible_signers r groups) ≡ true)
          × (voted did (or_else r.decision approve) approvals ≡ true)

  -- The report names what the rule asks for, and `found` is the size of the largest such group of
  -- Signers, which is below the threshold.
  pub record IsShort (u : UnsatisfiedThreshold) : Type 0 where
    pub same_threshold : u.threshold ≡ u.requirement.threshold
    pub same_decision : u.required_decision ≡ or_else u.requirement.decision approve
    pub same_eligible : u.eligible_signers ≡ resolve_eligible_signers u.requirement groups
    pub voters : List Did
    pub have_voted : Voters u.requirement voters
    pub counted : u.found ≡ length voters
    pub largest : (signers : List Did) → Voters u.requirement signers → length signers ≤ u.found
    pub short : u.found < u.threshold

  Voters-counted :
      (r : ThresholdRequirement)
      → Voters r (
          counted_signers approvals groups proposer_did
            (or_else r.decision approve)
            (resolve_eligible_signers r groups))
  Voters-counted r =
      let d = or_else r.decision approve in
      let eligible = resolve_eligible_signers r groups in
      record {
        is_distinct = counted-IsDistinct approvals groups proposer_did d eligible;
        member = λ did e.
            let same = counted_iff approvals groups proposer_did d eligible did in
            (
              ground (arith, same, eq_iff did proposer_did),
              ground (arith, same),
              ground (arith, same),
            );
      }

  largest_counted :
      (r : ThresholdRequirement) (signers : List Did)
      → Voters r signers
      → length signers
        ≤ length (
            counted_signers approvals groups proposer_did
              (or_else r.decision approve)
              (resolve_eligible_signers r groups))
  largest_counted r signers v =
      let d = or_else r.decision approve in
      let eligible = resolve_eligible_signers r groups in
      length_le_of_subset signers (counted_signers approvals groups proposer_did d eligible)
        v.is_distinct
        (λ did e. ground (
          arith,
          counted_iff approvals groups proposer_did d eligible did,
          v.member did e,
          eq_iff did proposer_did,
        ))

  IsShort-threshold :
      (r : ThresholdRequirement) → All IsShort (evaluate_threshold approvals groups proposer_did r)
  unfolding evaluate_threshold
  IsShort-threshold r =
      let found = length (
        counted_signers approvals groups proposer_did (or_else r.decision approve)
          (resolve_eligible_signers r groups)) in
      elim (Bool-cases (r.threshold == 0)) [
        | inl e ↦ rw e tt
        | inr e ↦ elim (Bool-cases (leb r.threshold found)) [
          | inl f ↦ rw (e, f) tt
          | inr f ↦
              rw (e, f)
                (
                  record {
                    same_threshold = refl;
                    same_decision = refl;
                    same_eligible = refl;
                    voters = _;
                    have_voted = Voters-counted r;
                    counted = refl;
                    largest = largest_counted r;
                    short = ground (arith, f);
                  },
                  tt,
                )
        ]
      ]

  nobody_eligible :
      (r : ThresholdRequirement) (signers : List Did)
      → resolve_eligible_signers r groups ≡ []
      → Voters r signers
      → length signers ≤ 0
  nobody_eligible r signers none_eligible v =
      length_le_of_subset signers [] v.is_distinct
        (λ did e. absurd (ground (arith, v.member did e, none_eligible)))

  IsShort-unsatisfiable : IsShort unsatisfiable_requirement
  unfolding unsatisfiable_requirement resolve_eligible_signers group_signers
  IsShort-unsatisfiable = record {
    same_threshold = refl;
    same_decision = refl;
    same_eligible = refl;
    voters = [];
    have_voted = record { is_distinct = tt; member = λ did e. cc };
    counted = refl;
    largest = λ signers v. nobody_eligible unsatisfiable_requirement.requirement signers refl v;
    short = omega arith;
  }

  IsShort-any :
      (us : List (List UnsatisfiedThreshold)) → All (All IsShort) us → All IsShort (evaluate_any us)
  unfolding evaluate_any
  IsShort-any [] h = (IsShort-unsatisfiable, tt)
  IsShort-any (u ∷ us) (h, hs) = elim (Bool-cases (any is_empty (u ∷ us))) [
    | inl e ↦ rw e tt
    | inr e ↦ rw e h
  ]

  All-flatten :
      (us : List (List UnsatisfiedThreshold)) → All (All IsShort) us → All IsShort (flatten us)
  unfolding flatten
  All-flatten [] h = tt
  All-flatten (u ∷ us) (h, hs) = All-append IsShort u (flatten us) h (All-flatten us hs)

  mutual
    unfolding evaluate_requirement

    short : (r : Requirement) → All IsShort (evaluate_requirement approvals groups proposer_did r)
    short proposer_only = tt
    short (threshold r) = IsShort-threshold r
    short (all_of rs) = All-flatten _ (IsShort-each rs)
    short (any_of rs) =
        IsShort-any (evaluate_each approvals groups proposer_did rs) (IsShort-each rs)

    IsShort-each :
        (rs : Requirements) → All (All IsShort) (evaluate_each approvals groups proposer_did rs)
    IsShort-each nil = tt
    IsShort-each (cons r rs) = (short r, IsShort-each rs)

-- Every rule that is reported as unsatisfied is reported with its own threshold, decision and
-- eligible Signers, and with the exact number of distinct eligible Signers other than the Proposer
-- who decided as it requires, which is below its threshold.
pub evaluate_requirement-IsShort :
    (approvals : List VerifiedApproval) (groups : Option SignerGroups) (proposer_did : Did)
    (r : Requirement)
    → All
        (IsShort approvals groups proposer_did)
        (evaluate_requirement approvals groups proposer_did r)
evaluate_requirement-IsShort approvals groups proposer_did r = short approvals groups proposer_did r
