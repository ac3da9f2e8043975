-- ===== src/Policy/Evaluation/Satisfaction.antt =====
-- What it means to satisfy a requirement, stated without the evaluator, and that the evaluator
-- decides it.
use mathlib.Core.List.{flatten}
use mpas.Prelude.{
  ◌≤◌, ◌≡◌, ◌≢◌, ◌↔◌, ◌∙◌, refl, Bool, true, false, ◌&&◌, Option, List, [], ◌∷◌, ◌++◌, length,
  is_empty, any, or_else, arith, eq_iff, Bool-cases, inl, inr, if◌then◌else◌,
}
use mpas.Prelude.Eq.{◌==◌, includes, string_eq, nat_eq, includes-map-filter}
use mpas.Prelude.Distinct.{IsDistinct, distinct-IsDistinct, includes-distinct, length_le_of_subset}
use mpas.Mpas.{Did, Decision, approve, decision_eq}
use mpas.Policy.Evaluation.{
  ThresholdRequirement, Requirement, proposer_only, threshold, all_of, any_of, Requirements, nil,
  cons, SignerGroups, VerifiedApproval, UnsatisfiedThreshold, resolve_eligible_signers, counts,
  counted_signers, evaluate_threshold, evaluate_any, evaluate_requirement, evaluate_each,
}

-- The Signer has a verified Approval with this decision.
abbrev pub voted : Did → Decision → List VerifiedApproval → Bool
voted did d approvals = any (λ a. (a.signer_did == did) && (a.decision == d)) approvals

module _ (approvals : List VerifiedApproval) (groups : Option SignerGroups)
    (proposer_did : Did) where
  -- Enough distinct eligible Signers, none of them the Proposer, who decided as required.
  pub record Quorum (r : ThresholdRequirement) : Type 0 where
    pub signers : List Did
    pub is_distinct : IsDistinct signers
    pub member :
        (did : Did)
        → includes did signers ≡ true
        → (did ≢ proposer_did)
          × (includes did (resolve_eligible_signers r groups) ≡ true)
          × (voted did (or_else r.decision approve) approvals ≡ true)
    pub enough : r.threshold ≤ length signers

  mutual
    pub data Satisfies : Requirement → Type 0 where
      by_proposer : Satisfies proposer_only
      by_quorum : {r : ThresholdRequirement} → Quorum r → Satisfies (threshold r)
      by_all : {rs : Requirements} → SatisfiesAll rs → Satisfies (all_of rs)
      by_any : {rs : Requirements} → SatisfiesAny rs → Satisfies (any_of rs)

    pub data SatisfiesAll : Requirements → Type 0 where
      none_left : SatisfiesAll nil
      both :
          {r : Requirement} {rs : Requirements}
          → Satisfies r
          → SatisfiesAll rs
          → SatisfiesAll (cons r rs)

    pub data SatisfiesAny : Requirements → Type 0 where
      this : {r : Requirement} {rs : Requirements} → Satisfies r → SatisfiesAny (cons r rs)
      later : {r : Requirement} {rs : Requirements} → SatisfiesAny rs → SatisfiesAny (cons r rs)

abbrev counted : Did → Decision → List Did → Did → VerifiedApproval → Bool
counted p d eligible did a = (a.signer_did == did) && counts p d eligible a

any-counted :
    (p : Did) (d : Decision) (eligible : List Did) (did : Did) (approvals : List VerifiedApproval)
    → any (counted p d eligible did) approvals
      ≡ (if did == p then false else includes did eligible && voted did d approvals)
any-counted p d eligible did [] = ground arith
any-counted p d eligible did (a ∷ approvals) = elim (Bool-cases (a.signer_did == did)) [
  | inl same ↦
      rw ((eq_iff a.signer_did did).0 same)
        (ground (arith, any-counted p d eligible did approvals, eq_iff did did))
  | inr other ↦ ground (arith, other, any-counted p d eligible did approvals)
]

is_empty_lem : (xs : List UnsatisfiedThreshold) → is_empty xs ≡ true → xs ≡ []
is_empty_lem xs h = ground arith

append_empty_left : (xs ys : List UnsatisfiedThreshold) → xs ++ ys ≡ [] → xs ≡ []
append_empty_left [] ys h = refl
append_empty_left (x ∷ xs) ys h = cc

append_empty_right : (xs ys : List UnsatisfiedThreshold) → xs ++ ys ≡ [] → ys ≡ []
append_empty_right [] ys h = h
append_empty_right (x ∷ xs) ys h = cc

append_empty : (xs ys : List UnsatisfiedThreshold) → xs ≡ [] → ys ≡ [] → xs ++ ys ≡ []
append_empty xs ys h k = rw h k

evaluate_any_empty :
    (us : List (List UnsatisfiedThreshold)) → evaluate_any us ≡ [] → any is_empty us ≡ true
unfolding evaluate_any
evaluate_any_empty [] h = cc
evaluate_any_empty (u ∷ us) h = ground arith

evaluate_any_found :
    (us : List (List UnsatisfiedThreshold)) → any is_empty us ≡ true → evaluate_any us ≡ []
unfolding evaluate_any
evaluate_any_found [] h = cc
evaluate_any_found (u ∷ us) h = ground arith

module _ (approvals : List VerifiedApproval) (groups : Option SignerGroups)
    (proposer_did : Did) where
  pub counted_iff :
      (d : Decision) (eligible : List Did) (did : Did)
      → (includes did (counted_signers approvals groups proposer_did d eligible))
        ≡ (if did == proposer_did then false else includes did eligible && voted did d approvals)
  unfolding counted_signers
  counted_iff d eligible did =
      includes-distinct did _
      ∙ includes-map-filter did _ (counts proposer_did d eligible) approvals
      ∙ any-counted proposer_did d eligible did approvals

  pub counted-IsDistinct :
      (d : Decision) (eligible : List Did)
      → IsDistinct (counted_signers approvals groups proposer_did d eligible)
  unfolding counted_signers
  counted-IsDistinct d eligible = distinct-IsDistinct _

  evaluate_threshold_sound :
      (r : ThresholdRequirement)
      → evaluate_threshold approvals groups proposer_did r ≡ []
      → Quorum approvals groups proposer_did r
  unfolding evaluate_threshold
  evaluate_threshold_sound r h =
      let d = or_else r.decision approve in
      let eligible = resolve_eligible_signers r groups in
      record {
        signers = counted_signers approvals groups proposer_did d eligible;
        is_distinct = counted-IsDistinct d eligible;
        member = λ did e.
            let same = counted_iff d eligible did in
            (
              ground (arith, same, eq_iff did proposer_did),
              ground (arith, same),
              ground (arith, same),
            );
        enough = ground arith;
      }

  evaluate_threshold_complete :
      (r : ThresholdRequirement)
      → Quorum approvals groups proposer_did r
      → evaluate_threshold approvals groups proposer_did r ≡ []
  unfolding evaluate_threshold
  evaluate_threshold_complete r q =
      let d = or_else r.decision approve in
      let eligible = resolve_eligible_signers r groups in
      let bound =
        length_le_of_subset q.signers (counted_signers approvals groups proposer_did d eligible)
          q.is_distinct
          (λ did e.
            ground (arith, counted_iff d eligible did, q.member did e, eq_iff did proposer_did)) in
      ground (arith, bound, q.enough)

  mutual
    unfolding evaluate_requirement evaluate_any flatten

    sound :
        (r : Requirement)
        → evaluate_requirement approvals groups proposer_did r ≡ []
        → Satisfies approvals groups proposer_did r
    sound proposer_only h = by_proposer
    sound (threshold r) h = by_quorum (evaluate_threshold_sound r h)
    sound (all_of rs) h = by_all (sound_all rs h)
    sound (any_of rs) h =
        by_any
          (sound_any rs (evaluate_any_empty (evaluate_each approvals groups proposer_did rs) h))

    sound_all :
        (rs : Requirements)
        → flatten (evaluate_each approvals groups proposer_did rs) ≡ []
        → SatisfiesAll approvals groups proposer_did rs
    sound_all nil h = none_left
    sound_all (cons r rs) h =
        both (sound r (append_empty_left _ _ h)) (sound_all rs (append_empty_right _ _ h))

    sound_any :
        (rs : Requirements)
        → any is_empty (evaluate_each approvals groups proposer_did rs) ≡ true
        → SatisfiesAny approvals groups proposer_did rs
    sound_any nil h = absurd (ground arith)
    sound_any (cons r rs) h =
        elim (Bool-cases (is_empty (evaluate_requirement approvals groups proposer_did r))) [
          | inl e ↦ this (sound r (is_empty_lem _ e))
          | inr e ↦ later (sound_any rs (ground (arith, e)))
        ]

  mutual
    unfolding evaluate_requirement evaluate_any flatten

    complete :
        (r : Requirement)
        → Satisfies approvals groups proposer_did r
        → evaluate_requirement approvals groups proposer_did r ≡ []
    complete proposer_only s = refl
    complete (threshold r) (by_quorum q) = evaluate_threshold_complete r q
    complete (all_of rs) (by_all s) = complete_all rs s
    complete (any_of rs) (by_any s) =
        evaluate_any_found (evaluate_each approvals groups proposer_did rs) (complete_any rs s)

    complete_all :
        (rs : Requirements)
        → SatisfiesAll approvals groups proposer_did rs
        → flatten (evaluate_each approvals groups proposer_did rs) ≡ []
    complete_all nil s = refl
    complete_all (cons r rs) (both s t) = append_empty _ _ (complete r s) (complete_all rs t)

    complete_any :
        (rs : Requirements)
        → SatisfiesAny approvals groups proposer_did rs
        → any is_empty (evaluate_each approvals groups proposer_did rs) ≡ true
    complete_any nil s = elim s [ ]
    complete_any (cons r rs) (this s) = ground (arith, complete r s)
    complete_any (cons r rs) (later s) = ground (arith, complete_any rs s)

-- The evaluator reports nothing unsatisfied exactly when the requirement is satisfied: a threshold
-- by a quorum of distinct eligible Signers other than the Proposer, `allOf` by all of its
-- branches, `anyOf` by at least one.
pub evaluate_requirement-Satisfies_iff :
    (approvals : List VerifiedApproval) (groups : Option SignerGroups) (proposer_did : Did)
    (r : Requirement)
    → (evaluate_requirement approvals groups proposer_did r ≡ [])
      ↔ Satisfies approvals groups proposer_did r
evaluate_requirement-Satisfies_iff approvals groups proposer_did r =
    (sound approvals groups proposer_did r, complete approvals groups proposer_did r)
