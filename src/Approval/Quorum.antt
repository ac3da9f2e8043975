-- ===== src/Approval/Quorum.antt =====
-- The status of one threshold against sets of Signers: a quorum is a set of distinct eligible
-- Signers who all decided as the threshold expects.
use mpas.Prelude.{
  ◌≤◌, ◌+◌, Bool, ◌≡◌, true, none, some, List, [], ◌∷◌, length, filter, arith, or_else,
  if◌then◌else◌, Option-cases, inl, inr, ◌↔◌, ◌≢◌, eq_iff, Bool-cases,
}
use mpas.Prelude.Eq.{◌==◌, includes, string_eq, option_eq, option_beq_iff}
use mpas.Prelude.Assoc.{lookup, insert, has, lookup-insert}
use mpas.Prelude.Distinct.{
  distinct, IsDistinct, distinct-IsDistinct, includes-distinct, filter-IsDistinct, includes-filter,
  length_le_of_subset,
}
use mpas.Mpas.{Did, Decision, approve, decision_eq, ThresholdRequirement}
use mpas.Approval.{satisfied, unreachable, DecisionMap, matching, undecided, threshold_status}
use mpas.Approval.Extension.{Extends, potential_anti}

pub record Quorum (r : ThresholdRequirement) (m : DecisionMap) : Type 0 where
  pub signers : List Did
  pub is_distinct : IsDistinct signers
  pub member :
      (did : Did)
      → includes did signers ≡ true
      → (includes did r.eligible_signers ≡ true)
        × (lookup did m ≡ some (or_else r.decision approve))
  pub enough : r.threshold ≤ length signers

abbrev decided_as : Decision → DecisionMap → Did → Bool
decided_as expected m did = lookup did m == some expected

matching-Quorum :
    (r : ThresholdRequirement) (m : DecisionMap) → threshold_status r m ≡ satisfied → Quorum r m
unfolding threshold_status matching
matching-Quorum r m h =
    let expected = or_else r.decision approve in
    let eligible = distinct r.eligible_signers in
    record {
      signers = filter (decided_as expected m) eligible;
      is_distinct =
          filter-IsDistinct (decided_as expected m) eligible
            (distinct-IsDistinct r.eligible_signers);
      member = λ did e.
          let both = includes-filter (decided_as expected m) did eligible in
          (
            ground (arith, both, includes-distinct did r.eligible_signers),
            ground (arith, both, option_beq_iff (lookup did m) (some expected)),
          );
      enough = ground arith;
    }

Quorum-matching :
    (r : ThresholdRequirement) (m : DecisionMap) → Quorum r m → threshold_status r m ≡ satisfied
unfolding threshold_status matching
Quorum-matching r m q =
    let expected = or_else r.decision approve in
    let eligible = distinct r.eligible_signers in
    let counted = filter (decided_as expected m) eligible in
    let bound = length_le_of_subset q.signers counted q.is_distinct (λ did e. ground (
      arith,
      includes-filter (decided_as expected m) did eligible,
      includes-distinct did r.eligible_signers,
      q.member did e,
      option_beq_iff (lookup did m) (some expected),
    )) in
    ground (arith, bound, q.enough)

-- A threshold is satisfied exactly when some quorum of distinct eligible Signers has decided as it
-- expects.
pub satisfied-Quorum_iff :
    (r : ThresholdRequirement) (m : DecisionMap) → (threshold_status r m ≡ satisfied) ↔ Quorum r m
satisfied-Quorum_iff r m = (matching-Quorum r m, Quorum-matching r m)

-- Every undecided Signer of a list decides `d`.
fill : Decision → List Did → DecisionMap → DecisionMap
fill d [] m = m
fill d (did ∷ dids) m = fill d dids (if has did m then m else insert did d m)

one_more-Extends :
    (d : Decision) (did : Did) (m : DecisionMap)
    → Extends m (if has did m then m else insert did d m)
one_more-Extends d did m k c e = ground (arith, e, lookup-insert did k d m, eq_iff did k)

fill-Extends : (d : Decision) (dids : List Did) (m : DecisionMap) → Extends m (fill d dids m)
unfolding fill
fill-Extends d [] m k c e = e
fill-Extends d (did ∷ dids) m k c e =
    fill-Extends d dids (if has did m then m else insert did d m) k c
      (one_more-Extends d did m k c e)

-- After filling, whoever is on the list is decided, and was undecided only if the decision is `d`.
fill-lookup :
    (d : Decision) (dids : List Did) (m : DecisionMap) (k : Did)
    → lookup k m ≡ none
    → lookup k (fill d dids m) ≡ (if includes k dids then some d else none)
unfolding fill
fill-lookup d [] m k e = e
fill-lookup d (did ∷ dids) m k e = elim (Bool-cases (did == k)) [
  | inl same ↦
      ground (
        arith,
        same,
        eq_iff did k,
        lookup-insert did k d m,
        fill-Extends d dids (insert did d m) k d,
      )
  | inr other ↦ ground (
    arith,
    other,
    lookup-insert did k d m,
    fill-lookup d dids (if has did m then m else insert did d m) k,
  )
]

filled_matching :
    (d : Decision) (m : DecisionMap) (all dids : List Did)
    → ((k : Did) → includes k dids ≡ true → includes k all ≡ true)
    → matching d m dids + undecided m dids ≤ matching d (fill d all m) dids
unfolding matching undecided
filled_matching d m all [] h = omega arith
filled_matching d m all (k ∷ dids) h =
    let rest = filled_matching d m all dids (λ j e. h j (ground (arith, e))) in
    elim (Option-cases (lookup k m)) [
      | inl e ↦ ground (arith, rest, e, fill-lookup d all m k e, h k, eq_iff k k)
      | inr (c, e) ↦ ground (arith, rest, e, fill-Extends d all m k c e)
    ]

filled_satisfied :
    (r : ThresholdRequirement) (m : DecisionMap)
    → threshold_status r m ≢ unreachable
    → threshold_status r (fill (or_else r.decision approve) (distinct r.eligible_signers) m)
      ≡ satisfied
unfolding threshold_status
filled_satisfied r m h =
    let expected = or_else r.decision approve in
    let eligible = distinct r.eligible_signers in
    ground (arith, filled_matching expected m eligible eligible (λ k e. e))

extended_unreachable :
    (r : ThresholdRequirement) (m m' : DecisionMap)
    → Extends m m'
    → threshold_status r m ≡ unreachable
    → threshold_status r m' ≢ satisfied
unfolding threshold_status
extended_unreachable r m m' grown h =
    let expected = or_else r.decision approve in
    ground (arith, potential_anti m m' grown expected (distinct r.eligible_signers))

-- A threshold is not unreachable exactly when some consistent set of further decisions gives it a
-- quorum.
pub reachable-Quorum_iff :
    (r : ThresholdRequirement) (m : DecisionMap)
    → (threshold_status r m ≢ unreachable) ↔ ((m' : DecisionMap) × Extends m m' × Quorum r m')
reachable-Quorum_iff r m = (reachable_quorum, quorum_reachable)
  where
    expected : Decision
    expected = or_else r.decision approve

    eligible : List Did
    eligible = distinct r.eligible_signers

    reachable_quorum :
        threshold_status r m ≢ unreachable → (m' : DecisionMap) × Extends m m' × Quorum r m'
    reachable_quorum h = (
      fill expected eligible m,
      fill-Extends expected eligible m,
      matching-Quorum r (fill expected eligible m) (filled_satisfied r m h),
    )

    quorum_reachable :
        (m' : DecisionMap) × Extends m m' × Quorum r m' → threshold_status r m ≢ unreachable
    quorum_reachable (m', grown, q) e = extended_unreachable r m m' grown e (Quorum-matching r m' q)
