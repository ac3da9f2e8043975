-- ===== src/Approval/Extension.antt =====
-- Decision maps that grow: what a later decision can change in the counters of a threshold.
use mpas.Prelude.{
  ◌+◌, ◌≤◌, ◌≡◌, refl, some, List, [], ◌∷◌, ◌++◌, arith, eq_iff, Option-cases, inl, inr,
}
use mpas.Prelude.Eq.{string_eq, option_eq}
use mpas.Prelude.Assoc.{lookup, insert, lookup-insert}
use mpas.Mpas.{Did, Decision, decision_eq, decision_beq_iff}
use mpas.Approval.{SignerDecision, DecisionMap, decision_map_from, matching, undecided}

-- Every decision of `m` stands in `m'`.
abbrev pub Extends : DecisionMap → DecisionMap → Type 0
Extends m m' = (did : Did) (d : Decision) → lookup did m ≡ some d → lookup did m' ≡ some d

module _ (m m' : DecisionMap) (grown : Extends m m') (expected : Decision) where
  pub matching_mono : (dids : List Did) → matching expected m dids ≤ matching expected m' dids
  unfolding matching
  matching_mono [] = omega arith
  matching_mono (did ∷ dids) = elim (Option-cases (lookup did m)) [
    | inl e ↦ ground (arith, matching_mono dids, e)
    | inr (d, e) ↦ ground (arith, matching_mono dids, e, grown did d e)
  ]

  pub potential_anti :
      (dids : List Did)
      → matching expected m' dids + undecided m' dids ≤ matching expected m dids + undecided m dids
  unfolding matching undecided
  potential_anti [] = omega arith
  potential_anti (did ∷ dids) = elim (Option-cases (lookup did m)) [
    | inl e ↦ ground (arith, potential_anti dids, e)
    | inr (d, e) ↦ ground (arith, potential_anti dids, e, grown did d e)
  ]

pub decision_map_from-Extends :
    (m : DecisionMap) (ds : List SignerDecision) (m' : DecisionMap)
    → decision_map_from m ds ≡ some m'
    → Extends m m'
unfolding decision_map_from
decision_map_from-Extends m [] m' e did d h = ground arith
decision_map_from-Extends m (x ∷ ds) m' e did d h = ground (
  arith,
  decision_map_from-Extends (insert x.signer_did x.decision m) ds m' (ground arith) did d,
  lookup-insert x.signer_did did x.decision m,
  eq_iff x.signer_did did,
  decision_beq_iff d x.decision,
)

pub decision_map_from-append :
    (m : DecisionMap) (ds more : List SignerDecision) (m' : DecisionMap)
    → decision_map_from m (ds ++ more) ≡ some m'
    → (m₁ : DecisionMap) × (decision_map_from m ds ≡ some m₁)
      × (decision_map_from m₁ more ≡ some m')
unfolding decision_map_from
decision_map_from-append m [] more m' e = (m, refl, e)
decision_map_from-append m (x ∷ ds) more m' e =
    let (m₁, p, q) =
      decision_map_from-append (insert x.signer_did x.decision m) ds more m' (ground arith) in
    (m₁, ground arith, q)
