-- ===== src/Approval/Finality.antt =====
-- What later decisions can and cannot change in the status of an approval expression.
use mpas.Prelude.{
  ◌≡◌, refl, Bool, true, false, some, List, ◌++◌, arith, or_else, Option-cases, any_mono,
  every_mono, any_or, inl, inr, any, [], ◌∷◌, sym, ◌∙◌, ◌||◌, ◌&&◌, not,
}
use mathlib.Core.Option
use mpas.Prelude.Eq.{string_eq, option_eq}
use mpas.Prelude.Assoc.{lookup, has}
use mpas.Prelude.Distinct.{distinct}
use mpas.Mpas.{
  Decision, approve, reject, decision_eq, ThresholdRequirement, OverrideSigner,
  ApprovalRequirements,
}
use mpas.Approval.{
  SignerDecision, ApprovalRequirementsStatus, satisfied, unreachable, DecisionMap,
  immutable_decision_map, threshold_status, override_decided, permits, status_satisfied,
  status_reachable, paths_hold, status_of, evaluate_approval_requirements,
}
use mpas.Approval.Extension.{
  Extends, matching_mono, potential_anti, decision_map_from-Extends, decision_map_from-append,
}

satisfied_reachable :
    (m : DecisionMap) (a o : List ThresholdRequirement)
    → paths_hold (status_satisfied m) a o ≡ true
    → paths_hold (status_reachable m) a o ≡ true
satisfied_reachable m a o h = ground (
  arith,
  any_mono (status_satisfied m) (status_reachable m) a (λ r e. ground arith),
  every_mono (status_satisfied m) (status_reachable m) o (λ r e. ground arith),
)

module _ (m m' : DecisionMap) (grown : Extends m m') where
  threshold_satisfied_mono :
      (r : ThresholdRequirement) → status_satisfied m r ≡ true → status_satisfied m' r ≡ true
  unfolding threshold_status
  threshold_satisfied_mono r h =
      ground
        (arith, matching_mono m m' grown (or_else r.decision approve) (distinct r.eligible_signers))

  threshold_reachable_anti :
      (r : ThresholdRequirement) → status_reachable m' r ≡ true → status_reachable m r ≡ true
  unfolding threshold_status
  threshold_reachable_anti r h =
      ground (
        arith,
        potential_anti m m' grown (or_else r.decision approve) (distinct r.eligible_signers),
      )

  status_satisfied_mono :
      (a o : List ThresholdRequirement)
      → paths_hold (status_satisfied m) a o ≡ true
      → paths_hold (status_satisfied m') a o ≡ true
  status_satisfied_mono a o h = ground (
    arith,
    any_mono (status_satisfied m) (status_satisfied m') a threshold_satisfied_mono,
    every_mono (status_satisfied m) (status_satisfied m') o threshold_satisfied_mono,
  )

  reachable_anti :
      (a o : List ThresholdRequirement)
      → paths_hold (status_reachable m') a o ≡ true
      → paths_hold (status_reachable m) a o ≡ true
  reachable_anti a o h = ground (
    arith,
    any_mono (status_reachable m') (status_reachable m) a threshold_reachable_anti,
    every_mono (status_reachable m') (status_reachable m) o threshold_reachable_anti,
  )

  override_mono :
      (permission : _) (d : Decision) (os : List OverrideSigner)
      → override_decided permission d os m ≡ true
      → override_decided permission d os m' ≡ true
  override_mono permission d os = any_mono _ _ os λ entry h. ground (arith, grown entry.signer d)

  abbrev pending_override : DecisionMap → List OverrideSigner → Bool
  pending_override n os = any (λ entry. permits "approve" entry && not (has entry.signer n)) os

  pending_override_anti :
      (os : List OverrideSigner) → pending_override m' os ≡ true → pending_override m os ≡ true
  pending_override_anti os = any_mono _ _ os λ entry h.
      elim (Option-cases (lookup entry.signer m)) [
        | inl e ↦ ground (arith, e)
        | inr (d, e) ↦ ground (arith, grown entry.signer d e)
      ]

  override_source :
      (os : List OverrideSigner)
      → override_decided "approve" approve os m' ≡ true
      → (override_decided "approve" approve os m || pending_override m os) ≡ true
  override_source os = any_or _ _ _ os λ entry h. elim (Option-cases (lookup entry.signer m)) [
    | inl e ↦ ground (arith, e)
    | inr (d, e) ↦ ground (arith, e, grown entry.signer d e)
  ]

  status_unreachable_final :
      (r : ApprovalRequirements) → status_of r m ≡ unreachable → status_of r m' ≡ unreachable
  unfolding status_of
  status_unreachable_final r h =
      let os = or_else r.override_signers [] in
      let a = or_else r.any_of [] in
      let o = or_else r.all_of [] in
      ground (
        arith,
        override_mono "reject" reject os,
        override_source os,
        pending_override_anti os,
        reachable_anti a o,
        satisfied_reachable m' a o,
      )

  status_satisfied_final :
      (r : ApprovalRequirements)
      → override_decided "reject" reject (or_else r.override_signers []) m' ≡ false
      → status_of r m ≡ satisfied
      → status_of r m' ≡ satisfied
  unfolding status_of
  status_satisfied_final r n h =
      let os = or_else r.override_signers [] in
      let a = or_else r.any_of [] in
      let o = or_else r.all_of [] in
      ground (arith, override_mono "approve" approve os, status_satisfied_mono a o)

-- One more look at the decisions: the map of a longer list extends that of its prefix.
maps_of_append :
    (ds more : List SignerDecision) (m' : DecisionMap)
    → immutable_decision_map (ds ++ more) ≡ some m'
    → (m : DecisionMap) × (immutable_decision_map ds ≡ some m) × Extends m m'
unfolding immutable_decision_map
maps_of_append ds more m' e =
    let (m, p, q) = decision_map_from-append [] ds more m' e in
    (m, p, decision_map_from-Extends m more m' q)

-- Once an approval expression is unreachable, every further list of decisions without a
-- contradiction leaves it unreachable.
pub unreachable_final :
    (r : ApprovalRequirements) (ds more : List SignerDecision) (s : ApprovalRequirementsStatus)
    → evaluate_approval_requirements r ds ≡ some unreachable
    → evaluate_approval_requirements r (ds ++ more) ≡ some s
    → s ≡ unreachable
unfolding evaluate_approval_requirements
unreachable_final r ds more s e f =
    let (m', p', q') = (Option.map-eq-some_iff _ _).0 f in
    let (m, p, grown) = maps_of_append ds more m' p' in
    let h = status_unreachable_final m m' grown r (ground (arith, p)) in sym q' ∙ h

no_reject_override :
    (os : List OverrideSigner) (m : DecisionMap)
    → any (permits "reject") os ≡ false
    → override_decided "reject" reject os m ≡ false
no_reject_override [] m h = refl
no_reject_override (x ∷ os) m h = ground (arith, no_reject_override os m)

-- If no override Signer may reject, an expression that is satisfied stays satisfied under every
-- further list of decisions without a contradiction.
pub satisfied_final :
    (r : ApprovalRequirements) (ds more : List SignerDecision) (s : ApprovalRequirementsStatus)
    → any (permits "reject") (or_else r.override_signers []) ≡ false
    → evaluate_approval_requirements r ds ≡ some satisfied
    → evaluate_approval_requirements r (ds ++ more) ≡ some s
    → s ≡ satisfied
unfolding evaluate_approval_requirements
satisfied_final r ds more s n e f =
    let (m', p', q') = (Option.map-eq-some_iff _ _).0 f in
    let (m, p, grown) = maps_of_append ds more m' p' in
    let quiet = no_reject_override (or_else r.override_signers []) m' n in
    sym q' ∙ status_satisfied_final m m' grown r quiet (ground (arith, p))
