-- ===== src/Policy/Conflicts.antt =====
-- Contradictory Signers: what the first loop of `evaluatePolicy` finds.
use mpas.Prelude.{
  ◌≡◌, ◌↔◌, refl, true, false, some, List, [], ◌∷◌, arith, eq_iff, inl, inr, Option-cases,
}
use mpas.Prelude.Eq.{string_eq}
use mpas.Prelude.Assoc.{Assoc, lookup, insert, lookup-insert}
use mpas.Mpas.{Did, Decision, decision_eq, decision_beq_iff}
use mpas.Policy.Evaluation.{VerifiedApproval}
use mpas.Policy.Evaluation.Satisfaction.{voted}
use mpas.Policy.{conflicting_from, conflicting}

-- No Signer decided in two ways.
abbrev pub IsConsistent : List VerifiedApproval → Type 0
IsConsistent approvals =
    (did : Did) (d d' : Decision)
    → voted did d approvals ≡ true
    → voted did d' approvals ≡ true
    → d ≡ d'

known_agrees :
    (m : Assoc Did Decision) (approvals : List VerifiedApproval) (did : Did) (c d : Decision)
    → conflicting_from m approvals ≡ false
    → lookup did m ≡ some c
    → voted did d approvals ≡ true
    → d ≡ c
unfolding conflicting_from
known_agrees m [] did c d n k v = cc
known_agrees m (a ∷ approvals) did c d n k v = ground (
  arith,
  known_agrees (insert a.signer_did a.decision m) approvals did c d,
  lookup-insert a.signer_did did a.decision m,
  eq_iff a.signer_did did,
  decision_beq_iff c a.decision,
  decision_beq_iff a.decision d,
)

quiet-IsConsistent :
    (m : Assoc Did Decision) (approvals : List VerifiedApproval)
    → conflicting_from m approvals ≡ false
    → IsConsistent approvals
unfolding conflicting_from
quiet-IsConsistent m [] n did d d' v w = cc
quiet-IsConsistent m (a ∷ approvals) n did d d' v w = ground (
  arith,
  known_agrees (insert a.signer_did a.decision m) approvals did a.decision d,
  known_agrees (insert a.signer_did a.decision m) approvals did a.decision d',
  quiet-IsConsistent (insert a.signer_did a.decision m) approvals (ground arith) did d d',
  lookup-insert a.signer_did did a.decision m,
  eq_iff a.signer_did did,
  decision_beq_iff a.decision d,
  decision_beq_iff a.decision d',
)

IsConsistent-quiet :
    (m : Assoc Did Decision) (approvals : List VerifiedApproval)
    → IsConsistent approvals
    → ((did : Did) (c d : Decision) → lookup did m ≡ some c → voted did d approvals ≡ true → d ≡ c)
    → conflicting_from m approvals ≡ false
unfolding conflicting_from
IsConsistent-quiet m [] h k = refl
IsConsistent-quiet m (a ∷ approvals) h k =
    let rest =
      IsConsistent-quiet (insert a.signer_did a.decision m) approvals
        (λ did d d' v w. h did d d' (ground (arith, v)) (ground (arith, w)))
        (λ did c d e v. later did c d e v) in
    elim (Option-cases (lookup a.signer_did m)) [
      | inl e ↦ ground (arith, e, rest)
      | inr (c, e) ↦ ground (
        arith,
        e,
        rest,
        k a.signer_did c a.decision e,
        eq_iff a.signer_did a.signer_did,
        decision_beq_iff a.decision a.decision,
        decision_beq_iff c a.decision,
      )
    ]
  where
    later :
        (did : Did) (c d : Decision)
        → lookup did (insert a.signer_did a.decision m) ≡ some c
        → voted did d approvals ≡ true
        → d ≡ c
    later did c d e v = ground (
      arith,
      lookup-insert a.signer_did did a.decision m,
      eq_iff a.signer_did did,
      decision_beq_iff a.decision a.decision,
      h did d a.decision,
      k did c d,
    )

-- The policy engine finds no contradiction exactly when no Signer's Approvals carry two different
-- decisions, in whatever order they come.
pub conflicting-IsConsistent_iff :
    (approvals : List VerifiedApproval) → (conflicting approvals ≡ false) ↔ IsConsistent approvals
unfolding conflicting lookup
conflicting-IsConsistent_iff approvals = (
  quiet-IsConsistent [] approvals,
  λ h. IsConsistent-quiet [] approvals h (λ did c d e v. ground arith),
)
