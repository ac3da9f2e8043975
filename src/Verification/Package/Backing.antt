-- ===== src/Verification/Package/Backing.antt =====
-- Verification and policy evaluation together: the quorum that satisfies a requirement consists of
-- trusted Signers whose signatures on this envelope were verified.
use mpas.Prelude.{
  ℕ, zero, suc, ◌≤◌, ◌≡◌, ◌≢◌, refl, Bool, true, ◌&&◌, Option, some, List, [], ◌∷◌, map, length,
  get_elem?, or_else, arith, eq_iff, and_iff, ap, some_inj, Bool-cases, inl, inr,
}
use mpas.Prelude.Eq.{◌==◌, includes, string_eq}
use mpas.Prelude.Distinct.{IsDistinct}
use mpas.Prelude.Result.{given}
use mpas.Mpas.{Did, HashObject, Decision, approve, decision_eq, decision_beq_iff}
use mpas.Policy.Evaluation.{
  ThresholdRequirement, Requirement, threshold, SignerGroups, resolve_eligible_signers,
  evaluate_requirement,
}
use mpas.Policy.Evaluation
use mpas.Policy.Evaluation.Satisfaction.{
  voted, Quorum, Satisfies, by_quorum, evaluate_requirement-Satisfies_iff,
}
use mpas.Verification.Env.{Env}
use mpas.Verification.Envelope.{EnvJson}
use mpas.Verification.Structure.{Approval}
use mpas.Verification.Approvals.{VerifiedApproval, TrustedSigner}
use mpas.Verification.Approvals.Endorsed.{IsEndorsed, AllEndorsed, done, next}
use mpas.Verification.Times.{ApprovalTimeOptions}
use mpas.Verification.Package.{VerificationConfig, Verified, options_of}
use mpas.Verification.Package.Accepted.{IsAccepted}

-- What the policy engine reads of a verified Approval.
abbrev pub policy_approvals : List VerifiedApproval → List Evaluation.VerifiedApproval
policy_approvals vs =
    map
      (λ (v : VerifiedApproval). record {
        signer_did = v.signer_did;
        decision = v.approval.decision;
      })
      vs

abbrev is_vote : Did → Decision → VerifiedApproval → Bool
is_vote did d v = (v.signer_did == did) && (v.approval.decision == d)

-- A vote that the policy engine counts is one of the verified Approvals.
voted_by :
    (did : Did) (d : Decision) (vs : List VerifiedApproval)
    → voted did d (policy_approvals vs) ≡ true
    → (i : ℕ) × (v : VerifiedApproval) × (get_elem? vs i ≡ some v) × (is_vote did d v ≡ true)
voted_by did d [] h = cc
voted_by did d (v ∷ vs) h = elim (Bool-cases (is_vote did d v)) [
  | inl this ↦ (0, v, refl, this)
  | inr other ↦
      let (i, w, at, vote) = voted_by did d vs (ground (arith, other, h)) in (suc i, w, at, vote)
]

module _ (env : Env) (hash : HashObject) (signers : List (TrustedSigner env))
    (options : ApprovalTimeOptions) where
  AllEndorsed-at :
      (as' : List Approval) (vs : List VerifiedApproval) (i : ℕ) (v : VerifiedApproval)
      → AllEndorsed env hash signers options as' vs
      → get_elem? vs i ≡ some v
      → (a : Approval) × (get_elem? as' i ≡ some a) × IsEndorsed env hash signers options a v
  AllEndorsed-at _ _ i v done h = cc
  AllEndorsed-at _ _ zero v (next {a = a} {v = w} e es) h =
      let same : w ≡ v = some_inj h in (a, refl, rw (← same) e)
  AllEndorsed-at _ _ (suc i) v (next {as' = as'} {vs = vs} e es) h = AllEndorsed-at as' vs i v es h

module _ (env : Env) where
  -- A Signer of a quorum: not the Proposer, eligible, and with the decision in an Approval that
  -- stands in the bundle of the package, in the same place as its verified Approval in the result,
  -- and that was verified for the hash of the envelope.
  pub record IsBacked (config : VerificationConfig env) (json : EnvJson env) (v : Verified env)
      (a : IsAccepted env json config v) (groups : Option SignerGroups) (r : ThresholdRequirement)
      (did : Did) : Type 0 where
    pub not_proposer : did ≢ a.envelope.proposer_did
    pub eligible : includes did (resolve_eligible_signers r groups) ≡ true
    pub place : ℕ
    pub approval : Approval
    pub in_bundle : get_elem? a.bundle.read.approvals place ≡ some approval
    pub verified : VerifiedApproval
    pub in_result : get_elem? v.verified_approvals place ≡ some verified
    pub endorsed :
        IsEndorsed env v.action_envelope_hash config.trusted_signers
          (options_of env config a.envelope)
          approval
          verified
    pub same_signer : verified.signer_did ≡ did
    pub same_decision : verified.approval.decision ≡ or_else r.decision approve

  threshold-Quorum :
      (as' : List Evaluation.VerifiedApproval) (groups : Option SignerGroups) (p : Did)
      (r : ThresholdRequirement)
      → Satisfies as' groups p (threshold r)
      → Quorum as' groups p r
  threshold-Quorum as' groups p r (by_quorum q) = q

  member-IsBacked :
      (config : VerificationConfig env) (json : EnvJson env) (v : Verified env)
      (a : IsAccepted env json config v) (groups : Option SignerGroups) (r : ThresholdRequirement)
      (did : Did)
      → did ≢ a.envelope.proposer_did
      → includes did (resolve_eligible_signers r groups) ≡ true
      → voted did (or_else r.decision approve) (policy_approvals v.verified_approvals) ≡ true
      → IsBacked config json v a groups r did
  member-IsBacked config json v a groups r did other eligible vote =
      let d = or_else r.decision approve in
      let hash = env.compute_json_hash a.parts.action_envelope in
      let same_hash : hash ≡ v.action_envelope_hash =
        ap (λ (w : Verified env). w.action_envelope_hash) a.result in
      given (voted_by did d v.verified_approvals vote) (λ (i, w, at, is).
        given
          (AllEndorsed-at env hash config.trusted_signers (options_of env config a.envelope)
            a.bundle.read.approvals v.verified_approvals i w a.bundle.endorsed at)
          (λ (approval, there, e).
            let (same_signer, same_decision) =
              (and_iff (w.signer_did == did) (w.approval.decision == d)).0 is in
            record {
              not_proposer = other;
              eligible = eligible;
              place = i;
              approval = approval;
              in_bundle = there;
              verified = w;
              in_result = at;
              endorsed = rw (← same_hash) e;
              same_signer = (eq_iff _ _).0 same_signer;
              same_decision = (decision_beq_iff _ _).0 same_decision;
            }))

  -- If the policy engine finds a threshold requirement satisfied by the verified Approvals of an
  -- accepted package, then at least as many different Signers as the threshold, none of them the
  -- Proposer and all of them eligible, have the required decision in an Approval of the package
  -- that is bound to the hash of its envelope and was verified under a trusted Signer's key.
  pub satisfied_threshold-IsBacked :
      (config : VerificationConfig env) (json : EnvJson env) (v : Verified env)
      (a : IsAccepted env json config v) (groups : Option SignerGroups) (r : ThresholdRequirement)
      → evaluate_requirement
          (policy_approvals v.verified_approvals)
          groups
          a.envelope.proposer_did
          (threshold r)
        ≡ []
      → (signers : List Did) × IsDistinct signers
        × (r.threshold ≤ length signers)
        × ((did : Did) → includes did signers ≡ true → IsBacked config json v a groups r did)
  satisfied_threshold-IsBacked config json v a groups r h =
      let votes = policy_approvals v.verified_approvals in
      let q = threshold-Quorum votes groups a.envelope.proposer_did r (
        (evaluate_requirement-Satisfies_iff votes groups a.envelope.proposer_did (threshold r)).0
          h) in
      (
        q.signers,
        q.is_distinct,
        q.enough,
        λ did m.
            let (other, eligible, vote) = q.member did m in
            member-IsBacked config json v a groups r did other eligible vote,
      )
