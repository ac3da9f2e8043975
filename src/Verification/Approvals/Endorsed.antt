-- ===== src/Verification/Approvals/Endorsed.antt =====
-- What a verified Approval Bundle establishes about each of its Approvals.
use mpas.Prelude.{
  ℕ, ◌+◌, ◌≡◌, ◌↔◌, refl, true, none, some, List, [], ◌∷◌, arith, eq_iff, String, and_iff,
}
use mpas.Prelude.Assoc.{lookup}
use mpas.Prelude.Eq.{◌==◌, string_eq, option_eq, option_beq_iff}
use mpas.Prelude.Result.{
  ok, ok_inj, bind-ok_iff, ensure-ok_iff, or_error-ok_iff, map_error-ok_iff, none_or-ok_iff,
}
use mpas.Mpas.{Did, HashObject, decision_eq, decision_beq_iff}
use mpas.Suites.{Jwk, verification_kid, verify_suite_compact_jws}
use mpas.Verification.Env.{Env}
use mpas.Verification.Formats.{hashes_equal}
use mpas.Verification.Envelope.{EnvJson}
use mpas.Verification.Structure.{Approval, ApprovalBundle, validate_approval_bundle_structure}
use mpas.Verification.Payload.{CanonicalApprovalPayload, decode_approval_jws}
use mpas.Verification.Times.{ApprovalTimeOptions, validate_approval_time}
use mpas.Verification.Approvals.{
  VerifiedApproval, TrustedSigner, text_of, resolve_trusted_signer_jwk, signers_by_did,
  payload_agrees, verified_signature, timely, verify_bundled_approval, verify_each,
  verify_approval_bundle,
}

pub hashes_equal_iff : (a b : HashObject) → (hashes_equal a b ≡ true) ↔ (a ≡ b)
unfolding hashes_equal
hashes_equal_iff a b = ground (arith, eq_iff a.alg b.alg, eq_iff a.value b.value)

-- The signed payload says what the Approval says, and names its signer.
pub record Agrees (payload : CanonicalApprovalPayload) (approval : Approval) (did : Did)
    : Type 0 where
  pub same_hash : payload.action_envelope_hash ≡ approval.action_envelope_hash
  pub same_decision : payload.decision ≡ approval.decision
  pub same_creation : payload.created_at.text ≡ approval.created_at.text
  pub same_expiry : text_of payload.expires_at ≡ text_of approval.expires_at
  pub same_signer : payload.signer_did ≡ did

module _ (env : Env) where
  payload_agrees_iff :
      (p : CanonicalApprovalPayload) (a : Approval) (did : Did)
      → (payload_agrees env p a did ≡ true) ↔ Agrees p a did
  unfolding payload_agrees
  payload_agrees_iff p a did =
      let same_hash = hashes_equal_iff p.action_envelope_hash a.action_envelope_hash in
      let same_decision = decision_beq_iff p.decision a.decision in
      let same_creation = eq_iff p.created_at.text a.created_at.text in
      let same_expiry = option_beq_iff (text_of p.expires_at) (text_of a.expires_at) in
      let same_signer = eq_iff p.signer_did did in
      (
        (λ h.
            let (h, h5) = (and_iff _ (p.signer_did == did)).0 h in
            let (h, h4) = (and_iff _ (text_of p.expires_at == text_of a.expires_at)).0 h in
            let (h, h3) = (and_iff _ (p.created_at.text == a.created_at.text)).0 h in
            let (h1, h2) = (and_iff _ (p.decision == a.decision)).0 h in
            record {
              same_hash = same_hash.0 h1;
              same_decision = same_decision.0 h2;
              same_creation = same_creation.0 h3;
              same_expiry = same_expiry.0 h4;
              same_signer = same_signer.0 h5;
            }),
        (λ g.
            rw
              (
                same_hash.1 g.same_hash,
                same_decision.1 g.same_decision,
                same_creation.1 g.same_creation,
                same_expiry.1 g.same_expiry,
                same_signer.1 g.same_signer,
              )
              refl),
      )

  module _ (envelope_hash : HashObject) (signers : List (TrustedSigner env))
      (options : ApprovalTimeOptions) where
    pub record IsEndorsed (approval : Approval) (verified : VerifiedApproval) : Type 0 where
      pub bound : approval.action_envelope_hash ≡ envelope_hash
      pub payload : CanonicalApprovalPayload
      pub decoded : decode_approval_jws env approval.signature_value ≡ ok payload
      pub signer : TrustedSigner env
      pub trusted : lookup payload.signer_did (signers_by_did env [] signers) ≡ some signer
      pub jwk : Jwk env.crypto
      pub resolved : resolve_trusted_signer_jwk env signer ≡ some jwk
      pub kid : String
      pub key_named : verification_kid env.crypto jwk signer.did ≡ ok kid
      pub bytes : List ℕ
      pub signed : verify_suite_compact_jws env.crypto approval.signature_value jwk kid ≡ ok bytes
      pub agrees : Agrees payload approval signer.did
      pub in_time : validate_approval_time approval options ≡ none
      pub same : record { approval = approval; signer_did = signer.did } ≡ verified

    verify_bundled_approval_iff :
        (i : ℕ) (a : Approval) (v : VerifiedApproval)
        → (verify_bundled_approval env envelope_hash signers options i a ≡ ok v) ↔ IsEndorsed a v
    unfolding verify_bundled_approval timely verified_signature
    verify_bundled_approval_iff i a v = (
      (λ h.
          let (h1, h) =
            (ensure-ok_iff (hashes_equal a.action_envelope_hash envelope_hash) _ _ _).0 h in
          let (payload, h2, h) = (map_error-ok_iff _ _ _ _).0 h in
          let (signer, h3, h) = (or_error-ok_iff _ _ _ _).0 h in
          let (jwk, h4, h) = (or_error-ok_iff _ _ _ _).0 h in
          let (u, signed, h) = (bind-ok_iff _ _ _).0 h in
          let (bytes, h5, _) = (map_error-ok_iff _ _ _ _).0 signed in
          let (kid, h6, h7) = (bind-ok_iff _ _ _).0 h5 in
          let (h8, h) = (ensure-ok_iff (payload_agrees env payload a signer.did) _ _ _).0 h in
          let (h9, h) = (none_or-ok_iff (validate_approval_time a options) _ _ _).0 h in
          record {
            bound = (hashes_equal_iff _ _).0 h1;
            payload = payload;
            decoded = h2;
            signer = signer;
            trusted = h3;
            jwk = jwk;
            resolved = h4;
            kid = kid;
            key_named = h6;
            bytes = bytes;
            signed = h7;
            agrees = (payload_agrees_iff payload a signer.did).0 h8;
            in_time = h9;
            same = ok_inj h;
          }),
      (λ e.
          rw
            (
              (hashes_equal_iff a.action_envelope_hash envelope_hash).1 e.bound,
              e.decoded,
              e.trusted,
              e.resolved,
              e.key_named,
              e.signed,
              (payload_agrees_iff e.payload a e.signer.did).1 e.agrees,
              e.in_time,
            )
            (rw e.same refl)),
    )

    pub data AllEndorsed : List Approval → List VerifiedApproval → Type 0 where
      done : AllEndorsed [] []
      next :
          {a : Approval} {v : VerifiedApproval} {as' : List Approval} {vs : List VerifiedApproval}
          → IsEndorsed a v
          → AllEndorsed as' vs
          → AllEndorsed (a ∷ as') (v ∷ vs)

    all_endorsed :
        (i : ℕ) (as' : List Approval) (vs : List VerifiedApproval)
        → verify_each env envelope_hash signers options i as' ≡ ok vs
        → AllEndorsed as' vs
    unfolding verify_each
    all_endorsed i [] vs h = let same : [] ≡ vs = ok_inj h in rw (← same) done
    all_endorsed i (a ∷ as') vs h =
        let (v, h1, h) = (bind-ok_iff _ _ _).0 h in
        let (rest, h2, h) = (bind-ok_iff _ _ _).0 h in
        let same : v ∷ rest ≡ vs = ok_inj h in
        rw (← same)
          (next ((verify_bundled_approval_iff i a v).0 h1) (all_endorsed (i + 1) as' rest h2))

    verify_each_of :
        (i : ℕ) (as' : List Approval) (vs : List VerifiedApproval)
        → AllEndorsed as' vs
        → verify_each env envelope_hash signers options i as' ≡ ok vs
    unfolding verify_each
    verify_each_of i _ _ done = refl
    verify_each_of i _ _ (next {a = a} {v = v} {as' = as'} {vs = vs} e es) =
        rw ((verify_bundled_approval_iff i a v).1 e, verify_each_of (i + 1) as' vs es) refl

    -- A bundle that verifies: well formed, for this envelope, and every Approval is endorsed.
    pub record IsVerifiedBundle (bundle : EnvJson env) (verified : List VerifiedApproval)
        : Type 0 where
      pub read : ApprovalBundle
      pub well_formed : validate_approval_bundle_structure env bundle ≡ ok read
      pub bundle_bound : read.action_envelope_hash ≡ envelope_hash
      pub endorsed : AllEndorsed read.approvals verified

    -- A bundle verifies exactly when it is well formed, names this envelope hash, and every one of
    -- its Approvals, in their order, names that hash, carries a canonical payload with the same
    -- hash, decision and times, is signed by the key of the trusted signer that the payload names,
    -- and stands in its time window.
    pub verify_approval_bundle_iff :
        (bundle : EnvJson env) (vs : List VerifiedApproval)
        → (verify_approval_bundle env envelope_hash signers options bundle ≡ ok vs)
          ↔ IsVerifiedBundle bundle vs
    unfolding verify_approval_bundle
    verify_approval_bundle_iff bundle vs = (
      (λ h.
          let (read, h1, h) = (map_error-ok_iff _ _ _ _).0 h in
          let (h2, h) =
            (ensure-ok_iff (hashes_equal read.action_envelope_hash envelope_hash) _ _ _).0 h in
          record {
            read = read;
            well_formed = h1;
            bundle_bound = (hashes_equal_iff _ _).0 h2;
            endorsed = all_endorsed 0 read.approvals vs h;
          }),
      (λ e.
          rw (e.well_formed, (hashes_equal_iff _ envelope_hash).1 e.bundle_bound)
            (verify_each_of 0 e.read.approvals vs e.endorsed)),
    )
