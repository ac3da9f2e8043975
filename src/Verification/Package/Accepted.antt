-- ===== src/Verification/Package/Accepted.antt =====
-- When a package verifies, stated without the order of the checks.
use mpas.Prelude.{
  ℕ, ◌+◌, ◌≤◌, ◌≡◌, ◌↔◌, refl, Bool, true, not, some, List, [], ◌∷◌, filter, find, any, is_empty,
  or_else, and_iff, ap,
}
use mpas.Prelude.Result.{
  ok, map_error, ok_inj, bind-ok_iff, ensure-ok_iff, or_error-ok_iff, map_error-ok_iff,
  map_error_iff, given,
}
use mpas.Verification.Env.{Env}
use mpas.Verification.Formats.{hashes_equal}
use mpas.Verification.Envelope.{
  Envelope, EnvJson, read_envelope, validate_action_envelope, exceeds_max_envelope_validity,
}
use mpas.Verification.Envelope.Timely.{IsTimely, validate_action_envelope_iff, too_long_iff}
use mpas.Verification.Structure.{
  ActionPackage, parse_action_package, validate_approval_bundle_structure,
}
use mpas.Verification.Approvals.{ApprovalBundleError, VerifiedApproval, verify_approval_bundle}
use mpas.Verification.Approvals.Endorsed.{
  IsVerifiedBundle, verify_approval_bundle_iff, hashes_equal_iff,
}
use mpas.Verification.Package.{
  TrustedExecutionProfile, TrustedApplicationProfile, VerificationConfig, Verified, Rejection,
  default_max_envelope_validity_ms, trusted_application_bindings, verify_payload_binding,
  operation_name_from_payload, clock_of, options_of, is_for_application, is_for_profile,
  valid_action_id, is_proposer_approval, parsed_package, timely_envelope, authorized_profile,
  verified_bundle, rejects, malformed_bundle, approval_bundle_invalid, verify_action_package,
}

abbrev pub max_validity_of : (env : Env) → VerificationConfig env → ℕ
max_validity_of env config =
    or_else config.max_envelope_validity_ms default_max_envelope_validity_ms

module _ (env : Env) where
  pub record IsAccepted (json : EnvJson env) (config : VerificationConfig env) (v : Verified env)
      : Type 0 where
    -- The package and its envelope are well formed.
    pub parts : ActionPackage env
    pub parsed : parse_action_package env json ≡ ok parts
    pub envelope : Envelope
    pub read : read_envelope env parts.action_envelope ≡ ok envelope
    -- The envelope is in time, and does not reach too far.
    pub in_time : IsTimely (clock_of env config) envelope
    pub not_too_long : envelope.expires_at.instant ≤ config.now + max_validity_of env config
    -- A trusted binding of the target application is for the envelope's profile.
    pub binding : TrustedApplicationProfile env
    pub authorized :
        find
          (is_for_profile env envelope)
          (filter (is_for_application env envelope) (trusted_application_bindings env config))
        ≡ some binding
    -- The profile accepts the payload and the Action ID, and the envelope names the payload's hash.
    pub payload_valid : binding.execution_profile.validate_payload parts.execution_payload ≡ true
    pub id_valid : valid_action_id env binding.execution_profile envelope.action_id ≡ true
    pub payload_bound :
        binding.execution_profile.hash_payload parts.execution_payload
        ≡ envelope.execution_payload_hash
    -- The bundle verifies for the hash of this envelope, and the Proposer has signed.
    pub bundle :
        IsVerifiedBundle env
          (env.compute_json_hash parts.action_envelope)
          config.trusted_signers
          (options_of env config envelope)
          parts.approval_bundle
          v.verified_approvals
    pub proposed : any (is_proposer_approval env envelope.proposer_did) v.verified_approvals ≡ true
    -- The result is read off the envelope and the payload.
    pub result :
        record {
          action_id = envelope.action_id.value;
          application_did = envelope.application_did;
          operation_name = operation_name_from_payload env parts.execution_payload;
          action_envelope_hash = env.compute_json_hash parts.action_envelope;
          verified_approvals = v.verified_approvals;
        }
        ≡ v

  find-not_empty :
      {A : Type 0} (p : A → Bool) (xs : List A) (a : A)
      → find p xs ≡ some a
      → not (is_empty xs) ≡ true
  find-not_empty p [] a h = cc
  find-not_empty p (x ∷ xs) a h = refl

  authorized_profile_iff :
      (config : VerificationConfig env) (e : Envelope) (p : TrustedExecutionProfile env)
      → (authorized_profile env config e ≡ ok p) ↔ (
          (b : TrustedApplicationProfile env) × (find
              (is_for_profile env e)
              (filter (is_for_application env e) (trusted_application_bindings env config))
            ≡ some b)
          × (b.execution_profile ≡ p))
  unfolding authorized_profile
  authorized_profile_iff config e p =
      let matches = filter (is_for_application env e) (trusted_application_bindings env config) in
      (
        (λ h.
            let (some_match, h) = (ensure-ok_iff _ _ _ _).0 h in
            let (b, h1, h) = (or_error-ok_iff _ _ _ _).0 h in (b, h1, ok_inj h)),
        (λ (b, h, same). rw (find-not_empty (is_for_profile env e) matches b h, h, same) refl),
      )

  verified_bundle_iff :
      (config : VerificationConfig env) (e : Envelope) (envelope_json bundle : EnvJson env)
      (vs : List VerifiedApproval)
      → (verified_bundle env config e envelope_json bundle ≡ ok vs)
        ↔ IsVerifiedBundle env
            (env.compute_json_hash envelope_json)
            config.trusted_signers
            (options_of env config e)
            bundle
            vs
  unfolding verified_bundle
  verified_bundle_iff config e envelope_json bundle vs =
      let inner =
        verify_approval_bundle_iff env (env.compute_json_hash envelope_json) config.trusted_signers
          (options_of env config e) bundle vs in
      let structure = validate_approval_bundle_structure env bundle in
      let outer =
        map_error-ok_iff (rejects env malformed_bundle) structure
          (λ _.
            map_error (λ (x : ApprovalBundleError). rejects env approval_bundle_invalid x.path)
              (verify_approval_bundle env (env.compute_json_hash envelope_json)
                config.trusted_signers (options_of env config e) bundle))
          vs in
      (
        (λ h. let (read, h1, h) = outer.0 h in inner.0 ((map_error_iff _ _ _).0 h)),
        (λ b. outer.1 (b.read, b.well_formed, (map_error_iff _ _ _).1 (inner.1 b))),
      )

  parsed_package_iff :
      (json : EnvJson env) (parts : ActionPackage env)
      → (parsed_package env json ≡ ok parts) ↔ (parse_action_package env json ≡ ok parts)
  unfolding parsed_package
  parsed_package_iff json parts = map_error_iff _ (parse_action_package env json) parts

  timely_envelope_iff :
      (config : VerificationConfig env) (json : EnvJson env) (e : Envelope)
      → (timely_envelope env config json ≡ ok e)
        ↔ ((read_envelope env json ≡ ok e) × IsTimely (clock_of env config) e)
  unfolding timely_envelope
  timely_envelope_iff config json e =
      let inner = validate_action_envelope_iff env (clock_of env config) json e in
      let outer =
        map_error_iff _ (validate_action_envelope env (some (clock_of env config)) true json) e in
      (λ h. inner.0 (outer.0 h), λ g. outer.1 (inner.1 g))

  payload_binding_iff :
      (payload : EnvJson env) (e : Envelope) (p : TrustedExecutionProfile env)
      → (verify_payload_binding env payload e p ≡ true) ↔ (
          (p.validate_payload payload ≡ true) × (p.hash_payload payload ≡ e.execution_payload_hash))
  unfolding verify_payload_binding
  payload_binding_iff payload e p =
      let same = hashes_equal_iff (p.hash_payload payload) e.execution_payload_hash in
      let both =
        and_iff (p.validate_payload payload)
          (hashes_equal (p.hash_payload payload) e.execution_payload_hash) in
      (
        (λ h. let (valid, equal) = both.0 h in (valid, same.0 equal)),
        (λ (valid, equal). both.1 (valid, same.1 equal)),
      )

  accepted-IsAccepted :
      (json : EnvJson env) (config : VerificationConfig env) (v : Verified env)
      → verify_action_package env json config ≡ ok v
      → IsAccepted json config v
  unfolding verify_action_package
  accepted-IsAccepted json config v h =
      given ((bind-ok_iff (parsed_package env json) _ _).0 h) (λ (parts, h1, h).
        given ((bind-ok_iff (timely_envelope env config parts.action_envelope) _ _).0 h)
          (λ (e, h2, h).
            given
              ((ensure-ok_iff
                  (not (exceeds_max_envelope_validity e (max_validity_of env config) config.now)) _
                  _ _).0
                h)
              (λ (h3, h).
                given ((bind-ok_iff (authorized_profile env config e) _ _).0 h) (λ (profile, h4, h).
                  given
                    ((ensure-ok_iff (profile.validate_payload parts.execution_payload) _ _ _).0 h)
                    (λ (h6, h).
                      given ((ensure-ok_iff (valid_action_id env profile e.action_id) _ _ _).0 h)
                        (λ (h7, h).
                          given
                            ((ensure-ok_iff
                                (verify_payload_binding env parts.execution_payload e profile) _ _
                                _).0
                              h)
                            (λ (h8, h).
                              given
                                ((bind-ok_iff
                                    (verified_bundle env config e parts.action_envelope
                                      parts.approval_bundle)
                                    _ _).0
                                  h)
                                (λ (vs, h9, h).
                                  given
                                    ((ensure-ok_iff
                                        (any (is_proposer_approval env e.proposer_did) vs) _ _ _).0
                                      h)
                                    (λ (h10, h).
                                      given ((authorized_profile_iff config e profile).0 h4)
                                        (λ (binding, h5, same).
                                          let result = ok_inj {E = Rejection} h in
                                          rw (← result) (record {
                                            parts = parts;
                                            parsed = (parsed_package_iff json parts).0 h1;
                                            envelope = e;
                                            read =
                                                ((timely_envelope_iff config parts.action_envelope
                                                    e).0
                                                  h2).0;
                                            in_time =
                                                ((timely_envelope_iff config parts.action_envelope
                                                    e).0
                                                  h2).1;
                                            not_too_long =
                                                (too_long_iff e (max_validity_of env config)
                                                    config.now).0
                                                  h3;
                                            binding = binding;
                                            authorized = h5;
                                            payload_valid = rw (← same) at h6;
                                            id_valid = rw (← same) at h7;
                                            payload_bound =
                                                rw same
                                                  ((payload_binding_iff parts.execution_payload e
                                                      profile).0
                                                    h8).1;
                                            bundle =
                                                (verified_bundle_iff config e parts.action_envelope
                                                    parts.approval_bundle vs).0
                                                  h9;
                                            proposed = h10;
                                            result = refl;
                                          })))))))))))

  IsAccepted-accepted :
      (json : EnvJson env) (config : VerificationConfig env) (v : Verified env)
      → IsAccepted json config v
      → verify_action_package env json config ≡ ok v
  unfolding verify_action_package
  IsAccepted-accepted json config v a =
      let e = a.envelope in
      let profile = a.binding.execution_profile in
      let payload = a.parts.execution_payload in
      rw
        (
          (parsed_package_iff json a.parts).1 a.parsed,
          (timely_envelope_iff config a.parts.action_envelope e).1 (a.read, a.in_time),
          (too_long_iff e (max_validity_of env config) config.now).1 a.not_too_long,
          (authorized_profile_iff config e profile).1 (a.binding, a.authorized, refl),
          a.payload_valid,
          a.id_valid,
          (payload_binding_iff payload e profile).1 (a.payload_valid, a.payload_bound),
          (verified_bundle_iff config e a.parts.action_envelope a.parts.approval_bundle
                v.verified_approvals).1
              a.bundle,
          a.proposed,
        )
        (ap ok a.result)

  -- A package verifies exactly when it parses, its envelope is well formed, in time and does not
  -- reach past the maximum validity, a trusted binding allows its profile for its application, the
  -- profile accepts the payload and the Action ID and hashes the payload to the hash that the
  -- envelope names, the bundle verifies for the hash of this envelope, and one of its Approvals is
  -- a `propose` signed by the Proposer; the result is then read off the envelope and the payload.
  pub verify_action_package_iff :
      (json : EnvJson env) (config : VerificationConfig env) (v : Verified env)
      → (verify_action_package env json config ≡ ok v) ↔ IsAccepted json config v
  verify_action_package_iff json config v =
      (accepted-IsAccepted json config v, IsAccepted-accepted json config v)
