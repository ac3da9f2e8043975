-- ===== src/Verification/Tests.antt =====
-- One package that its Proposer signed.
use mpas.Prelude.{
  ℕ, ◌≡◌, ◌↔◌, refl, String, true, Option, none, some, List, [], ◌∷◌, length, if◌then◌else◌,
}
use mpas.Prelude.Eq.{◌==◌, string_eq, nat_eq, list_eq}
use mpas.Prelude.Result.{ok, ok_inj}
use mpas.Mpas.{HashObject, Decision, propose, approve}
use mpas.Mpas.Fields.{field, is_text}
use mpas.Mpas.Json.{Json, null, str, arr, obj, nil, cons, end, member}
use mpas.StrictJson.{Builtins, strict_json_parse}
use mpas.Suites.{Crypto}
use mpas.Verification.Env.{Env}
use mpas.Verification.Structure.{
  Approval, ActionPackage, parse_action_package, validate_approval_bundle_structure,
}
use mpas.Verification.Envelope.{validate_action_envelope, exceeds_max_envelope_validity}
use mpas.Verification.Approvals.{TrustedSigner, verify_approval_bundle}
use mpas.Prelude.{or_else, ◌≤◌, sym, ap, ◌∙◌}
use mpas.Prelude.Eq.{includes}
use mpas.Prelude.Distinct.{IsDistinct, distinct}
use mpas.Mpas.{Did}
use mpas.Policy.Evaluation.{
  ThresholdRequirement, threshold, evaluate_requirement, evaluate_threshold, counted_signers,
  resolve_eligible_signers,
}
use mpas.Suites.{Jwk, verify_suite_compact_jws}
use mpas.Suites.Authentic.{IsAuthentic, verify_suite_compact_jws-IsAuthentic}
use mpas.Verification.Approvals.Endorsed.{IsVerifiedBundle, verify_approval_bundle_iff}
use mpas.Verification.Envelope.{Envelope, read_envelope}
use mpas.Verification.Times.{validate_approval_time}
use mpas.Verification.Times.Window.{InWindow, validate_approval_time_iff}
use mpas.Verification.Package.Backing.{policy_approvals, IsBacked, satisfied_threshold-IsBacked}
use mpas.Verification.Package.Accepted.{IsAccepted, verify_action_package_iff}
use mpas.Verification.Package.{
  VerificationConfig, Verified, options_of, verify_action_package, parsed_package, timely_envelope,
  authorized_profile, verified_bundle, trusted_application_bindings, verify_payload_binding,
  safe_action_id, operation_name_from_payload,
}

abbrev unquoted : String → String
unquoted String.[] = String.[]
unquoted (String.◌∷◌ c String.[]) = String.[]
unquoted (String.◌∷◌ c (String.◌∷◌ d s)) = String.◌∷◌ c (unquoted (String.◌∷◌ d s))

abbrev unescaped : String → Option String
unescaped String.[] = none
unescaped (String.◌∷◌ c s) = some (unquoted s)

abbrev builtins : Builtins
builtins = record { Num = ℕ; number = λ t. 0; string_literal = unescaped }

abbrev header_text : String
header_text = "{\"alg\":\"EdDSA\",\"kid\":\"k1\"}"

abbrev payload_text : String
payload_text =
    "{\"actionEnvelopeHash\":{\"alg\":\"sha-256\",\"value\":\"h1\"},\"createdAt\":\"2026-01-01T00:00:01.000Z\",\"decision\":\"propose\",\"signerDid\":\"did:web:alice\",\"type\":\"ApprovalPayload\"}"

abbrev repeat : ℕ → List ℕ
repeat ℕ.zero = []
repeat (ℕ.suc n) = 7 ∷ repeat n

abbrev bob_text : String
bob_text =
    "{\"actionEnvelopeHash\":{\"alg\":\"sha-256\",\"value\":\"h1\"},\"createdAt\":\"2026-01-01T00:00:01.000Z\",\"decision\":\"approve\",\"signerDid\":\"did:web:bob\",\"type\":\"ApprovalPayload\"}"

-- A table in place of base64url: a header, a payload, a signature and a key.
abbrev crypto : Crypto
crypto = record {
  js = builtins;
  from_base64url = λ t.
      if t == "hdr"
      then 2 ∷ []
      else if t == "pay"
      then 1 ∷ []
      else if t == "bob"
      then 3 ∷ []
      else if t == "sig"
      then repeat 64
      else repeat 32;
  to_base64url = λ bytes.
      if length bytes == 64
      then "sig"
      else if length bytes == 32
      then "key"
      else if bytes == 1 ∷ []
      then "pay"
      else if bytes == 3 ∷ []
      then "bob"
      else "hdr";
  utf8 = λ bytes.
      if bytes == 1 ∷ [] then payload_text else if bytes == 3 ∷ [] then bob_text else header_text;
  is_on_curve = λ x y. true;
  compact_verify = λ jws jwk alg. some (1 ∷ []);
}

abbrev h1 : HashObject
h1 = record { alg = "sha-256"; value = "h1" }

abbrev test_env : Env
test_env = record {
  crypto = crypto;
  compute_json_hash = λ j. h1;
  canonicalize = λ j. if is_text "approve" (field "decision" j) then bob_text else payload_text;
  date_parse = λ t.
      if t == "2026-01-01T00:00:00.000Z"
      then some 1000
      else if t == "2026-01-01T00:00:01.000Z"
      then some 2000
      else some 9000;
}

abbrev hash_json : Json ℕ
hash_json = obj (member "alg" (str "sha-256") (member "value" (str "h1") end))

abbrev envelope_json : Json ℕ
envelope_json = obj (
    member "version" (str "1") (
      member "type" (str "ActionEnvelope") (
        member "proposer" (obj (member "did" (str "did:web:alice") end)) (
          member "target" (obj (member "applicationDid" (str "did:web:bank") end)) (
            member "executionProfile"
              (obj (
                member "id" (str "did:web:profiles.oma3.org:mcp")
                  (member "format" (str "mcp.toolsCall") end)))
              (member "executionPayloadHash" hash_json (
                member "actionId" (obj (member "value" (str "did:web:alice") end)) (
                  member "createdAt" (str "2026-01-01T00:00:00.000Z")
                    (member "expiresAt" (str "2026-01-01T00:01:00.000Z") end)))))))))

abbrev approval_json : String → String → Json ℕ
approval_json decision jws = obj (
    member "version" (str "1") (
      member "type" (str "Approval") (
        member "actionEnvelopeHash" hash_json (
          member "decision" (str decision) (
            member "signature" (obj (member "format" (str "jws") (member "value" (str jws) end)))
              (member "createdAt" (str "2026-01-01T00:00:01.000Z") end))))))

abbrev bundle_json : Json ℕ
bundle_json = obj (
    member "version" (str "1") (
      member "type" (str "ApprovalBundle") (
        member "actionEnvelopeHash" hash_json (
          member "approvals"
            (arr (
              cons (approval_json "propose" "hdr.pay.sig")
                (cons (approval_json "approve" "hdr.bob.sig") nil)))
            end))))

abbrev payload_json : Json ℕ
payload_json = obj (member "name" (str "transfer") (member "arguments" (obj end) end))

abbrev package_json : Json ℕ
package_json = obj (
    member "version" (str "1") (
      member "type" (str "ActionPackage") (
        member "executionPayload" payload_json
          (member "actionEnvelope" envelope_json (member "approvalBundle" bundle_json end)))))

abbrev signer : String → TrustedSigner test_env
signer name = record {
  did = name;
  public_jwk = some (
      obj (
        member "kty" (str "OKP")
          (member "crv" (str "Ed25519") (member "x" (str "key") (member "kid" (str "k1") end)))));
}

abbrev config : VerificationConfig test_env
config = record {
  trusted_signers = signer "did:web:alice" ∷ signer "did:web:bob" ∷ [];
  trusted_application_profiles = none;
  trusted_application_dids = some ("did:web:bank" ∷ []);
  now = 3000;
  timestamp_tolerance_ms = none;
  max_envelope_validity_ms = none;
}

abbrev approval_read : Decision → String → Approval
approval_read decision jws = record {
  action_envelope_hash = h1;
  decision = decision;
  signature_value = jws;
  created_at = record { text = "2026-01-01T00:00:01.000Z"; instant = 2000 };
  expires_at = none;
}

abbrev verified : Verified test_env
verified = record {
  action_id = "did:web:alice";
  application_did = "did:web:bank";
  operation_name = some "transfer";
  action_envelope_hash = h1;
  verified_approvals =
      record { approval = approval_read propose "hdr.pay.sig"; signer_did = "did:web:alice" }
      ∷ record { approval = approval_read approve "hdr.bob.sig"; signer_did = "did:web:bob" }
      ∷ [];
}

package_verifies : verify_action_package test_env package_json config ≡ ok verified
unfolding verify_action_package parsed_package timely_envelope authorized_profile verified_bundle
    parse_action_package validate_action_envelope exceeds_max_envelope_validity
    trusted_application_bindings verify_payload_binding verify_approval_bundle
    validate_approval_bundle_structure safe_action_id operation_name_from_payload
package_verifies = refl

verify_action_package_iff_example :
    (verify_action_package test_env package_json config ≡ ok verified)
    ↔ IsAccepted test_env package_json config verified
verify_action_package_iff_example = verify_action_package_iff test_env package_json config verified

abbrev accepted : IsAccepted test_env package_json config verified
accepted = (verify_action_package_iff test_env package_json config verified).0 package_verifies

abbrev one_approver : ThresholdRequirement
one_approver = record {
  threshold = 1;
  eligible_signer_group = none;
  eligible_signers = some ("did:web:bob" ∷ []);
  decision = none;
  description = none;
}

abbrev test_envelope : Envelope
test_envelope = record {
  proposer_did = "did:web:alice";
  application_did = "did:web:bank";
  profile_id = "did:web:profiles.oma3.org:mcp";
  profile_format = some "mcp.toolsCall";
  execution_payload_hash = h1;
  action_id = record { value = "did:web:alice"; scope = none };
  created_at = record { text = "2026-01-01T00:00:00.000Z"; instant = 1000 };
  expires_at = record { text = "2026-01-01T00:01:00.000Z"; instant = 9000 };
}

package_parses :
    parse_action_package test_env package_json
    ≡ ok (record {
      execution_payload = payload_json;
      action_envelope = envelope_json;
      approval_bundle = bundle_json;
    })
unfolding parse_action_package validate_action_envelope validate_approval_bundle_structure
package_parses = refl

envelope_reads : read_envelope test_env envelope_json ≡ ok test_envelope
unfolding read_envelope
envelope_reads = refl

same_parts : accepted.parts.action_envelope ≡ envelope_json
same_parts =
    ap (λ (p : ActionPackage test_env). p.action_envelope)
      (ok_inj (sym accepted.parsed ∙ package_parses))

same_envelope : accepted.envelope ≡ test_envelope
same_envelope = ok_inj (sym accepted.read ∙ ap (read_envelope test_env) same_parts ∙ envelope_reads)

votes_suffice :
    evaluate_requirement
      (policy_approvals verified.verified_approvals)
      none
      test_envelope.proposer_did
      (threshold one_approver)
    ≡ []
unfolding evaluate_requirement evaluate_threshold counted_signers distinct resolve_eligible_signers
votes_suffice = refl

approver_satisfies :
    evaluate_requirement
      (policy_approvals verified.verified_approvals)
      none
      accepted.envelope.proposer_did
      (threshold one_approver)
    ≡ []
approver_satisfies = rw same_envelope votes_suffice

satisfied_threshold-IsBacked_example :
    (signers : List Did) × IsDistinct signers
    × (1 ≤ length signers)
    × ((did : Did)
        → includes did signers ≡ true
        → IsBacked test_env config package_json verified accepted none one_approver did)
satisfied_threshold-IsBacked_example =
    satisfied_threshold-IsBacked test_env config package_json verified accepted none one_approver
      approver_satisfies

verify_approval_bundle_iff_example :
    (verify_approval_bundle test_env h1 config.trusted_signers
        (options_of test_env config accepted.envelope)
        bundle_json
      ≡ ok verified.verified_approvals)
    ↔ IsVerifiedBundle test_env h1 config.trusted_signers
        (options_of test_env config accepted.envelope)
        bundle_json
        verified.verified_approvals
verify_approval_bundle_iff_example =
    verify_approval_bundle_iff test_env h1 config.trusted_signers
      (options_of test_env config accepted.envelope) bundle_json verified.verified_approvals

abbrev bob_approval : Approval
bob_approval = approval_read approve "hdr.bob.sig"

validate_approval_time_iff_example :
    (validate_approval_time bob_approval
        (record { action_envelope = some test_envelope; now = 3000; tolerance = 0 })
      ≡ none)
    ↔ InWindow bob_approval test_envelope 3000 0
validate_approval_time_iff_example = validate_approval_time_iff bob_approval test_envelope 3000 0

abbrev alice_key : Jwk crypto
alice_key = or_else (signer "did:web:alice").public_jwk null

signature_verifies : verify_suite_compact_jws crypto "hdr.pay.sig" alice_key "k1" ≡ ok (1 ∷ [])
unfolding verify_suite_compact_jws strict_json_parse
signature_verifies = refl

verify_suite_compact_jws-IsAuthentic_example :
    IsAuthentic crypto "hdr.pay.sig" alice_key "k1" (1 ∷ [])
verify_suite_compact_jws-IsAuthentic_example =
    verify_suite_compact_jws-IsAuthentic crypto "hdr.pay.sig" alice_key "k1" (1 ∷ [])
      signature_verifies
