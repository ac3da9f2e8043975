-- ===== src/Coordination/Workflow/Tests.antt =====
-- One workflow that `bob` approves.
use mpas.Prelude.{ℕ, none, some, List, [], ◌∷◌, All, if◌then◌else◌}
use mpas.Prelude.Eq.{◌==◌, string_eq}
use mpas.Mpas.{HashObject, approve, Timestamp}
use mpas.Mpas.Json.{null, end}
use mpas.Mpas.Package.{ActionPackage}
use mpas.Mpas.Response.{AuthorizationRequirements, additional_approvals_required}
use mpas.Coordination.Env.{Env, CanonicalApprovalPayload}
use mpas.Coordination.Workflow.{CoordinationActionRequest}
use mpas.Coordination.Workflow.Submission.{ApprovalSubmission}
use mpas.Coordination.Workflow.Lifecycle.{IsSound}
use mpas.Prelude.{◌↔◌, ◌≡◌}
use mpas.Prelude.Result.{ok}
use mpas.Coordination.Workflow.Submission.{CancelRequest, cancel_action}
use mpas.Coordination.Workflow.{Workflows}
use mpas.Coordination.Workflow.Cancellation.{IsCancelled, cancel_action-IsCancelled_iff}
use mpas.Coordination.Workflow.History.{
  cancel, Op, create, submit, poll_for, run, empty_store, run-IsSound,
}

abbrev h1 : HashObject
h1 = record { alg = "sha-256"; value = "h1" }

abbrev bob_payload : CanonicalApprovalPayload
bob_payload = record {
  action_envelope_hash = h1;
  decision = approve;
  signer_did = some "did:x:bob";
  created_at = "t1";
}

-- Every artifact has one hash, and one payload can be decoded.
abbrev one_hash : Env
one_hash = record {
  Num = ℕ;
  compute_json_hash = λ j. h1;
  date_parse = λ t. none;
  parse_payload = λ t. if t == "bob" then some bob_payload else none;
}

abbrev package_1 : ActionPackage ℕ
package_1 = record {
  execution_payload = null;
  action_envelope = record {
    proposer_did = "did:x:alice";
    target = record { application_did = "did:x:bank"; resource = none; fields = end };
    execution_profile = record { id = "did:x:profile"; format = none };
    execution_payload_hash = h1;
    action_id = record { value = "a1"; scope = none };
    created_at = "t0";
    expires_at = "t9";
  };
  approval_bundle = record {
    action_envelope_hash = h1;
    approvals = [];
    assembled_by = none;
    created_at = none;
  };
  created_at = none;
}

abbrev bob_alone : AuthorizationRequirements
bob_alone = record {
  action_envelope_hash = h1;
  result = additional_approvals_required;
  verifier_did = "did:x:verifier";
  approval_requirements = some (record {
    any_of = some (
        record {
          threshold = 1;
          eligible_signers = "did:x:bob" ∷ [];
          decision = none;
          description = none;
        }
        ∷ []);
    all_of = none;
    override_signers = none;
  });
  expires_at = none;
}

abbrev request_1 : CoordinationActionRequest one_hash
request_1 = record { action_package = package_1; authorization_requirements = bob_alone }

abbrev bob_submits : ApprovalSubmission
bob_submits = record {
  action_envelope_hash = h1;
  approval = record {
    action_envelope_hash = h1;
    decision = approve;
    signature_value = "e.bob.s";
    created_at = "t1";
    expires_at = none;
  };
}

abbrev creation : List (Op one_hash × ℕ × Timestamp)
creation = (create request_1, 1, "t1") ∷ []

abbrev creation_and_approval : List (Op one_hash × ℕ × Timestamp)
creation_and_approval =
    (create request_1, 1, "t1")
    ∷ (submit bob_submits, 2, "t2")
    ∷ (poll_for "did:x:alice", 3, "t3")
    ∷ []

run-IsSound_example :
    All (IsSound one_hash) (run one_hash (empty_store one_hash) creation_and_approval).actions
run-IsSound_example = run-IsSound one_hash creation_and_approval

abbrev alice_cancels : CancelRequest
alice_cancels = record {
  action_id = record { value = "a1"; scope = none };
  proposer_did = "did:x:alice";
}

abbrev created_store : Workflows one_hash
created_store = run one_hash (empty_store one_hash) creation

abbrev cancelled_store : Workflows one_hash
cancelled_store =
    run one_hash (empty_store one_hash)
      ((create request_1, 1, "t1") ∷ (cancel alice_cancels, 2, "t2") ∷ [])

cancel_action-IsCancelled_iff_example :
    (cancel_action one_hash created_store alice_cancels 2 "t2" ≡ ok cancelled_store)
    ↔ IsCancelled one_hash created_store cancelled_store alice_cancels 2 "t2"
cancel_action-IsCancelled_iff_example =
    cancel_action-IsCancelled_iff one_hash created_store cancelled_store alice_cancels 2 "t2"
