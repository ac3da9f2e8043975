-- ===== src/Coordination/Relay/Tests.antt =====
-- A relay of one action to its Verifier and a second recipient, and the Verifier's answer.
use mathlib.Core.List.{Memᴰ}
use mathlib.Core.List.Memᴰ.{head, tail}
use mpas.Prelude.{All, ℕ, ◌≡◌, refl, none, some, List, [], ◌∷◌, ◌++◌, arith}
use mpas.Prelude.Decimal.{decimal}
use mpas.Prelude.Result.{ok}
use mpas.Mpas.{Timestamp, HashObject}
use mpas.Mpas.Json.{null, end}
use mpas.Mpas.Package.{ActionPackage}
use mpas.Mpas.Response.{ActionResponse, executed, failed}
use mpas.Coordination.Env.{Env}
use mpas.Coordination.Relay.Records.{DeliveryEnvelope, request, Relay, StoredDelivery}
use mpas.Coordination.Relay.Polling.{delivery_page, is_live, parse_cursor, pending_for}
use mpas.Coordination.Relay.{as_payload, deliveries_to, store_envelope}
use mpas.Coordination.Relay.Pages.{Numbered, delivery_page-continues}
use mpas.Coordination.Relay.PollLoop.{
  Poll, answered, missed, IsKept, run_poll_loop, run_poll_loop_delivers,
}
use mpas.Coordination.Relay.History.{
  Keeps, Op, answer, begin, empty_relay, run, run-IsNumbered, run-Keeps,
}

abbrev h1 : HashObject
h1 = record { alg = "sha-256"; value = "h1" }

abbrev same_hash : Env
same_hash = record {
  Num = ℕ;
  compute_json_hash = λ j. h1;
  date_parse = λ t. none;
  parse_payload = λ t. none;
}

abbrev package_1 : ActionPackage ℕ
package_1 = record {
  execution_payload = null;
  action_envelope = record {
    proposer_did = "did:x:alice";
    target = record { application_did = "did:x:bank"; resource = none; fields = end };
    execution_profile = record { id = "did:x:profile"; format = none };
    execution_payload_hash = h1;
    action_id = record { value = "a1"; scope = none };
    created_at = "t0";
    expires_at = "t9";
  };
  approval_bundle = record {
    action_envelope_hash = h1;
    approvals = [];
    assembled_by = none;
    created_at = none;
  };
  created_at = none;
}

abbrev sent_package : DeliveryEnvelope same_hash (ActionPackage ℕ)
sent_package = record {
  sender = "did:x:alice";
  recipients = "did:x:verifier" ∷ "did:x:audit" ∷ [];
  expires_at = none;
  payload = package_1;
  payload_json = null;
}

abbrev answer_1 : ActionResponse
answer_1 = record {
  verifier_did = some "did:x:verifier";
  action_envelope_hash = some h1;
  result = executed;
  authorization_requirements = none;
  execution_receipt = none;
}

abbrev answer_2 : ActionResponse
answer_2 = record answer_1 { result = failed }

abbrev answering : ActionResponse → DeliveryEnvelope same_hash ActionResponse
answering a = record {
  sender = "did:x:verifier";
  recipients = "did:x:alice" ∷ [];
  expires_at = none;
  payload = a;
  payload_json = null;
}

abbrev relaying : List (Op same_hash × ℕ × Timestamp)
relaying = (begin sent_package "did:x:verifier", 1, "t1") ∷ []

abbrev answering_twice : List (Op same_hash × ℕ × Timestamp)
answering_twice =
    (answer (answering answer_1) [], 2, "t2") ∷ (answer (answering answer_2) [], 3, "t3") ∷ []

abbrev relay_1 : Relay same_hash
relay_1 = run same_hash (empty_relay same_hash) (relaying ++ answering_twice)

run-IsNumbered_example : Numbered same_hash 1 relay_1.next_delivery_sequence relay_1.deliveries
run-IsNumbered_example = run-IsNumbered same_hash (relaying ++ answering_twice)

run-Keeps_example :
    Keeps same_hash
      (run same_hash (empty_relay same_hash) relaying)
      (run same_hash (run same_hash (empty_relay same_hash) relaying) answering_twice)
run-Keeps_example =
    run-Keeps same_hash (run same_hash (empty_relay same_hash) relaying) answering_twice

-- Two deliveries of one envelope.
abbrev stored_relay : Relay same_hash
stored_relay =
    store_envelope same_hash (empty_relay same_hash)
      (as_payload same_hash (λ p. request p) sent_package)

stored_relay-Numbered :
    Numbered same_hash 1 stored_relay.next_delivery_sequence stored_relay.deliveries
unfolding store_envelope deliveries_to Numbered
stored_relay-Numbered = (omega arith, (omega arith, omega arith))

abbrev twice_stored : Relay same_hash
twice_stored =
    store_envelope same_hash stored_relay (as_payload same_hash (λ p. request p) sent_package)

twice_stored-Numbered :
    Numbered same_hash 1 twice_stored.next_delivery_sequence twice_stored.deliveries
unfolding store_envelope deliveries_to Numbered
twice_stored-Numbered = (omega arith, (omega arith, (omega arith, (omega arith, omega arith))))

-- The start of a poll.
from_start : parse_cursor none ≡ ok 0
unfolding parse_cursor
from_start = refl

abbrev first_page : List (StoredDelivery same_hash)
first_page =
    record {
      sequence = 1;
      recipient = "did:x:verifier";
      envelope = as_payload same_hash (λ p. request p) sent_package;
    }
    ∷ []

page_read : delivery_page same_hash stored_relay "did:x:verifier" none 4 ≡ ok (first_page, some "1")
unfolding store_envelope deliveries_to delivery_page parse_cursor is_live decimal
page_read = refl

delivery_page-continues_example :
    (n : ℕ) × (parse_cursor (some "1") ≡ ok n)
    × (pending_for same_hash "did:x:verifier" 4 0 stored_relay.deliveries
        ≡ first_page ++ pending_for same_hash "did:x:verifier" 4 n stored_relay.deliveries)
delivery_page-continues_example =
    delivery_page-continues same_hash stored_relay 1 stored_relay.next_delivery_sequence
      "did:x:verifier" 4 0 none first_page "1" stored_relay-Numbered from_start page_read

-- The first poll fails, and a later one comes when the relay has stored more.
abbrev polls : List (Poll same_hash)
polls = missed ∷ answered stored_relay 4 ∷ missed ∷ answered twice_stored 9 ∷ []

abbrev for_audit : StoredDelivery same_hash
for_audit = record {
  sequence = 2;
  recipient = "did:x:audit";
  envelope = as_payload same_hash (λ p. request p) sent_package;
}

kept : All (IsKept same_hash for_audit) polls
unfolding store_envelope deliveries_to Numbered is_live
kept = (
  tt,
  (
    (stored_relay-Numbered, tail (head refl), refl),
    (tt, ((twice_stored-Numbered, tail (head refl), refl), tt)),
  ),
)

run_poll_loop_delivers_example : Memᴰ for_audit (run_poll_loop same_hash polls "did:x:audit" none)
run_poll_loop_delivers_example =
    run_poll_loop_delivers same_hash polls "did:x:audit" none 0 for_audit from_start refl
      (omega arith) kept (omega arith)
