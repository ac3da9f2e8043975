-- ===== src/Coordination/Relay.antt =====
-- The relay half of cli/src/coordination/store.ts. Relayed actions are shared objects: the two maps,
-- by Action ID and by envelope hash, hold positions in one list of them. The promise of an action's
-- response is its field `response`, which is `none` until the promise resolves.
pub mod Records
pub mod Polling
pub mod Pages
pub mod PollLoop
pub mod History
mod Tests
use Prim.Native.Char.{code}
use Prim.Native.String
use mpas.Prelude.{
  ℕ, ◌+◌, ◌-◌, ◌*◌, ltb, String, Bool, true, false, not, ◌&&◌, ◌||◌, Option, none, some, List, [],
  ◌∷◌, ◌++◌, length, map, filter, any, every, get_elem?, set, take, is_some, or_else, if◌then◌else◌,
}
use mpas.Prelude.Eq.{◌==◌, string_eq, option_eq, includes}
use mpas.Prelude.Chars.{is_digit, all_chars}
use mpas.Prelude.Decimal.{decimal, digits_value}
use mpas.Prelude.Assoc.{Assoc, lookup, insert}
use mpas.Prelude.Result.{Result, ok, err, ◌>>=◌, ◌>>◌, or_error}
use mpas.Mpas.{Did, Timestamp, HashObject}
use mpas.Mpas.Json.{Json}
use mpas.Mpas.Package.{ActionPackage}
use mpas.Mpas.Response.{
  ActionResponse, ActionResult, authorization, additional_approvals_required,
  AuthorizationRequirements,
}
use mpas.Coordination.Env.{Env}
use mpas.Coordination.Errors.{
  ServiceError, action_id_conflict, invalid_request, action_not_found, action_hash_mismatch,
  permission_denied, invalid_cursor,
}
use mpas.Coordination.Validation.{
  require, validate_action_package_bindings, validate_authorization_requirements, envelope_hash,
}
use mpas.Coordination.Workflow.{ActionRef}
use mpas.Coordination.Relay.Records.{
  Purpose, initial_action, action_response, RoutingAuditEntry, DeliveryEnvelope, Payload, request,
  response, StoredRelayedAction, StoredDelivery, Relay,
}

module _ (env : Env) where
  -- The stored action at a position that a map holds.
  abbrev pub relayed_at :
      Option ℕ → List (StoredRelayedAction env) → Option (ℕ × StoredRelayedAction env)
  relayed_at none actions = none
  relayed_at (some i) actions = elim (get_elem? actions i) [ none ↦ none | some s ↦ some (i, s) ]

  pub relayed_by_hash : Relay env → String → Option (ℕ × StoredRelayedAction env)
  relayed_by_hash r hash = relayed_at (lookup hash r.relayed_actions_by_envelope_hash) r.actions

  pub relayed_by_id : Relay env → String → Option (ℕ × StoredRelayedAction env)
  relayed_by_id r id = relayed_at (lookup id r.relayed_actions_by_id) r.actions

  abbrev pub as_payload :
      {P : Type 0} → (P → Payload env) → DeliveryEnvelope env P → DeliveryEnvelope env (Payload env)
  as_payload wrap e = record {
    sender = e.sender;
    recipients = e.recipients;
    expires_at = e.expires_at;
    payload = wrap e.payload;
    payload_json = e.payload_json;
  }

  -- The deliveries of an envelope to these recipients, from a sequence number on.
  pub deliveries_to : DeliveryEnvelope env (Payload env) → ℕ → List Did → List (StoredDelivery env)
  deliveries_to e n [] = []
  deliveries_to e n (did ∷ dids) =
      record { sequence = n; recipient = did; envelope = e } ∷ deliveries_to e (n + 1) dids

  pub store_envelope : Relay env → DeliveryEnvelope env (Payload env) → Relay env
  unfolding deliveries_to
  store_envelope r e = record r {
    deliveries = r.deliveries ++ deliveries_to e r.next_delivery_sequence e.recipients;
    next_delivery_sequence = r.next_delivery_sequence + length e.recipients;
  }

  pub record_routing_audit :
      Relay env → Purpose → DeliveryEnvelope env (Payload env) → Did → Timestamp → Relay env
  record_routing_audit r purpose e verifier at = record r {
    routing_audit =
        r.routing_audit
        ++ record {
          purpose = purpose;
          sender = e.sender;
          recipients = e.recipients;
          designated_verifier_did = verifier;
          payload_hash = env.compute_json_hash e.payload_json;
          created_at = at;
        }
          ∷ [];
  }

  abbrev relay_conflict : Option (ℕ × StoredRelayedAction env) → HashObject → Bool
  relay_conflict none hash = false
  relay_conflict (some (i, s)) hash = not (s.action_ref.action_envelope_hash.value == hash.value)

  pub validate_relayed_action :
      Relay env
      → DeliveryEnvelope env (ActionPackage env.Num)
      → Did
      → Result ServiceError (Unit {0})
  unfolding relayed_by_id
  validate_relayed_action r e verifier = do
    validate_action_package_bindings env e.payload
    let hash = envelope_hash env e.payload
    require (not (relay_conflict (relayed_by_id r e.payload.action_envelope.action_id.value) hash))
        action_id_conflict
    require (includes verifier e.recipients) invalid_request

  pub store_relayed : Relay env → StoredRelayedAction env → Relay env
  store_relayed r s = record r {
    actions = r.actions ++ s ∷ [];
    relayed_actions_by_id =
        insert s.action_ref.action_id.value (length r.actions) r.relayed_actions_by_id;
    relayed_actions_by_envelope_hash =
        insert s.action_ref.action_envelope_hash.value (length r.actions)
          r.relayed_actions_by_envelope_hash;
  }

  abbrev pub new_relayed :
      DeliveryEnvelope env (ActionPackage env.Num) → Did → Timestamp → StoredRelayedAction env
  new_relayed e verifier at = record {
    envelope = e;
    action_ref = record {
      action_id = e.payload.action_envelope.action_id;
      action_envelope_hash = envelope_hash env e.payload;
    };
    verifier_did = verifier;
    created_at = at;
    response = none;
  }

  -- Whether the action is new, and the position of its response.
  pub begun :
      Relay env
      → DeliveryEnvelope env (ActionPackage env.Num)
      → Did
      → Timestamp
      → Option (ℕ × StoredRelayedAction env)
      → Relay env × Bool × ℕ
  unfolding store_relayed store_envelope record_routing_audit
  begun r e verifier at (some (i, s)) = (r, false, i)
  begun r e verifier at none =
      let sent = as_payload request e in
      let stored = store_envelope (store_relayed r (new_relayed e verifier at)) sent in
      (record_routing_audit stored initial_action sent verifier at, true, length r.actions)

  pub begin_relayed_action :
      Relay env
      → DeliveryEnvelope env (ActionPackage env.Num)
      → Did
      → Timestamp
      → Result ServiceError (Relay env × Bool × ℕ)
  unfolding validate_relayed_action relayed_by_hash begun
  begin_relayed_action r e verifier at = do
    validate_relayed_action r e verifier
    ok (begun r e verifier at (relayed_by_hash r (envelope_hash env e.payload).value))

  abbrev is_additional : ActionResult → Bool
  is_additional (authorization additional_approvals_required) = true
  is_additional _ = false

  abbrev pub relayed_proposer : StoredRelayedAction env → Did
  relayed_proposer s = s.envelope.payload.action_envelope.proposer_did

  abbrev check_requirements :
      Option AuthorizationRequirements
      → StoredRelayedAction env
      → ℕ
      → Result ServiceError (Unit {0})
  check_requirements none s now = ok tt
  check_requirements (some r) s now =
      validate_authorization_requirements env r s.action_ref.action_envelope_hash
        (some s.verifier_did) now

  -- The checks of `responseDeliveryTarget` on an action that was found.
  pub check_response :
      StoredRelayedAction env
      → DeliveryEnvelope env ActionResponse
      → HashObject
      → List Did
      → ℕ
      → Result ServiceError (Unit {0})
  check_response s e hash administrators now = do
    require (hash.alg == s.action_ref.action_envelope_hash.alg) action_hash_mismatch
    require (e.sender == s.verifier_did && e.payload.verifier_did == some s.verifier_did)
        permission_denied
    require (includes (relayed_proposer s) e.recipients) invalid_request
    require
        (not (is_additional e.payload.result && not (is_some e.payload.authorization_requirements)))
        invalid_request
    require
        (not (not (is_additional e.payload.result) && is_some e.payload.authorization_requirements))
        invalid_request
    check_requirements e.payload.authorization_requirements s now
    require (every (λ did. includes did (relayed_proposer s ∷ administrators)) e.recipients)
        permission_denied

  pub response_delivery_target :
      Relay env
      → DeliveryEnvelope env ActionResponse
      → List Did
      → ℕ
      → Result ServiceError (ℕ × StoredRelayedAction env)
  unfolding relayed_by_hash check_response
  response_delivery_target r e administrators now = do
    hash ← or_error e.payload.action_envelope_hash action_not_found
    found ← or_error (relayed_by_hash r hash.value) action_not_found
    check_response found.1 e hash administrators now
    ok found

  -- The first response resolves the promise; a later one is delivered, but changes nothing there.
  abbrev pub resolved : StoredRelayedAction env → ActionResponse → StoredRelayedAction env
  resolved s answer = elim s.response [
    | none ↦ record s { response = some answer }
    | some first ↦ s
  ]

  -- `submitResponseDelivery` behind its checks.
  pub delivered :
      Relay env
      → DeliveryEnvelope env ActionResponse
      → ℕ × StoredRelayedAction env
      → Timestamp
      → Relay env
  unfolding store_envelope record_routing_audit
  delivered r e (i, s) at =
      let sent = as_payload response e in
      let audited =
        record_routing_audit (store_envelope r sent) action_response sent s.verifier_did at in
      record audited { actions = set audited.actions i (resolved s e.payload) }

  pub submit_response_delivery :
      Relay env
      → DeliveryEnvelope env ActionResponse
      → List Did
      → ℕ
      → Timestamp
      → Result ServiceError (Relay env)
  unfolding response_delivery_target delivered
  submit_response_delivery r e administrators now at = do
    found ← response_delivery_target r e administrators now
    ok (delivered r e found at)
