-- ===== src/Coordination/Relay/Records.antt =====
-- The stored data of the relay.
use mpas.Prelude.{ℕ, String, Option, List}
use mpas.Prelude.Eq.{string_eq, option_eq}
use mpas.Prelude.Assoc.{Assoc}
use mpas.Mpas.{Did, Timestamp, HashObject}
use mpas.Mpas.Json.{Json}
use mpas.Mpas.Package.{ActionPackage}
use mpas.Mpas.Response.{ActionResponse}
use mpas.Coordination.Env.{Env}
use mpas.Coordination.Workflow.{ActionRef}

pub data Purpose : Type 0 where
  initial_action action_response : Purpose

pub record RoutingAuditEntry : Type 0 where
  pub purpose : Purpose
  pub sender : Did
  pub recipients : List Did
  pub designated_verifier_did : Did
  pub payload_hash : HashObject
  pub created_at : Timestamp

module _ (env : Env) where
  -- The payload, and the JSON that it is.
  pub record DeliveryEnvelope (P : Type 0) : Type 0 where
    pub sender : Did
    pub recipients : List Did
    pub expires_at : Option Timestamp
    pub payload : P
    pub payload_json : Json env.Num

  -- `ActionRequest` and `ActionResponse`, as the relay delivers them.
  pub data Payload : Type 0 where
    request : ActionPackage env.Num → Payload
    response : ActionResponse → Payload

  pub record StoredRelayedAction : Type 0 where
    pub envelope : DeliveryEnvelope (ActionPackage env.Num)
    pub action_ref : ActionRef
    pub verifier_did : Did
    pub created_at : Timestamp
    pub response : Option ActionResponse

  pub record StoredDelivery : Type 0 where
    pub sequence : ℕ
    pub recipient : Did
    pub envelope : DeliveryEnvelope Payload

  -- The fields of `CoordinationStore` that the relay uses.
  pub record Relay : Type 0 where
    pub actions : List StoredRelayedAction
    pub relayed_actions_by_id : Assoc String ℕ
    pub relayed_actions_by_envelope_hash : Assoc String ℕ
    pub deliveries : List StoredDelivery
    pub routing_audit : List RoutingAuditEntry
    pub next_delivery_sequence : ℕ
