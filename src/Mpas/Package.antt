-- ===== src/Mpas/Package.antt =====
-- Action Envelopes, Approvals and Action Packages (sdk/protocol/src/types/mpas.ts), over a type of
-- JSON numbers, and the JSON object that an envelope is.
use mpas.Prelude.{String, Option, none, some, List}
use mpas.Mpas.{Did, Timestamp, HashObject, ActionId, Decision}
use mpas.Mpas.Json.{Json, str, obj, Members, end, member}

pub record Target (N : Type 0) : Type 0 where
  pub application_did : Did
  pub resource : Option String
  -- The profile-specific fields.
  pub fields : Members N

pub record ExecutionProfile : Type 0 where
  pub id : Did
  pub format : Option String

pub record ActionEnvelope (N : Type 0) : Type 0 where
  pub proposer_did : Did
  pub target : Target N
  pub execution_profile : ExecutionProfile
  pub execution_payload_hash : HashObject
  pub action_id : ActionId
  pub created_at : Timestamp
  pub expires_at : Timestamp

pub record Approval : Type 0 where
  pub action_envelope_hash : HashObject
  pub decision : Decision
  pub signature_value : String
  pub created_at : Timestamp
  pub expires_at : Option Timestamp

pub record ApprovalBundle : Type 0 where
  pub action_envelope_hash : HashObject
  pub approvals : List Approval
  pub assembled_by : Option Did
  pub created_at : Option Timestamp

pub record ActionPackage (N : Type 0) : Type 0 where
  pub execution_payload : Json N
  pub action_envelope : ActionEnvelope N
  pub approval_bundle : ApprovalBundle
  pub created_at : Option Timestamp

module _ {N : Type 0} where
  -- A field that is `undefined` is no member of the JSON text.
  abbrev pub optional : String → Option String → Members N → Members N
  optional k none rest = rest
  optional k (some v) rest = member k (str v) rest

  abbrev hash_json : HashObject → Json N
  hash_json h = obj (member "alg" (str h.alg) (member "value" (str h.value) end))

  abbrev action_id_json : ActionId → Json N
  action_id_json a = obj (member "value" (str a.value) (optional "scope" a.scope end))

  abbrev target_json : Target N → Json N
  target_json t =
      obj
        (member "applicationDid" (str t.application_did) (optional "resource" t.resource t.fields))

  pub envelope_json : ActionEnvelope N → Json N
  envelope_json e = obj (
      member "version" (str "1") (
        member "type" (str "ActionEnvelope") (
          member "proposer" (obj (member "did" (str e.proposer_did) end)) (
            member "target" (target_json e.target) (
              member "executionProfile"
                (obj (
                  member "id" (str e.execution_profile.id)
                    (optional "format" e.execution_profile.format end)))
                (member "executionPayloadHash" (hash_json e.execution_payload_hash) (
                  member "actionId" (action_id_json e.action_id) (
                    member "createdAt" (str e.created_at)
                      (member "expiresAt" (str e.expires_at) end)))))))))
