-- ===== src/Mpas/Response.antt =====
-- Authorization Requirements and Action Responses (sdk/protocol/src/types/mpas.ts): the fields that
-- the components read.
use mpas.Prelude.{String, Option}
use mpas.Mpas.{Did, Timestamp, HashObject, ApprovalRequirements}

pub data AuthorizationResult : Type 0 where
  additional_approvals_required rejected not_supported malformed policy_unavailable :
      AuthorizationResult

pub record AuthorizationRequirements : Type 0 where
  pub action_envelope_hash : HashObject
  pub result : AuthorizationResult
  pub verifier_did : Did
  -- Absent unless the result is `additionalApprovalsRequired`.
  pub approval_requirements : Option ApprovalRequirements
  pub expires_at : Option Timestamp

-- `ActionResponse.result`; the five Authorization Results are among them.
pub data ActionResult : Type 0 where
  executed pending failed indeterminate expired cancelled : ActionResult
  authorization : AuthorizationResult → ActionResult

pub record ActionResponse : Type 0 where
  pub verifier_did : Option Did
  pub action_envelope_hash : Option HashObject
  pub result : ActionResult
  pub authorization_requirements : Option AuthorizationRequirements
  pub execution_receipt : Option String
