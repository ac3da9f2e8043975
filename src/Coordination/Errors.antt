-- ===== src/Coordination/Errors.antt =====
-- The codes of `MpasServiceError`, and the one other error that the store can let through.
pub data ServiceError : Type 0 where
  action_not_found approval_hash_mismatch approval_signer_missing : ServiceError
  approval_decision_mismatch self_approval_denied signer_decision_conflict : ServiceError
  action_not_awaiting_approvals not_proposer action_expired action_ready action_rejected :
      ServiceError
  action_id_conflict action_hash_mismatch invalid_request artifact_hash_mismatch : ServiceError
  permission_denied expired invalid_cursor : ServiceError
  -- `evaluateApprovalRequirements` throws on contradictory decisions.
  conflicting_decisions : ServiceError
