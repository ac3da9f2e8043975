-- ===== src/WorkflowStore/Records.antt =====
-- The records of workflow-store.ts (sdk/protocol/src/lib) and what it throws.
use mpas.Prelude.{ℕ, String, Bool, true, false, Option, List}
use mpas.Prelude.Eq.{string_eq}
use mpas.Prelude.Assoc.{Assoc}
use mpas.Prelude.Result.{Result, ok, err}
use mpas.Mpas.{Timestamp}

-- `toISOString` and `Date.parse` (`none` is NaN).
pub record Clock : Type 0 where
  pub to_iso_string : ℕ → Timestamp
  pub date_parse : Timestamp → Option ℕ

pub data BridgeWorkflowState : Type 0 where
  created submitting_to_coordination awaiting_approvals ready_for_submission : BridgeWorkflowState
  submitting_to_verifier awaiting_verifier_result resolved unresolvable cancelled :
      BridgeWorkflowState

-- `TERMINAL_WORKFLOW_STATES.has`.
abbrev pub is_terminal : BridgeWorkflowState → Bool
is_terminal resolved = true
is_terminal unresolvable = true
is_terminal cancelled = true
is_terminal _ = false

abbrev pub same_state : BridgeWorkflowState → BridgeWorkflowState → Bool
same_state created created = true
same_state submitting_to_coordination submitting_to_coordination = true
same_state awaiting_approvals awaiting_approvals = true
same_state ready_for_submission ready_for_submission = true
same_state submitting_to_verifier submitting_to_verifier = true
same_state awaiting_verifier_result awaiting_verifier_result = true
same_state resolved resolved = true
same_state unresolvable unresolvable = true
same_state cancelled cancelled = true
same_state _ _ = false

-- The type of `fromState` of a replacement.
pub data ReplacementState : Type 0 where
  created submitting_to_verifier : ReplacementState

abbrev pub as_state : ReplacementState → BridgeWorkflowState
as_state created = created
as_state submitting_to_verifier = submitting_to_verifier

-- What the store throws.
pub data StoreError : Type 0 where
  ids_not_distinct task_exists action_exists not_in_replacement_state : StoreError

abbrev pub guard : Bool → StoreError → Result StoreError (Unit {0})
guard true e = ok tt
guard false e = err e

module _ (V : Type 0) where
  pub data WorkflowResolution : Type 0 where
    resolved : V → Option V → WorkflowResolution
    unresolvable : String → String → WorkflowResolution
    cancelled : Timestamp → WorkflowResolution

  pub record CreateWorkflowInput : Type 0 where
    pub task_id : String
    pub action_id : String
    pub action_idempotency_key : String
    pub action_envelope_hash : String
    pub tool_name : String
    pub action_package : V
    pub expires_at : Timestamp

  pub record ReplaceWorkflowActionInput : Type 0 where
    pub from_state : ReplacementState
    pub action_id : String
    pub action_idempotency_key : String
    pub action_envelope_hash : String
    pub action_package : V
    pub authorization_requirements : Option V
    pub expires_at : Timestamp

  pub record WorkflowRecord : Type 0 where
    pub task_id : String
    pub action_id : String
    pub action_idempotency_key : String
    pub action_envelope_hash : String
    pub tool_name : String
    pub state : BridgeWorkflowState
    pub action_package : V
    pub authorization_requirements : Option V
    pub coordination_ref : Option V
    pub completed_package : Option V
    pub adapter_attempts : List V
    pub last_action_response : Option V
    pub expires_at : Timestamp
    pub created_at : Timestamp
    pub updated_at : Timestamp
    pub claimed_by : Option String
    pub claim_expires_at : Option Timestamp
    pub resolved_at : Option Timestamp
    pub resolution : Option WorkflowResolution

  pub record MemoryEntry : Type 0 where
    pub workflow : WorkflowRecord
    pub claim_expires_ms : Option ℕ

  pub record MemoryWorkflowStore : Type 0 where
    pub entries : Assoc String MemoryEntry
    pub action_tasks : Assoc String String
