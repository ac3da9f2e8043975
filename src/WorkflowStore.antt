-- ===== src/WorkflowStore.antt =====
-- sdk/protocol/src/lib/workflow-store.ts: `MemoryWorkflowStore`, the Proposer bridge's record of its
-- workflows. Values that the source types `unknown` are of a type `V`; copying them changes nothing
-- here. `now` is what the store's clock shows, in milliseconds.
mod Records
pub use Records.*
pub mod Changes
pub mod Operations
pub mod History
pub mod Claims
mod Tests
use mpas.Prelude.{
  ℕ, ◌+◌, ltb, max, String, Bool, true, false, not, ◌&&◌, ◌||◌, Option, none, some, List, [], ◌∷◌,
  ◌++◌, map, filter, or_else, is_some, if◌then◌else◌,
}
use mpas.Prelude.Eq.{◌==◌, string_eq}
use mpas.Prelude.Assoc.{Assoc, lookup, insert, erase, has}
use mpas.Prelude.Result.{Result, ok, err, ◌>>=◌, ◌>>◌}
use mpas.Mpas.{Timestamp}

-- `nowMs > keepUntil`; false where a date is not one.
past_retention : Option ℕ → Option ℕ → ℕ → ℕ → Bool
past_retention (some expires_at) (some resolved_at) retention_ms now =
    ltb (max expires_at (resolved_at + retention_ms)) now
past_retention _ _ retention_ms now = false

module _ {V : Type 0} where
  new_record : CreateWorkflowInput V → Timestamp → WorkflowRecord V
  new_record input at = record {
    task_id = input.task_id;
    action_id = input.action_id;
    action_idempotency_key = input.action_idempotency_key;
    action_envelope_hash = input.action_envelope_hash;
    tool_name = input.tool_name;
    state = created;
    action_package = input.action_package;
    authorization_requirements = none;
    coordination_ref = none;
    completed_package = none;
    adapter_attempts = [];
    last_action_response = none;
    expires_at = input.expires_at;
    created_at = at;
    updated_at = at;
    claimed_by = none;
    claim_expires_at = none;
    resolved_at = none;
    resolution = none;
  }

  pub store_workflow :
      MemoryWorkflowStore V → CreateWorkflowInput V → Timestamp → MemoryWorkflowStore V
  unfolding new_record
  store_workflow s input at = record {
    entries =
        insert input.task_id (record { workflow = new_record input at; claim_expires_ms = none })
          s.entries;
    action_tasks = insert input.action_id input.task_id s.action_tasks;
  }

  -- The assignments of `replaceAction`.
  pub replaced : ReplaceWorkflowActionInput V → Timestamp → MemoryEntry V → MemoryEntry V
  replaced input at e = record e {
    workflow = record (e.workflow) {
      action_id = input.action_id;
      action_idempotency_key = input.action_idempotency_key;
      action_envelope_hash = input.action_envelope_hash;
      action_package = input.action_package;
      authorization_requirements = input.authorization_requirements;
      expires_at = input.expires_at;
      state = submitting_to_coordination;
      coordination_ref = none;
      completed_package = none;
      updated_at = at;
    };
  }

  -- An entry that is changed in place, and what is answered.
  abbrev pub changed :
      MemoryWorkflowStore V → String → Option (MemoryEntry V) → MemoryWorkflowStore V × Bool
  changed s task_id none = (s, false)
  changed s task_id (some e) = (record s { entries = insert task_id e s.entries }, true)

  pub moved :
      BridgeWorkflowState
      → BridgeWorkflowState
      → Timestamp
      → Option (MemoryEntry V)
      → Option (MemoryEntry V)
  moved from to at none = none
  moved from to at (some e) =
      if is_terminal from || (is_terminal to || not (same_state e.workflow.state from))
      then none
      else some (record e { workflow = record (e.workflow) { state = to; updated_at = at } })

  -- Another worker's lease that has not expired.
  pub held : MemoryEntry V → String → ℕ → Bool
  held e worker_id now =
      elim e.workflow.claimed_by [ none ↦ false | some w ↦ not (w == worker_id) ]
      && ltb now (or_else e.claim_expires_ms 0)

  -- `mutate`: the change, then the time.
  pub mutated :
      (WorkflowRecord V → WorkflowRecord V)
      → Timestamp
      → Option (MemoryEntry V)
      → Option (MemoryEntry V)
  mutated apply at none = none
  mutated apply at (some e) =
      some (record e { workflow = record (apply e.workflow) { updated_at = at } })

  -- `state = resolution.kind`.
  abbrev pub kind : WorkflowResolution V → BridgeWorkflowState
  kind (resolved _ _) = resolved
  kind (unresolvable _ _) = unresolvable
  kind (cancelled _) = cancelled

  -- The first resolution wins.
  pub settled : WorkflowResolution V → Timestamp → Option (MemoryEntry V) → Option (MemoryEntry V)
  settled r at none = none
  settled r at (some e) =
      if is_terminal e.workflow.state
      then none
      else some (record e {
        workflow = record (e.workflow) {
          state = kind r;
          resolution = some r;
          resolved_at = some at;
          updated_at = at;
        };
      })

module _ {V : Type 0} (clock : Clock) where
  pub create_workflow :
      MemoryWorkflowStore V → CreateWorkflowInput V → ℕ → Result StoreError (MemoryWorkflowStore V)
  unfolding store_workflow
  create_workflow s input now = do
    guard (not (input.task_id == input.action_id)) ids_not_distinct
    guard (not (has input.task_id s.entries)) task_exists
    guard (not (has input.action_id s.action_tasks)) action_exists
    ok (store_workflow s input (clock.to_iso_string now))

  pub get_workflow : MemoryWorkflowStore V → String → Option (WorkflowRecord V)
  get_workflow s task_id = elim (lookup task_id s.entries) [
    | none ↦ none
    | some e ↦ some e.workflow
  ]

  pub get_workflow_by_action_id : MemoryWorkflowStore V → String → Option (WorkflowRecord V)
  unfolding get_workflow
  get_workflow_by_action_id s action_id = elim (lookup action_id s.action_tasks) [
    | none ↦ none
    | some task_id ↦ get_workflow s task_id
  ]

  pub replace_found :
      MemoryWorkflowStore V
      → String
      → ReplaceWorkflowActionInput V
      → ℕ
      → Option (MemoryEntry V)
      → Result StoreError (MemoryWorkflowStore V)
  unfolding replaced
  replace_found s task_id input now none = err not_in_replacement_state
  replace_found s task_id input now (some e) = do
    guard (same_state e.workflow.state (as_state input.from_state)) not_in_replacement_state
    guard (not (has input.action_id s.action_tasks)) action_exists
    ok (record {
      entries = insert task_id (replaced input (clock.to_iso_string now) e) s.entries;
      action_tasks = insert input.action_id task_id s.action_tasks;
    })

  pub replace_action :
      MemoryWorkflowStore V
      → String
      → ReplaceWorkflowActionInput V
      → ℕ
      → Result StoreError (MemoryWorkflowStore V)
  unfolding replace_found
  replace_action s task_id input now = do
    guard (not (task_id == input.action_id)) ids_not_distinct
    replace_found s task_id input now (lookup task_id s.entries)

  pub compare_and_set_state :
      MemoryWorkflowStore V
      → String
      → BridgeWorkflowState
      → BridgeWorkflowState
      → ℕ
      → MemoryWorkflowStore V × Bool
  unfolding moved
  compare_and_set_state s task_id from to now =
      changed s task_id (moved from to (clock.to_iso_string now) (lookup task_id s.entries))

  pub claimed : String → ℕ → ℕ → Option (MemoryEntry V) → Option (MemoryEntry V)
  unfolding held
  claimed worker_id lease_ms now none = none
  claimed worker_id lease_ms now (some e) =
      if is_terminal e.workflow.state || held e worker_id now
      then none
      else some (record {
        workflow = record (e.workflow) {
          claimed_by = some worker_id;
          claim_expires_at = some (clock.to_iso_string (now + lease_ms));
          updated_at = clock.to_iso_string now;
        };
        claim_expires_ms = some (now + lease_ms);
      })

  pub claim_workflow :
      MemoryWorkflowStore V → String → String → ℕ → ℕ → MemoryWorkflowStore V × Bool
  unfolding claimed
  claim_workflow s task_id worker_id lease_ms now =
      changed s task_id (claimed worker_id lease_ms now (lookup task_id s.entries))

  pub mutate :
      MemoryWorkflowStore V
      → String
      → (WorkflowRecord V → WorkflowRecord V)
      → ℕ
      → MemoryWorkflowStore V
  unfolding mutated
  mutate s task_id apply now =
      (changed s task_id (mutated apply (clock.to_iso_string now) (lookup task_id s.entries))).0

  pub save_coordination_reference :
      MemoryWorkflowStore V → String → Option V → ℕ → MemoryWorkflowStore V
  unfolding mutate
  save_coordination_reference s task_id ref now =
      mutate s task_id (λ r. record r { coordination_ref = ref }) now

  pub save_completed_package : MemoryWorkflowStore V → String → Option V → ℕ → MemoryWorkflowStore V
  unfolding mutate
  save_completed_package s task_id p now =
      mutate s task_id (λ r. record r { completed_package = p }) now

  pub save_authorization_requirements :
      MemoryWorkflowStore V → String → Option V → ℕ → MemoryWorkflowStore V
  unfolding mutate
  save_authorization_requirements s task_id v now =
      mutate s task_id (λ r. record r { authorization_requirements = v }) now

  pub save_last_action_response :
      MemoryWorkflowStore V → String → Option V → ℕ → MemoryWorkflowStore V
  unfolding mutate
  save_last_action_response s task_id v now =
      mutate s task_id (λ r. record r { last_action_response = v }) now

  pub save_adapter_attempt : MemoryWorkflowStore V → String → V → ℕ → MemoryWorkflowStore V
  unfolding mutate
  save_adapter_attempt s task_id v now =
      mutate s task_id (λ r. record r { adapter_attempts = r.adapter_attempts ++ v ∷ [] }) now

  pub resolve_workflow :
      MemoryWorkflowStore V → String → WorkflowResolution V → ℕ → MemoryWorkflowStore V
  unfolding settled
  resolve_workflow s task_id r now =
      (changed s task_id (settled r (clock.to_iso_string now) (lookup task_id s.entries))).0

  pub cancel_workflow : MemoryWorkflowStore V → String → ℕ → MemoryWorkflowStore V × Bool
  unfolding settled
  cancel_workflow s task_id now = changed s task_id (
      settled (cancelled (clock.to_iso_string now)) (clock.to_iso_string now)
        (lookup task_id s.entries))

  pub is_purgeable : MemoryEntry V → ℕ → ℕ → Bool
  unfolding past_retention
  is_purgeable e retention_ms now = is_terminal e.workflow.state && elim e.workflow.resolved_at [
    | none ↦ false
    | some at ↦
        past_retention (clock.date_parse e.workflow.expires_at) (clock.date_parse at) retention_ms
          now
  ]

  -- The loop over the entries that stood in the map at its start.
  purge_from :
      Assoc String (MemoryEntry V) → MemoryWorkflowStore V → ℕ → ℕ → MemoryWorkflowStore V × ℕ
  unfolding is_purgeable
  purge_from [] s retention_ms now = (s, 0)
  purge_from ((task_id, e) ∷ rest) s retention_ms now =
      let purged : MemoryWorkflowStore V = record {
        entries = erase task_id s.entries;
        action_tasks = filter (λ p. not (p.1 == task_id)) s.action_tasks;
      } in
      let kept = purge_from rest s retention_ms now in
      let gone = purge_from rest purged retention_ms now in
      if is_purgeable e retention_ms now then (gone.0, gone.1 + 1) else kept

  pub purge_expired_results : MemoryWorkflowStore V → ℕ → ℕ → MemoryWorkflowStore V × ℕ
  unfolding purge_from
  purge_expired_results s retention_ms now = purge_from s.entries s retention_ms now
