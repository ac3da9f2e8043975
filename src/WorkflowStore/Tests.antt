-- ===== src/WorkflowStore/Tests.antt =====
-- The workflow store on one workflow.
use mathlib.Core.Bool.{false≢true}
use mpas.Prelude.{String, eq_iff, ◌≢◌, ℕ, ◌≡◌, refl, true, false, none, some, List, [], ◌∷◌, arith}
use mpas.Prelude.Eq.{string_eq}
use mpas.Prelude.Assoc.{lookup}
use mpas.WorkflowStore.{
  Clock, WorkflowResolution, MemoryEntry, MemoryWorkflowStore, claim_workflow, held, claimed,
  awaiting_verifier_result, MemoryEntry,
}
use mpas.WorkflowStore.Changes.{Keeps}
use mpas.WorkflowStore.History.{Op, claim, resolve, cancel, run, first_resolution_wins}
use mpas.WorkflowStore.Claims.{claim_excludes}

abbrev clock : Clock
clock = record { to_iso_string = λ n. "t"; date_parse = λ t. none }

abbrev entry : MemoryEntry ℕ
entry = record {
  workflow = record {
    task_id = "task";
    action_id = "action";
    action_idempotency_key = "key";
    action_envelope_hash = "hash";
    tool_name = "transfer";
    state = awaiting_verifier_result;
    action_package = 0;
    authorization_requirements = none;
    coordination_ref = none;
    completed_package = none;
    adapter_attempts = [];
    last_action_response = none;
    expires_at = "t9";
    created_at = "t0";
    updated_at = "t0";
    claimed_by = none;
    claim_expires_at = none;
    resolved_at = none;
    resolution = none;
  };
  claim_expires_ms = none;
}

abbrev one_workflow : MemoryWorkflowStore ℕ
one_workflow = record { entries = ("task", entry) ∷ []; action_tasks = ("action", "task") ∷ [] }

abbrev resolved_twice : List (Op ℕ × ℕ)
resolved_twice =
    (resolve "task" (WorkflowResolution.resolved 7 none), 1)
    ∷ (cancel "task", 2)
    ∷ (claim "task" "worker" 10, 3)
    ∷ []

first_resolution_wins_example :
    (e' : MemoryEntry ℕ) × (lookup "task" (run clock one_workflow resolved_twice).entries ≡ some e')
    × Keeps entry e'
first_resolution_wins_example =
    first_resolution_wins clock resolved_twice one_workflow "task" entry (unfold lookup in refl)

claim_granted : (claim_workflow clock one_workflow "task" "ann" 10 5).1 ≡ true
unfolding claim_workflow claimed held lookup
claim_granted = refl

bob_is_not_ann : ◌≢◌ {A = String} "bob" "ann"
bob_is_not_ann h = false≢true ((eq_iff "bob" "ann").1 h)

claim_excludes_example :
    (claim_workflow clock
      (claim_workflow clock one_workflow "task" "ann" 10 5).0
      "task"
      "bob"
      3
      14).1
    ≡ false
claim_excludes_example =
    claim_excludes clock one_workflow "task" "ann" "bob" 10 3 5 14 claim_granted bob_is_not_ann
      (omega arith)
