-- ===== src/WorkflowStore/History.antt =====
-- Histories of the workflow store: the operations on workflows in any order, and what never changes.
use mpas.Prelude.{ℕ, String, ◌≡◌, refl, Option, some, List, [], ◌∷◌, ◌++◌}
use mpas.Prelude.Eq.{string_eq}
use mpas.Prelude.Assoc.{lookup}
use mpas.Prelude.Result.{Result, ok, err}
use mpas.WorkflowStore.{
  Clock, BridgeWorkflowState, StoreError, WorkflowResolution, CreateWorkflowInput,
  ReplaceWorkflowActionInput, WorkflowRecord, MemoryEntry, MemoryWorkflowStore, create_workflow,
  replace_action, moved, compare_and_set_state, claimed, claim_workflow, settled, resolve_workflow,
  cancel_workflow, save_coordination_reference, save_completed_package,
  save_authorization_requirements, save_last_action_response, save_adapter_attempt,
}
use mpas.WorkflowStore.Changes.{Keeps, same-Keeps, Keeps-refl, Keeps-trans, Stands, applied-Stands}
use mpas.WorkflowStore.Operations.{
  moved-Keeps, settled-Keeps, claimed-Keeps, create-Stands, replace-Stands, saved-Stands,
}

module _ (V : Type 0) where
  pub data Op : Type 0 where
    create : CreateWorkflowInput V → Op
    replace : String → ReplaceWorkflowActionInput V → Op
    move : String → BridgeWorkflowState → BridgeWorkflowState → Op
    claim : String → String → ℕ → Op
    save_reference : String → Option V → Op
    save_package : String → Option V → Op
    save_requirements : String → Option V → Op
    save_response : String → Option V → Op
    save_attempt : String → V → Op
    resolve : String → WorkflowResolution V → Op
    cancel : String → Op

module _ {V : Type 0} where
  abbrev pub or_unchanged :
      MemoryWorkflowStore V → Result StoreError (MemoryWorkflowStore V) → MemoryWorkflowStore V
  or_unchanged s (ok s') = s'
  or_unchanged s (err e) = s

module _ {V : Type 0} (clock : Clock) where
  pub step : MemoryWorkflowStore V → Op V → ℕ → MemoryWorkflowStore V
  step s (create input) now = or_unchanged s (create_workflow clock s input now)
  step s (replace k input) now = or_unchanged s (replace_action clock s k input now)
  step s (move k from to) now = (compare_and_set_state clock s k from to now).0
  step s (claim k worker lease) now = (claim_workflow clock s k worker lease now).0
  step s (save_reference k v) now = save_coordination_reference clock s k v now
  step s (save_package k v) now = save_completed_package clock s k v now
  step s (save_requirements k v) now = save_authorization_requirements clock s k v now
  step s (save_response k v) now = save_last_action_response clock s k v now
  step s (save_attempt k v) now = save_adapter_attempt clock s k v now
  step s (resolve k r) now = resolve_workflow clock s k r now
  step s (cancel k) now = (cancel_workflow clock s k now).0

  result-Stands :
      (s : MemoryWorkflowStore V) (k : String) (e : MemoryEntry V)
      → lookup k s.entries ≡ some e
      → (r : Result StoreError (MemoryWorkflowStore V))
      → ((s' : MemoryWorkflowStore V) → r ≡ ok s' → Stands k e s')
      → Stands k e (or_unchanged s r)
  result-Stands s k e h (ok s') f = f s' refl
  result-Stands s k e h (err x) f = (e, h, Keeps-refl e)

  step-Stands :
      (s : MemoryWorkflowStore V) (op : Op V) (now : ℕ) (k : String) (e : MemoryEntry V)
      → lookup k s.entries ≡ some e
      → Stands k e (step s op now)
  unfolding step compare_and_set_state claim_workflow resolve_workflow cancel_workflow
      save_coordination_reference save_completed_package save_authorization_requirements
      save_last_action_response save_adapter_attempt
  step-Stands s (create input) now k e h =
      result-Stands s k e h (create_workflow clock s input now)
        (λ s'. create-Stands clock s s' input now k e h)
  step-Stands s (replace j input) now k e h =
      result-Stands s k e h (replace_action clock s j input now)
        (λ s'. replace-Stands clock s s' j input now k e h)
  step-Stands s (move j from to) now k e h =
      applied-Stands s j k e (moved from to (clock.to_iso_string now))
        (moved-Keeps from to (clock.to_iso_string now)) h
  step-Stands s (claim j worker lease) now k e h =
      applied-Stands s j k e (claimed clock worker lease now) (claimed-Keeps clock worker lease now)
        h
  step-Stands s (save_reference j v) now k e h =
      saved-Stands clock s j k e (λ (r : WorkflowRecord V). record r { coordination_ref = v }) now
        (λ d. same-Keeps d _ refl refl refl refl refl refl) h
  step-Stands s (save_package j v) now k e h =
      saved-Stands clock s j k e (λ (r : WorkflowRecord V). record r { completed_package = v }) now
        (λ d. same-Keeps d _ refl refl refl refl refl refl) h
  step-Stands s (save_requirements j v) now k e h =
      saved-Stands clock s j k e
        (λ (r : WorkflowRecord V). record r { authorization_requirements = v }) now
        (λ d. same-Keeps d _ refl refl refl refl refl refl) h
  step-Stands s (save_response j v) now k e h =
      saved-Stands clock s j k e (λ (r : WorkflowRecord V). record r { last_action_response = v })
        now (λ d. same-Keeps d _ refl refl refl refl refl refl) h
  step-Stands s (save_attempt j v) now k e h =
      saved-Stands clock s j k e
        (λ (r : WorkflowRecord V). record r { adapter_attempts = r.adapter_attempts ++ v ∷ [] }) now
        (λ d. same-Keeps d _ refl refl refl refl refl refl) h
  step-Stands s (resolve j r) now k e h =
      applied-Stands s j k e (settled r (clock.to_iso_string now))
        (settled-Keeps r (clock.to_iso_string now)) h
  step-Stands s (cancel j) now k e h =
      applied-Stands s j k e
        (settled (WorkflowResolution.cancelled (clock.to_iso_string now)) (clock.to_iso_string now))
        (settled-Keeps (WorkflowResolution.cancelled (clock.to_iso_string now))
          (clock.to_iso_string now))
        h

  -- Each operation with the time at which it runs.
  pub run : MemoryWorkflowStore V → List (Op V × ℕ) → MemoryWorkflowStore V
  run s [] = s
  run s ((op, now) ∷ ops) = run (step s op now) ops

-- The first resolution wins: in every history of the store's operations without a purge, a workflow
-- is never lost, and once its state is terminal, the state, the resolution and the time of the
-- resolution never change.
pub first_resolution_wins :
    {V : Type 0} (clock : Clock) (ops : List (Op V × ℕ)) (s : MemoryWorkflowStore V) (k : String)
    (e : MemoryEntry V)
    → lookup k s.entries ≡ some e
    → (e' : MemoryEntry V) × (lookup k (run clock s ops).entries ≡ some e') × Keeps e e'
unfolding run
first_resolution_wins clock [] s k e h = (e, h, Keeps-refl e)
first_resolution_wins clock ((op, now) ∷ ops) s k e h =
    let (e', here, first) = step-Stands clock s op now k e h in
    let (e'', there, rest) = first_resolution_wins clock ops (step clock s op now) k e' here in
    (e'', there, Keeps-trans first rest)
