-- ===== src/WorkflowStore/Operations.antt =====
-- What each operation keeps of the entries.
use mathlib.Core.Bool.{true≢false}
use mpas.Prelude.{
  ℕ, String, eq_iff, ◌≡◌, ◌≢◌, refl, sym, ap, ◌∙◌, Bool, true, false, not, Option, none, some,
  arith, Bool-cases, inl, inr, if◌then◌else◌, some_inj,
}
use mpas.Prelude.Eq.{◌==◌, string_eq}
use mpas.Prelude.Assoc.{Assoc, lookup, has}
use mpas.Prelude.Result.{Result, ok, ◌>>◌}
use mpas.Mpas.{Timestamp}
use mpas.WorkflowStore.{
  Clock, BridgeWorkflowState, is_terminal, same_state, StoreError, WorkflowResolution,
  CreateWorkflowInput, ReplaceWorkflowActionInput, WorkflowRecord, MemoryEntry, MemoryWorkflowStore,
  guard, ids_not_distinct, task_exists, action_exists, not_in_replacement_state, as_state,
  ReplacementState, store_workflow, create_workflow, replaced, replace_found, replace_action, moved,
  claimed, mutated, mutate, settled,
}
use mpas.WorkflowStore.Changes.{
  Keeps, Keeps-refl, Stands, changed-Stands, applied-Stands, insert_elsewhere,
}

pub unless_some {ℓ} :
    {A : Type ℓ} (b : Bool) (a c : A)
    → (if b then none else some a) ≡ some c
    → (b ≡ false) × (a ≡ c)
unless_some true a c h = cc
unless_some false a c h = (refl, some_inj h)

pub guarded {ℓ} :
    {A : Type ℓ} (b : Bool) (e : StoreError) (m : Result StoreError A) (a : A)
    → (guard b e >> m) ≡ ok a
    → (b ≡ true) × (m ≡ ok a)
guarded true e m a h = (refl, h)
guarded false e m a h = cc

pub ok_inj {ℓ} : {A : Type ℓ} (a b : A) → ok a ≡ (let r : Result StoreError A = ok b in r) → a ≡ b
ok_inj a b h = cc

pub not_final : (r : ReplacementState) → is_terminal (as_state r) ≡ false
not_final r = ground arith

pub same_state_lem : (a b : BridgeWorkflowState) → same_state a b ≡ true → a ≡ b
same_state_lem a b h = ground arith

module _ {V : Type 0} where
  pub taken :
      (k : String) (e : MemoryEntry V) (entries : Assoc String (MemoryEntry V))
      → lookup k entries ≡ some e
      → not (has k entries) ≢ true
  taken k e entries h = ground (arith, h)

  pub replaceable :
      (d : MemoryEntry V) (input : ReplaceWorkflowActionInput V)
      → same_state d.workflow.state (as_state input.from_state) ≡ true
      → is_terminal d.workflow.state ≡ false
  replaceable d input h =
      ap is_terminal (same_state_lem d.workflow.state (as_state input.from_state) h)
      ∙ not_final input.from_state

  -- What is not terminal may become anything.
  pub live-Keeps :
      (d d' : MemoryEntry V)
      → is_terminal d.workflow.state ≡ false
      → d'.workflow.task_id ≡ d.workflow.task_id
      → d'.workflow.tool_name ≡ d.workflow.tool_name
      → d'.workflow.created_at ≡ d.workflow.created_at
      → Keeps d d'
  live-Keeps d d' n a b c = record {
    task_id = a;
    tool_name = b;
    created_at = c;
    state = λ h. absurd (true≢false (sym h ∙ n));
    resolution = λ h. absurd (true≢false (sym h ∙ n));
    resolved_at = λ h. absurd (true≢false (sym h ∙ n));
  }

  pub moved-Keeps :
      (from to : BridgeWorkflowState) (at : Timestamp) (d d' : MemoryEntry V)
      → moved from to at (some d) ≡ some d'
      → Keeps d d'
  unfolding moved
  moved-Keeps from to at d d' h =
      let (live, same) = unless_some _ _ d' h in
      let running : is_terminal d.workflow.state ≡ false =
        ground (arith, live, same_state_lem d.workflow.state from) in
      rw (← same) (live-Keeps d _ running refl refl refl)

  pub settled-Keeps :
      (r : WorkflowResolution V) (at : Timestamp) (d d' : MemoryEntry V)
      → settled r at (some d) ≡ some d'
      → Keeps d d'
  unfolding settled
  settled-Keeps r at d d' h =
      let (live, same) = unless_some _ _ d' h in rw (← same) (live-Keeps d _ live refl refl refl)

  pub mutated-Keeps :
      (apply : WorkflowRecord V → WorkflowRecord V) (at : Timestamp) (d d' : MemoryEntry V)
      → Keeps d (record d { workflow = apply d.workflow })
      → mutated apply at (some d) ≡ some d'
      → Keeps d d'
  unfolding mutated
  mutated-Keeps apply at d d' p h = rw (← some_inj h) (record {
    task_id = p.task_id;
    tool_name = p.tool_name;
    created_at = p.created_at;
    state = p.state;
    resolution = p.resolution;
    resolved_at = p.resolved_at;
  })

module _ {V : Type 0} (clock : Clock) where
  pub claimed-Keeps :
      (worker : String) (lease now : ℕ) (d d' : MemoryEntry V)
      → claimed clock worker lease now (some d) ≡ some d'
      → Keeps d d'
  unfolding claimed
  claimed-Keeps worker lease now d d' h =
      let (live, same) = unless_some _ _ d' h in
      rw (← same) (record {
        task_id = refl;
        tool_name = refl;
        created_at = refl;
        state = λ t. refl;
        resolution = λ t. refl;
        resolved_at = λ t. refl;
      })

  pub create-Stands :
      (s s' : MemoryWorkflowStore V) (input : CreateWorkflowInput V) (now : ℕ) (k : String)
      (e : MemoryEntry V)
      → lookup k s.entries ≡ some e
      → create_workflow clock s input now ≡ ok s'
      → Stands k e s'
  unfolding create_workflow store_workflow
  create-Stands s s' input now k e h c =
      let (u, p) = guarded _ ids_not_distinct _ s' c in
      let (free, q) = guarded _ task_exists _ s' p in
      let (v, r) =
        guarded (not (has input.action_id s.action_tasks)) action_exists
          (ok (store_workflow s input (clock.to_iso_string now))) s' q in
      elim (Bool-cases (input.task_id == k)) [
        | inl x ↦ absurd (
            taken k e s.entries h (
              ap (λ (i : String). not (has i s.entries)) (sym ((eq_iff input.task_id k).0 x))
              ∙ free))
        | inr x ↦ (
          e,
          ap (λ (m : MemoryWorkflowStore V). lookup k m.entries) (sym (ok_inj _ s' r))
              ∙ insert_elsewhere input.task_id k _ s.entries x
              ∙ h,
          Keeps-refl e,
        )
      ]

  pub replace_found-Stands :
      (s s' : MemoryWorkflowStore V) (j : String) (input : ReplaceWorkflowActionInput V) (now : ℕ)
      (k : String) (e : MemoryEntry V)
      → lookup k s.entries ≡ some e
      → (o : Option (MemoryEntry V)) → lookup j s.entries ≡ o
      → replace_found clock s j input now o ≡ ok s'
      → Stands k e s'
  unfolding replace_found replaced
  replace_found-Stands s s' j input now k e h none g c = cc
  replace_found-Stands s s' j input now k e h (some d) g c =
      let (same, p) = guarded _ not_in_replacement_state _ s' c in
      let (v, q) = guarded _ action_exists _ s' p in
      let new : MemoryEntry V = replaced input (clock.to_iso_string now) d in
      let (e', here, keeps) =
        changed-Stands s j k e (some new)
          (λ d0 d' found made.
            rw (← some_inj made, ← some_inj (sym g ∙ found))
              (live-Keeps d new (replaceable d input same) refl refl refl))
          h in
      (
        e',
        ap (λ (m : MemoryWorkflowStore V). lookup k m.entries) (sym (ok_inj _ s' q)) ∙ here,
        keeps,
      )

  pub replace-Stands :
      (s s' : MemoryWorkflowStore V) (j : String) (input : ReplaceWorkflowActionInput V) (now : ℕ)
      (k : String) (e : MemoryEntry V)
      → lookup k s.entries ≡ some e
      → replace_action clock s j input now ≡ ok s'
      → Stands k e s'
  unfolding replace_action
  replace-Stands s s' j input now k e h c =
      let (u, p) = guarded _ ids_not_distinct _ s' c in
      replace_found-Stands s s' j input now k e h (lookup j s.entries) refl p

  pub saved-Stands :
      (s : MemoryWorkflowStore V) (j k : String) (e : MemoryEntry V)
      (apply : WorkflowRecord V → WorkflowRecord V) (now : ℕ)
      → ((d : MemoryEntry V) → Keeps d (record d { workflow = apply d.workflow }))
      → lookup k s.entries ≡ some e
      → Stands k e (mutate clock s j apply now)
  unfolding mutate
  saved-Stands s j k e apply now keeps h =
      applied-Stands s j k e (mutated apply (clock.to_iso_string now))
        (λ d d' g. mutated-Keeps apply (clock.to_iso_string now) d d' (keeps d) g) h
