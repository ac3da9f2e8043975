-- ===== src/WorkflowStore/Changes.antt =====
-- What a change of one entry keeps.
use mpas.Prelude.{
  String, eq_iff, ◌≡◌, refl, sym, ap, ◌∙◌, Bool, true, false, Option, none, some, Bool-cases, inl,
  inr, if◌then◌else◌,
}
use mpas.Prelude.Eq.{◌==◌, string_eq}
use mpas.Prelude.Assoc.{Assoc, lookup, insert, lookup-insert}
use mpas.WorkflowStore.{is_terminal, MemoryEntry, MemoryWorkflowStore, changed}

module _ {V : Type 0} where
  -- A terminal workflow keeps its state, resolution and time of resolution.
  pub record Keeps (e e' : MemoryEntry V) : Type 0 where
    pub task_id : e'.workflow.task_id ≡ e.workflow.task_id
    pub tool_name : e'.workflow.tool_name ≡ e.workflow.tool_name
    pub created_at : e'.workflow.created_at ≡ e.workflow.created_at
    pub state : is_terminal e.workflow.state ≡ true → e'.workflow.state ≡ e.workflow.state
    pub resolution :
        is_terminal e.workflow.state ≡ true → e'.workflow.resolution ≡ e.workflow.resolution
    pub resolved_at :
        is_terminal e.workflow.state ≡ true → e'.workflow.resolved_at ≡ e.workflow.resolved_at

  pub same-Keeps :
      (d d' : MemoryEntry V)
      → d'.workflow.task_id ≡ d.workflow.task_id
      → d'.workflow.tool_name ≡ d.workflow.tool_name
      → d'.workflow.created_at ≡ d.workflow.created_at
      → d'.workflow.state ≡ d.workflow.state
      → d'.workflow.resolution ≡ d.workflow.resolution
      → d'.workflow.resolved_at ≡ d.workflow.resolved_at
      → Keeps d d'
  same-Keeps d d' a b c x y z = record {
    task_id = a;
    tool_name = b;
    created_at = c;
    state = λ h. x;
    resolution = λ h. y;
    resolved_at = λ h. z;
  }

  pub Keeps-refl : (e : MemoryEntry V) → Keeps e e
  Keeps-refl e = record {
    task_id = refl;
    tool_name = refl;
    created_at = refl;
    state = λ h. refl;
    resolution = λ h. refl;
    resolved_at = λ h. refl;
  }

  pub Keeps-trans : {a b c : MemoryEntry V} → Keeps a b → Keeps b c → Keeps a c
  Keeps-trans p q = record {
    task_id = q.task_id ∙ p.task_id;
    tool_name = q.tool_name ∙ p.tool_name;
    created_at = q.created_at ∙ p.created_at;
    state = λ h. q.state (ap is_terminal (p.state h) ∙ h) ∙ p.state h;
    resolution = λ h. q.resolution (ap is_terminal (p.state h) ∙ h) ∙ p.resolution h;
    resolved_at = λ h. q.resolved_at (ap is_terminal (p.state h) ∙ h) ∙ p.resolved_at h;
  }

  -- The workflow is still there.
  abbrev pub Stands : String → MemoryEntry V → MemoryWorkflowStore V → Type 0
  Stands k e s = (e' : MemoryEntry V) × (lookup k s.entries ≡ some e') × Keeps e e'

module _ {V : Type 0} where
  -- The entry under `j` is replaced, if there is something to replace it by.
  pub changed-Stands :
      (s : MemoryWorkflowStore V) (j k : String) (e : MemoryEntry V) (o : Option (MemoryEntry V))
      → ((d d' : MemoryEntry V) → lookup j s.entries ≡ some d → o ≡ some d' → Keeps d d')
      → lookup k s.entries ≡ some e
      → Stands k e (changed s j o).0
  changed-Stands s j k e none keeps h = (e, h, Keeps-refl e)
  changed-Stands s j k e (some d) keeps h = elim (Bool-cases (j == k)) [
    | inl x ↦
        let here : lookup j s.entries ≡ some e =
          ap (λ (i : String). lookup i s.entries) ((eq_iff j k).0 x) ∙ h in
        (
          d,
          lookup-insert j k d s.entries
              ∙ ap (λ (b : Bool). if b then some d else lookup k s.entries) x,
          keeps e d here refl,
        )
    | inr x ↦ (
      e,
      lookup-insert j k d s.entries
          ∙ ap (λ (b : Bool). if b then some d else lookup k s.entries) x
          ∙ h,
      Keeps-refl e,
    )
  ]

  pub applied-Stands :
      (s : MemoryWorkflowStore V) (j k : String) (e : MemoryEntry V)
      (f : Option (MemoryEntry V) → Option (MemoryEntry V))
      → ((d d' : MemoryEntry V) → f (some d) ≡ some d' → Keeps d d')
      → lookup k s.entries ≡ some e
      → Stands k e (changed s j (f (lookup j s.entries))).0
  applied-Stands s j k e f keeps h =
      changed-Stands s j k e (f (lookup j s.entries))
        (λ d d' here g. keeps d d' (sym (ap f here) ∙ g)) h

  pub insert_elsewhere :
      (j k : String) (d : MemoryEntry V) (entries : Assoc String (MemoryEntry V))
      → (j == k) ≡ false
      → lookup k (insert j d entries) ≡ lookup k entries
  insert_elsewhere j k d entries x =
      lookup-insert j k d entries ∙ ap (λ (b : Bool). if b then some d else lookup k entries) x
