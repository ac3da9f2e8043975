-- ===== src/WorkflowStore/Claims.antt =====
-- Worker claims: a lease keeps every other worker out until it expires.
use mathlib.Core.Bool.{false≢true}
use mpas.Prelude.{
  ℕ, ◌+◌, ◌<◌, String, eq_iff, ◌≡◌, ◌≢◌, refl, Bool, true, false, ◌||◌, Option, none, some, arith,
}
use mpas.Prelude.Eq.{string_eq}
use mpas.Prelude.Assoc.{lookup, lookup-insert_self}
use mpas.WorkflowStore.Operations.{unless_some}
use mpas.WorkflowStore.{
  Clock, is_terminal, MemoryEntry, MemoryWorkflowStore, changed, held, claimed, claim_workflow,
}

or_true : (b : Bool) → (b || true) ≡ true
or_true b = ground arith

module _ {V : Type 0} (clock : Clock) where
  changed_entry :
      (s : MemoryWorkflowStore V) (k : String) (o : Option (MemoryEntry V))
      → (changed s k o).1 ≡ true
      → (e : MemoryEntry V) × (o ≡ some e) × (lookup k (changed s k o).0.entries ≡ some e)
  changed_entry s k none h = absurd (false≢true h)
  changed_entry s k (some e) h = (e, refl, lookup-insert_self k e s.entries)

  -- A claim that is granted leaves the worker and the end of its lease in the entry.
  claimed_lease :
      (w : String) (lease now : ℕ) (o : Option (MemoryEntry V)) (e : MemoryEntry V)
      → claimed clock w lease now o ≡ some e
      → (e.workflow.claimed_by ≡ some w) × (e.claim_expires_ms ≡ some (now + lease))
  unfolding claimed
  claimed_lease w lease now none e h = cc
  claimed_lease w lease now (some d) e h =
      let (live, same) = unless_some _ _ e h in rw (← same) (refl, refl)

  held_lem :
      (e : MemoryEntry V) (w other : String) (until now : ℕ)
      → e.workflow.claimed_by ≡ some w
      → e.claim_expires_ms ≡ some until
      → other ≢ w
      → now < until
      → held e other now ≡ true
  unfolding held
  held_lem e w other until now a b n t = ground (arith, a, b, t, eq_iff w other, n)

  refused :
      (s : MemoryWorkflowStore V) (k w : String) (lease now : ℕ) (e : MemoryEntry V)
      → lookup k s.entries ≡ some e
      → held e w now ≡ true
      → (claim_workflow clock s k w lease now).1 ≡ false
  unfolding claim_workflow claimed
  refused s k w lease now e h b = rw (h, b, or_true (is_terminal e.workflow.state)) refl

-- Claims exclude each other: after a worker's claim is granted, another worker's claim of the same
-- workflow is refused at every time before the lease ends, whatever lease it asks for.
pub claim_excludes :
    {V : Type 0} (clock : Clock) (s : MemoryWorkflowStore V) (k w other : String)
    (lease other_lease now later : ℕ)
    → (claim_workflow clock s k w lease now).1 ≡ true
    → other ≢ w
    → later < now + lease
    → (claim_workflow clock (claim_workflow clock s k w lease now).0 k other other_lease later).1
      ≡ false
claim_excludes clock s k w other lease other_lease now later granted n early =
    let (e, made, here) =
      changed_entry clock s k (claimed clock w lease now (lookup k s.entries))
        (unfold claim_workflow in granted) in
    let (by, until) = claimed_lease clock w lease now (lookup k s.entries) e made in
    refused clock (claim_workflow clock s k w lease now).0 k other other_lease later e
      (unfold claim_workflow in here)
      (held_lem clock e w other (now + lease) later by until n early)
