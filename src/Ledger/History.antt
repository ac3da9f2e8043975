-- ===== src/Ledger/History.antt =====
-- Histories of a ledger: submissions, outcomes and restarts in any order.
pub mod Once
use mathlib.Core.Bool.{false≢true}
use mpas.Prelude.{
  ℕ, ◌+◌, ◌≤◌, ◌≡◌, refl, sym, ap, ◌∙◌, Bool, true, false, ◌&&◌, Option, none, some, List, [], ◌∷◌,
  ◌++◌, arith, some_inj, and_left, and_right, Option-cases, Bool-cases, inl, inr, if◌then◌else◌,
  String, ◌⊎◌,
}
use mpas.Prelude.Eq.{◌==◌, list_eq, option_eq, string_eq, list_beq_iff}
use mpas.Prelude.Assoc.{lookup, insert, lookup-insert, lookup-insert_self}
use mpas.Prelude.Result.{Result, ok, err}
use mpas.Mpas.{ActionId, Timestamp}
use mpas.Mpas.Response.{ActionResponse}
use mpas.Ledger.{
  JournalId, ResolveError, pair, Key, key, LedgerEvent, LedgerEntry, EntryStatus, Entries, Ledger,
  DispatchResolution, indeterminate, executing_entry, resolved_entry, replay, entry_for,
  recover_entry, recover_entries, authorize_dispatch, authorize_checked, check, check_entry,
  record_executing, LedgerCheck, absent, reject, resolve, resolve_found, record_resolved,
  open_ledger, restart,
}
use mpas.Ledger.Journal.{
  IsDurable, authorize-IsDurable, resolve-IsDurable, resolve_found_cases, entry_for-found,
}
use mpas.Ledger.Restart.{open_ledger-IsDurable, recovered, lookup-recover_entries}

pub data Op : Type 0 where
  submit : ActionId → String → Timestamp → Timestamp → Op
  finish : ActionId → DispatchResolution → Option ActionResponse → Timestamp → Op
  reboot : Timestamp → Op

after_resolve : Ledger → Result ResolveError Ledger → Ledger
after_resolve l (ok l') = l'
after_resolve l (err e) = l

-- A call that throws leaves the ledger as it was.
pub step : Ledger → Op → Ledger
unfolding after_resolve
step l (submit a hash expires_at at) = (authorize_dispatch l a hash expires_at at).0
step l (finish a r response at) = after_resolve l (resolve l a r response at)
step l (reboot at) = restart l at

pub run : Ledger → List Op → Ledger
run l [] = l
run l (op ∷ ops) = run (step l op) ops

abbrev pub is_absent : LedgerCheck → Bool
is_absent absent = true
is_absent _ = false

-- Does this step let a dispatch under the key go ahead?
pub grants : Key → Ledger → Op → Bool
grants k l (submit a hash expires_at at) =
    (key (pair a) == k) && is_absent (authorize_dispatch l a hash expires_at at).1
grants k l _ = false

pub dispatches : Key → Ledger → List Op → ℕ
dispatches k l [] = 0
dispatches k l (op ∷ ops) = (if grants k l op then 1 else 0) + dispatches k (step l op) ops

pub step-IsDurable : (l : Ledger) (op : Op) → IsDurable l → IsDurable (step l op)
unfolding step
step-IsDurable l (submit a hash expires_at at) d = authorize-IsDurable l a hash expires_at at d
step-IsDurable l (finish a r response at) d = go (resolve l a r response at) refl
  where
    go :
        (x : Result ResolveError Ledger)
        → resolve l a r response at ≡ x
        → IsDurable (after_resolve l x)
    go (ok l') h = resolve-IsDurable l l' a r response at h d
    go (err e) h = d
step-IsDurable l (reboot at) d = unfold restart in open_ledger-IsDurable l.journal at

-- What may happen to an entry: its outcome is set once, and so is the response.
pub record Evolves (e e' : LedgerEntry) : Type 0 where
  pub action_id : e'.action_id ≡ e.action_id
  pub envelope_hash : e'.envelope_hash ≡ e.envelope_hash
  pub status :
      e.status ≡ EntryStatus.resolved
      → (e'.status ≡ EntryStatus.resolved) × (e'.resolution ≡ e.resolution)
  pub response :
      (r : ActionResponse)
      → e.status ≡ EntryStatus.resolved
      → e.response ≡ some r
      → e'.response ≡ some r

Evolves-refl : (e : LedgerEntry) → Evolves e e
Evolves-refl e = record {
  action_id = refl;
  envelope_hash = refl;
  status = λ h. (h, refl);
  response = λ r h k. k;
}

Evolves-trans : {a b c : LedgerEntry} → Evolves a b → Evolves b c → Evolves a c
Evolves-trans p q = record {
  action_id = q.action_id ∙ p.action_id;
  envelope_hash = q.envelope_hash ∙ p.envelope_hash;
  status = λ h. ((q.status (p.status h).0).0, (q.status (p.status h).0).1 ∙ (p.status h).1);
  response = λ r h k. q.response r (p.status h).0 (p.response r h k);
}

recover_entry-Evolves : (e : LedgerEntry) → Evolves e (recover_entry e)
recover_entry-Evolves e = record {
  action_id = ground arith;
  envelope_hash = ground arith;
  status = λ h. ground arith;
  response = λ r h k. ground arith;
}

-- The entry under `k` is still there.
abbrev pub Kept : Key → LedgerEntry → Ledger → Type 0
Kept k e l = (e' : LedgerEntry) × (lookup k l.entries ≡ some e') × Evolves e e'

none_ne_some_response : (r : ActionResponse) → ¬ (none ≡ some r)
none_ne_some_response r h = cc

pub none_ne_some : (e : LedgerEntry) → ¬ (none ≡ some e)
none_ne_some e h = cc

inserted_elsewhere :
    (j k : Key) (d e : LedgerEntry) (entries : Entries)
    → lookup j entries ≡ none
    → lookup k entries ≡ some e
    → lookup k (insert j d entries) ≡ some e
inserted_elsewhere j k d e entries n h = elim (Bool-cases (j == k)) [
  | inl x ↦
      absurd
        (none_ne_some e (sym n ∙ ap (λ (i : Key). lookup i entries) ((list_beq_iff j k).0 x) ∙ h))
  | inr x ↦
      lookup-insert j k d entries ∙ ap (λ (b : Bool). if b then some d else lookup k entries) x ∙ h
]

-- A submission is let through only where no entry stands under its key.
pub absent_key :
    (l : Ledger) (a : ActionId) (hash : String)
    → check l a hash ≡ absent
    → lookup (key (pair a)) l.entries ≡ none
unfolding check check_entry entry_for
absent_key l a hash h = ground arith

checked_lookup :
    (l : Ledger) (a : ActionId) (hash : String) (expires_at at : Timestamp) (c : LedgerCheck)
    (k : Key) (e : LedgerEntry)
    → (c ≡ absent → lookup (key (pair a)) l.entries ≡ none)
    → lookup k l.entries ≡ some e
    → lookup k (authorize_checked l a hash expires_at at c).0.entries ≡ some e
unfolding authorize_checked
checked_lookup l a hash expires_at at absent k e free h =
    inserted_elsewhere (key (pair a)) k (executing_entry (pair a) hash expires_at) e l.entries
      (free refl) h
checked_lookup l a hash expires_at at _ k e free h = h

submit_lookup :
    (l : Ledger) (a : ActionId) (hash : String) (expires_at at : Timestamp) (k : Key)
    (e : LedgerEntry)
    → lookup k l.entries ≡ some e
    → lookup k (authorize_dispatch l a hash expires_at at).0.entries ≡ some e
unfolding authorize_dispatch
submit_lookup l a hash expires_at at k e h =
    checked_lookup l a hash expires_at at (check l a hash) k e (absent_key l a hash) h

submit-Kept :
    (l : Ledger) (a : ActionId) (hash : String) (expires_at at : Timestamp) (k : Key)
    (e : LedgerEntry)
    → lookup k l.entries ≡ some e
    → Kept k e (authorize_dispatch l a hash expires_at at).0
submit-Kept l a hash expires_at at k e h =
    (e, submit_lookup l a hash expires_at at k e h, Evolves-refl e)

record_resolved-Kept :
    (l : Ledger) (j k : Key) (d e : LedgerEntry) (r : DispatchResolution)
    (response : Option ActionResponse) (at : Timestamp)
    → lookup j l.entries ≡ some d
    → (d.status ≡ EntryStatus.resolved → (d.resolution ≡ some r) × (d.response ≡ none))
    → lookup k l.entries ≡ some e
    → Kept k e (record_resolved l j d r response at)
unfolding record_resolved
record_resolved-Kept l j k d e r response at there only h = elim (Bool-cases (j == k)) [
  | inl x ↦
      let same : d ≡ e =
        some_inj (sym there ∙ ap (λ (i : Key). lookup i l.entries) ((list_beq_iff j k).0 x) ∙ h) in
      (
        resolved_entry r response d,
        lookup-insert j k (resolved_entry r response d) l.entries
            ∙ ap
                (λ (b : Bool). if b then some (resolved_entry r response d) else lookup k l.entries)
                x,
        rw (← same) (record {
          action_id = refl;
          envelope_hash = refl;
          status = λ w. (refl, sym (only w).0);
          response = λ q w v. absurd (none_ne_some_response q (sym (only w).1 ∙ v));
        }),
      )
  | inr x ↦ (
    e,
    lookup-insert j k (resolved_entry r response d) l.entries
        ∙ ap (λ (b : Bool). if b then some (resolved_entry r response d) else lookup k l.entries) x
        ∙ h,
    Evolves-refl e,
  )
]

finish-Kept :
    (l : Ledger) (a : ActionId) (r : DispatchResolution) (response : Option ActionResponse)
    (at : Timestamp) (k : Key) (e : LedgerEntry)
    → lookup k l.entries ≡ some e
    → (x : Result ResolveError Ledger) → resolve l a r response at ≡ x
    → Kept k e (after_resolve l x)
unfolding after_resolve resolve
finish-Kept l a r response at k e h (ok l') p =
    elim (resolve_found_cases l l' (entry_for a l.entries) r response at p) [
      | inl same ↦ (e, ap (λ (m : Ledger). lookup k m.entries) (sym same) ∙ h, Evolves-refl e)
      | inr (j, d, found, only, same) ↦
          let (e', stands, evolves) =
            record_resolved-Kept l j k d e r response at (entry_for-found a l.entries j d found)
              only h in
          (e', ap (λ (m : Ledger). lookup k m.entries) (sym same) ∙ stands, evolves)
    ]
finish-Kept l a r response at k e h (err x) p = (e, h, Evolves-refl e)

reboot-Kept :
    (l : Ledger) (at : Timestamp) (k : Key) (e : LedgerEntry)
    → IsDurable l
    → lookup k l.entries ≡ some e
    → Kept k e (restart l at)
unfolding restart open_ledger recovered
reboot-Kept l at k e d h = (
  recover_entry e,
  lookup-recover_entries k (replay [] l.journal) ∙ ap recovered (d.replayed k ∙ h),
  recover_entry-Evolves e,
)

pub step-Kept :
    (l : Ledger) (op : Op) (k : Key) (e : LedgerEntry)
    → IsDurable l
    → lookup k l.entries ≡ some e
    → Kept k e (step l op)
unfolding step
step-Kept l (submit a hash expires_at at) k e d h = submit-Kept l a hash expires_at at k e h
step-Kept l (finish a r response at) k e d h =
    finish-Kept l a r response at k e h (resolve l a r response at) refl
step-Kept l (reboot at) k e d h = reboot-Kept l at k e d h

-- In every history of submissions, outcomes and restarts over a ledger that its journal replays
-- to, an entry is never lost; its envelope hash never changes; once it is resolved its resolution
-- never changes, and neither does a response that is attached to it.
pub run-Evolves :
    (ops : List Op) (l : Ledger) (k : Key) (e : LedgerEntry)
    → IsDurable l
    → lookup k l.entries ≡ some e
    → (e' : LedgerEntry) × (lookup k (run l ops).entries ≡ some e') × Evolves e e'
unfolding run
run-Evolves [] l k e d h = (e, h, Evolves-refl e)
run-Evolves (op ∷ ops) l k e d h =
    let (e', here, first) = step-Kept l op k e d h in
    let (e'', there, rest) = run-Evolves ops (step l op) k e' (step-IsDurable l op d) here in
    (e'', there, Evolves-trans first rest)
