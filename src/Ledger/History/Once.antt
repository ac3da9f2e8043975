-- ===== src/Ledger/History/Once.antt =====
-- At most one dispatch of an Action ID, in every history.
use mathlib.Core.Bool.{false≢true}
use mpas.Prelude.{
  ◌≤◌, ◌≡◌, refl, sym, ap, ◌∙◌, true, false, some, List, [], ◌∷◌, arith, and_left, and_right,
  Bool-cases, inl, inr, String,
}
use mpas.Prelude.Eq.{◌==◌, list_eq, option_eq, string_eq, list_beq_iff}
use mpas.Prelude.Assoc.{lookup, lookup-insert_self}
use mpas.Mpas.{ActionId, Timestamp}
use mpas.Ledger.{
  pair, Key, key, LedgerEntry, Ledger, executing_entry, authorize_dispatch, authorize_checked,
  check, LedgerCheck, absent,
}
use mpas.Ledger.Journal.{IsDurable}
use mpas.Ledger.History.{
  Op, submit, finish, reboot, step, is_absent, grants, dispatches, step-IsDurable, step-Kept,
  absent_key, none_ne_some,
}

is_absent_lem : (c : LedgerCheck) → is_absent c ≡ true → c ≡ absent
is_absent_lem c h = ground arith

-- The decision that `authorizeDispatch` returns is that of `check`.
checked_decision :
    (l : Ledger) (a : ActionId) (hash : String) (expires_at at : Timestamp) (c : LedgerCheck)
    → (authorize_checked l a hash expires_at at c).1 ≡ c
unfolding authorize_checked
checked_decision l a hash expires_at at absent = refl
checked_decision l a hash expires_at at _ = refl

granted_check :
    (l : Ledger) (a : ActionId) (hash : String) (expires_at at : Timestamp) (k : Key)
    → grants k l (submit a hash expires_at at) ≡ true
    → (key (pair a) ≡ k) × (check l a hash ≡ absent)
unfolding grants authorize_dispatch
granted_check l a hash expires_at at k g = (
  (list_beq_iff (key (pair a)) k).0 (
      and_left (key (pair a) == k)
        (is_absent (authorize_checked l a hash expires_at at (check l a hash)).1) g),
  is_absent_lem (check l a hash) (
      rw (checked_decision l a hash expires_at at (check l a hash)) at (
        and_right (key (pair a) == k)
          (is_absent (authorize_checked l a hash expires_at at (check l a hash)).1) g)),
)

-- Where an entry stands, nothing is let through.
no_grant :
    (l : Ledger) (op : Op) (k : Key) (e : LedgerEntry)
    → lookup k l.entries ≡ some e
    → grants k l op ≡ false
no_grant l (submit a hash expires_at at) k e h =
    elim (Bool-cases (grants k l (submit a hash expires_at at))) [
      | inl g ↦
          let (same, free) = granted_check l a hash expires_at at k g in
          absurd (
            none_ne_some e
              (sym (absent_key l a hash free) ∙ ap (λ (i : Key). lookup i l.entries) same ∙ h))
      | inr g ↦ g
    ]
no_grant l (finish a r response at) k e h = unfold grants in refl
no_grant l (reboot at) k e h = unfold grants in refl

checked_entry :
    (l : Ledger) (a : ActionId) (hash : String) (expires_at at : Timestamp) (c : LedgerCheck)
    → c ≡ absent
    → lookup (key (pair a)) (authorize_checked l a hash expires_at at c).0.entries
      ≡ some (executing_entry (pair a) hash expires_at)
unfolding authorize_checked
checked_entry l a hash expires_at at c h =
    rw h (lookup-insert_self (key (pair a)) (executing_entry (pair a) hash expires_at) l.entries)

-- A step that is let through leaves an entry under its key.
granted_entry :
    (l : Ledger) (op : Op) (k : Key)
    → grants k l op ≡ true
    → (e : LedgerEntry) × (lookup k (step l op).entries ≡ some e)
granted_entry l (submit a hash expires_at at) k g =
    let (same, free) = granted_check l a hash expires_at at k g in
    (
      executing_entry (pair a) hash expires_at,
      unfold step authorize_dispatch in
          rw (← same) (checked_entry l a hash expires_at at (check l a hash) free),
    )
granted_entry l (finish a r response at) k g = absurd (unfold grants in false≢true g)
granted_entry l (reboot at) k g = absurd (unfold grants in false≢true g)

no_dispatch :
    (ops : List Op) (l : Ledger) (k : Key) (e : LedgerEntry)
    → IsDurable l
    → lookup k l.entries ≡ some e
    → dispatches k l ops ≡ 0
unfolding dispatches
no_dispatch [] l k e d h = refl
no_dispatch (op ∷ ops) l k e d h =
    let (e', here, first) = step-Kept l op k e d h in
    ground
      (arith, no_grant l op k e h, no_dispatch ops (step l op) k e' (step-IsDurable l op d) here)

-- The ledger's one invariant: in every history over a ledger that its journal replays to, restarts
-- included, at most one submission of an Action ID is let through to dispatch.
pub dispatched_at_most_once :
    (ops : List Op) (l : Ledger) (a : ActionId) → IsDurable l → dispatches (key (pair a)) l ops ≤ 1
unfolding dispatches
dispatched_at_most_once [] l a d = omega arith
dispatched_at_most_once (op ∷ ops) l a d = elim (Bool-cases (grants (key (pair a)) l op)) [
  | inl g ↦
      let (e, here) = granted_entry l op (key (pair a)) g in
      ground (arith, g, no_dispatch ops (step l op) (key (pair a)) e (step-IsDurable l op d) here)
  | inr g ↦ ground (arith, g, dispatched_at_most_once ops (step l op) a (step-IsDurable l op d))
]
