-- ===== src/Ledger/Tests.antt =====
-- The ledger on concrete histories.
use mpas.Prelude.{◌≤◌, ◌≡◌, refl, none, some, List, [], ◌∷◌}
use mpas.Prelude.Eq.{string_eq, option_eq, list_eq}
use mpas.Prelude.Assoc.{lookup, insert}
use mpas.Mpas.{ActionId}
use mpas.Ledger.{
  pair, key, Ledger, LedgerEntry, indeterminate, executing_entry, authorize_dispatch,
  authorize_checked, record_executing, check, check_entry, entry_for, open_ledger, replay,
  recover_entries,
}
use mpas.Ledger.Journal.{IsDurable, authorize-IsDurable}
use mpas.Ledger.Restart.{open_ledger-IsDurable}
use mpas.Ledger.History.{Op, submit, finish, reboot, run, dispatches, Evolves, run-Evolves}
use mpas.Ledger.History.Once.{dispatched_at_most_once}

abbrev a1 : ActionId
a1 = record { value = "a1"; scope = some "shop" }

abbrev empty_ledger : Ledger
empty_ledger = open_ledger [] "t0"

abbrev twice : List Op
twice =
    submit a1 "h1" "t9" "t1"
    ∷ reboot "t2"
    ∷ submit a1 "h1" "t9" "t3"
    ∷ submit a1 "h2" "t9" "t4"
    ∷ []

dispatched_at_most_once_example : dispatches (key (pair a1)) empty_ledger twice ≤ 1
dispatched_at_most_once_example =
    dispatched_at_most_once twice empty_ledger a1 (open_ledger-IsDurable [] "t0")

abbrev dispatching : Ledger
dispatching = (authorize_dispatch empty_ledger a1 "h1" "t9" "t1").0

abbrev a1_executing : LedgerEntry
a1_executing = executing_entry (pair a1) "h1" "t9"

a1_stands : lookup (key (pair a1)) dispatching.entries ≡ some a1_executing
unfolding authorize_dispatch authorize_checked check check_entry entry_for record_executing
    open_ledger replay recover_entries lookup insert key
a1_stands = refl

dispatching-IsDurable : IsDurable dispatching
dispatching-IsDurable =
    authorize-IsDurable empty_ledger a1 "h1" "t9" "t1" (open_ledger-IsDurable [] "t0")

run-Evolves_example :
    (e' : LedgerEntry) × (lookup
        (key (pair a1))
        (run dispatching (reboot "t2" ∷ finish a1 indeterminate none "t3" ∷ [])).entries
      ≡ some e')
    × Evolves a1_executing e'
run-Evolves_example =
    run-Evolves (reboot "t2" ∷ finish a1 indeterminate none "t3" ∷ []) dispatching (key (pair a1))
      a1_executing dispatching-IsDurable a1_stands

open_ledger-IsDurable_example : IsDurable empty_ledger
open_ledger-IsDurable_example = open_ledger-IsDurable [] "t0"
