-- ===== src/Ledger.antt =====
-- cli/src/adapter/dispatch-ledger.ts: the Verifier's record of what it dispatched, over an
-- append-only journal (`MemoryDispatchJournal`; the file journal keeps the same sequence of events,
-- one JSON line each). Times are an argument, `at`.
pub mod Journal
pub mod Restart
pub mod History
mod Tests
use mpas.Prelude.{
  String, Bool, true, false, not, ◌&&◌, ◌||◌, Option, none, some, List, [], ◌∷◌, ◌++◌, map, is_some,
  length, ℕ, if◌then◌else◌,
}
use Prim.Native.String
use mpas.Prelude.Eq.{◌==◌, string_eq, option_eq, list_eq, Eq}
use mpas.Prelude.Assoc.{Assoc, lookup, insert}
use mpas.Prelude.Result.{Result, ok, err}
use mpas.Mpas.{Timestamp, ActionId, HashObject}
use mpas.Mpas.Response.{ActionResponse, ActionResult}

pub data DispatchResolution : Type 0 where
  executed failed indeterminate : DispatchResolution

-- `ActionId | string`: journals of an earlier format flattened the pair into a text.
pub data JournalId : Type 0 where
  pair : ActionId → JournalId
  legacy : String → JournalId

pub data LedgerEvent : Type 0 where
  executing : JournalId → String → Timestamp → Timestamp → LedgerEvent
  resolved : JournalId → DispatchResolution → Option ActionResponse → Timestamp → LedgerEvent

pub data RejectCode : Type 0 where
  action_id_hash_mismatch replay_detected : RejectCode

pub data LedgerCheck : Type 0 where
  absent : LedgerCheck
  executing : LedgerCheck
  reject : RejectCode → LedgerCheck

pub data EntryStatus : Type 0 where
  executing resolved : EntryStatus

pub record LedgerEntry : Type 0 where
  pub action_id : JournalId
  pub envelope_hash : String
  pub status : EntryStatus
  pub resolution : Option DispatchResolution
  pub response : Option ActionResponse
  pub expires_at : Timestamp

-- The argument of `JSON.stringify` in `key`, which maps different arrays of texts and nulls to
-- different texts.
abbrev pub Key : Type 0
Key = List (Option String)

pub key : JournalId → Key
key (pair a) = a.scope ∷ some a.value ∷ []
key (legacy text) = some text ∷ []

abbrev pub Entries : Type 0
Entries = Assoc Key LedgerEntry

pub record Ledger : Type 0 where
  pub entries : Entries
  pub journal : List LedgerEvent

-- `${scope}:${value}`; an empty scope is falsy.
legacy_id : ActionId → String
legacy_id a = elim a.scope [
  | none ↦ a.value
  | some scope ↦ if scope == "" then a.value else String.◌++◌ scope (String.◌++◌ ":" a.value)
]

-- `entryFor`, with the key under which the entry stands.
pub entry_for : ActionId → Entries → Option (Key × LedgerEntry)
unfolding legacy_id
entry_for a entries = elim (lookup (key (pair a)) entries) [
  | some e ↦ some (key (pair a), e)
  | none ↦ elim (lookup (key (legacy (legacy_id a))) entries) [
    | some e ↦ some (key (legacy (legacy_id a)), e)
    | none ↦ none
  ]
]

check_entry : Option (Key × LedgerEntry) → String → LedgerCheck
check_entry none envelope_hash = absent
check_entry (some (k, entry)) envelope_hash = elim entry.status [
  | resolved ↦ reject replay_detected
  | executing ↦
      if entry.envelope_hash == envelope_hash then executing else reject action_id_hash_mismatch
]

pub check : Ledger → ActionId → String → LedgerCheck
unfolding check_entry
check l a envelope_hash = check_entry (entry_for a l.entries) envelope_hash

abbrev pub executing_entry : JournalId → String → Timestamp → LedgerEntry
executing_entry id envelope_hash expires_at = record {
  action_id = id;
  envelope_hash = envelope_hash;
  status = executing;
  resolution = none;
  response = none;
  expires_at = expires_at;
}

pub record_executing : Ledger → ActionId → String → Timestamp → Timestamp → Ledger
record_executing l a envelope_hash expires_at at = record {
  journal = l.journal ++ executing (pair a) envelope_hash expires_at at ∷ [];
  entries = insert (key (pair a)) (executing_entry (pair a) envelope_hash expires_at) l.entries;
}

-- The early return of `authorizeDispatch` on any decision but `absent`.
authorize_checked :
    Ledger → ActionId → String → Timestamp → Timestamp → LedgerCheck → Ledger × LedgerCheck
unfolding record_executing
authorize_checked l a envelope_hash expires_at at absent =
    (record_executing l a envelope_hash expires_at at, absent)
authorize_checked l a envelope_hash expires_at at decision = (l, decision)

pub authorize_dispatch : Ledger → ActionId → String → Timestamp → Timestamp → Ledger × LedgerCheck
unfolding authorize_checked
authorize_dispatch l a envelope_hash expires_at at =
    authorize_checked l a envelope_hash expires_at at (check l a envelope_hash)

pub data ResolveError : Type 0 where
  terminal_response_mismatch : ResolveError

is_result : DispatchResolution → ActionResult → Bool
is_result executed ActionResult.executed = true
is_result failed ActionResult.failed = true
is_result indeterminate ActionResult.indeterminate = true
is_result _ _ = false

abbrev pub same_resolution : DispatchResolution → DispatchResolution → Bool
same_resolution executed executed = true
same_resolution failed failed = true
same_resolution indeterminate indeterminate = true
same_resolution _ _ = false

hash_is : Option HashObject → String → Bool
hash_is none envelope_hash = false
hash_is (some h) envelope_hash = h.value == envelope_hash

-- A supplied response must carry the resolution and the envelope hash of the entry.
pub response_fits : Option ActionResponse → DispatchResolution → LedgerEntry → Bool
unfolding is_result hash_is
response_fits none resolution entry = true
response_fits (some r) resolution entry =
    is_result resolution r.result && hash_is r.action_envelope_hash entry.envelope_hash

abbrev pub resolved_entry : DispatchResolution → Option ActionResponse → LedgerEntry → LedgerEntry
resolved_entry resolution response entry = record entry {
  status = resolved;
  resolution = some resolution;
  response = response;
}

-- The journal append and the update of the entry that stands under `k`.
pub record_resolved :
    Ledger → Key → LedgerEntry → DispatchResolution → Option ActionResponse → Timestamp → Ledger
record_resolved l k entry resolution response at = record {
  journal = l.journal ++ resolved entry.action_id resolution response at ∷ [];
  entries = insert k (resolved_entry resolution response entry) l.entries;
}

abbrev is_resolution : Option DispatchResolution → DispatchResolution → Bool
is_resolution none r = false
is_resolution (some a) r = same_resolution a r

pub resolve_found :
    Ledger
    → Option (Key × LedgerEntry)
    → DispatchResolution
    → Option ActionResponse
    → Timestamp
    → Result ResolveError Ledger
unfolding record_resolved
resolve_found l none resolution response at = ok l
resolve_found l (some (k, entry)) resolution response at =
    if not (response_fits response resolution entry)
    then err terminal_response_mismatch
    else elim entry.status [
      | resolved ↦
          if not (is_resolution entry.resolution resolution)
            || is_some entry.response
            || not (is_some response)
          then ok l
          else ok (record_resolved l k entry resolution response at)
      | executing ↦ ok (record_resolved l k entry resolution response at)
    ]

pub resolve :
    Ledger
    → ActionId
    → DispatchResolution
    → Option ActionResponse
    → Timestamp
    → Result ResolveError Ledger
unfolding resolve_found
resolve l a resolution response at = resolve_found l (entry_for a l.entries) resolution response at

pub record DispatchRecovery : Type 0 where
  pub resolution : DispatchResolution
  pub response : Option ActionResponse

recovery_of : Option (Key × LedgerEntry) → String → Option DispatchRecovery
recovery_of none envelope_hash = none
recovery_of (some (k, entry)) envelope_hash = elim entry.status [
  | executing ↦ none
  | resolved ↦ elim entry.resolution [
    | none ↦ none
    | some r ↦
        if entry.envelope_hash == envelope_hash
        then some (record { resolution = r; response = entry.response })
        else none
  ]
]

pub recovery_for : Ledger → ActionId → String → Option DispatchRecovery
unfolding recovery_of
recovery_for l a envelope_hash = recovery_of (entry_for a l.entries) envelope_hash

pub size : Ledger → ℕ
size l = length l.entries

-- One event of the journal, replayed.
pub replay_event : Entries → LedgerEvent → Entries
replay_event entries (executing id envelope_hash expires_at at) =
    insert (key id) (executing_entry id envelope_hash expires_at) entries
replay_event entries (resolved id resolution response at) = elim (lookup (key id) entries) [
  | none ↦ entries
  | some entry ↦ insert (key id) (resolved_entry resolution response entry) entries
]

pub replay : Entries → List LedgerEvent → Entries
replay entries [] = entries
replay entries (event ∷ events) = replay (replay_event entries event) events

abbrev pub is_executing : LedgerEntry → Bool
is_executing entry = elim entry.status [ executing ↦ true | resolved ↦ false ]

-- Recovery of one entry; its response stays as it is.
abbrev pub recover_entry : LedgerEntry → LedgerEntry
recover_entry entry =
    if is_executing entry
    then record entry { status = resolved; resolution = some indeterminate }
    else entry

pub recover_entries : Entries → Entries
recover_entries [] = []
recover_entries ((k, entry) ∷ rest) = (k, recover_entry entry) ∷ recover_entries rest

pub recover_events : Entries → Timestamp → List LedgerEvent
recover_events [] at = []
recover_events ((k, entry) ∷ rest) at =
    let more = recover_events rest at in
    if is_executing entry then resolved entry.action_id indeterminate none at ∷ more else more

-- The constructor: `replay()`, then `recover()`.
pub open_ledger : List LedgerEvent → Timestamp → Ledger
open_ledger journal at =
    let entries = replay [] journal in
    record { entries = recover_entries entries; journal = journal ++ recover_events entries at }

-- A new process over the journal of the old one.
pub restart : Ledger → Timestamp → Ledger
unfolding open_ledger
restart l at = open_ledger l.journal at
