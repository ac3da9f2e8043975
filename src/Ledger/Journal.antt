-- ===== src/Ledger/Journal.antt =====
-- The journal is the ledger: replaying it gives the entries, at every moment of every history.
use mpas.Prelude.{
  ◌≡◌, refl, ◌∙◌, Option, none, some, List, [], ◌∷◌, ◌++◌, arith, inl, inr, String, ◌⊎◌,
}
use mpas.Prelude.Eq.{list_eq, option_eq, string_eq}
use mpas.Prelude.Assoc.{lookup, insert, lookup-insert, lookup-insert_cases}
use mpas.Prelude.Result.{ok}
use mpas.Mpas.{ActionId, Timestamp}
use mpas.Mpas.Response.{ActionResponse}
use mpas.Ledger.{
  JournalId, pair, Key, key, LedgerEvent, resolved, LedgerEntry, EntryStatus, Entries, Ledger,
  DispatchResolution, executing_entry, resolved_entry, replay_event, replay, entry_for,
  authorize_dispatch, check, record_executing, authorize_checked, LedgerCheck, absent, resolve,
  resolve_found, record_resolved,
}

pub replay-append :
    (entries : Entries) (xs ys : List LedgerEvent)
    → replay entries (xs ++ ys) ≡ replay (replay entries xs) ys
unfolding replay
replay-append entries [] ys = refl
replay-append entries (x ∷ xs) ys = replay-append (replay_event entries x) xs ys

-- Each entry stands under its own key, and one that is executing has no outcome yet.
pub record IsSound (entries : Entries) : Type 0 where
  pub keyed : (k : Key) (e : LedgerEntry) → lookup k entries ≡ some e → key e.action_id ≡ k
  pub fresh :
      (k : Key) (e : LedgerEntry)
      → lookup k entries ≡ some e
      → e.status ≡ EntryStatus.executing
      → (e.resolution ≡ none) × (e.response ≡ none)

-- The entries are what the journal replays to, key by key.
pub record IsDurable (l : Ledger) : Type 0 where
  pub sound : IsSound l.entries
  pub replayed : (k : Key) → lookup k (replay [] l.journal) ≡ lookup k l.entries

pub insert-IsSound :
    (k : Key) (e : LedgerEntry) (entries : Entries)
    → key e.action_id ≡ k
    → (e.status ≡ EntryStatus.executing → (e.resolution ≡ none) × (e.response ≡ none))
    → IsSound entries
    → IsSound (insert k e entries)
insert-IsSound k e entries same new s = record {
  keyed = λ j d h. elim (lookup-insert_cases k j e d entries h) [
    | inl (x, y) ↦ rw (← x, ← y) same
    | inr x ↦ s.keyed j d x
  ];
  fresh = λ j d h. elim (lookup-insert_cases k j e d entries h) [
    | inl (x, y) ↦ rw (← y) new
    | inr x ↦ s.fresh j d x
  ];
}

record_executing-IsDurable :
    (l : Ledger) (a : ActionId) (hash : String) (expires_at at : Timestamp)
    → IsDurable l
    → IsDurable (record_executing l a hash expires_at at)
unfolding record_executing replay replay_event
record_executing-IsDurable l a hash expires_at at d = record {
  sound =
      insert-IsSound (key (pair a)) (executing_entry (pair a) hash expires_at) l.entries refl
        (λ _. (refl, refl)) d.sound;
  replayed = λ k. rw (replay-append [] l.journal _) (
      ground (
        arith,
        d.replayed k,
        lookup-insert (key (pair a)) k (executing_entry (pair a) hash expires_at) l.entries,
        lookup-insert (key (pair a)) k (executing_entry (pair a) hash expires_at)
            (replay [] l.journal),
      ));
}

authorize_checked-IsDurable :
    (l : Ledger) (a : ActionId) (hash : String) (expires_at at : Timestamp) (c : LedgerCheck)
    → IsDurable l
    → IsDurable (authorize_checked l a hash expires_at at c).0
unfolding authorize_checked
authorize_checked-IsDurable l a hash expires_at at absent d =
    record_executing-IsDurable l a hash expires_at at d
authorize_checked-IsDurable l a hash expires_at at _ d = d

pub authorize-IsDurable :
    (l : Ledger) (a : ActionId) (hash : String) (expires_at at : Timestamp)
    → IsDurable l
    → IsDurable (authorize_dispatch l a hash expires_at at).0
unfolding authorize_dispatch
authorize-IsDurable l a hash expires_at at d =
    authorize_checked-IsDurable l a hash expires_at at (check l a hash) d

pub replay_event-resolved :
    (entries : Entries) (id : JournalId) (e : LedgerEntry) (r : DispatchResolution)
    (response : Option ActionResponse) (at : Timestamp)
    → lookup (key id) entries ≡ some e
    → replay_event entries (resolved id r response at)
      ≡ insert (key id) (resolved_entry r response e) entries
unfolding replay_event
replay_event-resolved entries id e r response at h = rw (h, replay_event)

record_resolved-IsDurable :
    (l : Ledger) (k : Key) (e : LedgerEntry) (r : DispatchResolution)
    (response : Option ActionResponse) (at : Timestamp)
    → IsDurable l
    → lookup k l.entries ≡ some e
    → IsDurable (record_resolved l k e r response at)
unfolding record_resolved replay
record_resolved-IsDurable l k e r response at d found = record {
  sound =
      insert-IsSound k (resolved_entry r response e) l.entries (d.sound.keyed k e found) (λ w. cc)
        d.sound;
  replayed = λ j.
      let same = d.sound.keyed k e found in
      rw (replay-append [] l.journal _) (
        rw
          (
            replay_event-resolved (replay [] l.journal) e.action_id e r response at
                (rw same (d.replayed k ∙ found)),
            same,
          )
          (ground (
            arith,
            d.replayed j,
            lookup-insert k j (resolved_entry r response e) l.entries,
            lookup-insert k j (resolved_entry r response e) (replay [] l.journal),
          )));
}

pub entry_for-found :
    (a : ActionId) (entries : Entries) (k : Key) (e : LedgerEntry)
    → entry_for a entries ≡ some (k, e)
    → lookup k entries ≡ some e
unfolding entry_for
entry_for-found a entries k e h = ground arith

pub resolve_entry_cases :
    (l l' : Ledger) (k : Key) (e : LedgerEntry) (r : DispatchResolution)
    (response : Option ActionResponse) (at : Timestamp)
    → resolve_found l (some (k, e)) r response at ≡ ok l'
    → (l ≡ l')
      ⊎ ((record_resolved l k e r response at ≡ l')
          × (e.status ≡ EntryStatus.resolved → (e.resolution ≡ some r) × (e.response ≡ none)))
unfolding resolve_found
resolve_entry_cases l l' k e r response at h = ground arith

-- A call that returns has left the ledger alone or resolved the entry that it found.
pub resolve_found_cases :
    (l l' : Ledger) (f : Option (Key × LedgerEntry)) (r : DispatchResolution)
    (response : Option ActionResponse) (at : Timestamp)
    → resolve_found l f r response at ≡ ok l'
    → (l ≡ l')
      ⊎ ((k : Key) × (e : LedgerEntry) × (f ≡ some (k, e))
          × (e.status ≡ EntryStatus.resolved → (e.resolution ≡ some r) × (e.response ≡ none))
          × (record_resolved l k e r response at ≡ l'))
unfolding resolve_found
resolve_found_cases l l' none r response at h = inl (ground arith)
resolve_found_cases l l' (some (k, e)) r response at h =
    elim (resolve_entry_cases l l' k e r response at h) [
      | inl same ↦ inl same
      | inr (same, only) ↦ inr (k, e, refl, only, same)
    ]

resolve_found-IsDurable :
    (l l' : Ledger) (f : Option (Key × LedgerEntry)) (r : DispatchResolution)
    (response : Option ActionResponse) (at : Timestamp)
    → ((k : Key) (e : LedgerEntry) → f ≡ some (k, e) → lookup k l.entries ≡ some e)
    → resolve_found l f r response at ≡ ok l'
    → IsDurable l
    → IsDurable l'
resolve_found-IsDurable l l' f r response at here h d =
    elim (resolve_found_cases l l' f r response at h) [
      | inl same ↦ rw (← same) d
      | inr (k, e, found, only, same) ↦
          rw (← same) (record_resolved-IsDurable l k e r response at d (here k e found))
    ]

pub resolve-IsDurable :
    (l l' : Ledger) (a : ActionId) (r : DispatchResolution) (response : Option ActionResponse)
    (at : Timestamp)
    → resolve l a r response at ≡ ok l'
    → IsDurable l
    → IsDurable l'
unfolding resolve
resolve-IsDurable l l' a r response at h d =
    resolve_found-IsDurable l l' (entry_for a l.entries) r response at
      (λ k e f. entry_for-found a l.entries k e f) h d
