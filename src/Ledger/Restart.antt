-- ===== src/Ledger/Restart.antt =====
-- Restart: replaying a journal and recovering gives a ledger that its journal replays to.
use mpas.Prelude.{
  ◌≡◌, refl, sym, ap, ◌∙◌, true, false, Option, none, some, List, [], ◌∷◌, arith, Option-cases,
  Bool-cases, inl, inr,
}
use mpas.Prelude.Eq.{◌==◌, list_eq, option_eq, string_eq, list_beq_iff}
use mpas.Prelude.Assoc.{lookup, insert, lookup-insert}
use mpas.Mpas.{Timestamp}
use mpas.Ledger.{
  Key, key, LedgerEvent, executing, resolved, LedgerEntry, Entries, indeterminate, executing_entry,
  resolved_entry, replay_event, replay, is_executing, recover_entry, recover_entries,
  recover_events, open_ledger,
}
use mpas.Ledger.Journal.{IsSound, IsDurable, insert-IsSound, replay-append, replay_event-resolved}

-- No key stands twice.
abbrev HasDistinctKeys : Entries → Type 0
HasDistinctKeys [] = Unit
HasDistinctKeys ((k, e) ∷ rest) = (lookup k rest ≡ none) × HasDistinctKeys rest

unfoldable pub recovered : Option LedgerEntry → Option LedgerEntry
recovered none = none
recovered (some e) = some (recover_entry e)

pub lookup-recover_entries :
    (k : Key) (entries : Entries)
    → lookup k (recover_entries entries) ≡ recovered (lookup k entries)
unfolding lookup recover_entries recovered
lookup-recover_entries k [] = refl
lookup-recover_entries k ((j, e) ∷ rest) = ground (arith, lookup-recover_entries k rest)

IsSound-rest :
    (j : Key) (e : LedgerEntry) (rest : Entries)
    → lookup j rest ≡ none
    → (k : Key) (d : LedgerEntry) → lookup k rest ≡ some d
    → (j == k ≡ false) × (lookup k ((j, e) ∷ rest) ≡ some d)
unfolding lookup
IsSound-rest j e rest n k d h = elim (Bool-cases (j == k)) [
  | inl x ↦ absurd (ground (arith, x, list_beq_iff j k))
  | inr x ↦ (x, ground (arith, x))
]

first_found : (j : Key) (e : LedgerEntry) (rest : Entries) → lookup j ((j, e) ∷ rest) ≡ some e
unfolding lookup
first_found j e rest = ground (arith, list_beq_iff j j)

or_recovered : Option LedgerEntry → Option LedgerEntry → Option LedgerEntry
or_recovered (some e) base = some (recover_entry e)
or_recovered none base = base

recover_resolved :
    (e : LedgerEntry)
    → is_executing e ≡ true
    → e.response ≡ none
    → resolved_entry indeterminate none e ≡ recover_entry e
recover_resolved e x n = ground arith

module _ (j : Key) (e : LedgerEntry) (rest base : Entries) (at : Timestamp) where
  recover_step :
      is_executing e ≡ true
      → replay base (recover_events ((j, e) ∷ rest) at)
        ≡ replay
            (replay_event base (resolved e.action_id indeterminate none at))
            (recover_events rest at)
  unfolding recover_events replay
  recover_step x = rw x

  recover_skip :
      is_executing e ≡ false
      → replay base (recover_events ((j, e) ∷ rest) at) ≡ replay base (recover_events rest at)
  unfolding recover_events replay
  recover_skip x = rw x

  -- The first entry of a list, once the others are recovered.
  finish_executing :
      (k : Key)
      → is_executing e ≡ true
      → e.response ≡ none
      → lookup j rest ≡ none
      → or_recovered
          (lookup k rest)
          (lookup k (insert j (resolved_entry indeterminate none e) base))
        ≡ or_recovered (lookup k ((j, e) ∷ rest)) (lookup k base)
  unfolding or_recovered lookup
  finish_executing k x n alone = ground (
    arith,
    lookup-insert j k (resolved_entry indeterminate none e) base,
    recover_resolved e x n,
    list_beq_iff j k,
  )

  finish_resolved :
      (k : Key)
      → is_executing e ≡ false
      → lookup j rest ≡ none
      → lookup j base ≡ some e
      → or_recovered (lookup k rest) (lookup k base)
        ≡ or_recovered (lookup k ((j, e) ∷ rest)) (lookup k base)
  unfolding or_recovered lookup
  finish_resolved k x alone there = ground (arith, list_beq_iff j k)

-- Replaying the events of the recovery recovers exactly the entries that they are about.
replay-recover_events :
    (todo base : Entries) (at : Timestamp)
    → HasDistinctKeys todo
    → ((k : Key) (e : LedgerEntry) → lookup k todo ≡ some e → lookup k base ≡ some e)
    → IsSound todo
    → (k : Key)
    → lookup k (replay base (recover_events todo at)) ≡ or_recovered (lookup k todo) (lookup k base)
replay-recover_events [] base at distinct here sound k =
    unfold recover_events replay or_recovered lookup in refl
replay-recover_events ((j, e) ∷ rest) base at (alone, distinct) here sound k =
    let first = first_found j e rest in
    let there = here j e first in
    let same = sound.keyed j e first in
    let sound' : IsSound rest = record {
      keyed = λ k' d h. sound.keyed k' d (IsSound-rest j e rest alone k' d h).1;
      fresh = λ k' d h. sound.fresh k' d (IsSound-rest j e rest alone k' d h).1;
    } in
    elim (Bool-cases (is_executing e)) [
      | inl x ↦
          let base' = insert j (resolved_entry indeterminate none e) base in
          let step : replay_event base (resolved e.action_id indeterminate none at) ≡ base' =
            replay_event-resolved base e.action_id e indeterminate none at (rw same there)
            ∙ (rw same) in
          ap (lookup k) (recover_step j e rest base at x)
          ∙ ap (λ (b : Entries). lookup k (replay b (recover_events rest at))) step
          ∙ replay-recover_events rest base' at distinct
              (λ k' d h.
                let (other, old) = IsSound-rest j e rest alone k' d h in
                ground (
                  arith,
                  lookup-insert j k' (resolved_entry indeterminate none e) base,
                  other,
                  here k' d old,
                ))
              sound' k
          ∙ finish_executing j e rest base at k x (sound.fresh j e first (ground (arith, x))).1
              alone
      | inr x ↦
          ap (lookup k) (recover_skip j e rest base at x)
          ∙ replay-recover_events rest base at distinct
              (λ k' d h. here k' d (IsSound-rest j e rest alone k' d h).1) sound' k
          ∙ finish_resolved j e rest base at k x alone there
    ]

insert-HasDistinctKeys :
    (k : Key) (e : LedgerEntry) (entries : Entries)
    → HasDistinctKeys entries
    → HasDistinctKeys (insert k e entries)
unfolding insert lookup
insert-HasDistinctKeys k e [] h = (refl, tt)
insert-HasDistinctKeys k e ((j, d) ∷ rest) (alone, h) = elim (Bool-cases (j == k)) [
  | inl x ↦ rw x (alone, h)
  | inr x ↦ rw x (
    ground (arith, x, lookup-insert k j e rest, list_beq_iff j k, list_beq_iff k j),
    insert-HasDistinctKeys k e rest h,
  )
]

replay_event-HasDistinctKeys :
    (entries : Entries) (event : LedgerEvent)
    → HasDistinctKeys entries
    → HasDistinctKeys (replay_event entries event)
unfolding replay_event
replay_event-HasDistinctKeys entries (executing id hash expires_at at) h =
    insert-HasDistinctKeys (key id) (executing_entry id hash expires_at) entries h
replay_event-HasDistinctKeys entries (resolved id r response at) h =
    elim (Option-cases (lookup (key id) entries)) [
      | inl x ↦ rw (x, replay_event) h
      | inr (e, x) ↦
          rw (x, replay_event)
            (insert-HasDistinctKeys (key id) (resolved_entry r response e) entries h)
    ]

replay-HasDistinctKeys :
    (entries : Entries) (events : List LedgerEvent)
    → HasDistinctKeys entries
    → HasDistinctKeys (replay entries events)
unfolding replay
replay-HasDistinctKeys entries [] h = h
replay-HasDistinctKeys entries (event ∷ events) h =
    replay-HasDistinctKeys (replay_event entries event) events
      (replay_event-HasDistinctKeys entries event h)

replay_event-IsSound :
    (entries : Entries) (event : LedgerEvent)
    → IsSound entries
    → IsSound (replay_event entries event)
unfolding replay_event
replay_event-IsSound entries (executing id hash expires_at at) s =
    insert-IsSound (key id) (executing_entry id hash expires_at) entries refl (λ _. (refl, refl)) s
replay_event-IsSound entries (resolved id r response at) s =
    elim (Option-cases (lookup (key id) entries)) [
      | inl x ↦ rw (x, replay_event) s
      | inr (e, x) ↦
          rw (x, replay_event)
            (insert-IsSound (key id) (resolved_entry r response e) entries (s.keyed (key id) e x)
              (λ w. cc) s)
    ]

replay-IsSound :
    (entries : Entries) (events : List LedgerEvent)
    → IsSound entries
    → IsSound (replay entries events)
unfolding replay
replay-IsSound entries [] s = s
replay-IsSound entries (event ∷ events) s =
    replay-IsSound (replay_event entries event) events (replay_event-IsSound entries event s)

recover_entries-IsSound : (entries : Entries) → IsSound entries → IsSound (recover_entries entries)
unfolding recovered
recover_entries-IsSound entries s = record {
  keyed = λ k e h. elim (Option-cases (lookup k entries)) [
    | inl x ↦ absurd (ground (arith, x, lookup-recover_entries k entries))
    | inr (d, x) ↦ ground (arith, x, lookup-recover_entries k entries, s.keyed k d x)
  ];
  fresh = λ k e h w. elim (Option-cases (lookup k entries)) [
    | inl x ↦ absurd (ground (arith, x, lookup-recover_entries k entries))
    | inr (d, x) ↦ absurd (ground (arith, x, lookup-recover_entries k entries))
  ];
}

no_entry : (k : Key) (e : LedgerEntry) → ¬ (lookup {V = LedgerEntry} k [] ≡ some e)
unfolding lookup
no_entry k e h = cc

or_recovered_self : (o : Option LedgerEntry) → or_recovered o o ≡ recovered o
unfolding or_recovered recovered
or_recovered_self none = refl
or_recovered_self (some e) = refl

-- Whatever the journal holds, opening a ledger over it gives entries that the journal, with the
-- events of the recovery, replays to.
pub open_ledger-IsDurable :
    (journal : List LedgerEvent) (at : Timestamp) → IsDurable (open_ledger journal at)
unfolding open_ledger
open_ledger-IsDurable journal at =
    let entries = replay [] journal in
    let sound = replay-IsSound [] journal (record {
      keyed = λ k e h. absurd (no_entry k e h);
      fresh = λ k e h. absurd (no_entry k e h);
    }) in
    record {
      sound = recover_entries-IsSound entries sound;
      replayed = λ k.
          ap (lookup k) (replay-append [] journal (recover_events entries at))
          ∙ replay-recover_events entries entries at (replay-HasDistinctKeys [] journal tt)
              (λ j e h. h) sound k
          ∙ or_recovered_self (lookup k entries)
          ∙ sym (lookup-recover_entries k entries);
    }
