-- ===== src/Coordination/Relay/PollLoop.antt =====
-- The loop in which a participant polls its relay: `runPollLoop` of
-- sdk/protocol/src/lib/action-relay-client.ts, with an `onError` handler (without one it ends at the
-- first error). Between two polls the relay and the clock go on.
use mathlib.Core.List.{Memᴰ}
use mathlib.Core.List.Memᴰ
use mathlib.Core.List.Memᴰ.{head, tail}
use mpas.Prelude.{
  ℕ, suc, ◌+◌, ◌<◌, ◌≤◌, ◌≡◌, refl, ap, sym, ◌∙◌, String, Bool, true, Option, none, some, List, [],
  ◌∷◌, ◌++◌, filter, take, All, arith, ltb, Bool-cases, ◌⊎◌, inl, inr, ltb→lt, eq_iff,
}
use mpas.Prelude.Eq.{◌==◌, string_eq}
use mpas.Prelude.Decimal.{decimal}
use mpas.Prelude.Result.{Result, ok, err}
use mpas.Mpas.{Did}
use mpas.Coordination.Env.{Env}
use mpas.Coordination.Errors.{ServiceError}
use mpas.Coordination.Relay.Records.{StoredDelivery, Relay}
use mpas.Coordination.Relay.Polling.{
  delivery_page_size, parse_cursor, is_live, pending_for, last_sequence, delivery_page,
}
use mpas.Coordination.Relay.Pages.{
  Numbered, parse_cursor-decimal, page-rest, pending-Numbered, pending-IsBehind, last-IsBehind,
}

module _ (env : Env) where
  -- A poll that the relay answers in its state at that time, or one that fails, or whose page the
  -- participant does not accept.
  pub data Poll : Type 0 where
    answered : Relay env → ℕ → Poll
    missed : Poll

  -- The page, and the cursor of the next poll: `page.nextCursor ?? cursor`.
  abbrev accepted_page :
      Option String
      → Result ServiceError (List (StoredDelivery env) × Option String)
      → List (StoredDelivery env) × Option String
  accepted_page cursor (err e) = ([], cursor)
  accepted_page cursor (ok (page, none)) = (page, cursor)
  accepted_page cursor (ok (page, some next)) = (page, some next)

  -- The deliveries that the participant accepts in these polls.
  pub run_poll_loop : List Poll → Did → Option String → List (StoredDelivery env)
  run_poll_loop [] did cursor = []
  run_poll_loop (missed ∷ polls) did cursor = run_poll_loop polls did cursor
  run_poll_loop (answered r now ∷ polls) did cursor =
      let (page, next) = accepted_page cursor (delivery_page env r did cursor now) in
      page ++ run_poll_loop polls did next

  -- An answering relay has its deliveries in order, still stores this one, and it has not expired.
  abbrev pub IsKept : StoredDelivery env → Poll → Type 0
  IsKept d missed = Unit
  IsKept d (answered r now) =
      Numbered env 1 r.next_delivery_sequence r.deliveries
      × Memᴰ d r.deliveries
      × (is_live env now d ≡ true)

  abbrev pub answered_polls : List Poll → ℕ
  answered_polls [] = 0
  answered_polls (missed ∷ polls) = answered_polls polls
  answered_polls (answered r now ∷ polls) = suc (answered_polls polls)

  Mem-filter :
      (p : StoredDelivery env → Bool) (d : StoredDelivery env) (ds : List (StoredDelivery env))
      → p d ≡ true
      → Memᴰ d ds
      → Memᴰ d (filter p ds)
  Mem-filter p d [] h k = absurd (Memᴰ.not-nil k)
  Mem-filter p d (x ∷ ds) h k = elim (Bool-cases (p x)) [
    | inl e ↦ rw e (elim (Memᴰ.cases_cons k) [
      | inl same ↦ head same
      | inr there ↦ tail (Mem-filter p d ds h there)
    ])
    | inr e ↦ rw e (elim (Memᴰ.cases_cons k) [
      | inl same ↦ absurd (ground (arith, sym h ∙ ap p same ∙ e))
      | inr there ↦ Mem-filter p d ds h there
    ])
  ]

  filter-holds :
      (p : StoredDelivery env → Bool) (d : StoredDelivery env) (ds : List (StoredDelivery env))
      → Memᴰ d (filter p ds)
      → p d ≡ true
  filter-holds p d [] k = absurd (Memᴰ.not-nil k)
  filter-holds p d (x ∷ ds) k = elim (Bool-cases (p x)) [
    | inl e ↦
        let here : Memᴰ d (x ∷ filter p ds) = rw e at k in
        elim (Memᴰ.cases_cons here) [
          | inl same ↦ ap p same ∙ e
          | inr there ↦ filter-holds p d ds there
        ]
    | inr e ↦ filter-holds p d ds (rw e at k)
  ]

  -- What the loop does with a page that was read.
  page_answer :
      (r : Relay env) (did : Did) (now a : ℕ) (cursor : Option String)
      → parse_cursor cursor ≡ ok a
      → delivery_page env r did cursor now ≡ (
          let page = take delivery_page_size (pending_for env did now a r.deliveries) in
          ok (page, elim (last_sequence env page) [ none ↦ none | some n ↦ some (decimal n) ]))
  unfolding delivery_page
  page_answer r did now a cursor parsed = rw parsed refl

  last_of :
      (x : StoredDelivery env) (xs : List (StoredDelivery env))
      → (n : ℕ) × (last_sequence env (x ∷ xs) ≡ some n)
  last_of x [] = (x.sequence, refl)
  last_of x (y ∷ xs) = last_of y xs

  has_last :
      (k : ℕ) (d : StoredDelivery env) (ds : List (StoredDelivery env))
      → Memᴰ d ds
      → (n : ℕ) × (last_sequence env (take (suc k) ds) ≡ some n)
  has_last k d [] h = absurd (Memᴰ.not-nil h)
  has_last k d (x ∷ ds) h = last_of x (take k ds)

  pending-Mem :
      (did : Did) (now a : ℕ) (d : StoredDelivery env) (ds : List (StoredDelivery env))
      → d.recipient ≡ did
      → a < d.sequence
      → is_live env now d ≡ true
      → Memᴰ d ds
      → Memᴰ d (pending_for env did now a ds)
  unfolding is_live
  pending-Mem did now a d ds to_did later live h = Mem-filter (is_live env now) d _ live (
      Mem-filter (λ x. x.recipient == did) d _ ((eq_iff d.recipient did).1 to_did)
        (Mem-filter (λ x. ltb a x.sequence) d ds (ground arith) h))

  -- One poll delivers it, or comes closer to it.
  poll_advances :
      (r : Relay env) (did : Did) (now a : ℕ) (d : StoredDelivery env)
      → Numbered env 1 r.next_delivery_sequence r.deliveries
      → Memᴰ d (pending_for env did now a r.deliveries)
      → (n : ℕ) × (last_sequence env
            (take delivery_page_size (pending_for env did now a r.deliveries))
          ≡ some n)
        × (a < n)
        × (Memᴰ d (take delivery_page_size (pending_for env did now a r.deliveries))
            ⊎ (n < d.sequence))
  poll_advances r did now a d numbered there =
      let ds = pending_for env did now a r.deliveries in
      let page = take delivery_page_size ds in
      let (n, last) = has_last 99 d ds there in
      let later =
        last-IsBehind env a n delivery_page_size ds (pending-IsBehind env did now a r.deliveries)
          last in
      let rest =
        page-rest env delivery_page_size 1 r.next_delivery_sequence n ds
          (pending-Numbered env did now a 1 r.next_delivery_sequence r.deliveries numbered) last in
      let split : Memᴰ d (page ++ filter (λ x. ltb n x.sequence) ds) = rw rest.0 at there in
      (
        n,
        last,
        later,
        elim (Memᴰ.append_cases page split) [
          | inl here ↦ inl here
          | inr behind ↦
              inr (ltb→lt n d.sequence (filter-holds (λ x. ltb n x.sequence) d ds behind))
        ],
      )

  -- Whatever the relay stores and however the clock goes between the polls: a delivery for the
  -- participant behind its cursor is accepted by the loop if it is stored and has not expired at
  -- every poll that is answered, and these are at least as many as its sequence number is above the
  -- cursor. The deliveries of an answering relay stand in the order of their sequence numbers. Polls
  -- that fail are not counted.
  pub run_poll_loop_delivers :
      (polls : List Poll) (did : Did) (cursor : Option String) (a : ℕ) (d : StoredDelivery env)
      → parse_cursor cursor ≡ ok a
      → d.recipient ≡ did
      → a < d.sequence
      → All (IsKept d) polls
      → d.sequence ≤ a + answered_polls polls
      → Memᴰ d (run_poll_loop polls did cursor)
  unfolding run_poll_loop
  run_poll_loop_delivers [] did cursor a d parsed to_did later kept enough =
      absurd (omega (arith, later, enough))
  run_poll_loop_delivers (missed ∷ polls) did cursor a d parsed to_did later (k, kept) enough =
      run_poll_loop_delivers polls did cursor a d parsed to_did later kept enough
  run_poll_loop_delivers (answered r now ∷ polls) did cursor a d parsed to_did later
        ((numbered, stored, live), kept) enough =
      let (n, last, closer, found) =
        poll_advances r did now a d numbered
          (pending-Mem did now a d r.deliveries to_did later live stored) in
      let page = take delivery_page_size (pending_for env did now a r.deliveries) in
      rw (page_answer r did now a cursor parsed, last)
        (elim found [
          | inl here ↦ Memᴰ.append_left _ here
          | inr beyond ↦ Memᴰ.append_right page (
              run_poll_loop_delivers polls did (some (decimal n)) n d (parse_cursor-decimal n)
                to_did beyond kept (omega (arith, closer, enough)))
        ])
