-- ===== src/Coordination/Relay/Pages.antt =====
-- Polling by pages: no delivery is lost or repeated between two pages.
use mpas.Prelude.{
  ℕ, zero, suc, ◌+◌, ◌≤◌, ◌<◌, ◌≡◌, refl, ap, ◌∙◌, String, Bool, true, false, Option, none, some,
  List, [], ◌∷◌, ◌++◌, filter, take, All, All-filter, filter-All, ltb→lt, arith, ltb, Bool-cases,
  ◌⊎◌, inl, inr, eq_iff, some_inj,
}
use mpas.Prelude.Eq.{◌==◌, string_eq}
use mpas.Prelude.Chars.{size}
use mpas.Prelude.Decimal.{decimal, decimal_lem}
use mpas.Prelude.Result.{ok, ok_inj}
use mpas.Mpas.{Did}
use mpas.Coordination.Env.{Env}
use mpas.Coordination.Errors.{ServiceError}
use mpas.Coordination.Relay.Records.{StoredDelivery, Relay}
use mpas.Coordination.Relay.Polling.{
  delivery_page_size, parse_cursor, is_live, pending_for, last_sequence, delivery_page,
}

empty_short : ¬ (1 ≤ 0)
empty_short h = omega (arith, h)

not_empty : (s : String) → 1 ≤ size s → (s == "") ≡ false
not_empty s h = elim (Bool-cases (s == "")) [
  | inr e ↦ e
  | inl e ↦ let same : s ≡ "" = (eq_iff s "").0 e in absurd (empty_short (rw same at h))
]

-- A cursor that a poll writes is read back as the number it was written for.
pub parse_cursor-decimal : (n : ℕ) → parse_cursor (some (decimal n)) ≡ ok n
unfolding parse_cursor
parse_cursor-decimal n =
    let (value, digits, long) = decimal_lem n in
    rw (not_empty (decimal n) long, digits) (ap ok value)

module _ (env : Env) where
  -- Sequence numbers ascend from `lo` on, below `hi`.
  unfoldable pub Numbered : ℕ → ℕ → List (StoredDelivery env) → Type 0
  Numbered lo hi [] = lo ≤ hi
  Numbered lo hi (d ∷ ds) = (lo ≤ d.sequence) × Numbered (d.sequence + 1) hi ds

  abbrev behind : ℕ → StoredDelivery env → Bool
  behind n d = ltb n d.sequence

  pub Numbered-lower :
      (k lo hi : ℕ) (ds : List (StoredDelivery env)) → k ≤ lo → Numbered lo hi ds → Numbered k hi ds
  unfolding Numbered
  Numbered-lower k lo hi [] l h = omega (arith, l, h)
  Numbered-lower k lo hi (d ∷ ds) l h = (omega (arith, l, h.0), h.1)

  filter-Numbered :
      (p : StoredDelivery env → Bool) (lo hi : ℕ) (ds : List (StoredDelivery env))
      → Numbered lo hi ds
      → Numbered lo hi (filter p ds)
  unfolding Numbered
  filter-Numbered p lo hi [] h = h
  filter-Numbered p lo hi (d ∷ ds) (l, h) = elim (Bool-cases (p d)) [
    | inl e ↦ rw e (l, filter-Numbered p (d.sequence + 1) hi ds h)
    | inr e ↦ rw e (
        Numbered-lower lo (d.sequence + 1) hi (filter p ds) (omega (arith, l))
          (filter-Numbered p (d.sequence + 1) hi ds h))
  ]

  -- Everything behind a number that all are behind.
  all_behind :
      (n lo hi : ℕ) (ds : List (StoredDelivery env))
      → n < lo
      → Numbered lo hi ds
      → filter (behind n) ds ≡ ds
  unfolding Numbered
  all_behind n lo hi [] l h = refl
  all_behind n lo hi (d ∷ ds) l (k, h) =
      let first : ltb n d.sequence ≡ true = ground (arith, l, k) in
      rw (first, all_behind n (d.sequence + 1) hi ds (omega (arith, l, k)) h) refl

  last-cases :
      (d : StoredDelivery env) (ds : List (StoredDelivery env)) (n : ℕ)
      → last_sequence env (d ∷ ds) ≡ some n
      → ((ds ≡ []) × (d.sequence ≡ n)) ⊎ (last_sequence env ds ≡ some n)
  last-cases d [] n h = inl (refl, some_inj h)
  last-cases d (e ∷ ds) n h = inr h

  -- The rest of a page is what stands behind its last number.
  pub page-rest :
      (k lo hi n : ℕ) (ds : List (StoredDelivery env))
      → Numbered lo hi ds
      → last_sequence env (take k ds) ≡ some n
      → (ds ≡ take k ds ++ filter (behind n) ds) × (lo ≤ n)
  unfolding Numbered
  page-rest zero lo hi n ds h e = cc
  page-rest (suc k) lo hi n [] h e = cc
  page-rest (suc k) lo hi n (d ∷ ds) (l, h) e = elim (last-cases d (take k ds) n e) [
    | inl (none_left, same) ↦
        let not_behind : ltb n d.sequence ≡ false = ground (arith, same) in
        let all = all_behind n (d.sequence + 1) hi ds (omega (arith, same)) h in
        (rw (not_behind, none_left, all) refl, omega (arith, l, same))
    | inr later ↦
        let (rest, above) = page-rest k (d.sequence + 1) hi n ds h later in
        let not_behind : ltb n d.sequence ≡ false = ground (arith, above) in
        (
          rw not_behind (ap (λ (xs : List (StoredDelivery env)). d ∷ xs) rest),
          omega (arith, l, above),
        )
  ]

  filter_comm :
      (p q : StoredDelivery env → Bool) (ds : List (StoredDelivery env))
      → filter p (filter q ds) ≡ filter q (filter p ds)
  filter_comm p q [] = refl
  filter_comm p q (d ∷ ds) = ground (arith, filter_comm p q ds)

  behind_twice :
      (a n : ℕ) (ds : List (StoredDelivery env))
      → a ≤ n
      → filter (behind n) (filter (behind a) ds) ≡ filter (behind n) ds
  behind_twice a n [] h = refl
  behind_twice a n (d ∷ ds) h = ground (arith, h, behind_twice a n ds h)

  -- What is pending behind a number, for a later one.
  pending-behind :
      (did : Did) (now a n : ℕ) (ds : List (StoredDelivery env))
      → a ≤ n
      → filter (behind n) (pending_for env did now a ds) ≡ pending_for env did now n ds
  unfolding is_live
  pending-behind did now a n ds h =
      filter_comm (behind n) (is_live env now) _
      ∙ ap (filter (is_live env now)) (
          filter_comm (behind n) (λ d. d.recipient == did) (filter (behind a) ds)
          ∙ ap (filter (λ d. d.recipient == did)) (behind_twice a n ds h))

  pub pending-Numbered :
      (did : Did) (now a lo hi : ℕ) (ds : List (StoredDelivery env))
      → Numbered lo hi ds
      → Numbered lo hi (pending_for env did now a ds)
  unfolding Numbered is_live
  pending-Numbered did now a lo hi ds h =
      filter-Numbered (is_live env now) lo hi _
        (filter-Numbered (λ d. d.recipient == did) lo hi _ (filter-Numbered (behind a) lo hi ds h))

  abbrev IsBehind : ℕ → StoredDelivery env → Type 0
  IsBehind a d = a < d.sequence

  All-reflect :
      (a : ℕ) (ds : List (StoredDelivery env)) → All (λ d. behind a d ≡ true → IsBehind a d) ds
  All-reflect a [] = tt
  All-reflect a (d ∷ ds) = (λ h. ltb→lt a d.sequence h, All-reflect a ds)

  filter-IsBehind :
      (a : ℕ) (ds : List (StoredDelivery env)) → All (IsBehind a) (filter (behind a) ds)
  filter-IsBehind a ds = filter-All (IsBehind a) (behind a) ds (All-reflect a ds)

  pub pending-IsBehind :
      (did : Did) (now a : ℕ) (ds : List (StoredDelivery env))
      → All (IsBehind a) (pending_for env did now a ds)
  unfolding is_live
  pending-IsBehind did now a ds =
      All-filter (IsBehind a) (is_live env now) _
        (All-filter (IsBehind a) (λ d. d.recipient == did) _ (filter-IsBehind a ds))

  pub last-IsBehind :
      (a n k : ℕ) (ds : List (StoredDelivery env))
      → All (IsBehind a) ds
      → last_sequence env (take k ds) ≡ some n
      → a < n
  last-IsBehind a n zero ds h e = cc
  last-IsBehind a n (suc k) [] h e = cc
  last-IsBehind a n (suc k) (d ∷ ds) (h, hs) e = elim (last-cases d (take k ds) n e) [
    | inl (none_left, same) ↦ omega (arith, h, same)
    | inr later ↦ last-IsBehind a n k ds hs later
  ]

  written-cursor :
      (o : Option ℕ) (c : String)
      → elim o [ none ↦ none | some n ↦ some (decimal n) ] ≡ some c
      → (n : ℕ) × (o ≡ some n) × (decimal n ≡ c)
  written-cursor none c h = cc
  written-cursor (some n) c h = (n, refl, some_inj h)

  -- Between two polls with the cursor of the first, no delivery is lost and none is repeated: the
  -- cursor is read back as a number, and what was pending is the page and then what is pending
  -- behind that number.
  pub delivery_page-continues :
      (r : Relay env) (lo hi : ℕ) (did : Did) (now a : ℕ) (cursor : Option String)
      (page : List (StoredDelivery env)) (c : String)
      → Numbered lo hi r.deliveries
      → parse_cursor cursor ≡ ok a
      → delivery_page env r did cursor now ≡ ok (page, some c)
      → (n : ℕ) × (parse_cursor (some c) ≡ ok n)
        × (pending_for env did now a r.deliveries ≡ page ++ pending_for env did now n r.deliveries)
  unfolding delivery_page
  delivery_page-continues r lo hi did now a cursor page c numbered parsed polled =
      let ds = pending_for env did now a r.deliveries in
      let first = take delivery_page_size ds in
      let read : (first, elim (last_sequence env first) [ none ↦ none | some n ↦ some (decimal n) ])
          ≡ (page, some c) =
        ok_inj {E = ServiceError} (rw parsed at polled) in
      let same_page : first ≡ page =
        ap (λ (p : List (StoredDelivery env) × Option String). p.0) read in
      let (n, last, written) =
        written-cursor (last_sequence env first) c
          (ap (λ (p : List (StoredDelivery env) × Option String). p.1) read) in
      let later =
        last-IsBehind a n delivery_page_size ds (pending-IsBehind did now a r.deliveries) last in
      let rest =
        page-rest delivery_page_size lo hi n ds
          (pending-Numbered did now a lo hi r.deliveries numbered) last in
      (
        n,
        rw (← written) (parse_cursor-decimal n),
        rw (← same_page) (
            rest.0
            ∙ ap (λ (xs : List (StoredDelivery env)). first ++ xs)
                (pending-behind did now a n r.deliveries (omega (arith, later)))),
      )
