-- ===== src/Coordination/Idempotency/Sharing.antt =====
-- Runs of calls and failures: a request is not run twice while its first run is cached.
use mpas.Prelude.{
  ℕ, ◌+◌, ◌<◌, ltb, ◌≡◌, refl, ap, String, true, false, Option, none, some, List, [], ◌∷◌, filter,
  if◌then◌else◌, arith, Bool-cases, some_inj, inl, inr, ◌∙◌, All,
}
use mpas.Prelude.Eq.{◌==◌, string_eq}
use mpas.Prelude.Assoc.{Assoc, lookup, lookup-insert, lookup-insert_self, lookup-erase}
use mpas.Mpas.{Did}
use mpas.Coordination.Idempotency.{
  Service, idempotency_scope, CachedRun, Idempotency, Outcome, started, joined,
  idempotency_conflict, is_current, drop_expired, share, run_in_scope, run_with_key, run_idempotent,
  forget_failed, idempotency_cache_ttl,
}

pub data Op : Type 0 where
  call : Service → Did → Option String → Option String → ℕ → Op
  fail : String → Op

pub step : Idempotency → Op → Idempotency
step c (call service did key fingerprint now) = (run_idempotent c service did key fingerprint now).0
step c (fail scope) = forget_failed c scope

pub run : Idempotency → List Op → Idempotency
unfolding step
run c [] = c
run c (op ∷ ops) = run (step c op) ops

-- A call before the entry ends, or the failure of a run under another scope.
unfoldable pub Quiet : String → ℕ → Op → Type 0
Quiet scope end (call service did key fingerprint now) = now < end
Quiet scope end (fail other) = (other == scope) ≡ false

lookup-filter :
    (now : ℕ) (scope : String) (entry : CachedRun) (m : Assoc String CachedRun)
    → ltb now entry.expires_at ≡ true
    → lookup scope m ≡ some entry
    → lookup scope (filter (is_current now) m) ≡ some entry
unfolding lookup
lookup-filter now scope entry [] l h = cc
lookup-filter now scope entry ((k, e) ∷ m) l h =
    let rest = lookup-filter now scope entry m l in
    elim (Bool-cases (k == scope)) [
      | inl same ↦
          let is_entry : e ≡ entry = some_inj (rw (same, lookup) at h) in
          rw (is_entry, l, lookup, same) refl
      | inr other ↦
          let there = rest (rw (other, lookup) at h) in
          elim (Bool-cases (ltb now e.expires_at)) [
            | inl current ↦ rw (current, lookup, other) there
            | inr past ↦ rw past there
          ]
    ]

run_in_scope-lookup :
    (c : Idempotency) (run_scope fingerprint : String) (now : ℕ) (scope : String)
    (entry : CachedRun) (found : Option CachedRun)
    → lookup run_scope c.idempotency ≡ found
    → lookup scope c.idempotency ≡ some entry
    → lookup scope (run_in_scope c run_scope fingerprint now found).0.idempotency ≡ some entry
run_in_scope-lookup c run_scope fingerprint now scope entry (some e) k h = h
run_in_scope-lookup c run_scope fingerprint now scope entry none k h =
    elim (Bool-cases (run_scope == scope)) [
      | inl same ↦
          let one_scope = (string_eq.decides run_scope scope).0 same in
          cc (ap (λ t. lookup t c.idempotency) one_scope, k, h)
      | inr other ↦ rw (lookup-insert run_scope scope _ c.idempotency, other) h
    ]

run_with_key-lookup :
    (c : Idempotency) (run_scope : String) (fingerprint : Option String) (now : ℕ) (scope : String)
    (entry : CachedRun)
    → lookup scope c.idempotency ≡ some entry
    → lookup scope (run_with_key c run_scope fingerprint now).0.idempotency ≡ some entry
run_with_key-lookup c run_scope none now scope entry h = h
run_with_key-lookup c run_scope (some fingerprint) now scope entry h =
    run_in_scope-lookup c run_scope fingerprint now scope entry (lookup run_scope c.idempotency)
      refl h

is_before : (a b : ℕ) → a < b → ltb a b ≡ true
is_before a b h = ground arith

run_keyed :
    (c : Idempotency) (service : Service) (did : Did) (key : String) (fingerprint : Option String)
    (now : ℕ)
    → (key == "") ≡ false
    → run_idempotent c service did (some key) fingerprint now
      ≡ run_with_key (drop_expired c now) (idempotency_scope service did key) fingerprint now
unfolding run_idempotent
run_keyed c service did key fingerprint now keyed = rw keyed refl

run_unkeyed :
    (c : Idempotency) (service : Service) (did : Did) (key : String) (fingerprint : Option String)
    (now : ℕ)
    → (key == "") ≡ true
    → (run_idempotent c service did (some key) fingerprint now).0.idempotency ≡ c.idempotency
unfolding run_idempotent
run_unkeyed c service did key fingerprint now blank = rw blank refl

run_idempotent-lookup :
    (c : Idempotency) (service : Service) (did : Did) (key : String) (fingerprint : Option String)
    (now : ℕ) (scope : String) (entry : CachedRun)
    → now < entry.expires_at
    → lookup scope c.idempotency ≡ some entry
    → lookup scope (run_idempotent c service did (some key) fingerprint now).0.idempotency
      ≡ some entry
run_idempotent-lookup c service did key fingerprint now scope entry q h =
    elim (Bool-cases (key == "")) [
      | inl blank ↦ rw (run_unkeyed c service did key fingerprint now blank) h
      | inr keyed ↦ rw (run_keyed c service did key fingerprint now keyed) (
          run_with_key-lookup (drop_expired c now) (idempotency_scope service did key) fingerprint
            now scope entry (lookup-filter now scope entry c.idempotency (is_before _ _ q) h))
    ]

step-lookup :
    (c : Idempotency) (op : Op) (scope : String) (entry : CachedRun)
    → Quiet scope entry.expires_at op
    → lookup scope c.idempotency ≡ some entry
    → lookup scope (step c op).idempotency ≡ some entry
unfolding Quiet step run_idempotent forget_failed
step-lookup c (call service did none fingerprint now) scope entry q h = h
step-lookup c (call service did (some key) fingerprint now) scope entry q h =
    run_idempotent-lookup c service did key fingerprint now scope entry q h
step-lookup c (fail other) scope entry q h = rw (lookup-erase other scope c.idempotency, q) h

run-lookup :
    (c : Idempotency) (ops : List Op) (scope : String) (entry : CachedRun)
    → All (Quiet scope entry.expires_at) ops
    → lookup scope c.idempotency ≡ some entry
    → lookup scope (run c ops).idempotency ≡ some entry
unfolding run
run-lookup c [] scope entry q h = h
run-lookup c (op ∷ ops) scope entry (q, qs) h =
    run-lookup (step c op) ops scope entry qs (step-lookup c op scope entry q h)

-- A call with a key finds the entry of its scope, if that has not ended.
run_idempotent-share :
    (c : Idempotency) (service : Service) (did : Did) (key fingerprint : String) (now : ℕ)
    (entry : CachedRun)
    → (key == "") ≡ false
    → lookup (idempotency_scope service did key) c.idempotency ≡ some entry
    → now < entry.expires_at
    → (run_idempotent c service did (some key) (some fingerprint) now).1 ≡ share entry fingerprint
run_idempotent-share c service did key fingerprint now entry keyed h l =
    rw
      (
        run_keyed c service did key (some fingerprint) now keyed,
        lookup-filter now (idempotency_scope service did key) entry c.idempotency (is_before _ _ l)
            h,
      )
      refl

abbrev cached : String → ℕ → ℕ → CachedRun
cached fingerprint n now = record {
  fingerprint = fingerprint;
  result = n;
  expires_at = now + idempotency_cache_ttl;
}

number_of : Outcome → ℕ
number_of (started n) = n
number_of _ = 0

not_started :
    (entry : CachedRun) (fingerprint : String) (n : ℕ) → ¬ (share entry fingerprint ≡ started n)
not_started entry fingerprint n h = elim (Bool-cases (entry.fingerprint == fingerprint)) [
  | inl same ↦ cc (rw same at h)
  | inr other ↦ cc (rw other at h)
]

run_in_scope-started :
    (c : Idempotency) (scope fingerprint : String) (now n : ℕ) (found : Option CachedRun)
    → (run_in_scope c scope fingerprint now found).1 ≡ started n
    → lookup scope (run_in_scope c scope fingerprint now found).0.idempotency
      ≡ some (cached fingerprint n now)
unfolding number_of
run_in_scope-started c scope fingerprint now n (some entry) h =
    absurd (not_started entry fingerprint n h)
run_in_scope-started c scope fingerprint now n none h =
    lookup-insert_self scope (cached fingerprint c.started_runs now) c.idempotency
    ∙ ap (λ k. some (cached fingerprint k now)) (ap number_of h)

run_idempotent-started :
    (c : Idempotency) (service : Service) (did : Did) (key fingerprint : String) (now n : ℕ)
    → (key == "") ≡ false
    → (run_idempotent c service did (some key) (some fingerprint) now).1 ≡ started n
    → lookup
        (idempotency_scope service did key)
        (run_idempotent c service did (some key) (some fingerprint) now).0.idempotency
      ≡ some (cached fingerprint n now)
run_idempotent-started c service did key fingerprint now n keyed h =
    let known = run_keyed c service did key (some fingerprint) now keyed in
    rw known (
      run_in_scope-started (drop_expired c now) (idempotency_scope service did key) fingerprint now
        n _ (rw known at h))

-- A call with a key that starts an operation is the only one to do so for 15 minutes: after any
-- calls within that time, and failures of runs under other keys only, a call with the same service,
-- DID and key and the same request joins that run, and one with another request is a conflict.
pub started_once :
    (c : Idempotency) (service : Service) (did : Did) (key fingerprint again : String)
    (now later n : ℕ) (ops : List Op)
    → (key == "") ≡ false
    → (run_idempotent c service did (some key) (some fingerprint) now).1 ≡ started n
    → All (Quiet (idempotency_scope service did key) (now + idempotency_cache_ttl)) ops
    → later < now + idempotency_cache_ttl
    → (run_idempotent
        (run (run_idempotent c service did (some key) (some fingerprint) now).0 ops)
        service
        did
        (some key)
        (some again)
        later).1
      ≡ (if fingerprint == again then joined n else idempotency_conflict)
started_once c service did key fingerprint again now later n ops keyed began quiet before =
    let c' = (run_idempotent c service did (some key) (some fingerprint) now).0 in
    run_idempotent-share (run c' ops) service did key again later (cached fingerprint n now) keyed
      (run-lookup c' ops (idempotency_scope service did key) (cached fingerprint n now) quiet
        (run_idempotent-started c service did key fingerprint now n keyed began))
      before
