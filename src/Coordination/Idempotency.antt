-- ===== src/Coordination/Idempotency.antt =====
-- The idempotency cache of cli/src/coordination/store.ts. The result of an operation is a promise;
-- it stands here as the number of the run that settles it. The fingerprint of the request is an
-- argument, `none` where `computeIdempotencyFingerprint` throws.
pub mod Sharing
mod Tests
use Prim.Native.String
use mpas.Prelude.{
  ℕ, ◌+◌, ◌*◌, ltb, Bool, String, Option, none, some, List, [], ◌∷◌, filter, if◌then◌else◌,
}
use mpas.Prelude.Eq.{◌==◌, string_eq}
use mpas.Prelude.Assoc.{Assoc, lookup, insert, erase}
use mpas.Mpas.{Did}

abbrev pub idempotency_cache_ttl : ℕ
idempotency_cache_ttl = 15 * 60000

pub data Service : Type 0 where
  relay coordination : Service

abbrev service_text : Service → String
service_text relay = "relay"
service_text coordination = "coordination"

abbrev nul : String
nul = "\0"

-- The key of the cache: service, DID and idempotency key with NUL between.
pub idempotency_scope : Service → Did → String → String
idempotency_scope service did key =
    String.◌++◌ (service_text service) (String.◌++◌ nul (String.◌++◌ did (String.◌++◌ nul key)))

pub record CachedRun : Type 0 where
  pub fingerprint : String
  pub result : ℕ
  pub expires_at : ℕ

-- The cache, and how many operations were started.
pub record Idempotency : Type 0 where
  pub idempotency : Assoc String CachedRun
  pub started_runs : ℕ

-- `malformed` is the error of `computeIdempotencyFingerprint`.
pub data Outcome : Type 0 where
  started joined : ℕ → Outcome
  idempotency_conflict malformed : Outcome

abbrev pub is_current : ℕ → String × CachedRun → Bool
is_current now (scope, entry) = ltb now entry.expires_at

abbrev pub drop_expired : Idempotency → ℕ → Idempotency
drop_expired c now = record c { idempotency = filter (is_current now) c.idempotency }

abbrev pub start : Idempotency → String → String → ℕ → Idempotency
start c scope fingerprint now = record {
  idempotency =
      insert scope
        (record {
          fingerprint = fingerprint;
          result = c.started_runs;
          expires_at = now + idempotency_cache_ttl;
        })
        c.idempotency;
  started_runs = c.started_runs + 1;
}

-- A cached run serves the request that it was started for, and no other.
abbrev pub share : CachedRun → String → Outcome
share entry fingerprint =
    if entry.fingerprint == fingerprint then joined entry.result else idempotency_conflict

abbrev pub run_in_scope :
    Idempotency → String → String → ℕ → Option CachedRun → Idempotency × Outcome
run_in_scope c scope fingerprint now none = (start c scope fingerprint now, started c.started_runs)
run_in_scope c scope fingerprint now (some entry) = (c, share entry fingerprint)

abbrev pub run_with_key : Idempotency → String → Option String → ℕ → Idempotency × Outcome
run_with_key c scope none now = (c, malformed)
run_with_key c scope (some fingerprint) now =
    run_in_scope c scope fingerprint now (lookup scope c.idempotency)

pub run_idempotent :
    Idempotency → Service → Did → Option String → Option String → ℕ → Idempotency × Outcome
unfolding idempotency_scope
run_idempotent c service did none fingerprint now =
    (record c { started_runs = c.started_runs + 1 }, started c.started_runs)
run_idempotent c service did (some key) fingerprint now =
    if key == ""
    then (record c { started_runs = c.started_runs + 1 }, started c.started_runs)
    else run_with_key (drop_expired c now) (idempotency_scope service did key) fingerprint now

-- The promise of a run under a scope is rejected.
pub forget_failed : Idempotency → String → Idempotency
forget_failed c scope = record c { idempotency = erase scope c.idempotency }
