-- ===== src/Coordination/Idempotency/Tests.antt =====
-- One request, sent again after another DID's request and a failure under another key.
use mpas.Prelude.{◌+◌, ◌≡◌, refl, none, some, List, [], ◌∷◌, All, arith}
use mpas.Prelude.Eq.{string_eq}
use mpas.Prelude.Assoc.{lookup}
use mpas.Coordination.Idempotency.{
  Idempotency, started, joined, relay, coordination, idempotency_scope, idempotency_cache_ttl,
  run_idempotent,
}
use mpas.Coordination.Idempotency.Sharing.{Op, call, fail, Quiet, run, started_once}

abbrev empty_cache : Idempotency
empty_cache = record { idempotency = []; started_runs = 0 }

abbrev between : List Op
between =
    call coordination "did:x:bob" (some "k1") (some "f2") 6
    ∷ call relay "did:x:alice" none none 7
    ∷ fail "coordination"
    ∷ []

between-Quiet :
    All (Quiet (idempotency_scope relay "did:x:alice" "k1") (5 + idempotency_cache_ttl)) between
unfolding Quiet idempotency_scope
between-Quiet = (omega arith, (omega arith, (refl, tt)))

begins : (run_idempotent empty_cache relay "did:x:alice" (some "k1") (some "f1") 5).1 ≡ started 0
unfolding run_idempotent idempotency_scope lookup
begins = refl

started_once_example :
    (run_idempotent
      (run (run_idempotent empty_cache relay "did:x:alice" (some "k1") (some "f1") 5).0 between)
      relay
      "did:x:alice"
      (some "k1")
      (some "f1")
      900000).1
    ≡ joined 0
started_once_example =
    started_once empty_cache relay "did:x:alice" "k1" "f1" "f1" 5 900000 0 between refl begins
      between-Quiet (omega arith)
