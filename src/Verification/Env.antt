-- ===== src/Verification/Env.antt =====
-- What the verification takes from outside: the cryptography of the signature suites, JSON
-- canonicalisation (json-canonicalize), the canonical JSON hash and `Date.parse`. Instants count
-- milliseconds from the start of the year 0, the earliest that a timestamp can name, so they are
-- natural numbers; `none` is NaN. `now` counts from there too.
use mpas.Prelude.{ℕ, String, Option}
use mpas.Mpas.{HashObject}
use mpas.Mpas.Json.{Json}
use mpas.Suites.{Crypto}

pub record Env : Type 1 where
  pub crypto : Crypto
  pub compute_json_hash : Json crypto.js.Num → HashObject
  pub canonicalize : Json crypto.js.Num → String
  pub date_parse : String → Option ℕ
