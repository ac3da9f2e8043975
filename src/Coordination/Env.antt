-- ===== src/Coordination/Env.antt =====
-- What the Coordination store takes from outside: the canonical JSON hash (`computeJsonHash`, over
-- packages for JSON canonicalisation and SHA-256), `Date.parse` (`none` is NaN), and the decoding
-- of the middle part of a compact JWS (base64url and `JSON.parse`, `none` where one of them fails),
-- whose result the source casts to a `CanonicalApprovalPayload`.
use mpas.Prelude.{ℕ, String, Option}
use mpas.Mpas.{Did, Decision, Timestamp, HashObject}
use mpas.Mpas.Json.{Json}

pub record CanonicalApprovalPayload : Type 0 where
  pub action_envelope_hash : HashObject
  pub decision : Decision
  pub signer_did : Option Did
  pub created_at : Timestamp

pub record Env : Type 1 where
  pub Num : Type 0
  pub compute_json_hash : Json Num → HashObject
  pub date_parse : Timestamp → Option ℕ
  pub parse_payload : String → Option CanonicalApprovalPayload
