-- ===== src/Verification/Times.antt =====
-- `validateApprovalTime` of sdk/protocol/src/lib/verification.ts.
pub mod Window
use Prim.Native.String
use mpas.Prelude.{
  ℕ, ◌+◌, ltb, leb, String, Bool, true, false, not, ◌&&◌, ◌||◌, Option, none, some, List, [], ◌∷◌,
  get_elem?, if◌then◌else◌,
}
use mpas.Prelude.Assoc.{Assoc, lookup, insert}
use mpas.Prelude.Eq.{◌==◌, string_eq, option_eq}
use mpas.Prelude.Text.{split}
use mpas.Prelude.Result.{Result, ok, err, ◌>>=◌, ◌>>◌, ensure, or_error}
use mpas.Mpas.{Did, HashObject, Decision, decision_eq}
use mpas.Mpas.Fields.{field, is_record, only_keys, is_text, as_text}
use mpas.Mpas.Json.{Json}
use mpas.StrictJson.{strict_json_parse}
use mpas.Suites.{Jwk, is_did_jwk, did_jwk_to_jwk, verification_kid, verify_suite_compact_jws}
use mpas.Verification.Env.{Env}
use mpas.Verification.Formats.{Time, is_did, read_hash, read_decision, read_mpas_time, hashes_equal}
use mpas.Verification.Envelope.{Envelope, EnvJson}
use mpas.Verification.Structure.{
  Approval, ApprovalBundle, approval_path, validate_approval_bundle_structure, ◌/◌,
}

-- The envelope, the clock and its tolerance.
pub record ApprovalTimeOptions : Type 0 where
  pub action_envelope : Option Envelope
  pub now : ℕ
  pub tolerance : ℕ

abbrev pub instant_of : Option Time → Option ℕ
instant_of none = none
instant_of (some t) = some t.instant

-- `a > b + d`, false where an instant is missing.
abbrev pub later : Option ℕ → Option ℕ → ℕ → Bool
later (some a) (some b) d = ltb (b + d) a
later _ _ d = false

-- `a + d <= b`, false where an instant is missing.
abbrev pub reached : Option ℕ → Option ℕ → ℕ → Bool
reached (some a) (some b) d = leb (a + d) b
reached _ _ d = false

abbrev envelope_created : Option Envelope → Option ℕ
envelope_created none = none
envelope_created (some e) = some (e.created_at.instant)

abbrev envelope_expires : Option Envelope → Option ℕ
envelope_expires none = none
envelope_expires (some e) = some (e.expires_at.instant)

abbrev else_instant : Option ℕ → Option ℕ → Option ℕ
else_instant none other = other
else_instant (some t) other = some t

-- The field that is refused.
unfoldable pub validate_approval_time : Approval → ApprovalTimeOptions → Option String
validate_approval_time approval options =
    let created = some (approval.created_at.instant) in
    let opened = envelope_created options.action_envelope in
    let closed = envelope_expires options.action_envelope in
    let expires = else_instant (instant_of approval.expires_at) closed in
    if later created (some options.now) options.tolerance
    then some "createdAt"
    else if later opened created options.tolerance
    then some "createdAt"
    else if later created closed options.tolerance
    then some "createdAt"
    else if reached expires created 0
    then some "expiresAt"
    else if later expires closed options.tolerance
    then some "expiresAt"
    else if reached expires (some options.now) options.tolerance
    then some "expiresAt"
    else none
