-- ===== src/Verification/Times/Window.antt =====
-- The time window of an Approval, as inequalities.
use mpas.Prelude.{
  ℕ, String, Bool, true, false, refl, ◌+◌, ◌≤◌, ◌<◌, ◌≡◌, ◌↔◌, Option, none, some, ltb, leb, arith,
  if◌then◌else◌,
}
use mpas.Verification.Formats.{Time}
use mpas.Verification.Envelope.{Envelope}
use mpas.Verification.Structure.{Approval}
use mpas.Verification.Times.{ApprovalTimeOptions, else_instant, instant_of, validate_approval_time}

-- When an Approval ends: at its own time, or with the envelope.
abbrev pub end_of : Option Time → Envelope → ℕ
end_of none envelope = envelope.expires_at.instant
end_of (some time) envelope = time.instant

pub record InWindow (approval : Approval) (envelope : Envelope) (now tolerance : ℕ) : Type 0 where
  pub not_early : approval.created_at.instant ≤ now + tolerance
  pub not_before_envelope : envelope.created_at.instant ≤ approval.created_at.instant + tolerance
  pub not_after_envelope : approval.created_at.instant ≤ envelope.expires_at.instant + tolerance
  pub ends_later : approval.created_at.instant < end_of approval.expires_at envelope
  pub ends_with_envelope :
      end_of approval.expires_at envelope ≤ envelope.expires_at.instant + tolerance
  pub not_ended : now < end_of approval.expires_at envelope + tolerance

abbrev options : Envelope → ℕ → ℕ → ApprovalTimeOptions
options envelope now tolerance = record {
  action_envelope = some envelope;
  now = now;
  tolerance = tolerance;
}

refused_iff :
    (b : Bool) (name : String) (o : Option String)
    → ((if b then some name else o) ≡ none) ↔ ((b ≡ false) × (o ≡ none))
refused_iff true name o = (λ h. cc, λ (h, k). cc)
refused_iff false name o = (λ h. (refl, h), λ (h, k). k)

ltb-false_iff : (a b : ℕ) → (ltb a b ≡ false) ↔ (b ≤ a)
ltb-false_iff a b = ground arith

leb-false_iff : (a b : ℕ) → (leb a b ≡ false) ↔ (b < a)
leb-false_iff a b = ground arith

ends-with :
    (own : Option Time) (e : Envelope)
    → else_instant (instant_of own) (some (e.expires_at.instant)) ≡ some (end_of own e)
ends-with none e = refl
ends-with (some t) e = refl

-- An Approval passes the check on its times exactly when it was not made in the future, was made
-- within the times of the envelope, ends after it was made and no later than the envelope, and has
-- not ended, each within the tolerance but for the third.
pub validate_approval_time_iff :
    (approval : Approval) (envelope : Envelope) (now tolerance : ℕ)
    → (validate_approval_time approval (options envelope now tolerance) ≡ none)
      ↔ InWindow approval envelope now tolerance
unfolding validate_approval_time
validate_approval_time_iff approval envelope now tolerance =
    let o = envelope.created_at.instant in
    let e = envelope.expires_at.instant in
    let c = approval.created_at.instant in
    let x = end_of approval.expires_at envelope in
    rw (ends-with approval.expires_at envelope) (
      (λ h.
          let (h1, h) = (refused_iff (ltb (now + tolerance) c) _ _).0 h in
          let (h2, h) = (refused_iff (ltb (c + tolerance) o) _ _).0 h in
          let (h3, h) = (refused_iff (ltb (e + tolerance) c) _ _).0 h in
          let (h4, h) = (refused_iff (leb (x + 0) c) _ _).0 h in
          let (h5, h) = (refused_iff (ltb (e + tolerance) x) _ _).0 h in
          let (h6, h) = (refused_iff (leb (x + tolerance) now) _ _).0 h in
          record {
            not_early = (ltb-false_iff _ _).0 h1;
            not_before_envelope = (ltb-false_iff _ _).0 h2;
            not_after_envelope = (ltb-false_iff _ _).0 h3;
            ends_later = omega (arith, (leb-false_iff (x + 0) c).0 h4);
            ends_with_envelope = (ltb-false_iff _ _).0 h5;
            not_ended = (leb-false_iff _ _).0 h6;
          }),
      (λ w.
          rw
            (
              (ltb-false_iff (now + tolerance) c).1 w.not_early,
              (ltb-false_iff (c + tolerance) o).1 w.not_before_envelope,
              (ltb-false_iff (e + tolerance) c).1 w.not_after_envelope,
              (leb-false_iff (x + 0) c).1 (omega (arith, w.ends_later)),
              (ltb-false_iff (e + tolerance) x).1 w.ends_with_envelope,
              (leb-false_iff (x + tolerance) now).1 w.not_ended,
            )
            refl),
    )
