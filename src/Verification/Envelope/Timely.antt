-- ===== src/Verification/Envelope/Timely.antt =====
-- The clock checks of an envelope, as inequalities.
use mpas.Prelude.{ℕ, ◌+◌, ◌≤◌, ◌<◌, ◌≡◌, ◌↔◌, refl, true, not, ◌&&◌, some, leb, arith}
use mpas.Prelude.Result.{ok, ok_inj, bind-ok_iff, ensure-ok_iff, ensure_iff}
use mpas.Verification.Env.{Env}
use mpas.Verification.Envelope.{
  Envelope, Clock, EnvJson, read_envelope, check_clock, validate_action_envelope,
  exceeds_max_envelope_validity,
}

pub record IsTimely (clock : Clock) (envelope : Envelope) : Type 0 where
  pub not_early : envelope.created_at.instant ≤ clock.now + clock.tolerance
  pub not_expired : clock.now < envelope.expires_at.instant + clock.tolerance

not_early_iff : (a b : ℕ) → (leb a b ≡ true) ↔ (a ≤ b)
not_early_iff a b = ground arith

not_expired_iff : (a b : ℕ) → (not (true && leb a b) ≡ true) ↔ (b < a)
not_expired_iff a b = ground arith

pub too_long_iff :
    (e : Envelope) (max now : ℕ)
    → (not (exceeds_max_envelope_validity e max now) ≡ true) ↔ (e.expires_at.instant ≤ now + max)
unfolding exceeds_max_envelope_validity
too_long_iff e max now = ground arith

module _ (env : Env) where
  clock_iff :
      (clock : Clock) (e : Envelope)
      → (check_clock env (some clock) true e ≡ ok tt) ↔ IsTimely clock e
  unfolding check_clock
  clock_iff clock e = (
    (λ h.
        let (a, h) = (ensure-ok_iff _ _ _ _).0 h in
        let b = (ensure_iff _ _).0 h in
        record { not_early = (not_early_iff _ _).0 a; not_expired = (not_expired_iff _ _).0 b }),
    (λ t.
        rw
          (
            (not_early_iff (e.created_at.instant) (clock.now + clock.tolerance)).1 t.not_early,
            (not_expired_iff (e.expires_at.instant + clock.tolerance) clock.now).1 t.not_expired,
          )
          refl),
  )

  -- An envelope is valid at a time exactly when it is well formed, was not made in the future and
  -- has not expired, each within the tolerance.
  pub validate_action_envelope_iff :
      (clock : Clock) (json : EnvJson env) (e : Envelope)
      → (validate_action_envelope env (some clock) true json ≡ ok e)
        ↔ ((read_envelope env json ≡ ok e) × IsTimely clock e)
  unfolding validate_action_envelope
  validate_action_envelope_iff clock json e = (
    (λ h.
        let (read, h1, h) = (bind-ok_iff _ _ _).0 h in
        let (u, h2, h) = (bind-ok_iff _ _ _).0 h in
        let same : read ≡ e = ok_inj h in rw (← same) (h1, (clock_iff clock read).0 h2)),
    (λ (h, t). rw (h, (clock_iff clock e).1 t) refl),
  )
