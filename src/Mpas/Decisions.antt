-- ===== src/Mpas/Decisions.antt =====
-- `Decision` and its `===`.
use mpas.Prelude.{◌≡◌, ◌↔◌, Bool, true, false, arith}
use mpas.Prelude.Eq.{Eq}

pub data Decision : Type 0 where
  propose approve reject abstain : Decision

abbrev decision_beq : Decision → Decision → Bool
decision_beq propose propose = true
decision_beq approve approve = true
decision_beq reject reject = true
decision_beq abstain abstain = true
decision_beq _ _ = false

pub decision_beq_iff : (a b : Decision) → (decision_beq a b ≡ true) ↔ (a ≡ b)
decision_beq_iff a b = ground arith

instance abbrev pub decision_eq : Eq Decision
decision_eq = record { equal = decision_beq; decides = decision_beq_iff }
