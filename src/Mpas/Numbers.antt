-- ===== src/Mpas/Numbers.antt =====
-- JavaScript's numbers, as the components use them. The language has no floating-point type to
-- model them by, so the type and its operations are a parameter.
use mpas.Prelude.{ℕ, String, Option, Bool}

pub record Numbers : Type 1 where
  pub Num : Type 0
  -- `===`, `<` and `<=` on numbers that are not NaN.
  pub num_eq : Num → Num → Bool
  pub num_lt : Num → Num → Bool
  pub num_le : Num → Num → Bool
  -- `Number.isFinite`.
  pub is_finite : Num → Bool
  -- The length of an array.
  pub of_nat : ℕ → Num
  -- `Number(text)`; `none` where the text is blank or the result is NaN.
  pub of_text : String → Option Num
