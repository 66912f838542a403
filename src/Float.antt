-- ===== src/Float.antt =====
-- Single-precision numbers as the firmware handles them: a `float` is its 32-bit pattern, which the
-- code inspects and moves; the arithmetic of the core is a parameter.
use hpm53m1_g6618motor.Base.{ℕ, ◌/◌, ◌%◌, Bool, not, ◌==◌}

pub record FloatOps : Type 0 where
  pub add : ℕ → ℕ → ℕ
  pub sub : ℕ → ℕ → ℕ
  pub mul : ℕ → ℕ → ℕ
  pub div : ℕ → ℕ → ℕ
  pub neg : ℕ → ℕ
  pub lt : ℕ → ℕ → Bool
  pub le : ℕ → ℕ → Bool
  -- The conversions `(float)n` and `(uint32_t)x`.
  pub of_uint : ℕ → ℕ
  pub to_uint : ℕ → ℕ

-- `(u & 0x7F800000U) != 0x7F800000U`: the exponent is not all ones.
unfoldable pub finite : ℕ → Bool
finite u = not (u / 8388608 % 256 == 255)
