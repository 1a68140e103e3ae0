-- ===== src/Float64.antt =====
-- Go's float64, as the encoders use it. The values and their operations are not computed with: the
-- record holds what the code relies on.
use go_project.Base.{ℕ, ◌^◌, ◌<◌, ◌≡◌}

pub record Float64 : Type 1 where
  pub Value : Type 0
  pub plus : Value → Value → Value
  pub minus : Value → Value → Value
  pub times : Value → Value → Value
  pub over : Value → Value → Value
  pub thousand : Value
  -- float64(x) of an int64 and int64(v); the result is some int64 on every value.
  pub of_int64 : ℕ → Value
  pub to_int64 : Value → ℕ
  pub to_int64_fits : (v : Value) → to_int64 v < 2 ^ 64
  -- float64(x) of a uint64 and uint64(v)
  pub of_uint64 : ℕ → Value
  pub to_uint64 : Value → ℕ
  pub to_uint64_fits : (v : Value) → to_uint64 v < 2 ^ 64
  -- math.Float64bits and math.Float64frombits
  pub to_bits : Value → ℕ
  pub of_bits : ℕ → Value
  pub to_bits_fits : (v : Value) → to_bits v < 2 ^ 64
  pub of_bits-to_bits : (v : Value) → of_bits (to_bits v) ≡ v
