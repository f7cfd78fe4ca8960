-- ===== src/Fluid/Double.antt =====
-- The operations on `double` that src/fluid_lsm.cc uses, as an interface, with the laws of IEEE 754
-- arithmetic on small integers that the code relies on.
use rocks_db_wrapper.Base.{ℕ, ◌+◌, ◌-◌, ◌*◌, ◌/◌, ◌^◌, ◌≤◌, ◌<◌, ◌≡◌}
use rocks_db_wrapper.Base.Int.{ℤ, pos}

pub record Double : Type 1 where
  pub Value : Type 0
  pub of_int : ℤ → Value
  pub add : Value → Value → Value
  pub sub : Value → Value → Value
  pub mul : Value → Value → Value
  pub div : Value → Value → Value
  pub pow : Value → Value → Value
  pub ceil : Value → Value
  pub to_int : Value → ℤ

abbrev pub of_ℕ : (d : Double) → ℕ → d.Value
of_ℕ d n = d.of_int (pos n)

-- A result that is an integer below 2 ^ 53 is exact; rounding a quotient of two such integers does
-- not move it across an integer.
pub record IsExact (d : Double) : Type 0 where
  pub add_exact : (a b : ℕ) → a + b < 2 ^ 53 → d.add (of_ℕ d a) (of_ℕ d b) ≡ of_ℕ d (a + b)
  pub sub_exact : (a b : ℕ) → b ≤ a → a < 2 ^ 53 → d.sub (of_ℕ d a) (of_ℕ d b) ≡ of_ℕ d (a - b)
  pub mul_exact : (a b : ℕ) → a * b < 2 ^ 53 → d.mul (of_ℕ d a) (of_ℕ d b) ≡ of_ℕ d (a * b)
  pub pow_exact : (a n : ℕ) → a ^ n < 2 ^ 53 → d.pow (of_ℕ d a) (of_ℕ d n) ≡ of_ℕ d (a ^ n)
  pub ceil_div :
      (a b : ℕ)
      → a < 2 ^ 53
      → b < 2 ^ 53
      → 0 < b
      → d.to_int (d.ceil (d.div (of_ℕ d a) (of_ℕ d b))) ≡ pos ((a + b - 1) / b)
  pub floor_div :
      (a b : ℕ)
      → a < 2 ^ 53
      → b < 2 ^ 53
      → 0 < b
      → d.to_int (d.div (of_ℕ d a) (of_ℕ d b)) ≡ pos (a / b)
