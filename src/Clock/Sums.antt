-- ===== src/Clock/Sums.antt =====
-- Differences add up: a measurement is the sum of the measurements of its parts.
use rocks_db_wrapper.Base.{ℕ, ◌≡◌}
use rocks_db_wrapper.Base.Int.{◌+ℤ◌, ◌-ℤ◌, eq_of_parts, int_laws}
use rocks_db_wrapper.Clock.{MyClock, getclock_diff_ns}
use rocks_db_wrapper.Clock.Rounding.{mul_parts}

-- In nanoseconds, the time from the first reading to the third is that to the second and from there on,
-- in any order of the readings.
getclock_diff_ns-add :
    (clk1 clk2 clk3 : MyClock)
    → getclock_diff_ns clk1 clk2 +ℤ getclock_diff_ns clk2 clk3 ≡ getclock_diff_ns clk1 clk3
unfolding getclock_diff_ns
getclock_diff_ns-add clk1 clk2 clk3 =
    let long : ℕ = 1_000_000_000 in
    eq_of_parts (getclock_diff_ns clk1 clk2 +ℤ getclock_diff_ns clk2 clk3)
      (getclock_diff_ns clk1 clk3)
      (omega (
        int_laws,
        mul_parts long (clk2.tv_sec -ℤ clk1.tv_sec),
        mul_parts long (clk3.tv_sec -ℤ clk2.tv_sec),
        mul_parts long (clk3.tv_sec -ℤ clk1.tv_sec),
      ))
