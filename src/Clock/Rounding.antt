-- ===== src/Clock/Rounding.antt =====
-- The difference in microseconds against the one in nanoseconds.
use rocks_db_wrapper.Base.{ℕ, ◌+◌, ◌*◌, ◌<◌, ◌≡◌, arith}
use rocks_db_wrapper.Base.Int.{ℤ, pos, negsuc, pos_part, neg_part, ◌-ℤ◌, ◌*ℤ◌, tdiv, int_laws}
use rocks_db_wrapper.Clock.{MyClock, getclock_diff_us, getclock_diff_ns}

-- A multiple of a positive constant.
pub mul_parts :
    (k : ℕ) (a : ℤ)
    → pos_part (pos k *ℤ a) + k * neg_part a ≡ neg_part (pos k *ℤ a) + k * pos_part a
unfolding ◌*ℤ◌
mul_parts k a = ground arith

-- A truncated quotient is less than one unit away.
tdiv_parts :
    (a : ℤ)
    → (1000 * pos_part (tdiv a 1000) + neg_part a
        < 1000 * neg_part (tdiv a 1000) + pos_part a + 1000)
      × (1000 * neg_part (tdiv a 1000) + pos_part a
          < 1000 * pos_part (tdiv a 1000) + neg_part a + 1000)
unfolding tdiv
tdiv_parts (pos n) = (ground arith, ground arith)
tdiv_parts (negsuc n) = (ground arith, ground arith)

-- Between any two readings, a thousand times the difference in microseconds is less than a thousand
-- away from the difference in nanoseconds, on either side.
pub getclock_diff_us-rounds :
    (clk1 clk2 : MyClock)
    → (1000 * pos_part (getclock_diff_us clk1 clk2) + neg_part (getclock_diff_ns clk1 clk2)
        < 1000 * neg_part (getclock_diff_us clk1 clk2)
          + pos_part (getclock_diff_ns clk1 clk2)
          + 1000)
      × (1000 * neg_part (getclock_diff_us clk1 clk2) + pos_part (getclock_diff_ns clk1 clk2)
          < 1000 * pos_part (getclock_diff_us clk1 clk2)
            + neg_part (getclock_diff_ns clk1 clk2)
            + 1000)
unfolding getclock_diff_us getclock_diff_ns
getclock_diff_us-rounds clk1 clk2 =
    let s = clk2.tv_sec -ℤ clk1.tv_sec in
    let n = clk2.tv_nsec -ℤ clk1.tv_nsec in
    let bounds = tdiv_parts n in
    (
      omega (int_laws, mul_parts 1_000_000 s, mul_parts 1_000_000_000 s, bounds.0, bounds.1),
      omega (int_laws, mul_parts 1_000_000 s, mul_parts 1_000_000_000 s, bounds.0, bounds.1),
    )
