-- ===== src/Clock.antt =====
-- Clock readings and their differences: src/aux_time.cc, with seconds and nanoseconds. The readings are
-- a system call's, doubles are an interface, and a long is its value.
pub mod Rounding
pub mod Sums
mod Examples
use rocks_db_wrapper.Base.{ℕ, List, [], ◌∷◌, ◌++◌}
use rocks_db_wrapper.Base.Text.{Text, codes, show_ℤ}
use rocks_db_wrapper.Fluid.Double.{Double}
use rocks_db_wrapper.Base.Int.{ℤ, pos, ◌+ℤ◌, ◌-ℤ◌, ◌*ℤ◌, tdiv}

pub record MyClock : Type 0 where
  pub tv_sec : ℤ
  pub tv_nsec : ℤ

pub getclock_diff_us : MyClock → MyClock → ℤ
getclock_diff_us clk1 clk2 =
    pos 1_000_000 *ℤ (clk2.tv_sec -ℤ clk1.tv_sec) +ℤ tdiv (clk2.tv_nsec -ℤ clk1.tv_nsec) 1000

pub getclock_diff_ns : MyClock → MyClock → ℤ
getclock_diff_ns clk1 clk2 =
    pos 1_000_000_000 *ℤ (clk2.tv_sec -ℤ clk1.tv_sec) +ℤ (clk2.tv_nsec -ℤ clk1.tv_nsec)

-- `clock_gettime` is an argument; its return value is passed on.
abbrev pub my_clock_get_time : (MyClock → ℤ × MyClock) → MyClock → ℤ × MyClock
my_clock_get_time clock_gettime clk = clock_gettime clk

module _ (d : Double) where
  -- Seconds and nanoseconds as seconds.
  abbrev in_seconds : ℤ → ℤ → d.Value
  in_seconds sec nsec = d.add (d.of_int sec) (d.div (d.of_int nsec) (d.of_int (pos 1_000_000_000)))

  abbrev pub my_print_clock : (d.Value → Text) → MyClock → Text
  my_print_clock show clk =
      codes "CLK: "
      ++ show_ℤ clk.tv_sec
      ++ codes " s + "
      ++ show_ℤ clk.tv_nsec
      ++ codes " ns = "
      ++ show (in_seconds clk.tv_sec clk.tv_nsec)
      ++ codes " sec"
      ++ 10 ∷ []

  unfoldable getclock_diff_s : MyClock → MyClock → d.Value
  getclock_diff_s clk1 clk2 = in_seconds (clk2.tv_sec -ℤ clk1.tv_sec) (clk2.tv_nsec -ℤ clk1.tv_nsec)
