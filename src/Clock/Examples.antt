-- ===== src/Clock/Examples.antt =====
-- Two readings of the clock.
use rocks_db_wrapper.Base.{◌≡◌, refl}
use rocks_db_wrapper.Base.Int.{pos, ◌+ℤ◌, ◌-ℤ◌, ◌*ℤ◌, tdiv}
use rocks_db_wrapper.Clock.{MyClock, getclock_diff_us, getclock_diff_ns}

abbrev before : MyClock
before = record { tv_sec = pos 1; tv_nsec = pos 999_999_500 }

abbrev after : MyClock
after = record { tv_sec = pos 3; tv_nsec = pos 250 }

-- The quotient of the negative part is cut towards zero, so the microseconds are rounded up here.
rounded_up :
    (getclock_diff_ns before after ≡ pos 1_000_000_750)
    × (getclock_diff_us before after ≡ pos 1_000_001)
unfolding getclock_diff_ns getclock_diff_us ◌+ℤ◌ ◌-ℤ◌ ◌*ℤ◌ tdiv
rounded_up = (refl, refl)
