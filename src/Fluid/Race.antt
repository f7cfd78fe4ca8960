-- ===== src/Fluid/Race.antt =====
-- The guard of ScheduleCompaction (fluid_lsm.cc) among threads: the test reads the counter without the
-- mutex, the increment and the decrement hold it. Only the counter, the queue and the threads are here;
-- what a thread does between its test and its increment does not touch them.
pub mod Threads
pub mod Atomic
pub mod Inputs
use rocks_db_wrapper.Base.{
  ℕ, zero, suc, ◌+◌, ◌-◌, ◌≤◌, ◌≡◌, refl, sym, ap, ap₂, subst, ◌∙◌, Bool, true, List, [], ◌∷◌, ◌++◌,
  ◌↔◌, replicate, arith,
}
use rocks_db_wrapper.Base.Int.{ℤ, pos, pos_part, ◌+ℤ◌, ◌-ℤ◌, ltb_ℤ}

-- Where a thread is: outside of ScheduleCompaction, or behind its test.
pub data Pc : Type 0 where
  outside passed : Pc

-- `scheduled` counts the tasks that have not given their place back.
pub record Shared : Type 0 where
  pub parallel_compactions_running : ℤ
  pub parallel_compactions_allowed : ℤ
  pub scheduled : ℕ
  pub threads : List Pc

-- The test, the increment with the schedule behind it, and the decrement.
abbrev pub may_start : Shared → Bool
may_start s = ltb_ℤ s.parallel_compactions_running s.parallel_compactions_allowed

abbrev pub count_in : Shared → Shared
count_in s = record s {
  parallel_compactions_running = s.parallel_compactions_running +ℤ pos 1;
  scheduled = suc s.scheduled;
}

abbrev pub give_back : ℕ → Shared → Shared
give_back rest s = record s {
  parallel_compactions_running = s.parallel_compactions_running -ℤ pos 1;
  scheduled = rest;
}

pub data Move (s s' : Shared) : Type 0 where
  check :
      (before after : List Pc)
      → s.threads ≡ before ++ outside ∷ after
      → may_start s ≡ true
      → s' ≡ record s { threads = before ++ passed ∷ after }
      → Move s s'
  increment :
      (before after : List Pc)
      → s.threads ≡ before ++ passed ∷ after
      → s' ≡ record (count_in s) { threads = before ++ outside ∷ after }
      → Move s s'
  decrement : (rest : ℕ) → s.scheduled ≡ suc rest → s' ≡ give_back rest s → Move s s'

pub data Interleaves (start : Shared) : Shared → Type 0 where
  at_start : Interleaves start start
  moved : {s s' : Shared} → Interleaves start s → Move s s' → Interleaves start s'

-- A new compactor, and `n` threads that may call it.
abbrev pub start : ℕ → Shared
start n = record {
  parallel_compactions_running = pos 0;
  parallel_compactions_allowed = pos 1;
  scheduled = 0;
  threads = replicate n outside;
}
