-- ===== src/Fluid/System.antt =====
-- The compactor among its callbacks: flushes and ends of background compactions in any order. A task
-- counts as scheduled until `DB::CompactFiles` has returned in it; the rest of it is one step.
pub mod Counts
pub mod Shape
pub mod Progress
pub mod Settled
mod Examples
use Prim.Native.String.{String}
use rocks_db_wrapper.Base.{
  ℕ, ◌+◌, ◌≤◌, ◌≡◌, refl, ap, ◌∙◌, Bool, some, List, [], ◌∷◌, ◌++◌, length, length-append, arith,
}
use rocks_db_wrapper.Base.Int.{pos}
use rocks_db_wrapper.Fluid.Double.{Double}
use rocks_db_wrapper.Fluid.Tree.{FluidOptions, new_fluid_lsm}
use rocks_db_wrapper.Fluid.Build.{LevelMetaData}
use rocks_db_wrapper.Fluid.Compact.{Compactor, CompactionTask, on_flush_completed, compact_files}
use rocks_db_wrapper.Fluid.Compact.Pool.{
  IsCounted, on_flush_completed-IsCounted, compact_files-IsCounted,
}

-- The metadata and the status come from the database, and may be anything.
pub data Step (d : Double) (c c' : Compactor) : Type 0 where
  flush :
      (meta : List LevelMetaData) (cf_name : String)
      → on_flush_completed d meta cf_name c ≡ some c'
      → Step d c c'
  finish :
      (before after : List CompactionTask) (task : CompactionTask) (is_io_error : Bool)
      (meta : List LevelMetaData)
      → c.scheduled ≡ before ++ task ∷ after
      → compact_files d is_io_error meta task (record c { scheduled = before ++ after }) ≡ some c'
      → Step d c c'

pub data Reach (d : Double) (start : Compactor) : Compactor → Type 0 where
  here : Reach d start start
  next : {c c' : Compactor} → Reach d start c → Step d c c' → Reach d start c'

-- A new compactor in an environment with nothing scheduled.
abbrev pub new_compactor : ℕ → ℕ → ℕ → ℕ → FluidOptions → Bool → Compactor
new_compactor size_ratio k z file_size options uninitialised = record {
  lsm = new_fluid_lsm size_ratio k z file_size options uninitialised;
  scheduled = [];
}

pub length-middle {ℓ} :
    {A : Type ℓ} (xs : List A) (y : A) (zs : List A) → length (xs ++ y ∷ zs) ≡ length (xs ++ zs) + 1
length-middle xs y zs = omega (arith, length-append xs (y ∷ zs), length-append xs zs)

pub finishing-IsCounted :
    (before after : List CompactionTask) (task : CompactionTask) (c : Compactor)
    → IsCounted 0 c
    → c.scheduled ≡ before ++ task ∷ after
    → IsCounted 1 (record c { scheduled = before ++ after })
finishing-IsCounted before after task c v e =
    let size = ap length e ∙ length-middle before task after in
    record {
      counted = v.counted ∙ ap pos (omega (arith, size));
      within = omega (arith, size, v.within);
      allowed = v.allowed;
    }

pub Step-IsCounted : (d : Double) (c c' : Compactor) → Step d c c' → IsCounted 0 c → IsCounted 0 c'
Step-IsCounted d c c' (flush meta cf_name e) v = on_flush_completed-IsCounted d meta cf_name c v e
Step-IsCounted d c c' (finish before after task is_io_error meta at e) v =
    (compact_files-IsCounted d is_io_error meta task _
      (finishing-IsCounted before after task c v at) e).0

pub Reach-IsCounted :
    (d : Double) (start : Compactor) {c : Compactor}
    → Reach d start c
    → IsCounted 0 start
    → IsCounted 0 c
Reach-IsCounted d start here v = v
Reach-IsCounted d start (next {c} {c'} r s) v =
    Step-IsCounted d c c' s (Reach-IsCounted d start r v)

pub new_compactor-IsCounted :
    (size_ratio k z file_size : ℕ) (options : FluidOptions) (uninitialised : Bool)
    → IsCounted 0 (new_compactor size_ratio k z file_size options uninitialised)
unfolding new_fluid_lsm
new_compactor-IsCounted size_ratio k z file_size options uninitialised = record {
  counted = ap pos (omega arith);
  within = omega arith;
  allowed = refl;
}

-- In every history of flushes and finished compactions, as atomic steps, the counter of running
-- compactions is the number of tasks scheduled and not finished, and that is at most one.
pub run-IsCounted :
    (d : Double) (size_ratio k z file_size : ℕ) (options : FluidOptions) (uninitialised : Bool)
    {c : Compactor}
    → Reach d (new_compactor size_ratio k z file_size options uninitialised) c
    → (c.lsm.parallel_compactions_running ≡ pos (length c.scheduled)) × (length c.scheduled ≤ 1)
run-IsCounted d size_ratio k z file_size options uninitialised r =
    let v =
      Reach-IsCounted d _ r
        (new_compactor-IsCounted size_ratio k z file_size options uninitialised) in
    (v.counted ∙ ap pos (omega arith), omega (arith, v.within))

-- The end of a background compaction never schedules another one, whatever the tree looks like then:
-- after it nothing is scheduled, until the next flush.
pub finish-idle :
    (d : Double) (size_ratio k z file_size : ℕ) (options : FluidOptions) (uninitialised : Bool)
    (c : Compactor) (before after : List CompactionTask) (task : CompactionTask)
    (is_io_error : Bool) (meta : List LevelMetaData) {c' : Compactor}
    → Reach d (new_compactor size_ratio k z file_size options uninitialised) c
    → c.scheduled ≡ before ++ task ∷ after
    → compact_files d is_io_error meta task (record c { scheduled = before ++ after }) ≡ some c'
    → (c'.scheduled ≡ []) × (c'.lsm.parallel_compactions_running ≡ pos 0)
finish-idle d size_ratio k z file_size options uninitialised c before after task is_io_error meta r
      at e =
    let start = new_compactor-IsCounted size_ratio k z file_size options uninitialised in
    let v = finishing-IsCounted before after task c (Reach-IsCounted d _ r start) at in
    let (counted, idle) = compact_files-IsCounted d is_io_error meta task _ v e in
    (idle, counted.counted ∙ ap pos (omega (arith, ap length idle)))
