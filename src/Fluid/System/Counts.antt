-- ===== src/Fluid/System/Counts.antt =====
-- How many compactions a history of the compactor can carry out.
use rocks_db_wrapper.Base.{ℕ, suc, ◌+◌, ◌≤◌, ◌≡◌, refl, ap, Bool, [], length, arith}
use rocks_db_wrapper.Fluid.Double.{Double}
use rocks_db_wrapper.Fluid.Tree.{FluidOptions}
use rocks_db_wrapper.Fluid.Compact.{Compactor}
use rocks_db_wrapper.Fluid.Compact.Pool.{IsCounted, compact_files-IsCounted}
use rocks_db_wrapper.Fluid.System.{
  flush, finish, Reach, here, next, new_compactor, new_compactor-IsCounted, Reach-IsCounted,
  Step-IsCounted, length-middle, finishing-IsCounted,
}

-- The flushes of a history, and the compactions that ended in it.
abbrev pub flushes : {d : Double} {start c : Compactor} → Reach d start c → ℕ
flushes here = 0
flushes (next r (flush meta cf_name e)) = suc (flushes r)
flushes (next r (finish before after task is_io_error meta at e)) = flushes r

abbrev pub finishes : {d : Double} {start c : Compactor} → Reach d start c → ℕ
finishes here = 0
finishes (next r (flush meta cf_name e)) = finishes r
finishes (next r (finish before after task is_io_error meta at e)) = suc (finishes r)

Reach-finishes :
    (d : Double) (start : Compactor) {c : Compactor}
    → IsCounted 0 start
    → start.scheduled ≡ []
    → (r : Reach d start c) → finishes r + length c.scheduled ≤ flushes r
Reach-finishes d start v idle here = omega (arith, ap length idle)
Reach-finishes d start v idle (next {c} {c'} r (flush meta cf_name e)) =
    let v' = Step-IsCounted d c c' (flush meta cf_name e) (Reach-IsCounted d start r v) in
    omega (arith, v'.within, Reach-finishes d start v idle r)
Reach-finishes d start v idle (next {c} {c'} r (finish before after task is_io_error meta at e)) =
    let counted = finishing-IsCounted before after task c (Reach-IsCounted d start r v) at in
    let (v', none_left) = compact_files-IsCounted d is_io_error meta task _ counted e in
    omega (
      arith,
      ap length none_left,
      ap length at,
      length-middle before task after,
      Reach-finishes d start v idle r,
    )

-- In every history, each compaction that has ended, and the one that is scheduled, if there is one,
-- has a flush of its own: there are at most as many compactions as flushes.
pub finishes-flushes :
    (d : Double) (size_ratio k z file_size : ℕ) (options : FluidOptions) (uninitialised : Bool)
    {c : Compactor} (r : Reach d (new_compactor size_ratio k z file_size options uninitialised) c)
    → finishes r + length c.scheduled ≤ flushes r
finishes-flushes d size_ratio k z file_size options uninitialised r =
    Reach-finishes d _ (new_compactor-IsCounted size_ratio k z file_size options uninitialised) refl
      r
