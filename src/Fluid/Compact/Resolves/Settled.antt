-- ===== src/Fluid/Compact/Resolves/Settled.antt =====
-- A compaction leaves at most one live run at the level that asked for it.
use rocks_db_wrapper.Base.{
  ℕ, ◌+◌, ◌≡◌, sym, ap, subst, ◌∙◌, if◌then◌else◌, false, some, List, ◌∷◌, get_elem?, All, length,
  arith, ◌-◌, ◌≤◌,
}
use rocks_db_wrapper.Fluid.Double.{Double}
use rocks_db_wrapper.Fluid.Tree.{
  Run, LazyLevel, is_empty, num_live_runs, FluidLsm, largest_occupied_level,
}
use rocks_db_wrapper.Fluid.Tree.Live.{num_live_runs_lem}
use rocks_db_wrapper.Fluid.Build.{LevelMetaData, build_levels}
use rocks_db_wrapper.Fluid.Build.Levels.{files_at, build_levels-files_at}
use rocks_db_wrapper.Fluid.Compact.{Compactor, needs_compaction}
use rocks_db_wrapper.Fluid.Compact.Pick.{Takes}
use rocks_db_wrapper.Fluid.Compact.Lands.{output_level-back}
use rocks_db_wrapper.Fluid.Build.Placed.{IsNumbered}
use rocks_db_wrapper.Fluid.Build.Runs.{runs_at-get_elem?, build_levels-runs_at}
use rocks_db_wrapper.Fluid.Compact.Resolves.{IsCompacted, Covers, AllIdle, inputs-Covers}
use rocks_db_wrapper.Fluid.Compact.Resolves.LiveRuns.{live, settled}

pub needs_no_more :
    (lsm : FluidLsm) (largest lvl n : ℕ)
    → 1 ≤ lsm.smaller_lvl_runs_count
    → 1 ≤ lsm.larger_lvl_runs_count
    → n ≤ 1
    → needs_compaction lsm largest lvl n ≡ false
unfolding needs_compaction
needs_no_more lsm largest lvl n k z one = ground (arith, k, z, one)

-- When the task that a flush scheduled has been carried out, the level that it took has at most one
-- live run in the next tree that is built, and no longer asks for a compaction, wherever the output
-- went: provided that none of its files was being compacted before, that the metadata numbers its levels
-- from 0, and that K and Z are at least 1. The database has removed the task's input files, and put new
-- files into the task's output level only.
pub Takes-settled :
    (d : Double) (lvl : ℕ) (level0 level1 level0' level1' : LevelMetaData)
    (meta meta' : List LevelMetaData) (before later : List LazyLevel) (c c' : Compactor)
    {out' : List LazyLevel} {level' : LazyLevel}
    → IsNumbered 0 (level0 ∷ level1 ∷ meta)
    → 1 ≤ c.lsm.smaller_lvl_runs_count
    → 1 ≤ c.lsm.larger_lvl_runs_count
    → build_levels d c.lsm.smaller_lvl_runs_count (level0 ∷ level1 ∷ meta) before
      ≡ some c.lsm.lazy_levels
    → (t : Takes c lvl c') → All (λ (run : Run). AllIdle run.files) t.level.runs
    → IsCompacted t.task.input_file_names t.task.output_lvl
        (level0 ∷ level1 ∷ meta)
        (level0' ∷ level1' ∷ meta')
    → build_levels d c.lsm.smaller_lvl_runs_count (level0' ∷ level1' ∷ meta') later ≡ some out'
    → get_elem? out' lvl ≡ some level'
    → (num_live_runs level' ≤ 1)
      × (needs_compaction c.lsm (largest_occupied_level out') lvl (num_live_runs level') ≡ false)
Takes-settled d lvl level0 level1 level0' level1' meta meta' before later c c' {out'} {level'}
      numbered k z built t idle compacted rebuilt at' =
    let q = c.lsm.smaller_lvl_runs_count in
    let n = q - (length level0'.files + (if is_empty level1'.files then 0 else 1)) in
    let (back, near, within, same) = output_level-back c.lsm.lazy_levels q lvl t.target t.output in
    let inputs =
      subst (λ names. Covers names (files_at lvl c.lsm.lazy_levels)) (sym t.names)
        (inputs-Covers lvl c.lsm.lazy_levels t.level t.at_level idle) in
    let covers =
      subst (Covers t.task.input_file_names)
        (build_levels-files_at d q lvl level0 level1 meta before built) inputs in
    let few =
      settled d q lvl t.task.output_lvl t.task.input_file_names n level0 level1 level0' level1' meta
        meta' (omega (arith, within, same)) numbered compacted covers in
    let runs =
      sym (runs_at-get_elem? lvl out' at')
      ∙ build_levels-runs_at d q lvl level0' level1' meta' later rebuilt in
    let one : num_live_runs level' ≤ 1 =
      omega (arith, num_live_runs_lem level', ap live runs, few) in
    (one, needs_no_more c.lsm (largest_occupied_level out') lvl (num_live_runs level') k z one)
