-- ===== src/Fluid/System/Examples.antt =====
-- Tests of histories, at the sample with a database of six levels.
use rocks_db_wrapper.Base.{◌≡◌, refl, false, some, arith}
use rocks_db_wrapper.Fluid.Tree.{
  FluidLsm, FluidOptions, new_fluid_lsm, num_live_runs, any_being_compacted, largest_occupied_level,
}
use rocks_db_wrapper.Fluid.Build.{build_levels, build_structure}
use rocks_db_wrapper.Fluid.Compact.{Compactor, on_flush_completed, compact_files, needs_compaction}
use rocks_db_wrapper.Fluid.System.{Reach, here, next, flush, new_compactor}
use rocks_db_wrapper.Fluid.System.Shape.{Reach-on_flush_completed}
use rocks_db_wrapper.Fluid.System.Progress.{deepest_needing, HasTaken, Reach-HasTaken}
use rocks_db_wrapper.Fluid.Sample.{
  fractions, fractions-IsExact, roomy_metadata, options, levels_or_none, compactor_or, first_task,
}

abbrev six_levels : FluidOptions
six_levels = record options { num_levels = 6 }

abbrev fresh : Compactor
fresh = new_compactor 2 1 1 64 six_levels false

unfoldable after_flush : Compactor
unfolding on_flush_completed new_fluid_lsm build_structure largest_occupied_level num_live_runs
    any_being_compacted
after_flush = compactor_or fresh (on_flush_completed fractions roomy_metadata "default" fresh)

after_flush_reached : Reach fractions fresh after_flush
unfolding after_flush
after_flush_reached = next here (flush roomy_metadata "default" refl)

unfoldable rebuilt : FluidLsm
unfolding build_levels after_flush
rebuilt = record after_flush.lsm {
  lazy_levels =
      levels_or_none (build_levels fractions 1 roomy_metadata after_flush.lsm.lazy_levels);
}

Reach-on_flush_completed_example :
    ((c' : Compactor) × (on_flush_completed fractions roomy_metadata "default" after_flush
        ≡ some c'))
    × ((c' : Compactor) × (compact_files fractions false roomy_metadata first_task after_flush
          ≡ some c'))
unfolding rebuilt build_structure
Reach-on_flush_completed_example =
    Reach-on_flush_completed fractions fractions-IsExact 2 1 1 64 six_levels false roomy_metadata
      "default" false first_task rebuilt after_flush_reached (omega arith) (omega arith)
      (omega arith) (omega arith) (refl, (refl, (refl, (refl, (refl, (refl, tt)))))) refl
      (omega arith)

unfoldable fresh_built : FluidLsm
unfolding build_levels new_fluid_lsm
fresh_built = record fresh.lsm {
  lazy_levels = levels_or_none (build_levels fractions 1 roomy_metadata fresh.lsm.lazy_levels);
}

abbrev fresh_rebuilt : Compactor
fresh_rebuilt = record fresh { lsm = fresh_built }

first_level_needs : deepest_needing fresh_rebuilt ≡ some 0
unfolding fresh_built largest_occupied_level num_live_runs any_being_compacted needs_compaction
first_level_needs = refl

Reach-HasTaken_example :
    (c' : Compactor) × (on_flush_completed fractions roomy_metadata "default" fresh ≡ some c')
    × HasTaken fresh_rebuilt (deepest_needing fresh_rebuilt) c'
unfolding fresh_built build_structure largest_occupied_level
Reach-HasTaken_example =
    Reach-HasTaken fractions fractions-IsExact 2 1 1 64 six_levels false roomy_metadata "default"
      fresh_built here refl (omega arith) (omega arith) (omega arith) (omega arith)
      (refl, (refl, (refl, (refl, (refl, (refl, tt)))))) refl (omega arith)
