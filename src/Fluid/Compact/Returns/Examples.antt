-- ===== src/Fluid/Compact/Returns/Examples.antt =====
-- Tests of where the callbacks return: the sample with two more levels, and with a level too few, and of the
-- sizes of a compaction.
use rocks_db_wrapper.Base.{◌≡◌, refl, none, List, [], ◌∷◌, arith}
use rocks_db_wrapper.Fluid.Tree.{
  FluidLsm, new_fluid_lsm, num_live_runs, any_being_compacted, largest_occupied_level,
}
use rocks_db_wrapper.Fluid.Build.{LevelMetaData, build_levels, build_structure}
use rocks_db_wrapper.Fluid.Compact.{on_flush_completed, needs_compaction, level_capacity}
use rocks_db_wrapper.Fluid.Compact.Returns.{on_flush_completed_overrun}
use rocks_db_wrapper.Fluid.Sample.{
  fractions, fractions-IsExact, sst, roomy_metadata, idle, empty_level, levels_or_none,
}

unfoldable roomy : FluidLsm
unfolding build_levels new_fluid_lsm
roomy = record idle.lsm {
  lazy_levels = levels_or_none (build_levels fractions 1 roomy_metadata idle.lsm.lazy_levels);
}

-- Levels 2 and 3 hold 500 bytes each, and there is no level 4.
abbrev deep_metadata : List LevelMetaData
deep_metadata =
    record { level = 0; files = [] }
    ∷ record { level = 1; files = [] }
    ∷ record { level = 2; files = sst "d" 500 ∷ [] }
    ∷ record { level = 3; files = sst "e" 500 ∷ [] }
    ∷ []

unfoldable deep : FluidLsm
unfolding build_levels new_fluid_lsm
deep = record idle.lsm {
  lazy_levels = levels_or_none (build_levels fractions 1 deep_metadata idle.lsm.lazy_levels);
}

on_flush_completed_overrun_example :
    on_flush_completed fractions deep_metadata "default" idle ≡ none
unfolding deep build_structure largest_occupied_level num_live_runs any_being_compacted
    needs_compaction level_capacity
on_flush_completed_overrun_example =
    on_flush_completed_overrun fractions fractions-IsExact deep_metadata "default" idle empty_level
      (empty_level ∷ empty_level ∷ []) deep refl (omega arith) (omega arith) (omega arith)
      (omega arith) (refl, (refl, (refl, (refl, tt)))) refl refl refl refl refl (omega arith)
