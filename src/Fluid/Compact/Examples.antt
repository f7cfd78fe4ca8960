-- ===== src/Fluid/Compact/Examples.antt =====
-- Tests of the choice and the schedule of a compaction, at the sample.
use Prim.Native.String.{String}
use rocks_db_wrapper.Base.{
  ℕ, zero, suc, ◌+◌, ◌≤◌, ◌<◌, ◌↔◌, length, modify, ◌≡◌, refl, ap, false, some, List, [], ◌∷◌,
  arith, inl, inr, ◌≢◌,
}
use rocks_db_wrapper.Base.Int.{pos}
use rocks_db_wrapper.Fluid.Tree.{
  LazyLevel, FluidLsm, new_fluid_lsm, num_live_runs, any_being_compacted, largest_occupied_level,
}
use rocks_db_wrapper.Fluid.Build.{LevelMetaData, build_levels, build_structure, fluid_level}
use rocks_db_wrapper.Fluid.Compact.{
  Pointer, Compactor, mark, take_inputs, add_files_to_compaction, compaction_size,
  compaction_target_level, output_level, on_flush_completed,
}
use rocks_db_wrapper.Fluid.Compact.Visit.{touch_level}
use rocks_db_wrapper.Fluid.Compact.Inputs.{take_inputs_lem}
use rocks_db_wrapper.Fluid.Compact.Target.{compaction_target_level-exact}
use rocks_db_wrapper.Fluid.Compact.Output.{IsDeepestFree, output_level-IsDeepestFree}
use rocks_db_wrapper.Fluid.Compact.Pool.{IsCounted}
use rocks_db_wrapper.Fluid.Compact.Pick.{Takes, needs_at}
use rocks_db_wrapper.Fluid.Compact.Lands.{output_level-fluid_level, Takes-output_lvl}
use rocks_db_wrapper.Fluid.Compact.Resolves.{Listed}
use rocks_db_wrapper.Fluid.Compact.Resolves.Moved.{Takes-resolves}
use rocks_db_wrapper.Fluid.Build.Levels.{files_at, build_levels-files_at}
use rocks_db_wrapper.Fluid.Build.Files.{run_files}
use rocks_db_wrapper.Base.Text.{Text, codes}
use rocks_db_wrapper.Fluid.Sample.{
  metadata, fractions, fractions-IsExact, sst, idle, empty_level, levels_or_none, compactor_or,
  laid, built, flushed, level_at, first_task,
}

output_level-IsDeepestFree_example :
    (x : ℕ) × (output_level laid 1 0 1 ≡ some x) × IsDeepestFree (level_at 1 laid).runs x × (x < 4)
unfolding laid
output_level-IsDeepestFree_example =
    output_level-IsDeepestFree 1 4 0 0 (level_at 0 laid) (level_at 1 laid ∷ empty_level ∷ [])
      (omega arith) refl (omega arith) (omega arith)

take_inputs_lem_example :
    (ps : List Pointer) × (add_files_to_compaction laid 0 [] ≡ some ps)
    × (compaction_size laid ps ≡ some 180)
    × (take_inputs laid ps ≡ some ("a" ∷ "b" ∷ "c" ∷ [], modify (touch_level mark) 0 laid))
    × (num_live_runs (touch_level mark (level_at 0 laid)) ≡ 0)
unfolding laid
take_inputs_lem_example = take_inputs_lem laid 0 refl

abbrev inputs : List Pointer
inputs =
    record { level = 0; run = 0; file = 0 }
    ∷ record { level = 0; run = 1; file = 0 }
    ∷ record { level = 0; run = 2; file = 0 }
    ∷ []

compaction_target_level-exact_example : compaction_target_level fractions built 0 inputs ≡ some 1
unfolding built compaction_size
compaction_target_level-exact_example =
    compaction_target_level-exact fractions fractions-IsExact built 0 (omega arith) (omega arith)
      (omega arith) (omega arith) (omega arith) inputs {size = 180} refl (omega arith)

idle-IsCounted : IsCounted 0 idle
unfolding new_fluid_lsm
idle-IsCounted = record { counted = refl; within = omega arith; allowed = refl }

deeper : (l : ℕ) → 0 < l → l ≤ 1 → needs_at (record idle { lsm = built }) 1 l ≡ false
unfolding built flushed
deeper zero lo hi = absurd (omega arith)
deeper (suc zero) lo hi = refl
deeper (suc (suc l)) lo hi = absurd (omega arith)

-- A tree in which no level needs a compaction.
abbrev quiet_metadata : List LevelMetaData
quiet_metadata =
    record { level = 0; files = [] }
    ∷ record { level = 1; files = [] }
    ∷ record { level = 2; files = sst "d" 500 ∷ [] }
    ∷ record { level = 3; files = [] }
    ∷ []

built_quiet : FluidLsm
unfolding build_levels new_fluid_lsm
built_quiet = record idle.lsm {
  lazy_levels = levels_or_none (build_levels fractions 1 quiet_metadata idle.lsm.lazy_levels);
}

flushed_quiet : Compactor
unfolding on_flush_completed new_fluid_lsm build_structure largest_occupied_level num_live_runs
    any_being_compacted
flushed_quiet = compactor_or idle (on_flush_completed fractions quiet_metadata "default" idle)

quiet : (l : ℕ) → l ≤ 1 → needs_at (record idle { lsm = built_quiet }) 1 l ≡ false
unfolding built_quiet flushed_quiet
quiet zero le = refl
quiet (suc zero) le = refl
quiet (suc (suc l)) le = absurd (omega arith)

output_level-fluid_level_example : (1 ≤ 3) × (fluid_level fractions 1 3 ≡ pos 1)
unfolding laid output_level
output_level-fluid_level_example =
    output_level-fluid_level fractions fractions-IsExact laid 1 0 1 (omega arith) (omega arith) refl

build_levels-files_at_example : files_at 1 laid ≡ sst "d" 500 ∷ []
unfolding laid fluid_level
build_levels-files_at_example =
    build_levels-files_at fractions 1 1 (record { level = 0; files = sst "a" 60 ∷ sst "b" 70 ∷ [] })
      (record { level = 1; files = sst "c" 50 ∷ [] })
      (record { level = 2; files = sst "d" 500 ∷ [] } ∷ record { level = 3; files = [] } ∷ [])
      idle.lsm.lazy_levels refl

-- What the database reports when the first task has been carried out.
abbrev after0 : LevelMetaData
after0 = record { level = 0; files = [] }

abbrev after1 : LevelMetaData
after1 = record { level = 1; files = [] }

abbrev after_deeper : List LevelMetaData
after_deeper =
    record { level = 2; files = sst "d" 500 ∷ [] }
    ∷ record { level = 3; files = sst "e" 180 ∷ [] }
    ∷ []

relaid : List LazyLevel
unfolding build_levels laid new_fluid_lsm
relaid = levels_or_none (build_levels fractions 1 (after0 ∷ after1 ∷ after_deeper) laid)

abbrev first_code : Text → ℕ
first_code [] = 0
first_code (c ∷ cs) = c

other_names : {n m : String} → first_code (codes n) ≢ first_code (codes m) → n ≢ m
other_names h e = h (ap (λ n. first_code (codes n)) e)

d-kept : ¬ Listed ("a" ∷ "b" ∷ "c" ∷ []) "d"
d-kept (inl e) = other_names (omega arith) e
d-kept (inr (inl e)) = other_names (omega arith) e
d-kept (inr (inr (inl e))) = other_names (omega arith) e
d-kept (inr (inr (inr l))) = l

taken : Takes (record idle { lsm = built }) 0 flushed
unfolding built flushed output_level
taken = record {
  level = level_at 0 laid;
  task = first_task;
  at_level = refl;
  scheduled = refl;
  names = refl;
  target = 1;
  near = inr refl;
  output = refl;
}

Takes-output_lvl_example : (3 < 4) ↔ (length (level_at 1 laid).runs ≡ 1 + 1)
unfolding laid built taken
Takes-output_lvl_example =
    Takes-output_lvl fractions fractions-IsExact 0 metadata empty_level
      (empty_level ∷ empty_level ∷ []) (record idle { lsm = built }) flushed taken (omega arith)
      (omega arith) (omega arith) (omega arith) (refl, (refl, (refl, (refl, tt)))) refl refl
      (omega arith)

Takes-resolves_example :
    (run_files (level_at 0 relaid).runs ≡ []) × (num_live_runs (level_at 0 relaid) ≡ 0)
unfolding laid relaid built taken
Takes-resolves_example =
    Takes-resolves fractions fractions-IsExact 0
      (record { level = 0; files = sst "a" 60 ∷ sst "b" 70 ∷ [] })
      (record { level = 1; files = sst "c" 50 ∷ [] }) after0 after1
      (record { level = 2; files = sst "d" 500 ∷ [] } ∷ record { level = 3; files = [] } ∷ [])
      after_deeper idle.lsm.lazy_levels laid (record idle { lsm = built }) flushed (refl, refl)
      (omega arith) (omega arith) refl taken ((refl, tt), ((refl, tt), ((refl, tt), tt)))
      (omega arith)
      (refl, inr tt, (refl, inr tt, (refl, inr ((inl refl, d-kept), tt), (refl, inl refl, tt))))
      refl refl
