-- ===== src/Fluid/Examples.antt =====
-- Tests of the tree, its reconstruction, its print and its histories, at the sample.
use mathlib.Core.List.{Perm}
use rocks_db_wrapper.Base.{◌≤◌, length, ◌≡◌, ◌↔◌, refl, false, some, List, [], ◌∷◌, arith}
use rocks_db_wrapper.Base.Int.{pos}
use rocks_db_wrapper.Fluid.Tree.{LazyLevel}
use rocks_db_wrapper.Fluid.Build.{build_levels}
use rocks_db_wrapper.Fluid.Build.Files.{tree_files, meta_files, build_levels-perm}
use rocks_db_wrapper.Fluid.Build.Placed.{IsPlaced}
use rocks_db_wrapper.Fluid.Build.Slots.{build_levels-IsPlaced}
use rocks_db_wrapper.Fluid.Race.{Shared, Interleaves, start}
use rocks_db_wrapper.Fluid.Race.Threads.{running-threads}
use rocks_db_wrapper.Fluid.Compact.{Pointer, add_files_to_compaction, take_inputs}
use rocks_db_wrapper.Fluid.Race.Inputs.{take_inputs_twice}
use rocks_db_wrapper.Fluid.Print.{Line, lines_text, print_fluid_lsm}
use rocks_db_wrapper.Fluid.Print.Shows.{shown, print_fluid_lsm-tree_files}
use rocks_db_wrapper.Fluid.System.{Reach, here, next, flush, finish, run-IsCounted, finish-idle}
use rocks_db_wrapper.Fluid.Sample.{
  fractions, fractions-IsExact, sst, metadata, options, idle, empty_level, laid, flushed,
  first_task, finished,
}

build_levels-perm_example : Perm (tree_files laid) (meta_files metadata)
unfolding laid
build_levels-perm_example = build_levels-perm fractions 1 metadata idle.lsm.lazy_levels refl

build_levels-IsPlaced_example :
    (first : LazyLevel) × (out : List LazyLevel) × (build_levels fractions 1 metadata
        (empty_level ∷ empty_level ∷ empty_level ∷ [])
      ≡ some (first ∷ out))
    × (length out ≡ 2)
    × IsPlaced 2 4 2 out
build_levels-IsPlaced_example =
    build_levels-IsPlaced fractions fractions-IsExact 1 metadata empty_level
      (empty_level ∷ empty_level ∷ []) (omega arith) (omega arith) (omega arith) (omega arith)
      (refl, (refl, (refl, (refl, tt))))

flushed_reached : Reach fractions idle flushed
unfolding flushed
flushed_reached = next here (flush metadata "default" refl)

run-IsCounted_example :
    (flushed.lsm.parallel_compactions_running ≡ pos 1) × (length flushed.scheduled ≤ 1)
unfolding flushed
run-IsCounted_example = run-IsCounted fractions 2 1 1 64 options false flushed_reached

-- A flush and the end of the compaction that it started.
flush_finish : Reach fractions idle finished
unfolding finished
flush_finish = next flushed_reached (finish [] [] first_task false metadata refl refl)

finish-idle_example :
    (finished.scheduled ≡ []) × (finished.lsm.parallel_compactions_running ≡ pos 0)
unfolding finished
finish-idle_example =
    finish-idle fractions 2 1 1 64 options false flushed [] [] first_task false metadata
      flushed_reached refl refl

-- Two threads and two compactions.
running-threads_example :
    ((s : Shared) × Interleaves (start 2) s × (s.parallel_compactions_running ≡ pos 2)) ↔ (2 ≤ 2)
running-threads_example = running-threads 2 2

-- One file on the first of two levels.
abbrev one_file : LazyLevel
one_file = record {
  runs = record { files = sst "a" 60 ∷ []; file_names = "a" ∷ []; rocks_db_level = 0 } ∷ [];
}

print_fluid_lsm-tree_files_example :
    (lines : List Line) × (print_fluid_lsm (one_file ∷ record { runs = [] } ∷ [])
      ≡ some (lines_text lines))
    × (shown lines ≡ sst "a" 60 ∷ [])
print_fluid_lsm-tree_files_example = print_fluid_lsm-tree_files one_file (record { runs = [] } ∷ [])

-- Level 0 of the sample has the files a, b and c.
take_inputs_twice_example :
    (ps : List Pointer) × (marked : List LazyLevel) × (again : List LazyLevel)
    × (add_files_to_compaction laid 0 [] ≡ some ps)
    × (take_inputs laid ps ≡ some ("a" ∷ "b" ∷ "c" ∷ [], marked))
    × (take_inputs marked ps ≡ some ("a" ∷ "b" ∷ "c" ∷ [], again))
unfolding laid
take_inputs_twice_example = take_inputs_twice laid 0 refl
