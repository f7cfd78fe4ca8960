-- ===== src/Fluid/Debug.antt =====
-- The compactor with its debug mode (fluid_lsm.cc): each operation again, with what it prints on the
-- standard error stream. A print reads the tree too, so it may be an access outside a vector (`none`).
pub mod Erases
pub mod Modes
pub mod Silent
mod Examples
use Prim.Native.String.{String}
use rocks_db_wrapper.Base.{
  ℕ, zero, suc, ◌+◌, Bool, Option, some, List, [], ◌∷◌, ◌++◌, map, length, get_elem?, if◌then◌else◌,
  ◌>>=◌,
}
use rocks_db_wrapper.Base.Int.{pos, ltb_ℤ, ◌-ℤ◌}
use rocks_db_wrapper.Base.Text.{Text, codes, show_ℕ, show_ℤ}
use rocks_db_wrapper.Fluid.Double.{Double}
use rocks_db_wrapper.Fluid.Tree.{LazyLevel, FluidLsm, num_live_runs, largest_occupied_level}
use rocks_db_wrapper.Fluid.Build.{LevelMetaData, build_structure}
use rocks_db_wrapper.Fluid.Print.{print_fluid_lsm}
use rocks_db_wrapper.Fluid.Compact.{
  Pointer, Compactor, CompactionTask, output_level, start_compaction, needs_compaction,
  add_files_to_compaction, compaction_target_level,
}

abbrev pub set_debug_mode : Bool → FluidLsm → FluidLsm
set_debug_mode mode lsm = record lsm { debug_mode = mode }

-- ScheduleCompaction's text when no compaction may start.
abbrev pub skip_text : FluidLsm → ℕ → ℕ → LazyLevel → Text
skip_text lsm origin_lvl num_files level =
    codes "skip compaction.  origin lvl: "
    ++ show_ℕ origin_lvl
    ++ codes "   num files: "
    ++ show_ℕ num_files
    ++ codes "   ongoing compactions: "
    ++ show_ℤ lsm.parallel_compactions_running
    ++ 10 ∷ []
    ++ codes "runs "
    ++ show_ℕ (length level.runs)
    ++ codes "    live runs:  "
    ++ show_ℕ (num_live_runs level)
    ++ 10 ∷ []

unfoldable pub schedule_compaction_debug :
    Compactor → String → ℕ → ℕ → List Pointer → Option (Compactor × Text)
unfolding output_level start_compaction num_live_runs
schedule_compaction_debug c cf_name origin_lvl target_lvl input_files =
    if ltb_ℤ c.lsm.parallel_compactions_running c.lsm.parallel_compactions_allowed
    then (output_level c.lsm.lazy_levels c.lsm.smaller_lvl_runs_count origin_lvl target_lvl
        >>= λ rocks_db_lvl.
            start_compaction c cf_name rocks_db_lvl input_files >>= λ c'. some (c', []))
    else if c.lsm.debug_mode
    then (get_elem? c.lsm.lazy_levels origin_lvl >>= λ level.
        some (c, skip_text c.lsm origin_lvl (length input_files) level))
    else some (c, [])

unfoldable pub pick_level_debug : Double → String → ℕ → ℕ → Compactor → Option (Compactor × Text)
unfolding needs_compaction add_files_to_compaction compaction_target_level schedule_compaction_debug
pick_level_debug d cf_name largest_lvl lvl c = get_elem? c.lsm.lazy_levels lvl >>= λ level.
    if needs_compaction c.lsm largest_lvl lvl (num_live_runs level)
    then (add_files_to_compaction c.lsm.lazy_levels lvl [] >>= λ input_files.
        compaction_target_level d c.lsm lvl input_files >>= λ target_lvl.
        schedule_compaction_debug c cf_name lvl target_lvl input_files)
    else some (c, [])

unfoldable pub pick_loop_debug : Double → String → ℕ → ℕ → Compactor → Option (Compactor × Text)
unfolding pick_level_debug
pick_loop_debug d cf_name largest_lvl zero c = some (c, [])
pick_loop_debug d cf_name largest_lvl (suc lvl) c =
    pick_level_debug d cf_name largest_lvl lvl c >>= λ (next, printed).
    pick_loop_debug d cf_name largest_lvl lvl next >>= λ (c', more). some (c', printed ++ more)

unfoldable pub pick_compaction_debug :
    Double → List LevelMetaData → String → Compactor → Option (Compactor × Text)
unfolding pick_loop_debug build_structure largest_occupied_level
pick_compaction_debug d meta cf_name c = build_structure d meta c.lsm >>= λ lsm.
    (if lsm.debug_mode then print_fluid_lsm lsm.lazy_levels else some []) >>= λ printed.
    let largest_lvl = largest_occupied_level lsm.lazy_levels in
    pick_loop_debug d cf_name largest_lvl (suc largest_lvl) (record c { lsm = lsm })
    >>= λ (c', more). some (c', printed ++ more)

unfoldable pub on_flush_completed_debug :
    Double → List LevelMetaData → String → Compactor → Option (Compactor × Text)
unfolding pick_compaction_debug
on_flush_completed_debug d meta cf_name c = pick_compaction_debug d meta cf_name c

-- What `DB::CompactFiles` returns: its status, and the names of the files that it made.
pub record CompactFilesResult : Type 0 where
  pub is_io_error : Bool
  pub status_text : Text
  pub output_file_names : List String

abbrev pub output_lines : List String → Text
output_lines [] = []
output_lines (name ∷ names) =
    codes " ---- new file created:    " ++ codes name ++ 10 ∷ [] ++ output_lines names

abbrev pub input_lines : List String → Text
input_lines [] = []
input_lines (name ∷ names) = codes "     " ++ codes name ++ 10 ∷ [] ++ input_lines names

-- CompactFiles' text about the compaction that it has carried out.
abbrev pub compacted_text : CompactFilesResult → CompactionTask → Text
compacted_text result task =
    output_lines result.output_file_names
    ++ codes "CompactFiles() finished with status "
    ++ result.status_text
    ++ 10 ∷ []
    ++ input_lines task.input_file_names
    ++ codes "   -> level "
    ++ show_ℕ task.output_lvl
    ++ 10 ∷ []

unfoldable pub compact_files_debug :
    Double
    → CompactFilesResult
    → List LevelMetaData
    → CompactionTask
    → Compactor
    → Option (Compactor × Text)
unfolding pick_compaction_debug ◌-ℤ◌
compact_files_debug d result meta task c =
    let reported = if task.debug_mode then compacted_text result task else [] in
    (if result.is_io_error then some (c, []) else pick_compaction_debug d meta task.cf_name c)
    >>= λ (picked, printed). some (
      record picked {
        lsm = record picked.lsm {
          parallel_compactions_running = picked.lsm.parallel_compactions_running -ℤ pos 1;
        };
      },
      reported ++ printed,
    )
