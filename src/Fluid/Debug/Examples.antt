-- ===== src/Fluid/Debug/Examples.antt =====
-- Tests of the debug mode, at the sample.
use rocks_db_wrapper.Base.{◌≡◌, refl, true, false, [], ◌∷◌}
use rocks_db_wrapper.Base.Text.{codes, show_ℕ, show_ℤ}
use rocks_db_wrapper.Fluid.Tree.{new_fluid_lsm, num_live_runs}
use rocks_db_wrapper.Fluid.Compact.{on_flush_completed, compact_files}
use rocks_db_wrapper.Fluid.Debug.{
  CompactFilesResult, skip_text, on_flush_completed_debug, compact_files_debug,
}
use rocks_db_wrapper.Fluid.Debug.Erases.{forget}
use rocks_db_wrapper.Fluid.Debug.Modes.{
  with_mode, task_mode, with_mode_result, on_flush_completed_debug-with_mode,
}
use rocks_db_wrapper.Fluid.Debug.Silent.{quiet, compact_files_debug-quiet}
use rocks_db_wrapper.Fluid.Sample.{fractions, metadata, idle, first_task}

abbrev done : CompactFilesResult
done = record {
  is_io_error = false;
  status_text = codes "OK";
  output_file_names = "/000042.sst" ∷ [];
}

on_flush_completed_debug-with_mode_example :
    (forget (on_flush_completed_debug fractions metadata "default" (with_mode true idle))
      ≡ with_mode_result true (forget (on_flush_completed_debug fractions metadata "default" idle)))
    × (forget (
          compact_files_debug fractions done metadata
            (task_mode true first_task)
            (with_mode true idle))
        ≡ with_mode_result true
            (forget (compact_files_debug fractions done metadata first_task idle)))
on_flush_completed_debug-with_mode_example =
    on_flush_completed_debug-with_mode true fractions metadata "default" done first_task idle

compact_files_debug-quiet_example :
    (on_flush_completed_debug fractions metadata "default" idle
      ≡ quiet (on_flush_completed fractions metadata "default" idle))
    × (compact_files_debug fractions done metadata first_task idle
        ≡ quiet (compact_files fractions false metadata first_task idle))
unfolding new_fluid_lsm
compact_files_debug-quiet_example =
    compact_files_debug-quiet fractions metadata "default" done first_task idle refl refl

-- What a busy compactor in debug mode prints of a level that it passes over.
skipped :
    skip_text idle.lsm 0 3 (record { runs = [] })
    ≡ codes
        "skip compaction.  origin lvl: 0   num files: 3   ongoing compactions: 0\nruns 0    live runs:  0\n"
unfolding new_fluid_lsm show_ℕ show_ℤ num_live_runs
skipped = refl
