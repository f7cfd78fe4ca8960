-- ===== src/Fluid/Debug/Modes.antt =====
-- The compactor in debug mode against the compactor without it.
use Prim.Native.String.{String}
use mathlib.Core.List.{map-append}
use rocks_db_wrapper.Base.{
  ℕ, zero, suc, ◌≡◌, refl, sym, ap, ◌∙◌, Bool, true, false, Option, none, some, List, [], ◌∷◌, ◌++◌,
  map, get_elem?, ◌>>=◌, Bool-cases, inl, inr,
}
use rocks_db_wrapper.Base.Int.{ltb_ℤ}
use rocks_db_wrapper.Fluid.Double.{Double}
use rocks_db_wrapper.Fluid.Tree.{FluidLsm, LazyLevel, num_live_runs, largest_occupied_level}
use rocks_db_wrapper.Fluid.Build.{LevelMetaData, build_levels, build_structure}
use rocks_db_wrapper.Fluid.Compact.{
  Pointer, Compactor, CompactionTask, take_inputs, output_level, start_compaction,
  schedule_compaction, needs_compaction, add_files_to_compaction, compaction_target_level,
  level_capacity, pick_level, pick_loop, pick_compaction, on_flush_completed, compact_files,
}
use rocks_db_wrapper.Fluid.Debug.{
  set_debug_mode, CompactFilesResult, on_flush_completed_debug, compact_files_debug,
}
use rocks_db_wrapper.Fluid.Debug.Erases.{
  forget, on_flush_completed_debug-erases, compact_files_debug-erases,
}

abbrev pub task_mode : Bool → CompactionTask → CompactionTask
task_mode mode task = record task { debug_mode = mode }

-- The compactor with its flag, and those that its tasks have copied, set to `mode`.
abbrev pub with_mode : Bool → Compactor → Compactor
with_mode mode c = record {
  lsm = set_debug_mode mode c.lsm;
  scheduled = map (task_mode mode) c.scheduled;
}

module _ (mode : Bool) where
  abbrev pub with_mode_result : Option Compactor → Option Compactor
  with_mode_result none = none
  with_mode_result (some c) = some (with_mode mode c)

  >>=-with_mode {ℓ} :
      {A : Type ℓ} (m : Option A) (f f' : A → Option Compactor)
      → ((a : A) → f' a ≡ with_mode_result (f a))
      → (m >>= f') ≡ with_mode_result (m >>= f)
  >>=-with_mode none f f' h = refl
  >>=-with_mode (some a) f f' h = h a

  with_mode_result->>= :
      (m : Option Compactor) (f : Compactor → Option Compactor)
      → ((c : Compactor) → f (with_mode mode c) ≡ with_mode_result (f c))
      → (with_mode_result m >>= f) ≡ with_mode_result (m >>= f)
  with_mode_result->>= none f h = refl
  with_mode_result->>= (some c) f h = h c

  with_mode_append :
      (lsm : FluidLsm) (tasks : List CompactionTask) (task : CompactionTask)
      → ◌≡◌ {A = Compactor}
          (record { lsm = lsm; scheduled = map (task_mode mode) tasks ++ task_mode mode task ∷ [] })
          (record { lsm = lsm; scheduled = map (task_mode mode) (tasks ++ task ∷ []) })
  with_mode_append lsm tasks task =
      ap (λ ts. record { lsm = lsm; scheduled = ts })
        (sym (map-append (task_mode mode) tasks (task ∷ [])))

  start_compaction-with_mode :
      (c : Compactor) (cf_name : String) (out : ℕ) (ps : List Pointer)
      → start_compaction (with_mode mode c) cf_name out ps
        ≡ with_mode_result (start_compaction c cf_name out ps)
  unfolding start_compaction
  start_compaction-with_mode c cf_name out ps =
      >>=-with_mode (take_inputs c.lsm.lazy_levels ps) _ _
        λ r. ap some (with_mode_append _ c.scheduled _)

  schedule_compaction-with_mode :
      (c : Compactor) (cf_name : String) (origin target : ℕ) (ps : List Pointer)
      → schedule_compaction (with_mode mode c) cf_name origin target ps
        ≡ with_mode_result (schedule_compaction c cf_name origin target ps)
  unfolding schedule_compaction
  schedule_compaction-with_mode c cf_name origin target ps =
      elim (Bool-cases
        (ltb_ℤ c.lsm.parallel_compactions_running c.lsm.parallel_compactions_allowed)) [
          | inl free ↦ rw free (
              >>=-with_mode
                (output_level c.lsm.lazy_levels c.lsm.smaller_lvl_runs_count origin target) _ _
                λ out. start_compaction-with_mode c cf_name out ps)
          | inr busy ↦ rw busy
        ]

  pick_level-with_mode :
      (d : Double) (cf_name : String) (largest lvl : ℕ) (c : Compactor)
      → pick_level d cf_name largest lvl (with_mode mode c)
        ≡ with_mode_result (pick_level d cf_name largest lvl c)
  unfolding pick_level needs_compaction compaction_target_level level_capacity
  pick_level-with_mode d cf_name largest lvl c =
      >>=-with_mode (get_elem? c.lsm.lazy_levels lvl) _ _ λ level.
        elim (Bool-cases (needs_compaction c.lsm largest lvl (num_live_runs level))) [
          | inl needed ↦ rw needed (
              >>=-with_mode (add_files_to_compaction c.lsm.lazy_levels lvl []) _ _ λ ps.
                >>=-with_mode (compaction_target_level d c.lsm lvl ps) _ _
                  λ target. schedule_compaction-with_mode c cf_name lvl target ps)
          | inr not_needed ↦ rw not_needed
        ]

  pick_loop-with_mode :
      (d : Double) (cf_name : String) (largest n : ℕ) (c : Compactor)
      → pick_loop d cf_name largest n (with_mode mode c)
        ≡ with_mode_result (pick_loop d cf_name largest n c)
  unfolding pick_loop
  pick_loop-with_mode d cf_name largest zero c = refl
  pick_loop-with_mode d cf_name largest (suc lvl) c =
      ap (λ m. m >>= pick_loop d cf_name largest lvl) (pick_level-with_mode d cf_name largest lvl c)
      ∙ with_mode_result->>= (pick_level d cf_name largest lvl c) (pick_loop d cf_name largest lvl)
          (pick_loop-with_mode d cf_name largest lvl)

  -- Two steps, of which the first returns.
  built-with_mode :
      (m : Option (List LazyLevel)) (g g' : List LazyLevel → FluidLsm)
      (f f' : FluidLsm → Option Compactor)
      → ((levels : List LazyLevel) → f' (g' levels) ≡ with_mode_result (f (g levels)))
      → ((m >>= λ levels. some (g' levels)) >>= f')
        ≡ with_mode_result ((m >>= λ levels. some (g levels)) >>= f)
  built-with_mode none g g' f f' h = refl
  built-with_mode (some levels) g g' f f' h = h levels

  pick_compaction-with_mode :
      (d : Double) (meta : List LevelMetaData) (cf_name : String) (c : Compactor)
      → pick_compaction d meta cf_name (with_mode mode c)
        ≡ with_mode_result (pick_compaction d meta cf_name c)
  unfolding pick_compaction build_structure
  pick_compaction-with_mode d meta cf_name c =
      built-with_mode (build_levels d c.lsm.smaller_lvl_runs_count meta c.lsm.lazy_levels) _ _ _ _
        λ levels.
          let largest = largest_occupied_level levels in
          pick_loop-with_mode d cf_name largest (suc largest)
            (record c { lsm = record c.lsm { lazy_levels = levels } })

  -- The end of a compaction, whose task carries the flag that it was scheduled with.
  compact_files-with_mode :
      (d : Double) (is_io_error : Bool) (meta : List LevelMetaData) (task : CompactionTask)
      (c : Compactor)
      → compact_files d is_io_error meta (task_mode mode task) (with_mode mode c)
        ≡ with_mode_result (compact_files d is_io_error meta task c)
  unfolding compact_files
  compact_files-with_mode d true meta task c = refl
  compact_files-with_mode d false meta task c =
      rw (pick_compaction-with_mode d meta task.cf_name c)
        (with_mode_result->>= (pick_compaction d meta task.cf_name c) _ (λ c'. refl))

  -- In either mode, each operation of the compactor returns for the same states, and up to the mode
  -- that the compactor and its tasks carry it leaves the same compactor: what the debug mode prints
  -- is its only effect.
  pub on_flush_completed_debug-with_mode :
      (d : Double) (meta : List LevelMetaData) (cf_name : String) (result : CompactFilesResult)
      (task : CompactionTask) (c : Compactor)
      → (forget (on_flush_completed_debug d meta cf_name (with_mode mode c))
          ≡ with_mode_result (forget (on_flush_completed_debug d meta cf_name c)))
        × (forget (compact_files_debug d result meta (task_mode mode task) (with_mode mode c))
            ≡ with_mode_result (forget (compact_files_debug d result meta task c)))
  unfolding on_flush_completed
  on_flush_completed_debug-with_mode d meta cf_name result task c = (
    on_flush_completed_debug-erases d meta cf_name (with_mode mode c)
        ∙ pick_compaction-with_mode d meta cf_name c
        ∙ ap with_mode_result (sym (on_flush_completed_debug-erases d meta cf_name c)),
    compact_files_debug-erases d result meta (task_mode mode task) (with_mode mode c)
        ∙ compact_files-with_mode d result.is_io_error meta task c
        ∙ ap with_mode_result (sym (compact_files_debug-erases d result meta task c)),
  )
