-- ===== src/Fluid/Compact.antt =====
-- FluidLSM's choice and scheduling of compactions. A `SstFileMetaData*` is the position of the file
-- in `lazy_levels_`; `none` is an access outside a vector or through a pointer to no file. The
-- environment's thread pool is the list of the tasks handed to `Schedule`.
mod Take
pub mod Visit
pub mod Inputs
pub mod Pick
pub mod Keeps
pub mod Pool
pub mod Output
pub mod Lands
pub mod Resolves
pub mod Target
pub mod Total
pub mod Sizes
pub mod Returns
mod Examples
use Prim.Native.String.{String}
use rocks_db_wrapper.Base.{
  ℕ, zero, suc, ◌+◌, ◌-◌, ◌*◌, ◌%◌, ◌^◌, Bool, true, false, ◌&&◌, ◌||◌, Option, some, List, [], ◌∷◌,
  ◌++◌, map, get_elem?, modify, if◌then◌else◌, ltb, ◌==◌, ◌>>=◌,
}
use rocks_db_wrapper.Base.Int.{ℤ, pos, sub_ℕ, ◌+ℤ◌, ◌-ℤ◌, ltb_ℤ}
use rocks_db_wrapper.Fluid.Double.{Double, of_ℕ}
use rocks_db_wrapper.Fluid.Tree.{
  SstFile, Run, LazyLevel, CompactionOptions, FluidLsm, is_empty, num_live_runs, signed64,
  largest_occupied_level,
}
use rocks_db_wrapper.Fluid.Build.{LevelMetaData, build_structure}

pub record Pointer : Type 0 where
  pub level : ℕ
  pub run : ℕ
  pub file : ℕ

-- `db_` and `compactor_` are the one database and the one compactor of the model.
pub record CompactionTask : Type 0 where
  pub cf_name : String
  pub input_file_names : List String
  pub output_lvl : ℕ
  pub compact_options : CompactionOptions
  pub retry_on_fail : Bool
  pub debug_mode : Bool

pub record Compactor : Type 0 where
  pub lsm : FluidLsm
  pub scheduled : List CompactionTask

unfoldable pub deref : List LazyLevel → Pointer → Option SstFile
deref levels p = do
  level ← get_elem? levels p.level
  run ← get_elem? level.runs p.run
  get_elem? run.files p.file

-- `file->being_compacted = true`
abbrev pub mark : SstFile → SstFile
mark file = record file { being_compacted = true }

abbrev pub mark_in_run : ℕ → Run → Run
mark_in_run i run = record run { files = modify mark i run.files }

abbrev pub mark_in_level : ℕ → ℕ → LazyLevel → LazyLevel
mark_in_level r i level = record { runs = modify (mark_in_run i) r level.runs }

unfoldable pub mark_at : Pointer → List LazyLevel → List LazyLevel
mark_at p levels = modify (mark_in_level p.run p.file) p.level levels

-- The positions in a run, and in a level, of the files that are not being compacted.
unfoldable pub idle_files : List SstFile → List ℕ
idle_files [] = []
idle_files (file ∷ files) =
    let rest = map suc (idle_files files) in if file.being_compacted then rest else 0 ∷ rest

unfoldable pub idle_in_runs : List Run → List (ℕ × ℕ)
unfolding idle_files
idle_in_runs [] = []
idle_in_runs (run ∷ runs) =
    map (λ i. (0, i)) (idle_files run.files) ++ map (λ p. (suc p.0, p.1)) (idle_in_runs runs)

unfoldable pub add_files_to_compaction : List LazyLevel → ℕ → List Pointer → Option (List Pointer)
unfolding idle_in_runs
add_files_to_compaction levels lvl input_files = do
  level ← get_elem? levels lvl
  some (
      input_files
      ++ map (λ p. record { level = lvl; run = p.0; file = p.1 }) (idle_in_runs level.runs))

unfoldable pub compaction_size_from : List LazyLevel → ℕ → List Pointer → Option ℕ
unfolding deref
compaction_size_from levels size_in_bytes [] = some size_in_bytes
compaction_size_from levels size_in_bytes (p ∷ ps) = do
  file ← deref levels p
  compaction_size_from levels ((size_in_bytes + file.size) % 2 ^ 64) ps

unfoldable pub compaction_size : List LazyLevel → List Pointer → Option ℕ
unfolding compaction_size_from
compaction_size levels input_files = compaction_size_from levels 0 input_files

-- `write_buffer_size * pow(size_ratio, origin_lvl + 1) * (size_ratio - 1) / size_ratio` as a long
unfoldable pub level_capacity : Double → FluidLsm → ℕ → ℤ
level_capacity d lsm origin_lvl = d.to_int (
    d.div
      (d.mul
        (d.mul (of_ℕ d lsm.options.write_buffer_size)
          (d.pow (of_ℕ d lsm.size_ratio) (of_ℕ d (origin_lvl + 1))))
        (d.of_int (sub_ℕ lsm.size_ratio 1)))
      (of_ℕ d lsm.size_ratio))

unfoldable pub compaction_target_level : Double → FluidLsm → ℕ → List Pointer → Option ℕ
unfolding compaction_size level_capacity
compaction_target_level d lsm origin_lvl input_files = do
  projected_output_size ← compaction_size lsm.lazy_levels input_files
  some (
      if ltb_ℤ (level_capacity d lsm origin_lvl) (signed64 projected_output_size)
      then origin_lvl + 1
      else origin_lvl)

-- The loop of ScheduleCompaction over `runs` of the target level, with the rounds left and `lvl`.
-- (The slot that it also computes, and the capped `target_lvl` after it, are never read.)
unfoldable pub output_level_loop : List Run → ℕ → ℕ → ℕ → ℕ → Option ℕ
output_level_loop runs k target_lvl zero lvl = some (1 + target_lvl * (k + 1))
output_level_loop runs k target_lvl (suc rounds) lvl = do
  run ← get_elem? runs (k - lvl)
  let rest = output_level_loop runs k target_lvl rounds (lvl + 1)
  if is_empty run.files then some (1 + target_lvl * (k + 1) - lvl) else rest

-- The int arithmetic is taken without overflow: 1 + target_lvl * (K + 1) is below 2^31.
unfoldable pub output_level : List LazyLevel → ℕ → ℕ → ℕ → Option ℕ
unfolding output_level_loop
output_level levels k origin_lvl target_lvl =
    if ltb origin_lvl target_lvl
    then (get_elem? levels target_lvl >>= λ level.
        output_level_loop level.runs k target_lvl (k + 1) 0)
    else some (1 + target_lvl * (k + 1))

-- The loop that collects the names and marks the files.
unfoldable pub take_inputs : List LazyLevel → List Pointer → Option (List String × List LazyLevel)
unfolding deref mark_at
take_inputs levels [] = some ([], levels)
take_inputs levels (p ∷ ps) = do
  file ← deref levels p
  (names, marked) ← take_inputs (mark_at p levels) ps
  some (file.name ∷ names, marked)

unfoldable pub start_compaction : Compactor → String → ℕ → List Pointer → Option Compactor
unfolding take_inputs ◌+ℤ◌
start_compaction c cf_name rocks_db_lvl input_files = do
  (names, marked) ← take_inputs c.lsm.lazy_levels input_files
  let task : CompactionTask = record {
    cf_name = cf_name;
    input_file_names = names;
    output_lvl = rocks_db_lvl;
    compact_options = record c.lsm.compact_options { output_file_size_limit = c.lsm.file_size };
    retry_on_fail = false;
    debug_mode = c.lsm.debug_mode;
  }
  some (record {
    lsm = record c.lsm {
      lazy_levels = marked;
      parallel_compactions_running = c.lsm.parallel_compactions_running +ℤ pos 1;
    };
    scheduled = c.scheduled ++ task ∷ [];
  })

unfoldable pub schedule_compaction : Compactor → String → ℕ → ℕ → List Pointer → Option Compactor
unfolding output_level start_compaction
schedule_compaction c cf_name origin_lvl target_lvl input_files =
    if ltb_ℤ c.lsm.parallel_compactions_running c.lsm.parallel_compactions_allowed
    then (output_level c.lsm.lazy_levels c.lsm.smaller_lvl_runs_count origin_lvl target_lvl
        >>= λ rocks_db_lvl. start_compaction c cf_name rocks_db_lvl input_files)
    else some c

unfoldable pub needs_compaction : FluidLsm → ℕ → ℕ → ℕ → Bool
needs_compaction lsm largest_lvl lvl num_live_runs =
    (ltb lvl largest_lvl && ltb lsm.smaller_lvl_runs_count num_live_runs)
    || (lvl == largest_lvl && ltb lsm.larger_lvl_runs_count num_live_runs)

-- One round of the loop of PickCompaction.
unfoldable pub pick_level : Double → String → ℕ → ℕ → Compactor → Option Compactor
unfolding needs_compaction add_files_to_compaction compaction_target_level schedule_compaction
pick_level d cf_name largest_lvl lvl c = do
  level ← get_elem? c.lsm.lazy_levels lvl
  if needs_compaction c.lsm largest_lvl lvl (num_live_runs level)
      then (add_files_to_compaction c.lsm.lazy_levels lvl [] >>= λ input_files.
          compaction_target_level d c.lsm lvl input_files >>= λ target_lvl.
          schedule_compaction c cf_name lvl target_lvl input_files)
      else some c

unfoldable pub pick_loop : Double → String → ℕ → ℕ → Compactor → Option Compactor
unfolding pick_level
pick_loop d cf_name largest_lvl zero c = some c
pick_loop d cf_name largest_lvl (suc lvl) c = do
  next ← pick_level d cf_name largest_lvl lvl c
  pick_loop d cf_name largest_lvl lvl next

unfoldable pub pick_compaction : Double → List LevelMetaData → String → Compactor → Option Compactor
unfolding pick_loop
pick_compaction d meta cf_name c = do
  lsm ← build_structure d meta c.lsm
  let largest_lvl = largest_occupied_level lsm.lazy_levels
  pick_loop d cf_name largest_lvl (suc largest_lvl) (record c { lsm = lsm })

unfoldable pub on_flush_completed :
    Double → List LevelMetaData → String → Compactor → Option Compactor
unfolding pick_compaction
on_flush_completed d meta cf_name c = pick_compaction d meta cf_name c

-- The body of a task. What `DB::CompactFiles` did is the flag that it failed with an I/O error and
-- the metadata that the database reports afterwards.
unfoldable pub compact_files :
    Double → Bool → List LevelMetaData → CompactionTask → Compactor → Option Compactor
unfolding pick_compaction ◌-ℤ◌
compact_files d is_io_error meta task c = do
  picked ← if is_io_error then some c else pick_compaction d meta task.cf_name c
  some (record picked {
    lsm = record picked.lsm {
      parallel_compactions_running = picked.lsm.parallel_compactions_running -ℤ pos 1;
    };
  })
