-- ===== src/Fluid/Tree.antt =====
-- The view that the compactor keeps of the tree (include/fluid_lsm.h): files in runs, runs in lazy
-- levels, and the compactor's own fields. A `long` that sizes are added to is its 64-bit pattern.
pub mod Largest
pub mod Live
use Prim.Native.String.{String}
use text.Mathlib.Text.{◌==◌ as str_eq}
use rocks_db_wrapper.Base.{
  ℕ, ◌+◌, ◌-◌, ◌%◌, ◌^◌, Bool, true, false, not, ◌&&◌, ◌||◌, List, [], ◌∷◌, ◌++◌, if◌then◌else◌,
  ltb, replicate,
}
use rocks_db_wrapper.Base.Int.{ℤ, pos, negsuc}

-- The fields of RocksDB's SstFileMetaData that the code reads and writes.
pub record SstFile : Type 0 where
  pub name : String
  pub size : ℕ
  pub smallest_key : String
  pub largest_key : String
  pub being_compacted : Bool

pub record Run : Type 0 where
  pub files : List SstFile
  pub file_names : List String
  pub rocks_db_level : ℕ

pub record LazyLevel : Type 0 where
  pub runs : List Run

abbrev pub new_run : ℕ → Run
new_run rocks_db_level = record { files = []; file_names = []; rocks_db_level = rocks_db_level }

-- std::set::insert, up to the order in which a set keeps its elements, which the code never reads.
unfoldable pub insert_name : String → List String → List String
insert_name n [] = n ∷ []
insert_name n (m ∷ ms) = if str_eq m n then m ∷ ms else m ∷ insert_name n ms

unfoldable pub add_file : Run → SstFile → Run
add_file run file = record run {
  files = run.files ++ file ∷ [];
  file_names = insert_name file.name run.file_names;
}

abbrev pub add_run : LazyLevel → Run → LazyLevel
add_run level run = record { runs = level.runs ++ run ∷ [] }

abbrev pub clear : LazyLevel → LazyLevel
clear level = record { runs = [] }

abbrev pub is_empty {ℓ} : {A : Type ℓ} → List A → Bool
is_empty [] = true
is_empty (x ∷ xs) = false

-- The inner loop of NumLiveRuns.
unfoldable pub any_being_compacted : Bool → List SstFile → Bool
any_being_compacted being_compacted [] = being_compacted
any_being_compacted being_compacted (file ∷ files) =
    any_being_compacted (being_compacted || file.being_compacted) files

unfoldable pub num_live_runs_from : ℕ → List Run → ℕ
num_live_runs_from n [] = n
num_live_runs_from n (run ∷ runs) =
    num_live_runs_from
      (n + (if not (any_being_compacted false run.files) && not (is_empty run.files) then 1 else 0))
      runs

unfoldable pub num_live_runs : LazyLevel → ℕ
unfolding num_live_runs_from
num_live_runs level = num_live_runs_from 0 level.runs

-- The value of a `long` with the given bit pattern.
abbrev pub signed64 : ℕ → ℤ
signed64 w = if ltb w (2 ^ 63) then pos w else negsuc (2 ^ 64 - w - 1)

unfoldable pub files_size_from : ℕ → List SstFile → ℕ
files_size_from size_in_bytes [] = size_in_bytes
files_size_from size_in_bytes (file ∷ files) =
    files_size_from ((size_in_bytes + file.size) % 2 ^ 64) files

unfoldable pub runs_size_from : ℕ → List Run → ℕ
unfolding files_size_from
runs_size_from size_in_bytes [] = size_in_bytes
runs_size_from size_in_bytes (run ∷ runs) =
    runs_size_from (files_size_from size_in_bytes run.files) runs

unfoldable pub size_in_bytes : LazyLevel → ℕ
unfolding runs_size_from
size_in_bytes level = runs_size_from 0 level.runs

-- The fields of RocksDB's Options and CompactionOptions that the compactor reads.
pub record FluidOptions : Type 0 where
  pub num_levels : ℕ
  pub write_buffer_size : ℕ
  pub target_file_size_base : ℕ
  pub compression : ℕ

pub record CompactionOptions : Type 0 where
  pub compression : ℕ
  pub output_file_size_limit : ℕ

pub record FluidLsm : Type 0 where
  pub lazy_levels : List LazyLevel
  pub size_ratio : ℕ
  pub smaller_lvl_runs_count : ℕ
  pub larger_lvl_runs_count : ℕ
  pub file_size : ℕ
  pub options : FluidOptions
  pub compact_options : CompactionOptions
  pub parallel_compactions_allowed : ℤ
  pub parallel_compactions_running : ℤ
  pub debug_mode : Bool

-- The constructor. It does not initialise `debug_mode_`: the last argument is what memory holds.
unfoldable pub new_fluid_lsm : ℕ → ℕ → ℕ → ℕ → FluidOptions → Bool → FluidLsm
new_fluid_lsm size_ratio k z file_size options uninitialised = record {
  lazy_levels = replicate options.num_levels (record { runs = [] });
  size_ratio = size_ratio;
  smaller_lvl_runs_count = k;
  larger_lvl_runs_count = z;
  file_size = file_size;
  options = options;
  compact_options = record {
    compression = options.compression;
    output_file_size_limit = options.target_file_size_base;
  };
  parallel_compactions_allowed = pos 1;
  parallel_compactions_running = pos 0;
  debug_mode = uninitialised;
}

-- The loops of GetLargestOccupiedLevel.
unfoldable pub largest_in_runs : ℕ → ℕ → List Run → ℕ
largest_in_runs lvl largest [] = largest
largest_in_runs lvl largest (run ∷ runs) =
    largest_in_runs lvl (if is_empty run.files then largest else lvl) runs

unfoldable pub largest_from : ℕ → ℕ → List LazyLevel → ℕ
unfolding largest_in_runs
largest_from lvl largest [] = largest
largest_from lvl largest (level ∷ levels) =
    largest_from (lvl + 1) (largest_in_runs lvl largest level.runs) levels

unfoldable pub largest_occupied_level : List LazyLevel → ℕ
unfolding largest_from
largest_occupied_level levels = largest_from 0 0 levels
