-- ===== src/Env.antt =====
-- The configuration of a run: include/db_env.h and src/db_env.cc. An `int` is its value and an unsigned
-- number its residue. Of the doubles, `size_ratio` and `bits_per_key` only ever hold whole numbers
-- (the defaults, or an int from the command line), and the two ratios count hundredths.
pub mod Default
pub mod Sizes
pub mod Instance
mod Examples
use Prim.Native.String.{String}
use rocks_db_wrapper.Base.{
  ℕ, ◌+◌, ◌*◌, ◌%◌, ◌^◌, Bool, true, false, not, Option, none, some, if◌then◌else◌, ◌==◌,
}
use rocks_db_wrapper.Base.Int.{ℤ, pos, pos_part, sub_ℕ}
use rocks_db_wrapper.Fluid.Tree.{signed64}

pub record DbEnv : Type 0 where
  pub buffer_size : ℕ
  pub rocksdb_stats : Bool
  pub perf_stats : Bool
  pub iostat_stats : Bool
  pub destroy_database : Bool
  pub show_progress_bar : Bool
  pub is_per_op_timer : Bool
  pub is_total_timer : Bool
  pub create_if_missing : Bool
  pub clear_system_cache : Bool
  pub files_in_l0 : ℕ
  pub max_open_files : ℤ
  pub max_file_opening_threads : ℤ
  pub bytes_per_sync : ℤ
  pub enable_thread_tracking : Bool
  pub allow_concurrent_memtable_write : Bool
  pub stats_history_buffer_size : ℕ
  pub dump_malloc_stats : Bool
  pub avoid_flush_during_shutdown : Bool
  pub advise_random_on_open : Bool
  pub delete_obsolete_files_period_micros : ℕ
  pub allow_mmap_reads : Bool
  pub allow_mmap_writes : Bool
  pub verbosity : ℤ
  pub fs_uri : String
  pub entry_size : ℕ
  pub entries_per_page : ℕ
  pub buffer_size_in_pages : ℕ
  pub size_ratio : ℤ
  pub file_to_memtable_size_ratio : ℕ
  pub max_write_buffer_number : ℤ
  pub bits_per_key : ℤ
  pub compaction_pri : ℕ
  pub memtable_factory : ℕ
  pub level_compaction_dynamic_level_bytes : Bool
  pub compaction_style : ℕ
  pub disable_auto_compactions : Bool
  pub level0_file_num_compaction_trigger : ℤ
  pub num_levels : ℤ
  pub target_file_size_multiplier : ℤ
  pub max_background_jobs : ℤ
  pub soft_pending_compaction_bytes_limit : ℤ
  pub hard_pending_compaction_bytes_limit : ℤ
  pub periodic_compaction_seconds : ℕ
  pub use_direct_io_for_flush_and_compaction : Bool
  pub use_direct_reads : Bool
  pub no_block_cache : Bool
  pub block_cache : ℤ
  pub block_cache_high_priority_ratio : ℕ
  pub cache_index_and_filter_blocks : Bool
  pub read_amp_bytes_per_bit : ℤ
  pub data_block_index_type : ℕ
  pub index_type : ℕ
  pub partition_filters : Bool
  pub metadata_block_size : ℕ
  pub pin_top_level_index_and_filter : Bool
  pub index_shortening : ℕ
  pub block_size_deviation : ℤ
  pub enable_index_compression : Bool
  pub compression : ℕ
  pub verify_checksums : Bool
  pub fill_cache : Bool
  pub ignore_range_deletions : Bool
  pub read_tier : ℕ
  pub low_pri : Bool
  pub sync : Bool
  pub disable_wal : Bool
  pub no_slowdown : Bool
  pub ignore_missing_column_families : Bool
  pub comparator : ℕ
  pub max_sequential_skip_in_iterations : ℕ
  pub memtable_prefix_bloom_size_ratio : ℕ
  pub level0_slowdown_writes_trigger : ℤ
  pub level0_stop_writes_trigger : ℤ
  pub paranoid_file_checks : Bool
  pub optimize_filters_for_hits : Bool
  pub inplace_update_support : Bool
  pub inplace_update_num_locks : ℕ
  pub report_bg_io_stats : Bool
  pub wait : Bool
  pub allow_write_stall : Bool

-- `new DBEnv()`, with the constants of the namespace Default.
unfoldable pub new_db_env : DbEnv
new_db_env = record {
  buffer_size = 0;
  rocksdb_stats = true;
  perf_stats = true;
  iostat_stats = true;
  destroy_database = false;
  show_progress_bar = true;
  is_per_op_timer = false;
  is_total_timer = false;
  create_if_missing = true;
  clear_system_cache = true;
  files_in_l0 = 4;
  max_open_files = Default.max_open_files;
  max_file_opening_threads = Default.max_file_opening_threads;
  bytes_per_sync = pos 0;
  enable_thread_tracking = false;
  allow_concurrent_memtable_write = false;
  stats_history_buffer_size = 1_048_576;
  dump_malloc_stats = false;
  avoid_flush_during_shutdown = false;
  advise_random_on_open = true;
  delete_obsolete_files_period_micros = 21_600_000_000;
  allow_mmap_reads = false;
  allow_mmap_writes = false;
  verbosity = pos 0;
  fs_uri = "";
  entry_size = Default.entry_size;
  entries_per_page = Default.entries_per_page;
  buffer_size_in_pages = Default.buffer_size_in_pages;
  size_ratio = Default.size_ratio;
  file_to_memtable_size_ratio = Default.file_to_memtable_size_ratio;
  max_write_buffer_number = Default.max_write_buffer_number;
  bits_per_key = pos 10;
  compaction_pri = 1;
  memtable_factory = 1;
  level_compaction_dynamic_level_bytes = false;
  compaction_style = 1;
  disable_auto_compactions = false;
  level0_file_num_compaction_trigger = Default.level0_file_num_compaction_trigger;
  num_levels = pos 10;
  target_file_size_multiplier = pos 1;
  max_background_jobs = pos 1;
  soft_pending_compaction_bytes_limit = pos 0;
  hard_pending_compaction_bytes_limit = pos 0;
  periodic_compaction_seconds = 0;
  use_direct_io_for_flush_and_compaction = true;
  use_direct_reads = true;
  no_block_cache = false;
  block_cache = pos 0;
  block_cache_high_priority_ratio = 50;
  cache_index_and_filter_blocks = true;
  read_amp_bytes_per_bit = pos 0;
  data_block_index_type = 1;
  index_type = 1;
  partition_filters = false;
  metadata_block_size = 4096;
  pin_top_level_index_and_filter = false;
  index_shortening = 1;
  block_size_deviation = pos 0;
  enable_index_compression = false;
  compression = 1;
  verify_checksums = true;
  fill_cache = false;
  ignore_range_deletions = false;
  read_tier = 1;
  low_pri = false;
  sync = false;
  disable_wal = false;
  no_slowdown = false;
  ignore_missing_column_families = false;
  comparator = 1;
  max_sequential_skip_in_iterations = 8;
  memtable_prefix_bloom_size_ratio = 0;
  level0_slowdown_writes_trigger = sub_ℕ (pos_part Default.size_ratio) 1;
  level0_stop_writes_trigger = Default.size_ratio;
  paranoid_file_checks = false;
  optimize_filters_for_hits = false;
  inplace_update_support = false;
  inplace_update_num_locks = 10000;
  report_bg_io_stats = true;
  wait = true;
  allow_write_stall = true;
}

-- The static member `instance_` is the state: the call moves the object out of it.
unfoldable pub get_instance : Option DbEnv → DbEnv × Option DbEnv
unfolding new_db_env
get_instance none = (new_db_env, none)
get_instance (some env) = (env, none)

abbrev pub db_path : String
db_path = "./db"

-- Products of unsigned ints wrap at 2 ^ 32, also where the result is a wider type.
unfoldable pub get_block_size : DbEnv → ℕ
get_block_size env = env.entries_per_page * env.entry_size % 2 ^ 32

unfoldable pub get_buffer_size : DbEnv → ℕ
get_buffer_size env =
    if not (env.buffer_size == 0)
    then env.buffer_size
    else env.buffer_size_in_pages * env.entries_per_page % 2 ^ 32 * env.entry_size % 2 ^ 32

unfoldable pub get_target_file_size_base : DbEnv → ℤ
unfolding get_buffer_size
get_target_file_size_base env = signed64 (get_buffer_size env)

-- The `long` is converted back to its bit pattern for the product with a uint64_t.
unfoldable pub get_max_bytes_for_level_base : DbEnv → ℕ
unfolding get_buffer_size
get_max_bytes_for_level_base env = env.files_in_l0 * get_buffer_size env % 2 ^ 64

unfoldable pub set_buffer_size : ℕ → DbEnv → DbEnv
set_buffer_size buffer_size env = record env { buffer_size = buffer_size }

unfoldable pub set_rocks_db_stat : Bool → DbEnv → DbEnv
set_rocks_db_stat value env = record env { rocksdb_stats = value }

unfoldable pub set_perf_stat : Bool → DbEnv → DbEnv
set_perf_stat value env = record env { perf_stats = value }

unfoldable pub set_io_stat : Bool → DbEnv → DbEnv
set_io_stat value env = record env { iostat_stats = value }

unfoldable pub set_destroy_database : Bool → DbEnv → DbEnv
set_destroy_database value env = record env { destroy_database = value }

unfoldable pub set_show_progress : Bool → DbEnv → DbEnv
set_show_progress value env = record env { show_progress_bar = value }
