-- ===== src/Config/Examples.antt =====
-- The options on small inputs: tests, and the theorems at concrete settings. RocksDB's environments
-- are numbers here, and the one made from an address is the number of its bytes.
use Prim.Native.String.{String}
use rocks_db_wrapper.Base.{
  ℕ, ◌≡◌, ◌↔◌, refl, true, false, Option, none, some, [], ◌∷◌, length, arith,
}
use rocks_db_wrapper.Base.Int.{pos}
use rocks_db_wrapper.Base.Text.{codes}
use rocks_db_wrapper.Env.{DbEnv, new_db_env}
use rocks_db_wrapper.Options.{
  k_min_overlapping_ratio, skip_list_factory, k_compaction_style_level,
  k_compaction_style_universal, k_data_block_binary_search, k_binary_search, k_shorten_separators,
  k_snappy_compression, k_read_all_tier, bytewise_comparator, k_disable, TableOptions, Options,
  PerfContext,
}
use rocks_db_wrapper.Config.{
  Config, Created, config_options, configured, config_exits, stats_options, with_env, before_cache,
  after_cache, invalid_memtable_factory, invalid_comparator, file_system, cache_options, cached,
}
use rocks_db_wrapper.Config.Results.{with_tables}
use rocks_db_wrapper.Config.Codes.{HasValidCodes, config_options-HasValidCodes}
use rocks_db_wrapper.Config.Cache.{Overflows, config_options-none}

abbrev table : TableOptions
table = record {
  filter_policy = none;
  no_block_cache = false;
  block_cache = none;
  cache_index_and_filter_blocks = false;
  read_amp_bytes_per_bit = pos 0;
  data_block_index_type = k_data_block_binary_search;
  index_type = k_binary_search;
  partition_filters = false;
  block_size = 0;
  metadata_block_size = 0;
  pin_top_level_index_and_filter = false;
  index_shortening = k_shorten_separators;
  block_size_deviation = pos 0;
  enable_index_compression = false;
}

abbrev options : Options ℕ
options = record {
  create_if_missing = false;
  max_open_files = pos 0;
  max_file_opening_threads = pos 0;
  bytes_per_sync = pos 0;
  enable_thread_tracking = false;
  allow_concurrent_memtable_write = false;
  stats_history_buffer_size = 0;
  dump_malloc_stats = false;
  avoid_flush_during_shutdown = false;
  advise_random_on_open = false;
  delete_obsolete_files_period_micros = 0;
  allow_mmap_reads = false;
  allow_mmap_writes = false;
  max_bytes_for_level_multiplier = pos 0;
  write_buffer_size = 0;
  target_file_size_base = pos 0;
  max_bytes_for_level_base = 0;
  max_write_buffer_number = pos 0;
  compaction_pri = k_min_overlapping_ratio;
  memtable_factory = skip_list_factory;
  level_compaction_dynamic_level_bytes = false;
  compaction_style = k_compaction_style_level;
  disable_auto_compactions = false;
  level0_file_num_compaction_trigger = pos 0;
  num_levels = pos 0;
  target_file_size_multiplier = pos 0;
  max_background_jobs = pos 0;
  soft_pending_compaction_bytes_limit = pos 0;
  hard_pending_compaction_bytes_limit = pos 0;
  periodic_compaction_seconds = 0;
  use_direct_io_for_flush_and_compaction = false;
  use_direct_reads = false;
  table_factory = none;
  compression = k_snappy_compression;
  comparator = bytewise_comparator;
  max_sequential_skip_in_iterations = 0;
  memtable_prefix_bloom_size_ratio = 0;
  level0_slowdown_writes_trigger = pos 0;
  level0_stop_writes_trigger = pos 0;
  paranoid_file_checks = false;
  optimize_filters_for_hits = false;
  inplace_update_support = false;
  inplace_update_num_locks = 0;
  report_bg_io_stats = false;
  arena_block_size = 0;
  env = 0;
  statistics = none;
}

abbrev perf : PerfContext
perf = record {
  perf_level = k_disable;
  resets = 0;
  cleared = 0;
  per_level = false;
  iostats_resets = 0;
  disable_iostats = false;
}

abbrev pub start : DbEnv → Config ℕ
start env = record {
  db_env = env;
  options = options;
  table_options = table;
  write_options = record {
    low_pri = false;
    sync = false;
    disable_wal = false;
    no_slowdown = false;
    ignore_missing_column_families = false;
  };
  read_options = record {
    verify_checksums = false;
    fill_cache = false;
    ignore_range_deletions = false;
    read_tier = k_read_all_tier;
  };
  flush_options = record { wait = false; allow_write_stall = false };
  env_internal = 0;
  env_guard = none;
  perf_context = perf;
  cerr = [];
}

abbrev pub uri_env : String → ℕ → Option ℕ → Created ℕ
uri_env uri env guard = record {
  failure = none;
  created_env = length (codes uri);
  created_guard = some env;
}

abbrev no_env : String → ℕ → Option ℕ → Created ℕ
no_env uri env guard = record {
  failure = some (codes "no");
  created_env = env;
  created_guard = guard;
}

-- Eight megabytes of block cache, universal compaction, and two codes without a case.
abbrev env : DbEnv
env = record new_db_env {
  block_cache = pos 8;
  compaction_style = 2;
  memtable_factory = 5;
  comparator = 0;
  fs_uri = "mem";
}

abbrev cached_table : TableOptions
cached_table = record table {
  block_cache = some (record { capacity = pos 8_388_608; high_pri_pool_ratio = 50 });
  cache_index_and_filter_blocks = true;
  filter_policy = some (pos 10);
}

abbrev result : Config ℕ
result =
    stats_options
      (with_env 3 (some 0) (after_cache (with_tables cached_table (before_cache (start env)))))

complaints_in_order : result.cerr ≡ invalid_memtable_factory ∷ invalid_comparator ∷ []
unfolding stats_options with_env after_cache before_cache new_db_env
complaints_in_order = refl

universal : result.options.compaction_style ≡ k_compaction_style_universal
unfolding stats_options with_env after_cache before_cache new_db_env
universal = refl

failure_exits : config_options no_env (start env) ≡ some (config_exits 1 (codes "no\n"))
unfolding config_options cache_options cached before_cache after_cache file_system new_db_env
failure_exits = refl

too_large : config_options uri_env (start (record env { block_cache = pos 2048 })) ≡ none
unfolding config_options cache_options cached before_cache
too_large = refl

config_options-HasValidCodes_example :
    (c' : Config ℕ) × (config_options uri_env (start env) ≡ some (configured c'))
    × ((c'.cerr ≡ []) ↔ HasValidCodes env)
unfolding new_db_env
config_options-HasValidCodes_example =
    config_options-HasValidCodes uri_env (start env) refl (λ h. omega (arith, h))
      (λ uri e guard. refl)

config_options-none_example :
    (config_options uri_env (start env) ≡ none) ↔ Overflows env.block_cache
config_options-none_example = config_options-none uri_env (start env)
