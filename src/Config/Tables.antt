-- ===== src/Config/Tables.antt =====
-- configOptions in parts, continued: the table options, and all that follows them.
use rocks_db_wrapper.Base.{
  zero, suc, ◌+◌, ◌-◌, ◌*◌, ◌^◌, true, false, Option, none, some, ◌>>=◌, if◌then◌else◌, ltb,
}
use rocks_db_wrapper.Base.Int.{ℤ, pos, negsuc}
use rocks_db_wrapper.Env.{DbEnv, get_block_size}
use rocks_db_wrapper.Options.{
  k_all, k_disable_all, PerfLevel, k_disable, k_enable_count,
  k_enable_time_and_cpu_time_except_for_mutex, TableOptions,
}
use rocks_db_wrapper.Config.Cases.{
  invalid_index_type_for_data_block, invalid_index_type, invalid_index_shortening,
  invalid_compression_type, invalid_read_tier, invalid_comparator, switch, complain,
  data_block_index_type_of, index_type_of, index_shortening_of, compression_of, read_tier_of,
  comparator_of,
}
use rocks_db_wrapper.Config.Steps.{Config}

-- `block_cache * 1024 * 1024` on ints of 32 bits; outside their range it is undefined (`none`).
abbrev pub cache_capacity : ℤ → Option ℤ
cache_capacity (pos n) =
    if ltb (n * 1024 * 1024) (2 ^ 31) then some (pos (n * 1024 * 1024)) else none
cache_capacity (negsuc n) =
    if ltb (suc n * 1024 * 1024) (2 ^ 31 + 1) then some (negsuc (suc n * 1024 * 1024 - 1)) else none

abbrev pub with_cache : DbEnv → TableOptions → ℤ → TableOptions
with_cache env t capacity = record t {
  no_block_cache = false;
  block_cache =
      some
        (record { capacity = capacity; high_pri_pool_ratio = env.block_cache_high_priority_ratio });
  cache_index_and_filter_blocks = env.cache_index_and_filter_blocks;
}

unfoldable pub cached : DbEnv → TableOptions → ℤ → Option TableOptions
cached env t (pos zero) =
    some (record t { no_block_cache = true; cache_index_and_filter_blocks = false })
cached env t (pos (suc n)) =
    cache_capacity (pos (suc n)) >>= λ capacity. some (with_cache env t capacity)
cached env t (negsuc n) = cache_capacity (negsuc n) >>= λ capacity. some (with_cache env t capacity)

-- The statistics and the perf level; IO counters are only ever switched off.
perf_level_of : DbEnv → PerfLevel
perf_level_of env =
    if env.perf_stats
    then k_enable_time_and_cpu_time_except_for_mutex
    else if env.iostat_stats
    then k_enable_count
    else k_disable

module _ {Env : Type 0} where
  unfoldable pub cache_options : Config Env → Option (Config Env)
  cache_options c = cached c.db_env c.table_options c.db_env.block_cache >>= λ t. some (record c {
    table_options = t;
    db_env = record c.db_env { no_block_cache = t.no_block_cache };
  })

  unfoldable pub index_options : Config Env → Config Env
  index_options c =
      let env = c.db_env in
      let t = c.table_options in
      let data_block = data_block_index_type_of env.data_block_index_type in
      let index = index_type_of env.index_type in
      let shortening = index_shortening_of env.index_shortening in
      let t' = record t {
        read_amp_bytes_per_bit = env.read_amp_bytes_per_bit;
        data_block_index_type = switch data_block t.data_block_index_type;
        index_type = switch index t.index_type;
        partition_filters = env.partition_filters;
        block_size = get_block_size env;
        metadata_block_size = env.metadata_block_size;
        pin_top_level_index_and_filter = env.pin_top_level_index_and_filter;
        index_shortening = switch shortening t.index_shortening;
        block_size_deviation = env.block_size_deviation;
        enable_index_compression = env.enable_index_compression;
      } in
      record c {
        table_options = t';
        options = record c.options { table_factory = some t' };
        cerr = complain shortening invalid_index_shortening (
            complain index invalid_index_type
              (complain data_block invalid_index_type_for_data_block c.cerr));
      }

  unfoldable pub read_write_options : Config Env → Config Env
  read_write_options c =
      let env = c.db_env in
      let compression = compression_of env.compression in
      let tier = read_tier_of env.read_tier in
      record c {
        options = record c.options { compression = switch compression c.options.compression };
        read_options = record {
          verify_checksums = env.verify_checksums;
          fill_cache = env.fill_cache;
          ignore_range_deletions = env.ignore_range_deletions;
          read_tier = switch tier c.read_options.read_tier;
        };
        write_options = record {
          low_pri = env.low_pri;
          sync = env.sync;
          disable_wal = env.disable_wal;
          no_slowdown = env.no_slowdown;
          ignore_missing_column_families = env.ignore_missing_column_families;
        };
        cerr =
            complain tier invalid_read_tier (complain compression invalid_compression_type c.cerr);
      }

  unfoldable pub column_family_options : Config Env → Config Env
  column_family_options c =
      let env = c.db_env in
      let comparator = comparator_of env.comparator in
      record c {
        options = record c.options {
          comparator = switch comparator c.options.comparator;
          max_sequential_skip_in_iterations = env.max_sequential_skip_in_iterations;
          memtable_prefix_bloom_size_ratio = env.memtable_prefix_bloom_size_ratio;
          level0_slowdown_writes_trigger = env.level0_slowdown_writes_trigger;
          level0_stop_writes_trigger = env.level0_stop_writes_trigger;
          paranoid_file_checks = env.paranoid_file_checks;
          optimize_filters_for_hits = env.optimize_filters_for_hits;
          inplace_update_support = env.inplace_update_support;
          inplace_update_num_locks = env.inplace_update_num_locks;
          report_bg_io_stats = env.report_bg_io_stats;
          arena_block_size = get_block_size env;
        };
        flush_options = record { wait = env.wait; allow_write_stall = env.allow_write_stall };
        cerr = complain comparator invalid_comparator c.cerr;
      }

  unfoldable pub stats_options : Config Env → Config Env
  unfolding perf_level_of
  stats_options c =
      let env = c.db_env in
      let p = c.perf_context in
      record c {
        options = record c.options {
          statistics = some (if env.rocksdb_stats then k_all else k_disable_all);
        };
        perf_context = record p {
          perf_level = perf_level_of env;
          resets = if env.perf_stats then p.resets + 1 else p.resets;
          cleared = if env.perf_stats then p.cleared + 1 else p.cleared;
          per_level = env.perf_stats;
          iostats_resets = if env.iostat_stats then p.iostats_resets + 1 else p.iostats_resets;
          disable_iostats = if env.iostat_stats then p.disable_iostats else true;
        };
      }
