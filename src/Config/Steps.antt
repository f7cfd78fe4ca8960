-- ===== src/Config/Steps.antt =====
-- configOptions in parts: one definition for each run of its assignments.
use rocks_db_wrapper.Base.{zero, Option, some, List, if◌then◌else◌}
use rocks_db_wrapper.Base.Int.{pos}
use rocks_db_wrapper.Env.{
  DbEnv, get_buffer_size, get_target_file_size_base, get_max_bytes_for_level_base,
}
use rocks_db_wrapper.Options.{
  TableOptions, Options, ReadOptions, WriteOptions, FlushOptions, PerfContext,
}
use rocks_db_wrapper.Config.Cases.{
  Complaint, invalid_data_movement_policy, invalid_memtable_factory, invalid_compaction_eagerness,
  switch, complain, compaction_pri_of, memtable_factory_of, compaction_style_of, is_universal,
}

-- All that the function can write, with `env_internal`, `env_guard` and std::cerr.
pub record Config (Env : Type 0) : Type 0 where
  pub db_env : DbEnv
  pub options : Options Env
  pub table_options : TableOptions
  pub write_options : WriteOptions
  pub read_options : ReadOptions
  pub flush_options : FlushOptions
  pub env_internal : Env
  pub env_guard : Option Env
  pub perf_context : PerfContext
  pub cerr : List Complaint

module _ {Env : Type 0} where
  unfoldable pub db_options : Config Env → Config Env
  db_options c =
      let env = c.db_env in
      record c {
        options = record c.options {
          create_if_missing = env.create_if_missing;
          max_open_files = env.max_open_files;
          max_file_opening_threads = env.max_file_opening_threads;
          bytes_per_sync = env.bytes_per_sync;
          enable_thread_tracking = env.enable_thread_tracking;
          allow_concurrent_memtable_write = env.allow_concurrent_memtable_write;
          stats_history_buffer_size = env.stats_history_buffer_size;
          dump_malloc_stats = env.dump_malloc_stats;
          avoid_flush_during_shutdown = env.avoid_flush_during_shutdown;
          advise_random_on_open = env.advise_random_on_open;
          delete_obsolete_files_period_micros = env.delete_obsolete_files_period_micros;
          allow_mmap_reads = env.allow_mmap_reads;
          allow_mmap_writes = env.allow_mmap_writes;
        };
      }

  unfoldable pub size_options : Config Env → Config Env
  size_options c =
      let env = c.db_env in
      record c {
        options = record c.options {
          max_bytes_for_level_multiplier = env.size_ratio;
          write_buffer_size = get_buffer_size env;
          target_file_size_base = get_target_file_size_base env;
          max_bytes_for_level_base = get_max_bytes_for_level_base env;
          max_write_buffer_number = env.max_write_buffer_number;
        };
        table_options = record c.table_options {
          filter_policy = elim env.bits_per_key [
            | pos zero ↦ c.table_options.filter_policy
            | bits ↦ some bits
          ];
        };
      }

  unfoldable pub compaction_options : Config Env → Config Env
  compaction_options c =
      let env = c.db_env in
      let pri = compaction_pri_of env.compaction_pri in
      let factory = memtable_factory_of env.memtable_factory in
      let style = compaction_style_of env.compaction_style in
      record c {
        options = record c.options {
          compaction_pri = switch pri c.options.compaction_pri;
          memtable_factory = switch factory c.options.memtable_factory;
          level_compaction_dynamic_level_bytes = env.level_compaction_dynamic_level_bytes;
          compaction_style = switch style c.options.compaction_style;
        };
        cerr = complain style invalid_compaction_eagerness (
            complain factory invalid_memtable_factory
              (complain pri invalid_data_movement_policy c.cerr));
      }

  unfoldable pub level_options : Config Env → Config Env
  level_options c =
      let env = c.db_env in
      let o = c.options in
      let universal = is_universal o.compaction_style in
      record c {
        options = record o {
          disable_auto_compactions = env.disable_auto_compactions;
          level0_file_num_compaction_trigger =
              if universal
              then o.level0_file_num_compaction_trigger
              else env.level0_file_num_compaction_trigger;
          num_levels = if universal then o.num_levels else env.num_levels;
          target_file_size_multiplier = env.target_file_size_multiplier;
          max_background_jobs = env.max_background_jobs;
          soft_pending_compaction_bytes_limit = env.soft_pending_compaction_bytes_limit;
          hard_pending_compaction_bytes_limit = env.hard_pending_compaction_bytes_limit;
          periodic_compaction_seconds = env.periodic_compaction_seconds;
          use_direct_io_for_flush_and_compaction = env.use_direct_io_for_flush_and_compaction;
          use_direct_reads = env.use_direct_reads;
        };
      }
