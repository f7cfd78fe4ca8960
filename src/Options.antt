-- ===== src/Options.antt =====
-- The options of RocksDB that the program sets, as far as include/config_options.h names them. A field
-- holds the value that is assigned to it, as the program's expression has it, before RocksDB's own
-- type converts it. Pointers to RocksDB objects are values that say which object was made.
use rocks_db_wrapper.Base.{ℕ, Bool, Option}
use rocks_db_wrapper.Base.Int.{ℤ}

pub data CompactionPri : Type 0 where
  k_by_compensated_size k_oldest_largest_seq_first k_oldest_smallest_seq_first : CompactionPri
  k_min_overlapping_ratio k_round_robin : CompactionPri

pub data MemtableFactory : Type 0 where
  skip_list_factory vector_rep_factory hash_skip_list_rep_factory : MemtableFactory
  hash_link_list_rep_factory : MemtableFactory

pub data CompactionStyle : Type 0 where
  k_compaction_style_level k_compaction_style_universal : CompactionStyle
  k_compaction_style_fifo k_compaction_style_none : CompactionStyle

pub data DataBlockIndexType : Type 0 where
  k_data_block_binary_search k_data_block_binary_and_hash : DataBlockIndexType

pub data IndexType : Type 0 where
  k_binary_search k_hash_search k_two_level_index_search : IndexType
  k_binary_search_with_first_key : IndexType

pub data IndexShorteningMode : Type 0 where
  k_no_shortening k_shorten_separators : IndexShorteningMode
  k_shorten_separators_and_successor : IndexShorteningMode

pub data CompressionType : Type 0 where
  k_no_compression k_snappy_compression k_zlib_compression k_bzip2_compression : CompressionType
  k_lz4_compression k_lz4hc_compression k_xpress_compression k_zstd : CompressionType
  k_disable_compression_option : CompressionType

pub data ReadTier : Type 0 where
  k_read_all_tier k_block_cache_tier k_persisted_tier k_memtable_tier : ReadTier

pub data Comparator : Type 0 where
  bytewise_comparator reverse_bytewise_comparator : Comparator

pub data StatsLevel : Type 0 where
  k_all k_disable_all : StatsLevel

pub data PerfLevel : Type 0 where
  k_disable k_enable_count k_enable_time_and_cpu_time_except_for_mutex : PerfLevel

-- `NewLRUCache(capacity, -1, false, high_pri_pool_ratio)`, the ratio in hundredths.
pub record LruCache : Type 0 where
  pub capacity : ℤ
  pub high_pri_pool_ratio : ℕ

pub record TableOptions : Type 0 where
  pub filter_policy : Option ℤ
  pub no_block_cache : Bool
  pub block_cache : Option LruCache
  pub cache_index_and_filter_blocks : Bool
  pub read_amp_bytes_per_bit : ℤ
  pub data_block_index_type : DataBlockIndexType
  pub index_type : IndexType
  pub partition_filters : Bool
  pub block_size : ℕ
  pub metadata_block_size : ℕ
  pub pin_top_level_index_and_filter : Bool
  pub index_shortening : IndexShorteningMode
  pub block_size_deviation : ℤ
  pub enable_index_compression : Bool

-- `Env` is the type of RocksDB's environments.
pub record Options (Env : Type 0) : Type 0 where
  pub create_if_missing : Bool
  pub max_open_files : ℤ
  pub max_file_opening_threads : ℤ
  pub bytes_per_sync : ℤ
  pub enable_thread_tracking : Bool
  pub allow_concurrent_memtable_write : Bool
  pub stats_history_buffer_size : ℕ
  pub dump_malloc_stats : Bool
  pub avoid_flush_during_shutdown : Bool
  pub advise_random_on_open : Bool
  pub delete_obsolete_files_period_micros : ℕ
  pub allow_mmap_reads : Bool
  pub allow_mmap_writes : Bool
  pub max_bytes_for_level_multiplier : ℤ
  pub write_buffer_size : ℕ
  pub target_file_size_base : ℤ
  pub max_bytes_for_level_base : ℕ
  pub max_write_buffer_number : ℤ
  pub compaction_pri : CompactionPri
  pub memtable_factory : MemtableFactory
  pub level_compaction_dynamic_level_bytes : Bool
  pub compaction_style : CompactionStyle
  pub disable_auto_compactions : Bool
  pub level0_file_num_compaction_trigger : ℤ
  pub num_levels : ℤ
  pub target_file_size_multiplier : ℤ
  pub max_background_jobs : ℤ
  pub soft_pending_compaction_bytes_limit : ℤ
  pub hard_pending_compaction_bytes_limit : ℤ
  pub periodic_compaction_seconds : ℕ
  pub use_direct_io_for_flush_and_compaction : Bool
  pub use_direct_reads : Bool
  pub table_factory : Option TableOptions
  pub compression : CompressionType
  pub comparator : Comparator
  pub max_sequential_skip_in_iterations : ℕ
  pub memtable_prefix_bloom_size_ratio : ℕ
  pub level0_slowdown_writes_trigger : ℤ
  pub level0_stop_writes_trigger : ℤ
  pub paranoid_file_checks : Bool
  pub optimize_filters_for_hits : Bool
  pub inplace_update_support : Bool
  pub inplace_update_num_locks : ℕ
  pub report_bg_io_stats : Bool
  pub arena_block_size : ℕ
  pub env : Env
  pub statistics : Option StatsLevel

pub record ReadOptions : Type 0 where
  pub verify_checksums : Bool
  pub fill_cache : Bool
  pub ignore_range_deletions : Bool
  pub read_tier : ReadTier

pub record WriteOptions : Type 0 where
  pub low_pri : Bool
  pub sync : Bool
  pub disable_wal : Bool
  pub no_slowdown : Bool
  pub ignore_missing_column_families : Bool

pub record FlushOptions : Type 0 where
  pub wait : Bool
  pub allow_write_stall : Bool

-- The thread's perf and IO contexts: the level, how often the counters were reset or cleared, whether
-- counters by level are kept, and whether IO counters are off.
pub record PerfContext : Type 0 where
  pub perf_level : PerfLevel
  pub resets : ℕ
  pub cleared : ℕ
  pub per_level : Bool
  pub iostats_resets : ℕ
  pub disable_iostats : Bool
