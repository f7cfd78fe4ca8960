-- ===== src/Args.antt =====
-- The command line: include/parse_arguments.h. What the vendored parser (include/args.hxx) makes of
-- `argv` is an argument of the model. An int that is not an int of 32 bits does not occur in `Flags`.
pub mod Triggers
pub mod Buffers
mod Examples
use Prim.Native.String.{String}
use rocks_db_wrapper.Base.{ℕ, ◌^◌, Option, none, some, [], ◌∷◌, ◌++◌}
use rocks_db_wrapper.Base.Int.{ℤ, pos, ◌-ℤ◌, to_unsigned, to_bool}
use rocks_db_wrapper.Base.Text.{Text}
use rocks_db_wrapper.Env.{
  DbEnv, set_buffer_size, set_rocks_db_stat, set_perf_stat, set_io_stat, set_destroy_database,
  set_show_progress,
}

-- A flag is there with its value, or not.
pub record Flags : Type 0 where
  pub destroy_database_cmd : Option ℤ
  pub clear_system_cache_cmd : Option ℤ
  pub size_ratio_cmd : Option ℤ
  pub buffer_size_in_pages_cmd : Option ℤ
  pub entries_per_page_cmd : Option ℤ
  pub entry_size_cmd : Option ℤ
  pub buffer_size_cmd : Option ℤ
  pub file_to_memtable_size_ratio_cmd : Option ℤ
  pub file_size_cmd : Option ℤ
  pub compaction_pri_cmd : Option ℤ
  pub compaction_style_cmd : Option ℤ
  pub bits_per_key_cmd : Option ℤ
  pub block_cache_cmd : Option ℤ
  pub enable_perf_cmd : Option ℤ
  pub enable_iostat_cmd : Option ℤ
  pub enable_rocksdb_stats_cmd : Option ℤ
  pub show_progress_cmd : Option ℤ
  pub verbosity_cmd : Option ℤ
  pub enable_per_op_time_cmd : Option ℤ
  pub enable_total_time_cmd : Option ℤ
  pub low_pri_cmd : Option ℤ
  pub num_levels_cmd : Option ℤ
  pub files_in_l0_cmd : Option ℤ
  pub fs_uri_cmd : Option String

abbrev pub no_flags : Flags
no_flags = record {
  destroy_database_cmd = none;
  clear_system_cache_cmd = none;
  size_ratio_cmd = none;
  buffer_size_in_pages_cmd = none;
  entries_per_page_cmd = none;
  entry_size_cmd = none;
  buffer_size_cmd = none;
  file_to_memtable_size_ratio_cmd = none;
  file_size_cmd = none;
  compaction_pri_cmd = none;
  compaction_style_cmd = none;
  bits_per_key_cmd = none;
  block_cache_cmd = none;
  enable_perf_cmd = none;
  enable_iostat_cmd = none;
  enable_rocksdb_stats_cmd = none;
  show_progress_cmd = none;
  verbosity_cmd = none;
  enable_per_op_time_cmd = none;
  enable_total_time_cmd = none;
  low_pri_cmd = none;
  num_levels_cmd = none;
  files_in_l0_cmd = none;
  fs_uri_cmd = none;
}

-- What `ParseCLI` does: it sets the flags, or throws Help, ParseError or ValidationError with a text.
pub data Parsed : Type 0 where
  parsed : Flags → Parsed
  help : Parsed
  parse_error validation_error : Text → Parsed

-- `cmd ? convert(args::get(cmd)) : current`
abbrev pub flag_or {ℓ κ} : {A : Type ℓ} {B : Type κ} → (A → B) → Option A → B → B
flag_or convert none current = current
flag_or convert (some value) current = convert value

abbrev value : ℤ → ℤ
value v = v

-- Each step is one run of assignments, in the order of the source.
-- `size_ratio - 1` is computed as a double and becomes an int, which is the same except for INT_MIN.
set_tree : Flags → DbEnv → DbEnv
unfolding ◌-ℤ◌ set_destroy_database
set_tree cmd env =
    let size_ratio = flag_or value cmd.size_ratio_cmd env.size_ratio in
    record (set_destroy_database (flag_or to_bool cmd.destroy_database_cmd env.destroy_database)
      env) {
        clear_system_cache = flag_or to_bool cmd.clear_system_cache_cmd env.clear_system_cache;
        size_ratio = size_ratio;
        level0_slowdown_writes_trigger = size_ratio -ℤ pos 1;
        level0_stop_writes_trigger = size_ratio;
        level0_file_num_compaction_trigger = size_ratio;
      }

set_pages : Flags → DbEnv → DbEnv
set_pages cmd env = record env {
  buffer_size_in_pages =
      flag_or (to_unsigned (2 ^ 32)) cmd.buffer_size_in_pages_cmd env.buffer_size_in_pages;
  entries_per_page = flag_or (to_unsigned (2 ^ 32)) cmd.entries_per_page_cmd env.entries_per_page;
  entry_size = flag_or (to_unsigned (2 ^ 32)) cmd.entry_size_cmd env.entry_size;
  verbosity = flag_or value cmd.verbosity_cmd env.verbosity;
  is_per_op_timer = flag_or to_bool cmd.enable_per_op_time_cmd env.is_per_op_timer;
  is_total_timer = flag_or to_bool cmd.enable_total_time_cmd env.is_total_timer;
}

set_files : Flags → DbEnv → DbEnv
unfolding set_buffer_size
set_files cmd env =
    record (set_buffer_size (flag_or (to_unsigned (2 ^ 64)) cmd.buffer_size_cmd 0) env) {
      file_to_memtable_size_ratio =
          flag_or (to_unsigned (2 ^ 32)) cmd.file_to_memtable_size_ratio_cmd
            env.file_to_memtable_size_ratio;
      compaction_pri = flag_or (to_unsigned (2 ^ 16)) cmd.compaction_pri_cmd env.compaction_pri;
      compaction_style =
          flag_or (to_unsigned (2 ^ 64)) cmd.compaction_style_cmd env.compaction_style;
      bits_per_key = flag_or value cmd.bits_per_key_cmd env.bits_per_key;
      block_cache = flag_or value cmd.block_cache_cmd env.block_cache;
    }

set_stats : Flags → DbEnv → DbEnv
unfolding set_perf_stat set_io_stat set_rocks_db_stat set_show_progress
set_stats cmd env =
    set_show_progress (flag_or to_bool cmd.show_progress_cmd env.show_progress_bar) (
      set_rocks_db_stat (flag_or to_bool cmd.enable_rocksdb_stats_cmd env.rocksdb_stats) (
        set_io_stat (flag_or to_bool cmd.enable_iostat_cmd env.iostat_stats)
          (set_perf_stat (flag_or to_bool cmd.enable_perf_cmd env.perf_stats) env)))

set_rest : Flags → DbEnv → DbEnv
set_rest cmd env = record env {
  low_pri = flag_or to_bool cmd.low_pri_cmd env.low_pri;
  num_levels = flag_or value cmd.num_levels_cmd env.num_levels;
  files_in_l0 = flag_or (to_unsigned (2 ^ 64)) cmd.files_in_l0_cmd env.files_in_l0;
  fs_uri = flag_or (λ uri. uri) cmd.fs_uri_cmd env.fs_uri;
}

-- The function returns a code, with what it wrote to std::cerr and the settings, or the process exits.
-- The parser prints its help text.
pub data ParseResult : Type 0 where
  returned : ℕ → Text → DbEnv → ParseResult
  exited : ℕ → Text → ParseResult

unfoldable pub parse_arguments : Text → Parsed → DbEnv → ParseResult
unfolding set_tree set_pages set_files set_stats set_rest
parse_arguments usage (parsed cmd) env =
    returned 0 [] (set_rest cmd (set_stats cmd (set_files cmd (set_pages cmd (set_tree cmd env)))))
parse_arguments usage help env = exited 0 usage
parse_arguments usage (parse_error what) env = returned 1 (what ++ 10 ∷ usage) env
parse_arguments usage (validation_error what) env = returned 1 (what ++ 10 ∷ usage) env
