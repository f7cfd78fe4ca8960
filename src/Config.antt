-- ===== src/Config.antt =====
-- From the settings to RocksDB's options: configOptions of include/config_options.h. RocksDB is a
-- parameter: `Env` is the type of its environments, and `create_from_uri` is Env::CreateFromUri, which
-- sets `env_internal` and the guard and gives the text of its error, if any.
mod Cases
mod Steps
mod Tables
pub use Cases.*
unfoldable pub use Steps.*
unfoldable pub use Tables.*
pub mod Results
pub mod Codes
pub mod Effects
pub mod Cache
pub mod Examples
use Prim.Native.String.{String}
use rocks_db_wrapper.Base.{
  ℕ, zero, suc, ◌+◌, ◌*◌, ◌^◌, Bool, true, false, not, ◌&&◌, Option, none, some, List, [], ◌∷◌,
  ◌++◌, ◌>>=◌, if◌then◌else◌, ltb, ◌==◌, length,
}
use rocks_db_wrapper.Base.Int.{ℤ, pos, negsuc}
use rocks_db_wrapper.Env.{
  DbEnv, get_block_size, get_buffer_size, get_target_file_size_base, get_max_bytes_for_level_base,
}
use rocks_db_wrapper.Base.Text.{Text, codes}
use rocks_db_wrapper.Options.{
  StatsLevel, k_all, k_disable_all, PerfLevel, k_disable, k_enable_count,
  k_enable_time_and_cpu_time_except_for_mutex, LruCache, TableOptions, Options, ReadOptions,
  WriteOptions, FlushOptions, PerfContext,
}

-- What CreateFromUri gives: an error's text or none, and the two pointers that it was handed.
pub record Created (Env : Type 0) : Type 0 where
  pub failure : Option Text
  pub created_env : Env
  pub created_guard : Option Env

-- The call returns, or the process exits with a code and a line on std::cerr.
pub data ConfigResult (Env : Type 0) : Type 0 where
  configured : Config Env → ConfigResult Env
  config_exits : ℕ → Text → ConfigResult Env

module _ {Env : Type 0} where
  -- The settings up to the block cache, and from there on.
  unfoldable pub before_cache : Config Env → Config Env
  unfolding db_options size_options compaction_options level_options
  before_cache c = level_options (compaction_options (size_options (db_options c)))

  unfoldable pub after_cache : Config Env → Config Env
  unfolding index_options read_write_options column_family_options
  after_cache c = column_family_options (read_write_options (index_options c))

  unfoldable pub with_env : Env → Option Env → Config Env → Config Env
  with_env env guard c = record c {
    env_internal = env;
    env_guard = guard;
    options = record c.options { env = env };
  }

module _ {Env : Type 0} (create_from_uri : String → Env → Option Env → Created Env) where
  unfoldable pub file_system : Config Env → ConfigResult Env
  file_system c =
      let created = create_from_uri c.db_env.fs_uri c.env_internal c.env_guard in
      if ltb 0 (length (codes c.db_env.fs_uri))
      then elim created.failure [
        | some text ↦ config_exits 1 (text ++ 10 ∷ [])
        | none ↦ configured (stats_options (with_env created.created_env created.created_guard c))
      ]
      else configured (stats_options (with_env c.env_internal c.env_guard c))

  -- `none`: the size of the block cache overflows an int.
  unfoldable pub config_options : Config Env → Option (ConfigResult Env)
  config_options c = cache_options (before_cache c) >>= λ c'. some (file_system (after_cache c'))
