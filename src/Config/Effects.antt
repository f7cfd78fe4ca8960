-- ===== src/Config/Effects.antt =====
-- What a returned configuration holds, and when there is none.
use Prim.Native.String.{String}
use rocks_db_wrapper.Base.{
  zero, suc, ◌≡◌, refl, sym, ap, subst, ◌∙◌, Option, some, some-injective, if◌then◌else◌, Bool,
  true, false, >>=-eq-some,
}
use rocks_db_wrapper.Base.Int.{ℤ, pos, negsuc, ◌-ℤ◌}
use rocks_db_wrapper.Base.Text.{Text}
use rocks_db_wrapper.Env.{DbEnv}
use rocks_db_wrapper.Args.Triggers.{HasTriggers}
use rocks_db_wrapper.Options.{TableOptions, Options}
use rocks_db_wrapper.Config.{
  Config, Created, configured, config_options, stats_options, with_env, before_cache, after_cache,
  cached, with_cache, cache_capacity, is_universal,
}
use rocks_db_wrapper.Config.Results.{with_tables, config_options-eq}

-- The level options that go together, as far as the style and the earlier values decide them.
abbrev pub HasLevels : {Env : Type 0} → DbEnv → Options Env → Options Env → Type 0
HasLevels env before o =
    (o.level0_file_num_compaction_trigger ≡ (
      if is_universal o.compaction_style
      then before.level0_file_num_compaction_trigger
      else env.level0_file_num_compaction_trigger))
    × (o.num_levels
        ≡ (if is_universal o.compaction_style then before.num_levels else env.num_levels))

levels-parts :
    {Env : Type 0} (c : Config Env) (t : TableOptions) (env : Env) (guard : Option Env)
    → HasLevels c.db_env c.options
        (stats_options (with_env env guard (after_cache (with_tables t (before_cache c))))).options
unfolding stats_options with_env after_cache before_cache
levels-parts c t env guard = (refl, refl)

-- In a returned configuration, the compaction trigger of level 0 and the number of levels are those of
-- the settings unless the resulting style is universal compaction, which keeps the earlier ones.
pub config_options-HasLevels :
    {Env : Type 0} (create_from_uri : String → Env → Option Env → Created Env) (c : Config Env)
    {c' : Config Env}
    → config_options create_from_uri c ≡ some (configured c')
    → HasLevels c.db_env c.options c'.options
config_options-HasLevels create_from_uri c e =
    let (t, env, guard, given, same) = config_options-eq create_from_uri c e in
    subst (λ x. HasLevels c.db_env c.options x.options) same (levels-parts c t env guard)

abbrev is_zero : ℤ → Bool
is_zero (pos zero) = true
is_zero _ = false

-- Without a size there is no block cache and no index block in one; with a size there is one, and the
-- settings say what goes into it. The table factory and the settings agree with the table options.
abbrev pub HasTables : {Env : Type 0} → DbEnv → Config Env → Type 0
HasTables env c =
    (c.table_options.no_block_cache ≡ is_zero env.block_cache)
    × (c.table_options.cache_index_and_filter_blocks
        ≡ (if is_zero env.block_cache then false else env.cache_index_and_filter_blocks))
    × (c.options.table_factory ≡ some c.table_options)
    × (c.db_env.no_block_cache ≡ c.table_options.no_block_cache)

cached-eq :
    (env : DbEnv) (t : TableOptions) (size : ℤ) {t' : TableOptions}
    → cached env t size ≡ some t'
    → (t'.no_block_cache ≡ is_zero size)
      × (t'.cache_index_and_filter_blocks
          ≡ (if is_zero size then false else env.cache_index_and_filter_blocks))
unfolding cached
cached-eq env t (pos zero) e =
    let same = some-injective _ _ e in
    (sym (ap (λ x. x.no_block_cache) same), sym (ap (λ x. x.cache_index_and_filter_blocks) same))
cached-eq env t (pos (suc n)) e =
    let (capacity, given, rest) =
      >>=-eq-some (cache_capacity (pos (suc n))) (λ capacity. some (with_cache env t capacity)) e in
    let same = some-injective _ _ rest in
    (sym (ap (λ x. x.no_block_cache) same), sym (ap (λ x. x.cache_index_and_filter_blocks) same))
cached-eq env t (negsuc n) e =
    let (capacity, given, rest) =
      >>=-eq-some (cache_capacity (negsuc n)) (λ capacity. some (with_cache env t capacity)) e in
    let same = some-injective _ _ rest in
    (sym (ap (λ x. x.no_block_cache) same), sym (ap (λ x. x.cache_index_and_filter_blocks) same))

tables-parts :
    {Env : Type 0} (c : Config Env) (t : TableOptions) (env : Env) (guard : Option Env)
    → let c' = stats_options (with_env env guard (after_cache (with_tables t (before_cache c)))) in
      (c'.table_options.no_block_cache ≡ t.no_block_cache)
      × (c'.table_options.cache_index_and_filter_blocks ≡ t.cache_index_and_filter_blocks)
      × (c'.options.table_factory ≡ some c'.table_options)
      × (c'.db_env.no_block_cache ≡ c'.table_options.no_block_cache)
unfolding stats_options with_env after_cache before_cache
tables-parts c t env guard = (refl, refl, refl, refl)

before_cache-db_env : {Env : Type 0} (c : Config Env) → (before_cache c).db_env ≡ c.db_env
unfolding before_cache
before_cache-db_env c = refl

-- The table options of a returned configuration: a block cache just when the settings give it a size,
-- index blocks in it as the settings say, and a table factory made from these very options.
pub config_options-HasTables :
    {Env : Type 0} (create_from_uri : String → Env → Option Env → Created Env) (c : Config Env)
    {c' : Config Env}
    → config_options create_from_uri c ≡ some (configured c')
    → HasTables c.db_env c'
config_options-HasTables create_from_uri c e =
    let (t, env, guard, given, same) = config_options-eq create_from_uri c e in
    let (a1, a2, a3, a4) = tables-parts c t env guard in
    let (b1, b2) = cached-eq c.db_env (before_cache c).table_options c.db_env.block_cache (
      ap (λ env. cached env (before_cache c).table_options env.block_cache)
        (sym (before_cache-db_env c))
      ∙ given) in
    subst (HasTables c.db_env) same (a1 ∙ b1, a2 ∙ b2, a3, a4)

-- The options that shape the tree agree.
abbrev pub HasTree : {Env : Type 0} → Options Env → Type 0
HasTree o =
    (o.level0_slowdown_writes_trigger ≡ o.max_bytes_for_level_multiplier -ℤ pos 1)
    × (o.level0_stop_writes_trigger ≡ o.max_bytes_for_level_multiplier)
    × (o.target_file_size_base ≡ pos o.write_buffer_size)

-- Writes slow down and stop by the size ratio, which is the multiplier of the levels.
abbrev pub HasRatio : {Env : Type 0} → Options Env → Type 0
HasRatio o =
    (o.level0_slowdown_writes_trigger ≡ o.max_bytes_for_level_multiplier -ℤ pos 1)
    × (o.level0_stop_writes_trigger ≡ o.max_bytes_for_level_multiplier)

ratio-parts :
    {Env : Type 0} (c : Config Env) (t : TableOptions) (env : Env) (guard : Option Env)
    → HasTriggers c.db_env
    → HasRatio
        (stats_options (with_env env guard (after_cache (with_tables t (before_cache c))))).options
unfolding stats_options with_env after_cache before_cache
ratio-parts c t env guard triggers = (triggers.0, triggers.1)

pub config_options-HasRatio :
    {Env : Type 0} (create_from_uri : String → Env → Option Env → Created Env) (c : Config Env)
    {c' : Config Env}
    → config_options create_from_uri c ≡ some (configured c')
    → HasTriggers c.db_env
    → HasRatio c'.options
config_options-HasRatio create_from_uri c e triggers =
    let (t, env, guard, given, same) = config_options-eq create_from_uri c e in
    subst (λ x. HasRatio x.options) same (ratio-parts c t env guard triggers)
