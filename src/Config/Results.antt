-- ===== src/Config/Results.antt =====
-- The shape of every result of config_options: what the block cache and CreateFromUri leave open, and
-- the assignments around them.
use Prim.Native.String.{String}
use rocks_db_wrapper.Base.{
  ◌≡◌, sym, ap, subst, ◌++◌, [], ◌∷◌, Option, none, some, some-injective, Bool, true, false,
  if◌then◌else◌, >>=-eq-some,
}
use rocks_db_wrapper.Base.Text.{Text}
use rocks_db_wrapper.Options.{TableOptions}
use rocks_db_wrapper.Config.{
  Config, Created, cached, cache_options, stats_options, with_env, before_cache, after_cache,
  ConfigResult, configured, config_exits, file_system, config_options,
}

module _ {Env : Type 0} where
  -- The settings after the block cache.
  abbrev pub with_tables : TableOptions → Config Env → Config Env
  with_tables t c = record c {
    table_options = t;
    db_env = record c.db_env { no_block_cache = t.no_block_cache };
  }

  pub cache_options-eq :
      (c : Config Env) {c' : Config Env}
      → cache_options c ≡ some c'
      → (t : TableOptions) × (cached c.db_env c.table_options c.db_env.block_cache ≡ some t)
        × (with_tables t c ≡ c')
  unfolding cache_options
  cache_options-eq c e =
      let (t, given, rest) =
        >>=-eq-some (cached c.db_env c.table_options c.db_env.block_cache) _ e in
      (t, given, some-injective _ _ rest)

  abbrev pub returned_config : Config Env → ConfigResult Env → Config Env
  returned_config c (configured c') = c'
  returned_config c (config_exits code text) = c

module _ {Env : Type 0} where
  created-eq :
      (c : Config Env) (failure : Option Text) (env : Env) (guard : Option Env) (uri : Bool)
      {c' : Config Env}
      → (if uri
          then elim failure [
            | some text ↦ config_exits 1 (text ++ 10 ∷ [])
            | none ↦ configured (stats_options (with_env env guard c))
          ]
          else configured (stats_options (with_env c.env_internal c.env_guard c)))
        ≡ configured c'
      → (env' : Env) × (guard' : Option Env) × (stats_options (with_env env' guard' c) ≡ c')
  created-eq c none env guard true e = (env, guard, ap (returned_config c) e)
  created-eq c (some text) env guard true e = absurd (cc e)
  created-eq c failure env guard false e = (c.env_internal, c.env_guard, ap (returned_config c) e)

module _ {Env : Type 0} (create_from_uri : String → Env → Option Env → Created Env) where
  pub file_system-eq :
      (c : Config Env) {c' : Config Env}
      → file_system create_from_uri c ≡ configured c'
      → (env : Env) × (guard : Option Env) × (stats_options (with_env env guard c) ≡ c')
  unfolding file_system
  file_system-eq c e =
      let created = create_from_uri c.db_env.fs_uri c.env_internal c.env_guard in
      created-eq c created.failure created.created_env created.created_guard _ e

  -- A returned configuration is made of its parts.
  pub config_options-eq :
      (c : Config Env) {c' : Config Env}
      → config_options create_from_uri c ≡ some (configured c')
      → (t : TableOptions) × (env : Env) × (guard : Option Env) × (cached
            (before_cache c).db_env
            (before_cache c).table_options
            (before_cache c).db_env.block_cache
          ≡ some t)
        × (stats_options (with_env env guard (after_cache (with_tables t (before_cache c)))) ≡ c')
  unfolding config_options
  config_options-eq c {c' = c'} e =
      let (c1, h1, r1) = >>=-eq-some (cache_options (before_cache c)) _ e in
      let (t, given, same) = cache_options-eq (before_cache c) h1 in
      let (env, guard, last) = file_system-eq (after_cache c1) (some-injective _ _ r1) in
      (
        t,
        env,
        guard,
        given,
        subst (λ x. stats_options (with_env env guard (after_cache x)) ≡ c') (sym same) last,
      )
