-- ===== src/Config/Codes.antt =====
-- The numeric codes of the settings, and the complaints about those that no case covers.
use Prim.Native.String.{String}
use rocks_db_wrapper.Base.{
  ℕ, zero, suc, Bool, true, false, ◌++◌, if◌then◌else◌, ◌≤◌, ◌<◌, ◌≡◌, ◌≢◌, ◌↔◌, refl, sym, ap,
  subst, ◌∙◌, Option, none, some, List, [], ◌∷◌, length, arith, ◌==◌, Bool-cases, inl, inr,
}
use rocks_db_wrapper.Env.{DbEnv}
use rocks_db_wrapper.Options.{TableOptions}
use rocks_db_wrapper.Config.{
  Config, Created, config_exits, file_system, cache_options, compressions, comparators, read_tiers,
  index_shortenings, index_types, data_block_index_types, compaction_styles, memtable_factories,
  compaction_pris, Complaint, complain, cases, cases_from_1, configured, config_options,
  stats_options, with_env, before_cache, after_cache, compaction_pri_of, memtable_factory_of,
  compaction_style_of, data_block_index_type_of, index_type_of, index_shortening_of, compression_of,
  read_tier_of, comparator_of, invalid_data_movement_policy, invalid_memtable_factory,
  invalid_compaction_eagerness, invalid_index_type_for_data_block, invalid_index_type,
  invalid_index_shortening, invalid_compression_type, invalid_read_tier, invalid_comparator,
}
use rocks_db_wrapper.Base.Text.{Text}
use rocks_db_wrapper.Config.Cache.{Overflows, cache_options-none}
use rocks_db_wrapper.Config.Results.{with_tables, config_options-eq}

abbrev IsSome {ℓ} : {A : Type ℓ} → Option A → Type 0
IsSome none = ⊥
IsSome (some a) = Unit

-- A switch is silent if its code has a case and the ones before it are silent.
silent_then {ℓ κ μ} :
    {A : Type ℓ} {V : Type κ} {W : Type μ} (o : Option A) (complaint : Complaint)
    (cerr : List Complaint)
    → (IsSome o ↔ V)
    → ((cerr ≡ []) ↔ W)
    → (complain o complaint cerr ≡ []) ↔ (V × W)
silent_then none complaint [] v w = (λ e. absurd (cc e), λ p. absurd (v.1 p.0))
silent_then none complaint (x ∷ cerr) v w = (λ e. absurd (cc e), λ p. absurd (v.1 p.0))
silent_then (some a) complaint cerr v w = (λ e. (v.0 tt, w.0 e), λ p. w.1 p.1)

silent_first {ℓ κ} :
    {A : Type ℓ} {V : Type κ} (o : Option A) (complaint : Complaint)
    → (IsSome o ↔ V)
    → (complain o complaint [] ≡ []) ↔ V
silent_first none complaint v = (λ e. absurd (cc e), λ p. absurd (v.1 p))
silent_first (some a) complaint v = (λ e. v.0 tt, λ p. refl)

cases-IsSome {ℓ} :
    {A : Type ℓ} (values : List A) (code : ℕ) → IsSome (cases values code) ↔ (code < length values)
cases-IsSome [] code = (λ v. absurd v, λ h. absurd (omega arith))
cases-IsSome (a ∷ values) zero = (λ v. omega arith, λ h. tt)
cases-IsSome (a ∷ values) (suc code) =
    let rest = cases-IsSome values code in (λ v. omega (arith, rest.0 v), λ h. rest.1 (omega arith))

-- From 1 to `n`.
abbrev InRange : ℕ → ℕ → Type 0
InRange n code = (1 ≤ code) × (code ≤ n)

cases_from_1-IsSome {ℓ} :
    {A : Type ℓ} (values : List A) (code : ℕ)
    → IsSome (cases_from_1 values code) ↔ InRange (length values) code
cases_from_1-IsSome values zero = (λ v. absurd v, λ h. absurd (omega arith))
cases_from_1-IsSome values (suc code) =
    let rest = cases-IsSome values code in
    (λ v. (omega arith, omega (arith, rest.0 v)), λ h. rest.1 (omega arith))

-- The codes that have a case.
abbrev pub HasValidCodes : DbEnv → Type 0
HasValidCodes env =
    InRange 2 env.comparator
    × (InRange 4 env.read_tier
        × ((InRange 10 env.compression × (env.compression ≢ 9))
            × (InRange 3 env.index_shortening
                × (InRange 4 env.index_type
                    × (InRange 2 env.data_block_index_type
                        × (InRange 4 env.compaction_style
                            × (InRange 4 env.memtable_factory × (env.compaction_pri < 5))))))))

compression-IsSome : (code : ℕ) → IsSome (compression_of code) ↔ (InRange 10 code × (code ≢ 9))
compression-IsSome code = elim (Bool-cases (code == 10)) [
  | inl last ↦ rw last (λ v. ((ground arith, ground arith), λ e. ground arith), λ h. tt)
  | inr before ↦ rw before (
    (λ v.
        let r = (cases_from_1-IsSome compressions code).0 v in
        ((r.0, ground (arith, r.1)), λ e. ground (arith, r.1))),
    λ h. (cases_from_1-IsSome compressions code).1 (h.0.0, ground (arith, h.0.1, h.1)),
  )
]

-- All complaints, in the order of the `switch` statements.
complaints : DbEnv → List Complaint → List Complaint
complaints env cerr = complain (comparator_of env.comparator) invalid_comparator (
    complain (read_tier_of env.read_tier) invalid_read_tier (
      complain (compression_of env.compression) invalid_compression_type (
        complain (index_shortening_of env.index_shortening) invalid_index_shortening (
          complain (index_type_of env.index_type) invalid_index_type (
            complain (data_block_index_type_of env.data_block_index_type)
              invalid_index_type_for_data_block
              (complain (compaction_style_of env.compaction_style) invalid_compaction_eagerness (
                complain (memtable_factory_of env.memtable_factory) invalid_memtable_factory (
                  complain (compaction_pri_of env.compaction_pri) invalid_data_movement_policy
                    cerr))))))))

cerr-parts :
    {Env : Type 0} (c : Config Env) (t : TableOptions) (env : Env) (guard : Option Env)
    → (stats_options (with_env env guard (after_cache (with_tables t (before_cache c))))).cerr
      ≡ complaints c.db_env c.cerr
unfolding stats_options with_env after_cache before_cache complaints
cerr-parts c t env guard = refl

complaints-empty : (env : DbEnv) → (complaints env [] ≡ []) ↔ HasValidCodes env
unfolding complaints
complaints-empty env =
    silent_then (comparator_of env.comparator) _ _ (cases_from_1-IsSome comparators env.comparator)
      (silent_then (read_tier_of env.read_tier) _ _ (cases_from_1-IsSome read_tiers env.read_tier) (
        silent_then (compression_of env.compression) _ _ (compression-IsSome env.compression) (
          silent_then (index_shortening_of env.index_shortening) _ _
            (cases_from_1-IsSome index_shortenings env.index_shortening)
            (silent_then (index_type_of env.index_type) _ _
              (cases_from_1-IsSome index_types env.index_type)
              (silent_then (data_block_index_type_of env.data_block_index_type) _ _
                (cases_from_1-IsSome data_block_index_types env.data_block_index_type)
                (silent_then (compaction_style_of env.compaction_style) _ _
                  (cases_from_1-IsSome compaction_styles env.compaction_style)
                  (silent_then (memtable_factory_of env.memtable_factory) _ _
                    (cases_from_1-IsSome memtable_factories env.memtable_factory)
                    (silent_first (compaction_pri_of env.compaction_pri) _
                      (cases-IsSome compaction_pris env.compaction_pri)))))))))

cerr_when_configured :
    {Env : Type 0} (create_from_uri : String → Env → Option Env → Created Env) (c : Config Env)
    {c' : Config Env}
    → c.cerr ≡ []
    → config_options create_from_uri c ≡ some (configured c')
    → (c'.cerr ≡ []) ↔ HasValidCodes c.db_env
cerr_when_configured {Env = Env} create_from_uri c {c' = c'} silent e =
    let (t, env, guard, given, same) = config_options-eq create_from_uri c e in
    let written : c'.cerr ≡ complaints c.db_env [] =
      sym (ap (λ (x : Config Env). x.cerr) same)
      ∙ cerr-parts c t env guard
      ∙ ap (complaints c.db_env) silent in
    subst (λ x. (x ≡ []) ↔ HasValidCodes c.db_env) (sym written) (complaints-empty c.db_env)

created-configured :
    {Env : Type 0} (c : Config Env) (failure : Option Text) (env : Env) (guard : Option Env)
    (uri : Bool)
    → failure ≡ none
    → (c' : Config Env) × ((if uri
          then elim failure [
            | some text ↦ config_exits 1 (text ++ 10 ∷ [])
            | none ↦ configured (stats_options (with_env env guard c))
          ]
          else configured (stats_options (with_env c.env_internal c.env_guard c)))
        ≡ configured c')
created-configured c none env guard true created = (_, refl)
created-configured c (some text) env guard true created = absurd (cc created)
created-configured c failure env guard false created = (_, refl)

file_system-configured :
    {Env : Type 0} (create_from_uri : String → Env → Option Env → Created Env) (c : Config Env)
    → ((uri : String) (env : Env) (guard : Option Env)
        → (create_from_uri uri env guard).failure ≡ none)
    → (c' : Config Env) × (file_system create_from_uri c ≡ configured c')
unfolding file_system
file_system-configured create_from_uri c creates =
    let created = create_from_uri c.db_env.fs_uri c.env_internal c.env_guard in
    created-configured c created.failure created.created_env created.created_guard _
      (creates c.db_env.fs_uri c.env_internal c.env_guard)

some-or_none {ℓ} : {A : Type ℓ} (m : Option A) → m ≢ none → (a : A) × (m ≡ some a)
some-or_none none h = absurd (h refl)
some-or_none (some a) h = (a, refl)

config_options-configured :
    {Env : Type 0} (create_from_uri : String → Env → Option Env → Created Env) (c : Config Env)
    → ¬ Overflows c.db_env.block_cache
    → ((uri : String) (env : Env) (guard : Option Env)
        → (create_from_uri uri env guard).failure ≡ none)
    → (c' : Config Env) × (config_options create_from_uri c ≡ some (configured c'))
unfolding config_options
config_options-configured create_from_uri c fits creates =
    let (c1, given) =
      some-or_none (cache_options (before_cache c)) (λ e. fits ((cache_options-none c).0 e)) in
    let (c', done) = file_system-configured create_from_uri (after_cache c1) creates in
    (c', rw (given, done))

-- If std::cerr is empty, the size of the block cache does not overflow, and RocksDB makes every
-- environment that it is asked for, then the call returns, whatever the codes are: an invalid code
-- does not stop it. Afterwards std::cerr is still empty exactly when every code has a case.
pub config_options-HasValidCodes :
    {Env : Type 0} (create_from_uri : String → Env → Option Env → Created Env) (c : Config Env)
    → c.cerr ≡ []
    → ¬ Overflows c.db_env.block_cache
    → ((uri : String) (env : Env) (guard : Option Env)
        → (create_from_uri uri env guard).failure ≡ none)
    → (c' : Config Env) × (config_options create_from_uri c ≡ some (configured c'))
      × ((c'.cerr ≡ []) ↔ HasValidCodes c.db_env)
config_options-HasValidCodes create_from_uri c silent fits creates =
    let (c', returns) = config_options-configured create_from_uri c fits creates in
    (c', returns, cerr_when_configured create_from_uri c silent returns)
