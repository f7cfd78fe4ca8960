-- ===== src/Config/Cache.antt =====
-- When the size of the block cache, counted in bytes as an int, overflows.
use Prim.Native.String.{String}
use rocks_db_wrapper.Base.{
  ℕ, zero, suc, ◌+◌, ◌-◌, ◌*◌, ◌^◌, ◌≤◌, ◌≡◌, ◌↔◌, refl, Option, none, some, arith, ltb,
  if◌then◌else◌, ◌>>=◌,
}
use rocks_db_wrapper.Base.Int.{ℤ, pos, negsuc}
use rocks_db_wrapper.Env.{DbEnv}
use rocks_db_wrapper.Options.{TableOptions}
use rocks_db_wrapper.Config.{
  Config, Created, config_options, before_cache, after_cache, file_system, cached, with_cache,
  cache_options, cache_capacity,
}
use rocks_db_wrapper.Config.Results.{with_tables}

-- At least 2048 MB, or less than -2048 MB.
abbrev pub Overflows : ℤ → Type 0
Overflows (pos n) = 2048 ≤ n
Overflows (negsuc n) = 2048 ≤ n

bind-none {ℓ κ} :
    {A : Type ℓ} {B : Type κ} (m : Option A) (f : A → B)
    → ((m >>= λ a. some (f a)) ≡ none) ↔ (m ≡ none)
bind-none none f = (λ e. refl, λ e. refl)
bind-none (some a) f = (λ e. absurd (cc e), λ e. absurd (cc e))

guarded-none {ℓ} :
    {A : Type ℓ} (a : A) (n bound : ℕ)
    → ((if ltb n bound then some a else none) ≡ none) ↔ (bound ≤ n)
guarded-none a n bound = (λ e. ground arith, λ h. ground arith)

cache_capacity-none : (size : ℤ) → (cache_capacity size ≡ none) ↔ Overflows size
cache_capacity-none (pos n) =
    let rule = guarded-none (pos (n * 1024 * 1024)) (n * 1024 * 1024) (2 ^ 31) in
    (λ e. omega (arith, rule.0 e), λ h. rule.1 (omega (arith, h)))
cache_capacity-none (negsuc n) =
    let rule = guarded-none (negsuc (suc n * 1024 * 1024 - 1)) (suc n * 1024 * 1024) (2 ^ 31 + 1) in
    (λ e. omega (arith, rule.0 e), λ h. rule.1 (omega (arith, h)))

cached-none :
    (env : DbEnv) (t : TableOptions) (size : ℤ) → (cached env t size ≡ none) ↔ Overflows size
unfolding cached
cached-none env t (pos zero) = (λ e. absurd (cc e), λ h. absurd (omega (arith, h)))
cached-none env t (pos (suc n)) =
    let rule = bind-none (cache_capacity (pos (suc n))) (with_cache env t) in
    let bound = cache_capacity-none (pos (suc n)) in
    (λ e. bound.0 (rule.0 e), λ h. rule.1 (bound.1 h))
cached-none env t (negsuc n) =
    let rule = bind-none (cache_capacity (negsuc n)) (with_cache env t) in
    let bound = cache_capacity-none (negsuc n) in (λ e. bound.0 (rule.0 e), λ h. rule.1 (bound.1 h))

pub cache_options-none :
    {Env : Type 0} (c : Config Env)
    → (cache_options (before_cache c) ≡ none) ↔ Overflows c.db_env.block_cache
unfolding cache_options before_cache
cache_options-none c =
    let rule =
      bind-none (cached c.db_env (before_cache c).table_options c.db_env.block_cache)
        (λ t. with_tables t (before_cache c)) in
    let bound = cached-none c.db_env (before_cache c).table_options c.db_env.block_cache in
    (λ e. bound.0 (rule.0 e), λ h. rule.1 (bound.1 h))

-- The call is undefined just when the size of the block cache in MB, whatever else the settings are,
-- is not one of -2048 to 2047.
pub config_options-none :
    {Env : Type 0} (create_from_uri : String → Env → Option Env → Created Env) (c : Config Env)
    → (config_options create_from_uri c ≡ none) ↔ Overflows c.db_env.block_cache
unfolding config_options
config_options-none create_from_uri c =
    let rule =
      bind-none (cache_options (before_cache c))
        (λ c'. file_system create_from_uri (after_cache c')) in
    let bound = cache_options-none c in (λ e. bound.0 (rule.0 e), λ h. rule.1 (bound.1 h))
