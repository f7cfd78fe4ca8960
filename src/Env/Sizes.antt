-- ===== src/Env/Sizes.antt =====
-- The sizes that are derived from pages, entries and bytes, and where they wrap.
use native.Mathlib.Nat.{mod-eq_of_lt, div-add-mod', add-mul-mod_self_right}
use rocks_db_wrapper.Base.{
  ℕ, ◌+◌, ◌-◌, ◌/◌, ◌*◌, ◌%◌, ◌^◌, ◌<◌, ◌≡◌, ◌↔◌, sym, ap, ◌∙◌, if◌then◌else◌, ◌==◌, arith, lt→ltb,
}
use rocks_db_wrapper.Base.Int.{pos, negsuc}
use rocks_db_wrapper.Env.{
  DbEnv, get_buffer_size, get_target_file_size_base, get_max_bytes_for_level_base,
}

-- The bytes of `buffer_size_in_pages` pages, without wrapping.
abbrev pub pages_size : DbEnv → ℕ
pages_size env = env.buffer_size_in_pages * env.entries_per_page * env.entry_size

wrap_mul : (a e : ℕ) → a % 2 ^ 32 * e % 2 ^ 32 ≡ a * e % 2 ^ 32
wrap_mul a e =
    let parts : a * e ≡ a % 2 ^ 32 * e + a / 2 ^ 32 * e * 2 ^ 32 =
      omega (arith, ap (λ t. t * e) (div-add-mod' a (2 ^ 32))) in
    sym (
      ap (λ t. t % 2 ^ 32) parts
      ∙ add-mul-mod_self_right (a % 2 ^ 32 * e) (a / 2 ^ 32 * e) (2 ^ 32))

-- An explicit buffer size is used whatever the pages are; otherwise the size in bytes of the pages is
-- reduced modulo 2 ^ 32.
pub get_buffer_size_lem :
    (env : DbEnv)
    → get_buffer_size env
      ≡ (if env.buffer_size == 0 then pages_size env % 2 ^ 32 else env.buffer_size)
unfolding get_buffer_size
get_buffer_size_lem env =
    ground (arith, wrap_mul (env.buffer_size_in_pages * env.entries_per_page) env.entry_size)

-- With no explicit size, the buffer size is that of the pages exactly when this is below 2 ^ 32.
pub get_buffer_size-exact :
    (env : DbEnv)
    → env.buffer_size ≡ 0
    → (get_buffer_size env ≡ pages_size env) ↔ (pages_size env < 2 ^ 32)
get_buffer_size-exact env h =
    let e : get_buffer_size env ≡ pages_size env % 2 ^ 32 =
      get_buffer_size_lem env ∙ ap (λ n. if n == 0 then pages_size env % 2 ^ 32 else n) h in
    (λ same. omega (arith, e, same), λ small. omega (arith, e))

pub target_file_size_base-exact :
    (env : DbEnv)
    → get_buffer_size env < 2 ^ 63
    → get_target_file_size_base env ≡ pos (get_buffer_size env)
unfolding get_target_file_size_base
target_file_size_base-exact env small =
    ap (λ b. if b then pos (get_buffer_size env) else negsuc (2 ^ 64 - get_buffer_size env - 1))
      (lt→ltb _ _ small)

-- If the buffer size and what the level base holds stay in range, nothing wraps: a target file is as
-- large as the buffer, and the level base is `files_in_l0` such files.
pub level_base-exact :
    (env : DbEnv)
    → get_buffer_size env < 2 ^ 63
    → env.files_in_l0 * get_buffer_size env < 2 ^ 64
    → (get_target_file_size_base env ≡ pos (get_buffer_size env))
      × (get_max_bytes_for_level_base env ≡ env.files_in_l0 * get_buffer_size env)
unfolding get_max_bytes_for_level_base
level_base-exact env small fits = (target_file_size_base-exact env small, mod-eq_of_lt fits)
