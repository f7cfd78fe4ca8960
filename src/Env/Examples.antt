-- ===== src/Env/Examples.antt =====
-- The configuration on small inputs: tests, and the theorems at concrete settings.
use rocks_db_wrapper.Base.{◌*◌, ◌^◌, ◌<◌, ◌≡◌, ◌↔◌, refl, arith}
use rocks_db_wrapper.Env.{DbEnv, new_db_env, get_block_size, get_buffer_size, set_buffer_size}
use rocks_db_wrapper.Env.Sizes.{pages_size, get_buffer_size-exact}

-- A buffer of 8 GB in pages: 2 ^ 19 pages of 256 entries of 64 bytes.
abbrev large_env : DbEnv
large_env = record new_db_env { buffer_size_in_pages = 524_288; entries_per_page = 256 }

default_sizes : (get_block_size new_db_env ≡ 4096) × (get_buffer_size new_db_env ≡ 524_288)
unfolding get_block_size get_buffer_size new_db_env
default_sizes = (refl, refl)

explicit_size : get_buffer_size (set_buffer_size 7 new_db_env) ≡ 7
unfolding get_buffer_size new_db_env set_buffer_size
explicit_size = refl

-- The product wraps to zero.
large_wraps : get_buffer_size large_env ≡ 0
unfolding get_buffer_size new_db_env
large_wraps = refl

no_explicit_size : large_env.buffer_size ≡ 0
unfolding new_db_env
no_explicit_size = refl

get_buffer_size-exact_example :
    (get_buffer_size large_env ≡ pages_size large_env) ↔ (pages_size large_env < 2 ^ 32)
get_buffer_size-exact_example = get_buffer_size-exact large_env no_explicit_size

default_fits : get_buffer_size new_db_env < 2 ^ 63
default_fits = omega (arith, default_sizes.1)

level_fits : new_db_env.files_in_l0 * get_buffer_size new_db_env < 2 ^ 64
unfolding new_db_env
level_fits = omega (arith, default_sizes.1)
