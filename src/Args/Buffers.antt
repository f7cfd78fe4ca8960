-- ===== src/Args/Buffers.antt =====
-- The size of the buffer that the flags ask for.
use native.Mathlib.Nat.{mod-eq_of_lt}
use rocks_db_wrapper.Base.{
  ℕ, ◌*◌, ◌%◌, ◌^◌, ◌<◌, ◌≡◌, ◌≢◌, sym, ap, ap₂, ◌∙◌, Option, none, some, [], if◌then◌else◌, ◌==◌,
  arith,
}
use rocks_db_wrapper.Base.Int.{ℤ, pos, to_unsigned}
use rocks_db_wrapper.Base.Text.{Text}
use rocks_db_wrapper.Env.{DbEnv, get_buffer_size}
use rocks_db_wrapper.Env.Sizes.{pages_size, get_buffer_size_lem}
use rocks_db_wrapper.Args.{Flags, parsed, flag_or, ParseResult, returned, exited, parse_arguments}

abbrev settings : DbEnv → ParseResult → DbEnv
settings env (returned code text env') = env'
settings env (exited code text) = env

unsigned_flag :
    (o : Option ℤ) (n current : ℕ)
    → o ≡ some (pos n)
    → n < 2 ^ 32
    → flag_or (to_unsigned (2 ^ 32)) o current ≡ n
unsigned_flag o n current given fits =
    ap (λ o. flag_or (to_unsigned (2 ^ 32)) o current) given ∙ mod-eq_of_lt fits

-- A memory size is used for the buffer, whatever the flags for pages, entries and bytes say, and
-- whatever the settings were.
pub get_buffer_size-memory_size :
    (usage : Text) (cmd : Flags) (env : DbEnv) (m : ℕ) {env' : DbEnv}
    → cmd.buffer_size_cmd ≡ some (pos m)
    → m ≢ 0
    → m < 2 ^ 64
    → parse_arguments usage (parsed cmd) env ≡ returned 0 [] env'
    → get_buffer_size env' ≡ m
unfolding parse_arguments
get_buffer_size-memory_size usage cmd env m {env' = env'} given nonzero fits e =
    let size : env'.buffer_size ≡ m =
      sym (ap (λ r. (settings env r).buffer_size) e)
      ∙ ap (λ o. flag_or (to_unsigned (2 ^ 64)) o 0) given
      ∙ mod-eq_of_lt fits in
    get_buffer_size_lem env' ∙ ground (arith, size)

-- With a number of pages, of entries for a page and of bytes for an entry, and no memory size, the
-- buffer has the bytes of these pages if they are fewer than 2 ^ 32, whatever the settings were.
pub get_buffer_size-pages :
    (usage : Text) (cmd : Flags) (env : DbEnv) (p b e : ℕ) {env' : DbEnv}
    → cmd.buffer_size_cmd ≡ none
    → cmd.buffer_size_in_pages_cmd ≡ some (pos p)
    → cmd.entries_per_page_cmd ≡ some (pos b)
    → cmd.entry_size_cmd ≡ some (pos e)
    → p < 2 ^ 32
    → b < 2 ^ 32
    → e < 2 ^ 32
    → p * b * e < 2 ^ 32
    → parse_arguments usage (parsed cmd) env ≡ returned 0 [] env'
    → get_buffer_size env' ≡ p * b * e
unfolding parse_arguments
get_buffer_size-pages usage cmd env p b e {env' = env'} no_size pages entries entry hp hb he fits
      r =
    let size : env'.buffer_size ≡ 0 =
      sym (ap (λ r. (settings env r).buffer_size) r)
      ∙ ap (λ o. flag_or (to_unsigned (2 ^ 64)) o 0) no_size in
    let pages_set : env'.buffer_size_in_pages ≡ p =
      sym (ap (λ r. (settings env r).buffer_size_in_pages) r) ∙ unsigned_flag _ p _ pages hp in
    let entries_set : env'.entries_per_page ≡ b =
      sym (ap (λ r. (settings env r).entries_per_page) r) ∙ unsigned_flag _ b _ entries hb in
    let entry_set : env'.entry_size ≡ e =
      sym (ap (λ r. (settings env r).entry_size) r) ∙ unsigned_flag _ e _ entry he in
    get_buffer_size_lem env'
    ∙ ap (λ n. if n == 0 then pages_size env' % 2 ^ 32 else n) size
    ∙ ap (λ n. n % 2 ^ 32) (ap₂ ◌*◌ (ap₂ ◌*◌ pages_set entries_set) entry_set)
    ∙ mod-eq_of_lt fits
