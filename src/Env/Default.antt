-- ===== src/Env/Default.antt =====
-- The constants of namespace Default and the levels of verbosity: include/db_env.h. The size ratio is a
-- double with a whole value, and the trigger is that value as an int.
use rocks_db_wrapper.Base.{ℕ}
use rocks_db_wrapper.Base.Int.{ℤ, pos}

abbrev pub entry_size : ℕ
entry_size = 64

abbrev pub entries_per_page : ℕ
entries_per_page = 64

abbrev pub buffer_size_in_pages : ℕ
buffer_size_in_pages = 128

abbrev pub size_ratio : ℤ
size_ratio = pos 4

abbrev pub file_to_memtable_size_ratio : ℕ
file_to_memtable_size_ratio = 1

abbrev pub max_write_buffer_number : ℤ
max_write_buffer_number = pos 2

abbrev pub level0_file_num_compaction_trigger : ℤ
level0_file_num_compaction_trigger = size_ratio

abbrev pub max_multi_trivial_move : ℕ
max_multi_trivial_move = 4

abbrev pub max_open_files : ℤ
max_open_files = pos 1000

abbrev pub max_file_opening_threads : ℤ
max_file_opening_threads = pos 1000

pub data Verbosity : Type 0 where
  no_prints low medium high extreme : Verbosity

abbrev pub level_of : Verbosity → ℤ
level_of no_prints = pos 0
level_of low = pos 1
level_of medium = pos 2
level_of high = pos 3
level_of extreme = pos 4
