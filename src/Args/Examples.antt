-- ===== src/Args/Examples.antt =====
-- The command line on small inputs: tests, and the theorems at concrete flags.
use rocks_db_wrapper.Base.{◌≡◌, refl, some, [], ◌∷◌, ◌++◌}
use rocks_db_wrapper.Base.Int.{pos, negsuc}
use rocks_db_wrapper.Base.Text.{Text, codes}
use rocks_db_wrapper.Env.{DbEnv, new_db_env}
use rocks_db_wrapper.Args.{
  Flags, no_flags, parsed, help, parse_error, returned, exited, parse_arguments,
}

-- -T 10 -P 512 -B 4 -E 1024
abbrev flags : Flags
flags = record no_flags {
  size_ratio_cmd = some (pos 10);
  buffer_size_in_pages_cmd = some (pos 512);
  entries_per_page_cmd = some (pos 4);
  entry_size_cmd = some (pos 1024);
}

abbrev flags_env : DbEnv
flags_env = record new_db_env {
  size_ratio = pos 10;
  level0_slowdown_writes_trigger = pos 9;
  level0_stop_writes_trigger = pos 10;
  level0_file_num_compaction_trigger = pos 10;
  buffer_size_in_pages = 512;
  entries_per_page = 4;
  entry_size = 1024;
}

abbrev usage : Text
usage = codes "usage"

flags_parsed : parse_arguments usage (parsed flags) new_db_env ≡ returned 0 [] flags_env
unfolding parse_arguments new_db_env
flags_parsed = refl

-- A negative number of pages is a large unsigned one, and a code is cut to 16 bits.
negative_pages :
    parse_arguments usage
      (parsed (record no_flags {
        buffer_size_in_pages_cmd = some (negsuc 0);
        compaction_pri_cmd = some (pos 65_539);
      }))
      new_db_env
    ≡ returned 0 [] (record new_db_env { buffer_size_in_pages = 4_294_967_295; compaction_pri = 3 })
unfolding parse_arguments new_db_env
negative_pages = refl

help_exits : parse_arguments usage help new_db_env ≡ exited 0 usage
unfolding parse_arguments
help_exits = refl

error_returned :
    parse_arguments usage (parse_error (codes "what")) new_db_env
    ≡ returned 1 (codes "what" ++ 10 ∷ usage) new_db_env
unfolding parse_arguments
error_returned = refl

abbrev memory_flags : Flags
memory_flags = record flags { buffer_size_cmd = some (pos 4096) }

memory_parsed :
    parse_arguments usage (parsed memory_flags) new_db_env
    ≡ returned 0 [] (record flags_env { buffer_size = 4096 })
unfolding parse_arguments new_db_env
memory_parsed = refl
