-- ===== src/Stats/Examples.antt =====
-- The statistics of a small run: tests, and the theorems for it. A float is an integer here.
use rocks_db_wrapper.Base.{◌≡◌, refl, true, false, Option, none, some, [], ◌++◌}
use rocks_db_wrapper.Base.Int.{ℤ, pos, pos_part, negsuc, ◌*ℤ◌, ◌-ℤ◌, tdiv}
use rocks_db_wrapper.Base.Text.{codes, show_ℤ}
use rocks_db_wrapper.Env.{DbEnv, get_instance}
use rocks_db_wrapper.Stats.{
  Floats, Stats, Cout, new_stats, superfluous_bytes, unique_bytes, sub_long, file_loop,
  set_space_amp, print_stats,
}
use rocks_db_wrapper.Stats.Amplification.{proportion_after, print_stats-changes}

abbrev whole : Floats
whole = record {
  Float = ℤ;
  Double = ℤ;
  of_int = λ n. n;
  of_unsigned = pos;
  mul = λ a b. a *ℤ b;
  div = λ a b. tdiv a (pos_part b);
  show = λ fixed x. show_ℤ x ++ (elim fixed [ false ↦ codes "" | true ↦ codes ".00" ]);
}

fresh : Stats whole
unfolding new_stats
fresh = new_stats (pos 0)

-- The bytes of a new object: `key_size + 1` wraps to zero, and so does the difference.
fresh_bytes : (superfluous_bytes fresh ≡ pos 0) × (unique_bytes fresh ≡ some 0)
unfolding fresh new_stats superfluous_bytes unique_bytes ◌-ℤ◌ ◌*ℤ◌ sub_long
fresh_bytes = (refl, refl)

abbrev small : Stats whole
small = record {
  key_size = 8;
  value_size = 24;
  inserts_completed = pos 100;
  updates_completed = pos 300;
  update_proportion = negsuc 0;
  point_deletes_completed = pos 10;
  range_deletes_completed = pos 0;
  point_queries_completed = pos 0;
  range_queries_completed = pos 0;
  levels_in_tree = pos 2;
  files_in_tree = pos 3;
  key_values_in_tree = pos 90;
  point_tombstones_in_tree = pos 64;
  range_tombstones_in_tree = pos 0;
  files_in_level = [];
  fade_file_info = [];
  compaction_count = pos 0;
  compactions_by_pointer_manipulation = pos 0;
  files_read_for_compaction = pos 0;
  bytes_read_for_compaction = pos 0;
  files_written_after_compaction = pos 0;
  bytes_written_after_compaction = pos 0;
  space_amp = negsuc 0;
  write_amp = negsuc 0;
  exp_runtime = pos 0;
  completion_status = false;
  db_open = false;
}

abbrev cout : Cout
cout = record { printed = []; width = 4; fixed = false }

abbrev after : Stats whole
after = record small { update_proportion = pos 3; space_amp = pos 20 }

printed : Cout
unfolding print_stats
printed = elim (print_stats none small cout) as (λ x. Cout) [ none ↦ cout | some x ↦ x.2 ]

printed_small : print_stats none small cout ≡ some (none, after, printed)
unfolding print_stats printed set_space_amp file_loop superfluous_bytes unique_bytes sub_long ◌-ℤ◌
    ◌*ℤ◌ tdiv get_instance
printed_small = refl

print_stats-changes_example :
    (after
      ≡ record small { update_proportion = proportion_after small; space_amp = after.space_amp })
    × (◌≡◌ {A = Option DbEnv} none none)
print_stats-changes_example = print_stats-changes none small cout printed_small
