-- ===== src/Report/Examples.antt =====
-- The reports on small inputs.
use rocks_db_wrapper.Base.{◌≡◌, refl, true, [], ◌∷◌, ◌++◌, arith}
use rocks_db_wrapper.Base.Int.{pos, ltb_ℤ}
use rocks_db_wrapper.Base.Text.{codes, show_ℕ, show_ℤ, pad_left}
use rocks_db_wrapper.Env.{
  DbEnv, new_db_env, get_buffer_size, get_target_file_size_base, get_max_bytes_for_level_base,
}
use rocks_db_wrapper.Buffer.{Buffer, put}
use rocks_db_wrapper.Buffer.Laws.{contents}
use rocks_db_wrapper.Report.{Counters, setup_values, print_column, print_rocks_db_perf_stats}
use rocks_db_wrapper.Report.Setup.{Fits}
use rocks_db_wrapper.Report.Stats.{report, print_rocks_db_perf_stats-report}

abbrev log : Buffer
log = record { buffer = codes "x"; output_file = []; is_open = true; buffer_limit = 64 }

abbrev env : DbEnv
env = record new_db_env { verbosity = pos 1 }

column_padded : (print_column (codes "T") 4 log).buffer ≡ codes "x   T"
unfolding print_column put pad_left
column_padded = refl

values_fit : Fits (setup_values show_ℤ env)
unfolding show_ℤ show_ℕ new_db_env get_buffer_size get_target_file_size_base
    get_max_bytes_for_level_base
values_fit = (
  omega arith,
  (
    omega arith,
    (
      omega arith,
      (
        omega arith,
        (
          omega arith,
          (
            omega arith,
            (omega arith, (omega arith, (omega arith, (omega arith, (omega arith, tt))))),
          ),
        ),
      ),
    ),
  ),
)

loud : ltb_ℤ (pos 0) env.verbosity ≡ true
loud = refl

abbrev counters : Counters
counters = record {
  tickers = (codes "hit", 0) ∷ (codes "miss", 7) ∷ [];
  histograms = [];
  perf_context = codes "p";
  iostats_context = codes "i";
}

report_text :
    report env counters
    ≡ codes "\n[Rocksdb Stats]\nmiss COUNT: 7\n[Perf Context]\np\n\n[IO Stats Context]\ni\n"
unfolding show_ℕ new_db_env
report_text = refl

print_rocks_db_perf_stats-report_example :
    contents (print_rocks_db_perf_stats env counters log) ≡ contents log ++ report env counters
print_rocks_db_perf_stats-report_example = print_rocks_db_perf_stats-report env counters log
