-- ===== src/Report.antt =====
-- The reports that are written to the log: PrintExperimentalSetup and PrintRocksDBPerfStats of
-- src/utils.cc. How a double prints is an argument, and so is what RocksDB counts.
pub mod Setup
pub mod Stats
pub mod TreeState
mod Examples
use rocks_db_wrapper.Base.{ℕ, Bool, List, [], ◌∷◌, ◌++◌, if◌then◌else◌, ltb}
use rocks_db_wrapper.Base.Int.{ℤ, pos, ltb_ℤ}
use rocks_db_wrapper.Env.Default.{no_prints, level_of}
use rocks_db_wrapper.Base.Text.{Text, codes, show_ℕ, show_ℤ, pad_left}
use rocks_db_wrapper.Env.{
  DbEnv, get_buffer_size, get_target_file_size_base, get_max_bytes_for_level_base,
}
use rocks_db_wrapper.Buffer.{Buffer, endl, put, put_manip}

-- Three insertions: `std::setfill` and `std::setw` add no text.
unfoldable pub print_column : Text → ℕ → Buffer → Buffer
print_column value width buffer = put (put (put buffer []) []) (pad_left width value)

unfoldable pub print_columns : List (ℕ × Text) → Buffer → Buffer
unfolding print_column
print_columns [] buffer = buffer
print_columns ((width, value) ∷ columns) buffer =
    print_columns columns (print_column value width buffer)

abbrev pub setup_names : List (ℕ × Text)
setup_names =
    (10, codes "cmpt_sty")
    ∷ (10, codes "cmpt_pri")
    ∷ (4, codes "T")
    ∷ (10, codes "P")
    ∷ (10, codes "B")
    ∷ (10, codes "E")
    ∷ (10, codes "M")
    ∷ (10, codes "file_size")
    ∷ (10, codes "L1_size")
    ∷ (10, codes "blk_cch")
    ∷ (10, codes "BPK")
    ∷ []

abbrev pub setup_values : (ℤ → Text) → DbEnv → List (ℕ × Text)
setup_values show_double env =
    (10, show_ℕ env.compaction_style)
    ∷ (10, show_ℕ env.compaction_pri)
    ∷ (4, show_double env.size_ratio)
    ∷ (10, show_ℕ env.buffer_size_in_pages)
    ∷ (10, show_ℕ env.entries_per_page)
    ∷ (10, show_ℕ env.entry_size)
    ∷ (10, show_ℕ (get_buffer_size env))
    ∷ (10, show_ℤ (get_target_file_size_base env))
    ∷ (10, show_ℕ (get_max_bytes_for_level_base env))
    ∷ (10, show_ℤ env.block_cache)
    ∷ (10, show_double env.bits_per_key)
    ∷ []

unfoldable pub print_experimental_setup : (ℤ → Text) → DbEnv → Buffer → Buffer
unfolding print_columns
print_experimental_setup show_double env buffer =
    if ltb_ℤ (level_of no_prints) env.verbosity
    then put_manip
        (print_columns (setup_values show_double env)
          (put_manip (print_columns setup_names buffer) endl))
        endl
    else buffer

-- A histogram's fields, the doubles as they print.
pub record HistogramData : Type 0 where
  pub name : Text
  pub median : Text
  pub percentile95 : Text
  pub percentile99 : Text
  pub max : Text
  pub count : ℕ
  pub sum : ℕ

-- What RocksDB counts: the tickers and histograms in the order of its maps, and its two contexts.
pub record Counters : Type 0 where
  pub tickers : List (Text × ℕ)
  pub histograms : List HistogramData
  pub perf_context : Text
  pub iostats_context : Text

abbrev pub put_all : List Text → Buffer → Buffer
put_all [] buffer = buffer
put_all (text ∷ texts) buffer = put_all texts (put buffer text)

abbrev pub newline : Text
newline = 10 ∷ []

abbrev pub ticker_texts : Text → ℕ → List Text
ticker_texts name value = name ∷ codes " COUNT: " ∷ show_ℕ value ∷ newline ∷ []

abbrev pub histogram_texts : HistogramData → List Text
histogram_texts data' =
    data'.name
    ∷ codes " P50 : "
    ∷ data'.median
    ∷ codes " P95 : "
    ∷ data'.percentile95
    ∷ codes " P99 : "
    ∷ data'.percentile99
    ∷ codes " P100 : "
    ∷ data'.max
    ∷ codes " COUNT : "
    ∷ show_ℕ data'.count
    ∷ codes " SUM : "
    ∷ show_ℕ data'.sum
    ∷ newline
    ∷ []

unfoldable pub print_tickers : List (Text × ℕ) → Buffer → Buffer
print_tickers [] buffer = buffer
print_tickers ((name, value) ∷ tickers) buffer =
    print_tickers tickers (if ltb 0 value then put_all (ticker_texts name value) buffer else buffer)

unfoldable pub print_histograms : List HistogramData → Buffer → Buffer
print_histograms [] buffer = buffer
print_histograms (data' ∷ histograms) buffer =
    print_histograms histograms
      (if ltb 0 data'.count then put_all (histogram_texts data') buffer else buffer)

abbrev pub stats_title : Text
stats_title = newline ++ codes "[Rocksdb Stats]" ++ newline

abbrev pub perf_texts : Counters → List Text
perf_texts counters = (codes "[Perf Context]" ++ newline) ∷ counters.perf_context ∷ newline ∷ []

abbrev pub io_texts : Counters → List Text
io_texts counters =
    (newline ++ codes "[IO Stats Context]" ++ newline) ∷ counters.iostats_context ∷ newline ∷ []

-- (The perf level is also set to kDisable, and the copy of the options drops its statistics.)
unfoldable pub print_rocks_db_perf_stats : DbEnv → Counters → Buffer → Buffer
unfolding print_tickers print_histograms
print_rocks_db_perf_stats env counters b0 =
    let b1 =
      if env.rocksdb_stats
      then print_histograms counters.histograms
          (print_tickers counters.tickers (put b0 stats_title))
      else b0 in
    let b2 = if env.perf_stats then put_all (perf_texts counters) b1 else b1 in
    if env.iostat_stats then put_all (io_texts counters) b2 else b2
