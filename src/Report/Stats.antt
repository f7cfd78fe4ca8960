-- ===== src/Report/Stats.antt =====
-- The counters in the log: those above zero, in order.
use mathlib.Core.List.{append-nil, append_assoc}
use rocks_db_wrapper.Base.{
  ℕ, ◌≡◌, sym, ap, ◌∙◌, Bool, true, false, List, [], ◌∷◌, ◌++◌, if◌then◌else◌, ltb,
}
use rocks_db_wrapper.Base.Text.{Text}
use rocks_db_wrapper.Env.{DbEnv}
use rocks_db_wrapper.Buffer.{Buffer, put}
use rocks_db_wrapper.Buffer.Laws.{contents, put-IsInserted}
use rocks_db_wrapper.Report.{
  HistogramData, Counters, put_all, stats_title, perf_texts, io_texts, ticker_texts,
  histogram_texts, print_tickers, print_histograms, print_rocks_db_perf_stats,
}

abbrev concat : List Text → Text
concat [] = []
concat (text ∷ texts) = text ++ concat texts

contents-put_all :
    (texts : List Text) (b : Buffer) → contents (put_all texts b) ≡ contents b ++ concat texts
contents-put_all [] b = sym (append-nil (contents b))
contents-put_all (text ∷ texts) b =
    contents-put_all texts (put b text)
    ∙ ap (λ x. x ++ concat texts) ((put-IsInserted b text).0)
    ∙ append_assoc (contents b) text (concat texts)

-- What is printed if the test holds.
abbrev when : Bool → Text → Text
when test text = if test then text else []

contents-when :
    (test : Bool) (texts : List Text) (b : Buffer)
    → contents (if test then put_all texts b else b) ≡ contents b ++ when test (concat texts)
contents-when true texts b = contents-put_all texts b
contents-when false texts b = sym (append-nil (contents b))

-- The lines of the tickers and histograms that have counted something.
abbrev pub ticker_lines : List (Text × ℕ) → Text
ticker_lines [] = []
ticker_lines ((name, value) ∷ tickers) =
    when (ltb 0 value) (concat (ticker_texts name value)) ++ ticker_lines tickers

abbrev pub histogram_lines : List HistogramData → Text
histogram_lines [] = []
histogram_lines (data' ∷ histograms) =
    when (ltb 0 data'.count) (concat (histogram_texts data')) ++ histogram_lines histograms

contents-print_tickers :
    (tickers : List (Text × ℕ)) (b : Buffer)
    → contents (print_tickers tickers b) ≡ contents b ++ ticker_lines tickers
unfolding print_tickers
contents-print_tickers [] b = sym (append-nil (contents b))
contents-print_tickers ((name, value) ∷ tickers) b =
    contents-print_tickers tickers (if ltb 0 value then put_all (ticker_texts name value) b else b)
    ∙ ap (λ x. x ++ ticker_lines tickers) (contents-when (ltb 0 value) (ticker_texts name value) b)
    ∙ append_assoc (contents b) (when (ltb 0 value) (concat (ticker_texts name value)))
        (ticker_lines tickers)

contents-print_histograms :
    (histograms : List HistogramData) (b : Buffer)
    → contents (print_histograms histograms b) ≡ contents b ++ histogram_lines histograms
unfolding print_histograms
contents-print_histograms [] b = sym (append-nil (contents b))
contents-print_histograms (data' ∷ histograms) b =
    contents-print_histograms histograms
      (if ltb 0 data'.count then put_all (histogram_texts data') b else b)
    ∙ ap (λ x. x ++ histogram_lines histograms)
        (contents-when (ltb 0 data'.count) (histogram_texts data') b)
    ∙ append_assoc (contents b) (when (ltb 0 data'.count) (concat (histogram_texts data')))
        (histogram_lines histograms)

-- The whole report, by the three switches of the settings.
abbrev counts : Counters → Text
counts counters =
    stats_title ++ (ticker_lines counters.tickers ++ histogram_lines counters.histograms)

abbrev pub report : DbEnv → Counters → Text
report env counters =
    when env.rocksdb_stats (counts counters)
    ++ (when env.perf_stats (concat (perf_texts counters))
        ++ when env.iostat_stats (concat (io_texts counters)))

contents-rocksdb_stats :
    (test : Bool) (counters : Counters) (b : Buffer)
    → contents (
        if test
        then print_histograms counters.histograms
            (print_tickers counters.tickers (put b stats_title))
        else b)
      ≡ contents b ++ when test (counts counters)
contents-rocksdb_stats true counters b =
    contents-print_histograms counters.histograms
      (print_tickers counters.tickers (put b stats_title))
    ∙ ap (λ x. x ++ histogram_lines counters.histograms)
        (contents-print_tickers counters.tickers (put b stats_title)
          ∙ ap (λ x. x ++ ticker_lines counters.tickers) ((put-IsInserted b stats_title).0))
    ∙ append_assoc (contents b ++ stats_title) (ticker_lines counters.tickers)
        (histogram_lines counters.histograms)
    ∙ append_assoc (contents b) stats_title
        (ticker_lines counters.tickers ++ histogram_lines counters.histograms)
contents-rocksdb_stats false counters b = sym (append-nil (contents b))

-- The log grows by the report that the three switches ask for: each ticker and histogram that has
-- counted something, in order, then the perf context, then the IO context.
pub print_rocks_db_perf_stats-report :
    (env : DbEnv) (counters : Counters) (b : Buffer)
    → contents (print_rocks_db_perf_stats env counters b) ≡ contents b ++ report env counters
unfolding print_rocks_db_perf_stats
print_rocks_db_perf_stats-report env counters b =
    let b1 =
      if env.rocksdb_stats
      then print_histograms counters.histograms (print_tickers counters.tickers (put b stats_title))
      else b in
    let b2 = if env.perf_stats then put_all (perf_texts counters) b1 else b1 in
    let counted = when env.rocksdb_stats (counts counters) in
    let perf = when env.perf_stats (concat (perf_texts counters)) in
    let io = when env.iostat_stats (concat (io_texts counters)) in
    contents-when env.iostat_stats (io_texts counters) b2
    ∙ ap (λ x. x ++ io)
        (contents-when env.perf_stats (perf_texts counters) b1
          ∙ ap (λ x. x ++ perf) (contents-rocksdb_stats env.rocksdb_stats counters b))
    ∙ append_assoc (contents b ++ counted) perf io
    ∙ append_assoc (contents b) counted (perf ++ io)
