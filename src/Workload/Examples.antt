-- ===== src/Workload/Examples.antt =====
-- The runner on a small workload: tests, and the theorems for it. The database is a list of keys.
use rocks_db_wrapper.Base.{
  ℕ, ◌+◌, ◌*◌, ◌/◌, ◌%◌, ◌^◌, ◌≡◌, ◌↔◌, inl, refl, true, false, none, some, List, [], ◌∷◌, ◌++◌,
  length, arith,
}
use rocks_db_wrapper.Base.Int.{pos}
use rocks_db_wrapper.Base.Text.{Text, codes, show_ℤ}
use rocks_db_wrapper.Env.{DbEnv, new_db_env}
use rocks_db_wrapper.Buffer.{Buffer, put, put_manip}
use rocks_db_wrapper.Buffer.Laws.{contents}
use rocks_db_wrapper.Workload.{
  finished, stopped, division_by_zero, unset_operation, Status, Database, Run, Setting, Bar,
  is_space, lines_of, run_lines, text_geb, scan, update_progress_bar, log_time,
}
use rocks_db_wrapper.Workload.Requests.{
  Request, insert_request, query_request, scan_request, requests, perform_all, time_lines,
}
use rocks_db_wrapper.Workload.Effects.{run_lines-perform_all}
use rocks_db_wrapper.Workload.RoundTrip.{IsWord, print_workload, requests-print_workload}
use rocks_db_wrapper.Workload.Times.{inserts_total, sum_of_times}
use rocks_db_wrapper.Workload.Times.Sums.{run_lines-sum_of_times}
use rocks_db_wrapper.Workload.Division.{FirstRuns, run_lines-division_by_zero}
use rocks_db_wrapper.Workload.Finish.{
  World, WorkloadResult, workload_returned, aborted, run_workload, new_log, run_opened, start_run,
  finish_workload,
}
use rocks_db_wrapper.Workload.Succeeds.{run_workload-IsReturned}
use rocks_db_wrapper.Workload.Returned.{HasReturned, run_workload-HasReturned}

abbrev ok : Status
ok = record { ok = true; message = codes "OK" }

abbrev not_found : Status
not_found = record { ok = false; message = codes "NotFound" }

abbrev find : Text → List Text → Status
find key [] = not_found
find key (k ∷ keys) = elim (text_geb k key) [
  | false ↦ find key keys
  | true ↦ elim (text_geb key k) [ false ↦ find key keys | true ↦ ok ]
]

abbrev pub store : Database
store = record {
  State = List Text;
  put_key = λ key value db. (ok, key ∷ db);
  delete_key = λ key db. (ok, []);
  get_key = λ key db. (find key db, db);
  delete_range = λ start_key end_key db. (ok, []);
  new_iterator = λ key db. record { status = ok; keys = db; status_after = λ n. ok };
  close = λ db. (ok, db);
}

abbrev text : Text
text = codes "I a 1\nQ a\nS a c\nI b 2\n\nD b\n"

abbrev bar : Bar
bar = record {
  interval = λ total. total / 50;
  position = λ width current total. width * current / total;
  percent = λ current total. [];
}

abbrev pub world : World store
world = record {
  opens_buffer = true;
  opens_stats = true;
  opened = (ok, []);
  clear_code = codes "0";
  workload = some text;
  clock = λ n. pos (n + 5);
  bar = bar;
  show_double = show_ℤ;
  total_exec_time = 1000;
  seconds = λ n. n / 1_000_000_000;
  counters = record { tickers = []; histograms = []; perf_context = []; iostats_context = [] };
}

-- Without the progress bar and the table of the settings.
abbrev quiet_env : DbEnv
quiet_env = record new_db_env { show_progress_bar = false }

abbrev quiet : Setting
quiet = record { clock = λ n. pos (n + 5); bar = bar; shows = false; total_operations = 0 }

-- The line after the empty one is not read.
requests_read :
    requests (lines_of text)
    ≡ some (
        insert_request (codes "a") (codes "1")
        ∷ query_request (codes "a")
        ∷ scan_request (codes "a") (codes "c")
        ∷ insert_request (codes "b") (codes "2")
        ∷ [])
unfolding requests
requests_read = refl

abbrev begin : Run store
begin = record {
  db = [];
  s = ok;
  buffer = new_log;
  stats = new_log;
  inserts_exec_time = 0;
  updates_exec_time = 0;
  pq_exec_time = 0;
  pdelete_exec_time = 0;
  rq_exec_time = 0;
  ith_op = 0;
  cerr = [];
}

abbrev end : Run store
end = record begin {
  db = codes "b" ∷ codes "a" ∷ [];
  stats = record new_log {
    buffer = codes "InsertTime: 5\nGetTime: 6\nScanTime: 7\nInsertTime: 8\n";
  };
  inserts_exec_time = 13;
  pq_exec_time = 6;
  rq_exec_time = 7;
  ith_op = 4;
}

lines_run : run_lines quiet (lines_of text) begin ≡ finished end
unfolding run_lines put put_manip log_time scan update_progress_bar show_ℤ
lines_run = refl

run_lines-perform_all_example :
    (qs : List Request) × (requests (lines_of text) ≡ some qs)
    × ((end.s, end.db) ≡ perform_all store qs (begin.s, begin.db))
    × (contents end.stats ≡ contents begin.stats ++ time_lines quiet.clock begin.ith_op qs)
    × (end.ith_op ≡ begin.ith_op + length qs)
run_lines-perform_all_example = run_lines-perform_all quiet (lines_of text) begin lines_run

run_lines-sum_of_times_example :
    (qs : List Request) × (requests (lines_of text) ≡ some qs)
    × (end.inserts_exec_time
        ≡ (begin.inserts_exec_time + sum_of_times inserts_total quiet.clock begin.ith_op qs)
          % 2 ^ 64)
run_lines-sum_of_times_example =
    run_lines-sum_of_times inserts_total quiet (lines_of text) begin lines_run (omega arith)

abbrev printable : List Request
printable = insert_request (codes "a") (codes "1") ∷ query_request (codes "a") ∷ []

letter-IsWord : {c : ℕ} → is_space c ≡ false → IsWord (c ∷ [])
letter-IsWord h = ((h, tt), λ e. absurd (cc e))

requests-print_workload_example : requests (lines_of (print_workload printable)) ≡ some printable
requests-print_workload_example =
    requests-print_workload printable
      ((letter-IsWord refl, (letter-IsWord refl, tt)), ((letter-IsWord refl, tt), tt))

-- Six lines and a bar: the interval is 6 / 50.
abbrev shown : Setting
shown = record quiet { shows = true; total_operations = 6 }

run_lines-division_by_zero_example :
    (run_lines shown (codes "Q a" ∷ []) begin ≡ stopped division_by_zero) ↔ (
      (shown.shows ≡ true)
      × (shown.bar.interval shown.total_operations ≡ 0)
      × FirstRuns (codes "Q a" ∷ []) begin)
run_lines-division_by_zero_example = run_lines-division_by_zero shown (codes "Q a" ∷ []) begin

-- A line of blanks is no division by zero, though the bar is on.
blanks_stop : run_lines shown (codes "  " ∷ []) begin ≡ stopped unset_operation
unfolding run_lines
blanks_stop = refl

abbrev result : WorkloadResult store
result = elim (run_workload quiet_env world) as (λ x. WorkloadResult store) [
  | none ↦ aborted []
  | some x ↦ x
]

abbrev log : Buffer
log = elim result [ workload_returned code buffer stats db cerr ↦ buffer | aborted cerr ↦ new_log ]

abbrev printed : Text
printed = elim result [ workload_returned code buffer stats db cerr ↦ cerr | aborted cerr ↦ cerr ]

abbrev times : Buffer
times = elim result [ workload_returned code buffer stats db cerr ↦ stats | aborted cerr ↦ new_log ]

returned :
    run_workload quiet_env world
    ≡ some (workload_returned 0 log times (codes "b" ∷ codes "a" ∷ []) printed)
unfolding run_workload new_db_env run_opened run_lines update_progress_bar finish_workload start_run
returned = refl

run_workload-HasReturned_example :
    (lines : Text) × (world.workload ≡ some lines)
    × (qs : List Request) × (requests (lines_of lines) ≡ some qs)
    × HasReturned world 0 log times (codes "b" ∷ codes "a" ∷ []) qs
run_workload-HasReturned_example = run_workload-HasReturned quiet_env world returned

run_workload-IsReturned_example :
    (b : Buffer) × (st : Buffer) × (db : List Text) × (cerr : Text) × (run_workload quiet_env world
      ≡ some (workload_returned 0 b st db cerr))
    × HasReturned world 0 b st db (
        insert_request (codes "a") (codes "1")
        ∷ query_request (codes "a")
        ∷ scan_request (codes "a") (codes "c")
        ∷ insert_request (codes "b") (codes "2")
        ∷ [])
unfolding new_db_env
run_workload-IsReturned_example =
    run_workload-IsReturned quiet_env world text _ refl refl refl refl requests_read (inl refl)
      (λ key db. refl) refl refl
