-- ===== src/Workload/Finish.antt =====
-- runWorkload around its loop: what it opens and prints before, and the totals, checks and flushes
-- after it. The call of configOptions comes first and is modelled in Config.
use rocks_db_wrapper.Base.{
  ℕ, ◌/◌, ◌%◌, Bool, true, Option, none, some, [], ◌∷◌, ◌++◌, if◌then◌else◌, length,
}
use rocks_db_wrapper.Base.Int.{ℤ}
use rocks_db_wrapper.Base.Text.{Text, codes, show_ℕ}
use rocks_db_wrapper.Env.{DbEnv}
use rocks_db_wrapper.Buffer.{Buffer, endl, put, put_manip, flush_buffer, default_limit}
use rocks_db_wrapper.Report.{Counters, print_experimental_setup, print_rocks_db_perf_stats}
use rocks_db_wrapper.Workload.{
  Outcome, finished, stopped, assertion_failed, division_by_zero, unset_operation, Status, Database,
  Run, Setting, Bar, lines_of, run_lines,
}

-- What the program meets: the files that it opens, the database, the workload's text, and what it
-- measures. The exit code of clearing the cache is a text, and `seconds` divides nanoseconds by 1e9.
pub record World (d : Database) : Type 0 where
  pub opens_buffer : Bool
  pub opens_stats : Bool
  pub opened : Status × d.State
  pub clear_code : Text
  pub workload : Option Text
  pub clock : ℕ → ℤ
  pub bar : Bar
  pub show_double : ℤ → Text
  pub total_exec_time : ℕ
  pub seconds : ℕ → ℕ
  pub counters : Counters

-- The function returns a code, with the two logs, the database and std::cerr, or the program is
-- aborted by an assertion or an exception.
pub data WorkloadResult (d : Database) : Type 0 where
  workload_returned : ℕ → Buffer → Buffer → d.State → Text → WorkloadResult d
  aborted : Text → WorkloadResult d

unfoldable pub log_total : Text → ℕ → Buffer → Buffer
log_total label time buffer = put_manip (put (put buffer label) (show_ℕ time)) endl

unfoldable pub log_totals : {d : Database} → ℕ → Run d → Buffer
unfolding log_total
log_totals total_exec_time r = log_total (codes "RangeQuery Execution Time: ") r.rq_exec_time (
    log_total (codes "PointDelete Execution Time: ") r.pdelete_exec_time (
      log_total (codes "PointQuery Execution Time: ") r.pq_exec_time (
        log_total (codes "Updates Execution Time: ") r.updates_exec_time (
          log_total (codes "Inserts Execution Time: ") r.inserts_exec_time (
            log_total (codes "Workload Execution Time: ") total_exec_time
              (put_manip (put r.buffer (codes "=====================")) endl))))))

unfoldable pub completed_text : ℕ → Text
completed_text total_seconds =
    10 ∷ codes "Experiment completed in "
    ++ show_ℕ (total_seconds / 3600)
    ++ codes "h "
    ++ show_ℕ (total_seconds % 3600 / 60)
    ++ codes "m "
    ++ show_ℕ (total_seconds % 60)
    ++ codes "s "
    ++ 10 ∷ []

-- `if (!s.ok()) std::cerr << s.ToString() << std::endl; assert(s.ok());`
abbrev pub check_status :
    {d : Database} → Status → Text → (Text → WorkloadResult d) → WorkloadResult d
check_status s cerr rest = if s.ok then rest cerr else aborted (cerr ++ s.message ++ 10 ∷ [])

unfoldable pub finish_workload : {d : Database} → DbEnv → World d → Run d → WorkloadResult d
finish_workload {d = d} env world r = check_status r.s r.cerr λ cerr.
    check_status (d.close r.db).0 cerr λ cerr'.
      workload_returned 0
        (flush_buffer
          (print_rocks_db_perf_stats env world.counters (log_totals world.total_exec_time r)))
        (flush_buffer r.stats) (d.close r.db).1
        (cerr' ++ completed_text (world.seconds world.total_exec_time))

abbrev pub new_log : Buffer
new_log = record { buffer = []; output_file = []; is_open = true; buffer_limit = default_limit }

-- The run as the loop starts.
unfoldable pub start_run : {d : Database} → DbEnv → World d → Text → Run d
start_run env world cerr = record {
  db = world.opened.1;
  s = world.opened.0;
  buffer = print_experimental_setup world.show_double env new_log;
  stats = new_log;
  inserts_exec_time = 0;
  updates_exec_time = 0;
  pq_exec_time = 0;
  pdelete_exec_time = 0;
  rq_exec_time = 0;
  ith_op = 0;
  cerr = cerr;
}

abbrev pub setting : {d : Database} → DbEnv → World d → Text → Setting
setting env world text = record {
  clock = world.clock;
  bar = world.bar;
  shows = env.show_progress_bar;
  total_operations = if env.show_progress_bar then length (lines_of text) else 0;
}

-- After the loop. A failed assertion aborts the process, and the other stops are undefined behaviour
-- (`none`).
abbrev pub end_of_loop :
    {d : Database} → DbEnv → World d → Outcome (Run d) → Option (WorkloadResult d)
end_of_loop env world (finished r) = some (finish_workload env world r)
end_of_loop env world (stopped (assertion_failed cerr)) = some (aborted cerr)
end_of_loop env world (stopped division_by_zero) = none
end_of_loop env world (stopped unset_operation) = none

-- From opening the workload's file on.
unfoldable pub run_opened :
    {d : Database} → DbEnv → World d → Text → Option Text → Option (WorkloadResult d)
run_opened env world cerr none = some (aborted cerr)
run_opened env world cerr (some text) =
    end_of_loop env world
      (run_lines (setting env world text) (lines_of text) (start_run env world cerr))

abbrev pub destroy_text : DbEnv → Text
destroy_text env =
    if env.destroy_database then codes "Destroying database ... done" ++ 10 ∷ [] else []

abbrev pub clear_text : DbEnv → Text → Text
clear_text env code =
    if env.clear_system_cache
    then codes "Clearing system cache ..." ++ code ++ codes " done" ++ 10 ∷ []
    else []

-- `none`: the loop divides by zero, or meets a line of blanks.
unfoldable pub run_workload : {d : Database} → DbEnv → World d → Option (WorkloadResult d)
run_workload env world =
    let opened = world.opened.0 in
    let started =
      run_opened env world (destroy_text env ++ clear_text env world.clear_code) world.workload in
    let failed = some (aborted (destroy_text env ++ opened.message ++ 10 ∷ [])) in
    if world.opens_buffer
    then if world.opens_stats then if opened.ok then started else failed else some (aborted [])
    else some (aborted [])
