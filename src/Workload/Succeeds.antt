-- ===== src/Workload/Succeeds.antt =====
-- When the whole run returns.
use rocks_db_wrapper.Base.{
  ◌≡◌, refl, sym, ap, subst, ◌∙◌, Bool, true, false, some, some-injective, List, ◌++◌,
  if◌then◌else◌,
}
use rocks_db_wrapper.Base.Text.{Text}
use rocks_db_wrapper.Env.{DbEnv}
use rocks_db_wrapper.Buffer.{Buffer}
use rocks_db_wrapper.Workload.{Status, Database, Run, lines_of}
use rocks_db_wrapper.Workload.Requests.{Request, requests, perform_all}
use rocks_db_wrapper.Workload.Effects.{run_lines-perform_all}
use rocks_db_wrapper.Workload.Total.{CanShow, run_lines-finished}
use rocks_db_wrapper.Workload.Finish.{
  World, WorkloadResult, workload_returned, finish_workload, start_run, setting, destroy_text,
  clear_text, end_of_loop, run_opened, run_workload,
}
use rocks_db_wrapper.Workload.Returned.{HasReturned, run_workload-HasReturned}

-- `result` is a return of 0.
abbrev pub IsReturned : {d : Database} → WorkloadResult d → Type 0
IsReturned {d = d} result =
    (b : Buffer) × (st : Buffer) × (db : d.State) × (cerr : Text) × (result
      ≡ workload_returned 0 b st db cerr)

if-IsReturned :
    {d : Database} (ok : Bool) (result failed : WorkloadResult d)
    → ok ≡ true
    → IsReturned result
    → IsReturned (if ok then result else failed)
if-IsReturned true result failed e v = v
if-IsReturned false result failed e v = absurd (cc e)

finish_workload-IsReturned :
    {d : Database} (env : DbEnv) (world : World d) (r : Run d)
    → r.s.ok ≡ true
    → (d.close r.db).0.ok ≡ true
    → IsReturned (finish_workload env world r)
unfolding finish_workload
finish_workload-IsReturned {d = d} env world r ok closed =
    if-IsReturned r.s.ok _ _ ok (if-IsReturned (d.close r.db).0.ok _ _ closed (_, _, _, _, refl))

run_opened-IsReturned :
    {d : Database} (env : DbEnv) (world : World d) (cerr lines : Text) {qs : List Request}
    → requests (lines_of lines) ≡ some qs
    → CanShow (setting env world lines)
    → ((key : Text) (db : d.State) → (d.new_iterator key db).status.ok ≡ true)
    → (perform_all d qs world.opened).0.ok ≡ true
    → (d.close (perform_all d qs world.opened).1).0.ok ≡ true
    → (result : WorkloadResult d) × (run_opened env world cerr (some lines) ≡ some result)
      × IsReturned result
unfolding run_opened start_run
run_opened-IsReturned {d = d} env world cerr lines {qs} found can opens ok closed =
    let w = setting env world lines in
    let start = start_run env world cerr in
    let (r, ran) = run_lines-finished w (lines_of lines) start found can opens in
    let (qs', found', state, times, count) = run_lines-perform_all w (lines_of lines) start ran in
    let same : qs' ≡ qs = some-injective _ _ (sym found' ∙ found) in
    let left : (r.s, r.db) ≡ perform_all d qs world.opened =
      state ∙ ap (λ q. perform_all d q world.opened) same in
    (
      finish_workload env world r,
      ap (end_of_loop env world) ran,
      finish_workload-IsReturned env world r (ap (λ (p : Status × d.State). p.0.ok) left ∙ ok)
          (ap (λ (p : Status × d.State). (d.close p.1).0.ok) left ∙ closed),
    )

all_open {ℓ} :
    {A : Type ℓ} (opens_buffer opens_stats ok : Bool) (started failed other : A)
    → opens_buffer ≡ true
    → opens_stats ≡ true
    → ok ≡ true
    → (if opens_buffer
        then if opens_stats then if ok then started else failed else other
        else other)
      ≡ started
all_open opens_buffer opens_stats ok started failed other b s o = rw (b, s, o)

-- If the logs, the database and the workload open, every line before the first empty one has a
-- request, iterators open, the progress bar is off or its interval is not zero, and the last of the
-- requests and the closing are ok, then the run returns 0, and it has done what a run that returns
-- has done with these requests.
pub run_workload-IsReturned :
    {d : Database} (env : DbEnv) (world : World d) (lines : Text) (qs : List Request)
    → world.opens_buffer ≡ true
    → world.opens_stats ≡ true
    → world.opened.0.ok ≡ true
    → world.workload ≡ some lines
    → requests (lines_of lines) ≡ some qs
    → CanShow (setting env world lines)
    → ((key : Text) (db : d.State) → (d.new_iterator key db).status.ok ≡ true)
    → (perform_all d qs world.opened).0.ok ≡ true
    → (d.close (perform_all d qs world.opened).1).0.ok ≡ true
    → (b : Buffer) × (st : Buffer) × (db : d.State) × (cerr : Text) × (run_workload env world
        ≡ some (workload_returned 0 b st db cerr))
      × HasReturned world 0 b st db qs
unfolding run_workload
run_workload-IsReturned {d = d} env world lines qs log stats opened read found can opens ok closed =
    let cerr = destroy_text env ++ clear_text env world.clear_code in
    let (result, ran, (b, st, db, text, is)) =
      run_opened-IsReturned env world cerr lines found can opens ok closed in
    let done : run_workload env world ≡ some (workload_returned 0 b st db text) =
      all_open world.opens_buffer world.opens_stats world.opened.0.ok _ _ _ log stats opened
      ∙ ap (run_opened env world cerr) read
      ∙ ran
      ∙ ap some is in
    let (lines', read', qs', found', has) = run_workload-HasReturned env world done in
    let same_lines : lines' ≡ lines = some-injective _ _ (sym read' ∙ read) in
    let same : qs' ≡ qs =
      some-injective _ _ (sym found' ∙ ap (λ l. requests (lines_of l)) same_lines ∙ found) in
    (b, st, db, text, done, subst (HasReturned world 0 b st db) same has)
