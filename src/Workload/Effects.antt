-- ===== src/Workload/Effects.antt =====
-- The loop does to the database what its requests do, and logs a time for each.
use mathlib.Core.List.{append-nil, append_assoc}
use rocks_db_wrapper.Base.{
  ℕ, ◌+◌, ◌≡◌, refl, sym, ap, ap₂, subst, ◌∙◌, Bool, true, false, Option, some, List, [], ◌∷◌, ◌++◌,
  length, >>=-some, if◌then◌else◌, arith,
}
use rocks_db_wrapper.Base.Int.{ℤ}
use rocks_db_wrapper.Base.Text.{Text, codes, show_ℤ}
use rocks_db_wrapper.Buffer.{Buffer, endl, put}
use rocks_db_wrapper.Buffer.Laws.{contents, put-IsInserted, put_manip-IsInserted}
use rocks_db_wrapper.Workload.{
  finished, stopped, assertion_failed, division_by_zero, unset_operation, or_stop, >>>-eq-finished,
  or_stop-eq-finished, finished-injective, Status, Database, Run, Setting, log_time, run_operation,
  run_line, run_lines, update_progress_bar, Operation, inserts, updates, point_deletes,
  point_queries, range_queries, range_deletes, unmatched, operation_of, next_char, next_word,
}
use rocks_db_wrapper.Workload.Requests.{
  Request, request_of, requests, perform, perform_all, time_line, time_lines,
}

contents-log_time :
    (label : Text) (t : ℤ) (b : Buffer)
    → contents (log_time label t b) ≡ contents b ++ (label ++ show_ℤ t ++ 10 ∷ [])
unfolding log_time
contents-log_time label t b =
    (put_manip-IsInserted (put (put b label) (show_ℤ t)) endl).0
    ∙ ap (λ x. x ++ 10 ∷ []) ((put-IsInserted (put b label) (show_ℤ t)).0)
    ∙ ap (λ x. (x ++ show_ℤ t) ++ 10 ∷ []) ((put-IsInserted b label).0)
    ∙ ap (λ x. x ++ 10 ∷ []) (append_assoc (contents b) label (show_ℤ t))
    ∙ append_assoc (contents b) (label ++ show_ℤ t) (10 ∷ [])

-- The run `r'` is `r` after the request.
record Does {d : Database} (q : Request) (t : ℤ) (r r' : Run d) : Type 0 where
  pub state : (r'.s, r'.db) ≡ perform d q (r.s, r.db)
  pub logged : contents r'.stats ≡ contents r.stats ++ time_line q t
  pub same_op : r'.ith_op ≡ r.ith_op

-- A timed request, whose line is what the run logged.
timed :
    {d : Database} (q : Request) (t : ℤ) (label : Text) (r r' : Run d)
    → (r'.s, r'.db) ≡ perform d q (r.s, r.db)
    → r'.stats ≡ log_time label t r.stats
    → time_line q t ≡ label ++ show_ℤ t ++ 10 ∷ []
    → r'.ith_op ≡ r.ith_op
    → Does q t r r'
timed q t label r r' state same line op = record {
  state = state;
  logged =
      ap contents same
      ∙ contents-log_time label t r.stats
      ∙ ap (λ x. contents r.stats ++ x) (sym line);
  same_op = op;
}

-- A request that is not timed.
untimed :
    {d : Database} (q : Request) (t : ℤ) (r r' : Run d)
    → (r'.s, r'.db) ≡ perform d q (r.s, r.db)
    → r'.stats ≡ r.stats
    → time_line q t ≡ []
    → r'.ith_op ≡ r.ith_op
    → Does q t r r'
untimed q t r r' state same line op = record {
  state = state;
  logged =
      ap contents same
      ∙ sym (append-nil (contents r.stats))
      ∙ ap (λ x. contents r.stats ++ x) (sym line);
  same_op = op;
}

range_query-Does :
    {d : Database} (t : ℤ) (args : Text) (r : Run d) (opened : Bool) {r' : Run d} (scanned : Run d)
    → (if opened then finished scanned else stopped (assertion_failed r.cerr)) ≡ finished r'
    → ◌≡◌ {A = Status × d.State} (scanned.s, scanned.db) (r.s, r.db)
    → scanned.stats ≡ log_time (codes "ScanTime: ") t r.stats
    → scanned.ith_op ≡ r.ith_op
    → Does (request_of range_queries args) t r r'
range_query-Does t args r true scanned e state same op =
    subst (Does (request_of range_queries args) t r) (finished-injective _ _ e)
      (timed (request_of range_queries args) t (codes "ScanTime: ") r scanned state same refl op)
range_query-Does t args r false scanned e state same op = absurd (cc e)

run_operation-Does :
    {d : Database} (t : ℤ) (op : Operation) (args : Text) (r : Run d) {r' : Run d}
    → run_operation t op args r ≡ finished r'
    → Does (request_of op args) t r r'
unfolding run_operation
run_operation-Does t inserts args r e =
    subst (Does (request_of inserts args) t r) (finished-injective _ _ e)
      (timed (request_of inserts args) t (codes "InsertTime: ") r _ refl refl refl refl)
run_operation-Does t updates args r e =
    subst (Does (request_of updates args) t r) (finished-injective _ _ e)
      (timed (request_of updates args) t (codes "UpdateTime: ") r _ refl refl refl refl)
run_operation-Does t point_deletes args r e =
    subst (Does (request_of point_deletes args) t r) (finished-injective _ _ e)
      (timed (request_of point_deletes args) t (codes "DeleteTime: ") r _ refl refl refl refl)
run_operation-Does t point_queries args r e =
    subst (Does (request_of point_queries args) t r) (finished-injective _ _ e)
      (timed (request_of point_queries args) t (codes "GetTime: ") r _ refl refl refl refl)
run_operation-Does {d = d} t range_queries args r e =
    range_query-Does t args r (d.new_iterator (next_word args).0 r.db).status.ok _ e refl refl refl
run_operation-Does t range_deletes args r e =
    subst (Does (request_of range_deletes args) t r) (finished-injective _ _ e)
      (untimed (request_of range_deletes args) t r _ refl refl refl refl)
run_operation-Does t unmatched args r e =
    subst (Does (request_of unmatched args) t r) (finished-injective _ _ e)
      (untimed (request_of unmatched args) t r _ refl refl refl refl)

-- A line that runs has a request, and the run counts it.
pub run_line-Does :
    {d : Database} (w : Setting) (line : Text) (r : Run d) {r' : Run d}
    → run_line w line r ≡ finished r'
    → (operation : ℕ) × (args : Text) × (next_char line ≡ some (operation, args))
      × ((r'.s, r'.db) ≡ perform d (request_of (operation_of operation) args) (r.s, r.db))
      × (contents r'.stats
          ≡ contents r.stats
            ++ time_line (request_of (operation_of operation) args) (w.clock r.ith_op))
      × (r'.ith_op ≡ r.ith_op + 1)
unfolding run_line
run_line-Does {d = d} w line r e =
    let ((operation, args), first, rest) =
      >>>-eq-finished (or_stop unset_operation (next_char line)) _ e in
    let found = or_stop-eq-finished unset_operation (next_char line) first in
    let (r1, done, counted) =
      >>>-eq-finished (run_operation (w.clock r.ith_op) (operation_of operation) args r) _ rest in
    let (printed, bar, last) =
      >>>-eq-finished
        (or_stop division_by_zero
          (update_progress_bar w.bar w.shows (r1.ith_op + 1) w.total_operations))
        _ counted in
    let same = finished-injective _ _ last in
    let does = run_operation-Does (w.clock r.ith_op) (operation_of operation) args r done in
    (
      operation,
      args,
      found,
      sym (ap (λ (x : Run d). (x.s, x.db)) same) ∙ does.state,
      sym (ap (λ (x : Run d). contents x.stats) same) ∙ does.logged,
      sym (ap (λ (x : Run d). x.ith_op) same) ∙ ap (λ n. n + 1) does.same_op,
    )

no_requests :
    {d : Database} (w : Setting) (r : Run d) {r' : Run d}
    → r ≡ r'
    → (qs : List Request) × (◌≡◌ {A = Option (List Request)} (some []) (some qs))
      × ((r'.s, r'.db) ≡ perform_all d qs (r.s, r.db))
      × (contents r'.stats ≡ contents r.stats ++ time_lines w.clock r.ith_op qs)
      × (r'.ith_op ≡ r.ith_op + length qs)
no_requests w r same = (
  [],
  refl,
  sym (ap (λ (x : Run _). (x.s, x.db)) same),
  sym (ap (λ (x : Run _). contents x.stats) same) ∙ sym (append-nil (contents r.stats)),
  omega (arith, ap (λ (x : Run _). x.ith_op) same),
)

-- If the loop ends, each line before the first empty one has a request, the database and the last
-- status are what these requests make of them, one after the other, the statistics log has grown by
-- their times in order, and they are counted.
pub run_lines-perform_all :
    {d : Database} (w : Setting) (lines : List Text) (r : Run d) {r' : Run d}
    → run_lines w lines r ≡ finished r'
    → (qs : List Request) × (requests lines ≡ some qs)
      × ((r'.s, r'.db) ≡ perform_all d qs (r.s, r.db))
      × (contents r'.stats ≡ contents r.stats ++ time_lines w.clock r.ith_op qs)
      × (r'.ith_op ≡ r.ith_op + length qs)
unfolding run_lines requests
run_lines-perform_all w [] r e = no_requests w r (finished-injective _ _ e)
run_lines-perform_all w ([] ∷ lines) r e = no_requests w r (finished-injective _ _ e)
run_lines-perform_all {d = d} w ((c ∷ line) ∷ lines) r e =
    let (r1, first, more) = >>>-eq-finished (run_line w (c ∷ line) r) _ e in
    let (operation, args, found, state, logged, counted) = run_line-Does w (c ∷ line) r first in
    let (qs, rest, states, log, count) = run_lines-perform_all w lines r1 more in
    let q = request_of (operation_of operation) args in
    (
      q ∷ qs,
      >>=-some _ found (>>=-some _ rest refl),
      states ∙ ap (perform_all d qs) state,
      log
          ∙ ap₂ (λ (x : Text) (i : ℕ). x ++ time_lines w.clock i qs) logged counted
          ∙ append_assoc (contents r.stats) (time_line q (w.clock r.ith_op))
              (time_lines w.clock (r.ith_op + 1) qs),
      omega (arith, count, counted),
    )
