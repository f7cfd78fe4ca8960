-- ===== src/Workload/Times/Sums.antt =====
-- The totals after the loop.
use rocks_db_wrapper.Base.{
  ℕ, ◌+◌, ◌%◌, ◌^◌, ◌<◌, ◌≡◌, refl, sym, ap, ◌∙◌, some, List, [], ◌∷◌, >>=-some, arith,
}
use rocks_db_wrapper.Base.Text.{Text}
use rocks_db_wrapper.Workload.{
  finished, division_by_zero, unset_operation, or_stop, >>>-eq-finished, or_stop-eq-finished,
  finished-injective, Database, Run, Setting, run_operation, run_line, run_lines,
  update_progress_bar, operation_of, next_char,
}
use rocks_db_wrapper.Workload.Requests.{Request, request_of, requests}
use rocks_db_wrapper.Workload.Effects.{run_line-Does}
use rocks_db_wrapper.Workload.Times.{
  Total, inserts_total, updates_total, point_query_total, point_delete_total, range_query_total,
  time_of, cost, sum_of_times, Adds, run_operation-Adds,
}

-- What the counting of a line does to the totals: nothing.
counted-time :
    {d : Database} (k : Total) (r : Run d) (n : ℕ) (cerr : Text)
    → time_of k (record r { ith_op = n; cerr = cerr }) ≡ time_of k r
counted-time inserts_total r n cerr = refl
counted-time updates_total r n cerr = refl
counted-time point_delete_total r n cerr = refl
counted-time point_query_total r n cerr = refl
counted-time range_query_total r n cerr = refl

counted-Adds :
    {d : Database} (k : Total) (t : ℕ) (r r1 : Run d) {r' : Run d} (n : ℕ) (cerr : Text)
    → Adds k t r r1
    → record r1 { ith_op = n; cerr = cerr } ≡ r'
    → Adds k t r r'
unfolding Adds
counted-Adds k t r r1 n cerr adds same = sym (ap (time_of k) same) ∙ counted-time k r1 n cerr ∙ adds

run_line-Adds :
    {d : Database} (k : Total) (w : Setting) (line : Text) (r : Run d) {r' : Run d}
    → run_line w line r ≡ finished r'
    → time_of k r < 2 ^ 64
    → (operation : ℕ) × (args : Text) × (next_char line ≡ some (operation, args))
      × Adds k (cost k (request_of (operation_of operation) args) (w.clock r.ith_op)) r r'
unfolding run_line
run_line-Adds k w line r e h =
    let ((operation, args), first, rest) =
      >>>-eq-finished (or_stop unset_operation (next_char line)) _ e in
    let found = or_stop-eq-finished unset_operation (next_char line) first in
    let (r1, done, counted) =
      >>>-eq-finished (run_operation (w.clock r.ith_op) (operation_of operation) args r) _ rest in
    let (printed, bar, last) =
      >>>-eq-finished
        (or_stop division_by_zero
          (update_progress_bar w.bar w.shows (r1.ith_op + 1) w.total_operations))
        _ counted in
    let adds = run_operation-Adds k (w.clock r.ith_op) (operation_of operation) args r done h in
    (
      operation,
      args,
      found,
      counted-Adds k (cost k (request_of (operation_of operation) args) (w.clock r.ith_op)) r r1 _ _
          adds (finished-injective _ _ last),
    )

-- If the loop ends, each total is what it was at the start plus the times of the requests of its
-- kind, modulo 2^64: each request counts towards the total of its own kind and towards no other.
-- The total at the start fits the type.
pub run_lines-sum_of_times :
    {d : Database} (k : Total) (w : Setting) (lines : List Text) (r : Run d) {r' : Run d}
    → run_lines w lines r ≡ finished r'
    → time_of k r < 2 ^ 64
    → (qs : List Request) × (requests lines ≡ some qs)
      × (time_of k r' ≡ (time_of k r + sum_of_times k w.clock r.ith_op qs) % 2 ^ 64)
unfolding run_lines requests Adds
run_lines-sum_of_times k w [] r e h =
    ([], refl, omega (arith, ap (time_of k) (finished-injective _ _ e)))
run_lines-sum_of_times k w ([] ∷ lines) r e h =
    ([], refl, omega (arith, ap (time_of k) (finished-injective _ _ e)))
run_lines-sum_of_times k w ((c ∷ line) ∷ lines) r e h =
    let (r1, first, more) = >>>-eq-finished (run_line w (c ∷ line) r) _ e in
    let (operation, args, found, adds) = run_line-Adds k w (c ∷ line) r first h in
    let (_, _, _, _, _, counted) = run_line-Does w (c ∷ line) r first in
    let (qs, rest, total) = run_lines-sum_of_times k w lines r1 more (omega (arith, adds)) in
    let q = request_of (operation_of operation) args in
    (
      q ∷ qs,
      >>=-some _ found (>>=-some _ rest refl),
      total
          ∙ ap (λ i. (time_of k r1 + sum_of_times k w.clock i qs) % 2 ^ 64) counted
          ∙ omega (arith, adds),
    )
