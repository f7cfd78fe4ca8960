-- ===== src/Workload/Times.antt =====
-- The five totals of the run are sums of its measured times.
pub mod Sums
use rocks_db_wrapper.Base.{
  if_else_none, ℕ, ◌+◌, ◌%◌, ◌^◌, ◌<◌, ◌≡◌, refl, sym, ap, subst, ◌∙◌, Bool, true, false, some,
  some-injective, List, [], ◌∷◌, >>=-eq-some, >>=-some, if◌then◌else◌, arith,
}
use rocks_db_wrapper.Base.Int.{ℤ, to_unsigned}
use rocks_db_wrapper.Base.Text.{Text}
use rocks_db_wrapper.Buffer.{Buffer}
use rocks_db_wrapper.Workload.{
  Outcome, finished, stopped, assertion_failed, division_by_zero, unset_operation, or_stop,
  >>>-eq-finished, or_stop-eq-finished, finished-injective, if_else_stopped, Database, Run, Setting,
  add_time, insert, update_key, point_delete, point_query, range_delete, no_match, run_operation,
  run_line, run_lines, update_progress_bar, Operation, inserts, updates, point_deletes,
  point_queries, range_queries, range_deletes, unmatched, operation_of, next_char, next_word,
}
use rocks_db_wrapper.Workload.Requests.{
  Request, insert_request, update_request, delete_request, query_request, scan_request, request_of,
  requests,
}
use rocks_db_wrapper.Workload.Effects.{run_line-Does}

-- The five lines of the log with a total.
pub data Total : Type 0 where
  inserts_total updates_total point_query_total point_delete_total range_query_total : Total

abbrev pub time_of : {d : Database} → Total → Run d → ℕ
time_of inserts_total r = r.inserts_exec_time
time_of updates_total r = r.updates_exec_time
time_of point_query_total r = r.pq_exec_time
time_of point_delete_total r = r.pdelete_exec_time
time_of range_query_total r = r.rq_exec_time

-- Does a request count towards a total? Range deletes count towards none.
abbrev pub counts_for : Total → Request → Bool
counts_for inserts_total (insert_request key value) = true
counts_for updates_total (update_request key value) = true
counts_for point_query_total (query_request key) = true
counts_for point_delete_total (delete_request key) = true
counts_for range_query_total (scan_request start_key end_key) = true
counts_for k q = false

-- The sum of the times of the requests that count, without wrapping; a time is read as an unsigned
-- long.
abbrev cost : Total → Request → ℤ → ℕ
cost k q t = if counts_for k q then to_unsigned (2 ^ 64) t else 0

abbrev pub sum_of_times : Total → (ℕ → ℤ) → ℕ → List Request → ℕ
sum_of_times k clock i [] = 0
sum_of_times k clock i (q ∷ qs) = cost k q (clock i) + sum_of_times k clock (i + 1) qs

pub Adds : {d : Database} → Total → ℕ → Run d → Run d → Type 0
Adds k n r r' = time_of k r' ≡ (time_of k r + n) % 2 ^ 64

insert-Adds :
    {d : Database} (k : Total) (t : ℤ) (args : Text) (r : Run d)
    → time_of k r < 2 ^ 64
    → Adds k (cost k (request_of inserts args) t) r (insert t args r)
unfolding insert Adds
insert-Adds inserts_total t args r h = refl
insert-Adds updates_total t args r h = omega arith
insert-Adds point_query_total t args r h = omega arith
insert-Adds point_delete_total t args r h = omega arith
insert-Adds range_query_total t args r h = omega arith

update_key-Adds :
    {d : Database} (k : Total) (t : ℤ) (args : Text) (r : Run d)
    → time_of k r < 2 ^ 64
    → Adds k (cost k (request_of updates args) t) r (update_key t args r)
unfolding update_key Adds
update_key-Adds inserts_total t args r h = omega arith
update_key-Adds updates_total t args r h = refl
update_key-Adds point_delete_total t args r h = omega arith
update_key-Adds point_query_total t args r h = omega arith
update_key-Adds range_query_total t args r h = omega arith

point_delete-Adds :
    {d : Database} (k : Total) (t : ℤ) (args : Text) (r : Run d)
    → time_of k r < 2 ^ 64
    → Adds k (cost k (request_of point_deletes args) t) r (point_delete t args r)
unfolding point_delete Adds
point_delete-Adds inserts_total t args r h = omega arith
point_delete-Adds updates_total t args r h = omega arith
point_delete-Adds point_delete_total t args r h = refl
point_delete-Adds point_query_total t args r h = omega arith
point_delete-Adds range_query_total t args r h = omega arith

point_query-Adds :
    {d : Database} (k : Total) (t : ℤ) (args : Text) (r : Run d)
    → time_of k r < 2 ^ 64
    → Adds k (cost k (request_of point_queries args) t) r (point_query t args r)
unfolding point_query Adds
point_query-Adds inserts_total t args r h = omega arith
point_query-Adds updates_total t args r h = omega arith
point_query-Adds point_delete_total t args r h = omega arith
point_query-Adds point_query_total t args r h = refl
point_query-Adds range_query_total t args r h = omega arith

-- A run whose totals are those of `r`, but for the scans' total.
scanned-Adds :
    {d : Database} (k : Total) (t : ℤ) (args : Text) (r : Run d) (buffer stats : Buffer)
    → time_of k r < 2 ^ 64
    → Adds k
        (cost k (request_of range_queries args) t)
        r
        (record r { buffer = buffer; stats = stats; rq_exec_time = add_time r.rq_exec_time t })
unfolding Adds
scanned-Adds inserts_total t args r buffer stats h = omega arith
scanned-Adds updates_total t args r buffer stats h = omega arith
scanned-Adds point_delete_total t args r buffer stats h = omega arith
scanned-Adds point_query_total t args r buffer stats h = omega arith
scanned-Adds range_query_total t args r buffer stats h = refl

-- The totals do not see the database, the logs and the counters.
kept-Adds :
    {d : Database} (k : Total) {n : ℕ}
    → 0 ≡ n
    → (r r' : Run d) → ((k : Total) → time_of k r' ≡ time_of k r)
    → time_of k r < 2 ^ 64
    → Adds k n r r'
unfolding Adds
kept-Adds k zero_cost r r' same h = omega (arith, zero_cost, same k)

range_delete-cost : (k : Total) (t : ℤ) (args : Text) → cost k (request_of range_deletes args) t ≡ 0
range_delete-cost inserts_total t args = refl
range_delete-cost updates_total t args = refl
range_delete-cost point_delete_total t args = refl
range_delete-cost point_query_total t args = refl
range_delete-cost range_query_total t args = refl

no_match-cost : (k : Total) (t : ℤ) (args : Text) → cost k (request_of unmatched args) t ≡ 0
no_match-cost inserts_total t args = refl
no_match-cost updates_total t args = refl
no_match-cost point_delete_total t args = refl
no_match-cost point_query_total t args = refl
no_match-cost range_query_total t args = refl

range_delete-kept :
    {d : Database} (args : Text) (r : Run d) (k : Total)
    → time_of k (range_delete args r) ≡ time_of k r
unfolding range_delete
range_delete-kept args r inserts_total = refl
range_delete-kept args r updates_total = refl
range_delete-kept args r point_delete_total = refl
range_delete-kept args r point_query_total = refl
range_delete-kept args r range_query_total = refl

no_match-kept : {d : Database} (r : Run d) (k : Total) → time_of k (no_match r) ≡ time_of k r
unfolding no_match
no_match-kept r inserts_total = refl
no_match-kept r updates_total = refl
no_match-kept r point_delete_total = refl
no_match-kept r point_query_total = refl
no_match-kept r range_query_total = refl

pub run_operation-Adds :
    {d : Database} (k : Total) (t : ℤ) (op : Operation) (args : Text) (r : Run d) {r' : Run d}
    → run_operation t op args r ≡ finished r'
    → time_of k r < 2 ^ 64
    → Adds k (cost k (request_of op args) t) r r'
unfolding run_operation
run_operation-Adds k t inserts args r e h =
    subst (Adds k _ r) (finished-injective _ _ e) (insert-Adds k t args r h)
run_operation-Adds k t updates args r e h =
    subst (Adds k _ r) (finished-injective _ _ e) (update_key-Adds k t args r h)
run_operation-Adds k t point_deletes args r e h =
    subst (Adds k _ r) (finished-injective _ _ e) (point_delete-Adds k t args r h)
run_operation-Adds k t point_queries args r e h =
    subst (Adds k _ r) (finished-injective _ _ e) (point_query-Adds k t args r h)
run_operation-Adds {d = d} k t range_queries args r e h =
    subst (Adds k _ r)
      (finished-injective _ _
        (if_else_stopped (d.new_iterator (next_word args).0 r.db).status.ok _ e))
      (scanned-Adds k t args r _ _ h)
run_operation-Adds k t range_deletes args r e h =
    subst (Adds k _ r) (finished-injective _ _ e)
      (kept-Adds k (sym (range_delete-cost k t args)) r _ (range_delete-kept args r) h)
run_operation-Adds k t unmatched args r e h =
    subst (Adds k _ r) (finished-injective _ _ e)
      (kept-Adds k (sym (no_match-cost k t args)) r _ (no_match-kept r) h)
