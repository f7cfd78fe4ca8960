-- ===== src/Workload/Returned.antt =====
-- What is true when the whole run returns.
use rocks_db_wrapper.Base.{
  ℕ, ◌≡◌, refl, sym, ap, ◌∙◌, Bool, true, false, Option, none, some, some-injective, List, [],
  if◌then◌else◌,
}
use rocks_db_wrapper.Base.Text.{Text}
use rocks_db_wrapper.Env.{DbEnv}
use rocks_db_wrapper.Buffer.{Buffer, flush_buffer}
use rocks_db_wrapper.Buffer.Laws.{flush_buffer_lem}
use rocks_db_wrapper.Workload.{
  Outcome, finished, stopped, assertion_failed, division_by_zero, unset_operation, Status, Database,
  Run, lines_of, run_lines,
}
use rocks_db_wrapper.Workload.Requests.{Request, requests, perform_all, time_lines}
use rocks_db_wrapper.Workload.Effects.{run_lines-perform_all}
use rocks_db_wrapper.Workload.Finish.{
  World, WorkloadResult, workload_returned, aborted, finish_workload, start_run, setting,
  end_of_loop, run_opened, run_workload,
}

-- What a result holds.
returned_code : {d : Database} → ℕ → WorkloadResult d → ℕ
returned_code n (workload_returned code buffer stats db cerr) = code
returned_code n (aborted cerr) = n

returned_buffer : {d : Database} → Buffer → WorkloadResult d → Buffer
returned_buffer b (workload_returned code buffer stats db cerr) = buffer
returned_buffer b (aborted cerr) = b

returned_stats : {d : Database} → Buffer → WorkloadResult d → Buffer
returned_stats b (workload_returned code buffer stats db cerr) = stats
returned_stats b (aborted cerr) = b

returned_db : {d : Database} → d.State → WorkloadResult d → d.State
returned_db x (workload_returned code buffer stats db cerr) = db
returned_db x (aborted cerr) = x

checked :
    {d : Database} (ok : Bool) (x : WorkloadResult d) (text : Text) {code : ℕ} {b st : Buffer}
    {db : d.State} {cerr : Text}
    → (if ok then x else aborted text) ≡ workload_returned code b st db cerr
    → (ok ≡ true) × (x ≡ workload_returned code b st db cerr)
checked true x text e = (refl, e)
checked false x text e = absurd (cc e)

finish_workload-returned :
    {d : Database} (env : DbEnv) (world : World d) (r : Run d) {code : ℕ} {b st : Buffer}
    {db : d.State} {cerr : Text}
    → finish_workload env world r ≡ workload_returned code b st db cerr
    → (r.s.ok ≡ true)
      × ((d.close r.db).0.ok ≡ true)
      × (code ≡ 0)
      × (db ≡ (d.close r.db).1)
      × (st ≡ flush_buffer r.stats)
      × (b.buffer ≡ [])
unfolding finish_workload returned_code returned_buffer returned_stats returned_db
finish_workload-returned {d = d} env world r {b = b} {st = st} {db = db} e =
    let (ok, e1) = checked r.s.ok _ _ e in
    let (closed, e2) = checked (d.close r.db).0.ok _ _ e1 in
    (
      ok,
      closed,
      sym (ap (returned_code 0) e2),
      sym (ap (returned_db db) e2),
      sym (ap (returned_stats st) e2),
      sym (ap (λ x. (returned_buffer b x).buffer) e2)
          ∙ ap (λ (x : Buffer). x.buffer) (flush_buffer_lem _),
    )

all_opened {ℓ} :
    {A : Type ℓ} (opens_buffer opens_stats ok : Bool) (started failed : A) (result : A) (other : A)
    → (if opens_buffer
        then if opens_stats then if ok then started else failed else other
        else other)
      ≡ result
    → (failed ≡ result → ⊥)
    → (other ≡ result → ⊥)
    → started ≡ result
all_opened true true true started failed result other e f o = e
all_opened true true false started failed result other e f o = absurd (f e)
all_opened true false ok started failed result other e f o = absurd (o e)
all_opened false opens_stats ok started failed result other e f o = absurd (o e)

-- What holds of a run that returned, by the workload's requests.
abbrev pub HasReturned :
    {d : Database} → World d → ℕ → Buffer → Buffer → d.State → List Request → Type 0
HasReturned {d = d} world code b st db qs =
    (code ≡ 0)
    × ((perform_all d qs world.opened).0.ok ≡ true)
    × ((d.close (perform_all d qs world.opened).1).0.ok ≡ true)
    × (db ≡ (d.close (perform_all d qs world.opened).1).1)
    × (st.output_file ≡ time_lines world.clock 0 qs)
    × (st.buffer ≡ [])
    × (b.buffer ≡ [])

end_of_loop-returned :
    {d : Database} (env : DbEnv) (world : World d) (o : Outcome (Run d)) {code : ℕ} {b st : Buffer}
    {db : d.State} {cerr : Text}
    → end_of_loop env world o ≡ some (workload_returned code b st db cerr)
    → (r : Run d) × (o ≡ finished r)
      × (finish_workload env world r ≡ workload_returned code b st db cerr)
end_of_loop-returned env world (finished r) e = (r, refl, some-injective _ _ e)
end_of_loop-returned env world (stopped (assertion_failed text)) e = absurd (cc e)
end_of_loop-returned env world (stopped division_by_zero) e = absurd (cc e)
end_of_loop-returned env world (stopped unset_operation) e = absurd (cc e)

run_opened-returned :
    {d : Database} (env : DbEnv) (world : World d) (text : Text) (workload : Option Text) {code : ℕ}
    {b st : Buffer} {db : d.State} {cerr : Text}
    → run_opened env world text workload ≡ some (workload_returned code b st db cerr)
    → (lines : Text) × (workload ≡ some lines)
      × (qs : List Request) × (requests (lines_of lines) ≡ some qs)
      × HasReturned world code b st db qs
unfolding run_opened start_run
run_opened-returned env world text none e = absurd (cc e)
run_opened-returned {d = d} env world text (some lines) {b = b} {st = st} e =
    let (r, ran, ended) =
      end_of_loop-returned env world
        (run_lines (setting env world lines) (lines_of lines) (start_run env world text)) e in
    let (ok, closed, code, db, stats, log) = finish_workload-returned env world r ended in
    let (qs, found, state, times, count) =
      run_lines-perform_all (setting env world lines) (lines_of lines) (start_run env world text)
        ran in
    let flushed = stats ∙ flush_buffer_lem r.stats in
    (
      lines,
      refl,
      qs,
      found,
      (
        code,
        ap (λ (p : Status × d.State). p.0.ok) (sym state) ∙ ok,
        ap (λ (p : Status × d.State). (d.close p.1).0.ok) (sym state) ∙ closed,
        db ∙ ap (λ (p : Status × d.State). (d.close p.1).1) state,
        ap (λ (x : Buffer). x.output_file) flushed ∙ times,
        ap (λ (x : Buffer). x.buffer) flushed,
        log,
      ),
    )

-- If the run returns, then it returns 0, every line before the first empty one has a request, the
-- status after the last of these requests was ok and so was that of closing the database that they
-- leave, and both logs are written out: the statistics are the times of the requests in order.
pub run_workload-HasReturned :
    {d : Database} (env : DbEnv) (world : World d) {code : ℕ} {b st : Buffer} {db : d.State}
    {cerr : Text}
    → run_workload env world ≡ some (workload_returned code b st db cerr)
    → (lines : Text) × (world.workload ≡ some lines)
      × (qs : List Request) × (requests (lines_of lines) ≡ some qs)
      × HasReturned world code b st db qs
unfolding run_workload
run_workload-HasReturned env world e = run_opened-returned env world _ world.workload (
    all_opened world.opens_buffer world.opens_stats world.opened.0.ok _ _ _ _ e (λ f. absurd (cc f))
      (λ o. absurd (cc o)))
