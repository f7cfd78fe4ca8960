-- ===== src/Workload/Total.antt =====
-- When the loop reaches its end.
use rocks_db_wrapper.Base.{
  ℕ, zero, suc, ◌+◌, ◌≡◌, ◌≢◌, ◌⊎◌, inl, inr, refl, ap, Bool, true, false, none, some, List, [],
  ◌∷◌, >>=-eq-some, if◌then◌else◌,
}
use rocks_db_wrapper.Base.Int.{ℤ}
use rocks_db_wrapper.Base.Text.{Text}
use rocks_db_wrapper.Workload.{
  Stop, finished, stopped, division_by_zero, unset_operation, or_stop, >>>-finished, Database, Run,
  Setting, Bar, run_operation, run_line, run_lines, update_progress_bar, print_bar, Operation,
  inserts, updates, point_deletes, point_queries, range_queries, range_deletes, unmatched,
  operation_of, next_char, next_word,
}
use rocks_db_wrapper.Workload.Requests.{Request, requests}

-- The bar is off, or its interval is not zero.
abbrev pub CanShow : Setting → Type 0
CanShow w = (w.shows ≡ false) ⊎ (w.bar.interval w.total_operations ≢ 0)

positive-some :
    (n : ℕ) (text : ℕ → Text)
    → n ≢ 0
    → (printed : Text) × ((elim n [ zero ↦ none | suc m ↦ some (text (suc m)) ]) ≡ some printed)
positive-some zero text nonzero = absurd (nonzero refl)
positive-some (suc m) text nonzero = (text (suc m), refl)

pub bar-some :
    (bar : Bar) (shows : Bool) (current total : ℕ)
    → (shows ≡ false) ⊎ (bar.interval total ≢ 0)
    → (printed : Text) × (update_progress_bar bar shows current total ≡ some printed)
unfolding update_progress_bar
bar-some bar false current total can = ([], refl)
bar-some bar true current total (inl off) = absurd (cc off)
bar-some bar true current total (inr nonzero) =
    positive-some (bar.interval total) (λ n. print_bar bar n current total) nonzero

if-finished {ℓ} :
    {A : Type ℓ} (test : Bool) (a : A) (s : Stop)
    → test ≡ true
    → (b : A) × ((if test then finished a else stopped s) ≡ finished b)
if-finished true a s e = (a, refl)
if-finished false a s e = absurd (cc e)

operation-finished :
    {d : Database} (t : ℤ) (op : Operation) (args : Text) (r : Run d)
    → ((key : Text) (db : d.State) → (d.new_iterator key db).status.ok ≡ true)
    → (r' : Run d) × (run_operation t op args r ≡ finished r')
unfolding run_operation
operation-finished t inserts args r opens = (_, refl)
operation-finished t updates args r opens = (_, refl)
operation-finished t point_deletes args r opens = (_, refl)
operation-finished t point_queries args r opens = (_, refl)
operation-finished t range_queries args r opens = if-finished _ _ _ (opens (next_word args).0 r.db)
operation-finished t range_deletes args r opens = (_, refl)
operation-finished t unmatched args r opens = (_, refl)

line-finished :
    {d : Database} (w : Setting) (line : Text) (r : Run d) {first : ℕ × Text}
    → next_char line ≡ some first
    → CanShow w
    → ((key : Text) (db : d.State) → (d.new_iterator key db).status.ok ≡ true)
    → (r' : Run d) × (run_line w line r ≡ finished r')
unfolding run_line
line-finished w line r {first = first} found can opens =
    let (r1, done) = operation-finished (w.clock r.ith_op) (operation_of first.0) first.1 r opens in
    let (printed, shown) = bar-some w.bar w.shows (r1.ith_op + 1) w.total_operations can in
    (
      _,
      >>>-finished _ (ap (or_stop unset_operation) found)
          (>>>-finished _ done (>>>-finished _ (ap (or_stop division_by_zero) shown) refl)),
    )

-- The loop reaches its end if every line before the first empty one has a request, iterators open, and
-- the progress bar is off or its interval is not zero.
pub run_lines-finished :
    {d : Database} (w : Setting) (lines : List Text) (r : Run d) {qs : List Request}
    → requests lines ≡ some qs
    → CanShow w
    → ((key : Text) (db : d.State) → (d.new_iterator key db).status.ok ≡ true)
    → (r' : Run d) × (run_lines w lines r ≡ finished r')
unfolding run_lines requests
run_lines-finished w [] r e can opens = (r, refl)
run_lines-finished w ([] ∷ lines) r e can opens = (r, refl)
run_lines-finished w ((c ∷ line) ∷ lines) r e can opens =
    let (first, found, more) = >>=-eq-some (next_char (c ∷ line)) _ e in
    let (qs, rest, last) = >>=-eq-some (requests lines) _ more in
    let (r1, here) = line-finished w (c ∷ line) r found can opens in
    let (r2, there) = run_lines-finished w lines r1 rest can opens in
    (r2, >>>-finished _ here there)
