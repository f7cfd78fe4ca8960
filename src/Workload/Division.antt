-- ===== src/Workload/Division.antt =====
-- When the progress bar stops the loop with a division by zero.
use rocks_db_wrapper.Base.{
  ℕ, zero, suc, ◌+◌, ◌≡◌, ◌⊎◌, ◌↔◌, inl, inr, refl, sym, ap, ◌∙◌, Bool, true, false, Option, none,
  some, List, [], ◌∷◌, arith, if◌then◌else◌,
}
use rocks_db_wrapper.Base.Int.{ℤ}
use rocks_db_wrapper.Base.Text.{Text}
use rocks_db_wrapper.Workload.{
  Stop, finished, stopped, assertion_failed, division_by_zero, unset_operation, or_stop,
  or_stop-eq-finished, or_stop-eq-stopped, stopped-injective, >>>-eq-finished, >>>-eq-stopped,
  >>>-finished, >>>-stopped, Database, Run, Setting, Bar, run_operation, run_line, run_lines,
  update_progress_bar, print_bar, Operation, inserts, updates, point_deletes, point_queries,
  range_queries, range_deletes, unmatched, operation_of, next_char, next_word,
}

module _ {ℓ} {A : Type ℓ} where
  zero-none :
      (n : ℕ) (f : ℕ → A)
      → ((elim n as (λ m. Option A) [ zero ↦ none | suc m ↦ some (f m) ]) ≡ none) ↔ (n ≡ 0)
  zero-none zero f = (λ e. refl, λ e. refl)
  zero-none (suc m) f = (λ e. absurd (cc e), λ e. absurd (omega (arith, e)))

bar-none :
    (bar : Bar) (shows : Bool) (current total : ℕ)
    → (update_progress_bar bar shows current total ≡ none)
      ↔ ((shows ≡ true) × (bar.interval total ≡ 0))
unfolding update_progress_bar
bar-none bar false current total = (λ e. absurd (cc e), λ h. absurd (cc (h.0)))
bar-none bar true current total =
    let rule = zero-none (bar.interval total) (λ n. print_bar bar (suc n) current total) in
    (λ e. (refl, rule.0 e), λ h. rule.1 h.1)

module _ {d : Database} where
  -- A scan runs if its new iterator is ok, and any other operation runs.
  abbrev pub runs : Operation → Text → Run d → Bool
  runs range_queries args r = (d.new_iterator (next_word args).0 r.db).status.ok
  runs op args r = true

  -- The first line is not empty, and its operation runs.
  abbrev pub FirstRuns : List Text → Run d → Type 0
  FirstRuns [] r = ⊥
  FirstRuns ([] ∷ lines) r = ⊥
  FirstRuns ((c ∷ line) ∷ lines) r =
      (operation : ℕ) × (args : Text) × (next_char (c ∷ line) ≡ some (operation, args))
      × (runs (operation_of operation) args r ≡ true)

  if-outcome :
      (test : Bool) (a : Run d) (s : Stop)
      → ((test ≡ true) × ((r : Run d) × ((if test then finished a else stopped s) ≡ finished r)))
        ⊎ ((test ≡ false) × ((if test then finished a else stopped s) ≡ stopped s))
  if-outcome true a s = inl (refl, (a, refl))
  if-outcome false a s = inr (refl, refl)

  -- An operation ends in one of two ways.
  operation-outcome :
      (t : ℤ) (op : Operation) (args : Text) (r : Run d)
      → ((runs op args r ≡ true) × ((r' : Run d) × (run_operation t op args r ≡ finished r')))
        ⊎ ((runs op args r ≡ false)
            × (run_operation t op args r ≡ stopped (assertion_failed r.cerr)))
  unfolding run_operation
  operation-outcome t inserts args r = inl (refl, (_, refl))
  operation-outcome t updates args r = inl (refl, (_, refl))
  operation-outcome t point_deletes args r = inl (refl, (_, refl))
  operation-outcome t point_queries args r = inl (refl, (_, refl))
  operation-outcome t range_queries args r =
      if-outcome (d.new_iterator (next_word args).0 r.db).status.ok _ (assertion_failed r.cerr)
  operation-outcome t range_deletes args r = inl (refl, (_, refl))
  operation-outcome t unmatched args r = inl (refl, (_, refl))

  line-division :
      (w : Setting) (line : Text) (r : Run d)
      → run_line w line r ≡ stopped division_by_zero
      → (w.shows ≡ true)
        × (w.bar.interval w.total_operations ≡ 0)
        × (operation : ℕ) × (args : Text) × (next_char line ≡ some (operation, args))
        × (runs (operation_of operation) args r ≡ true)
  unfolding run_line
  line-division w line r e = elim (>>>-eq-stopped (or_stop unset_operation (next_char line)) _ e) [
    | inl unset ↦ absurd (cc (or_stop-eq-stopped unset_operation division_by_zero _ unset).1)
    | inr ((operation, args), first, rest) ↦
        let found = or_stop-eq-finished unset_operation (next_char line) first in
        elim (operation-outcome (w.clock r.ith_op) (operation_of operation) args r) [
          | inl (fine, (r1, done)) ↦
              let bar = sym (>>>-finished _ done refl) ∙ rest in
              elim (>>>-eq-stopped
                (or_stop division_by_zero
                  (update_progress_bar w.bar w.shows (r1.ith_op + 1) w.total_operations))
                _ bar) [
                  | inl divided ↦
                      let (on, zero_interval) =
                        (bar-none w.bar w.shows (r1.ith_op + 1) w.total_operations).0
                          (or_stop-eq-stopped division_by_zero division_by_zero _ divided).0 in
                      (on, zero_interval, operation, args, found, fine)
                  | inr (printed, shown, last) ↦ absurd (cc last)
                ]
          | inr (fails, failed) ↦
              absurd (cc (stopped-injective _ _ (sym (>>>-stopped _ failed) ∙ rest)))
        ]
  ]

  -- A line that is finished has passed the bar.
  line-bar :
      (w : Setting) (line : Text) (r : Run d) {r' : Run d}
      → run_line w line r ≡ finished r'
      → (current : ℕ) × (printed : Text) × (update_progress_bar w.bar w.shows current
            w.total_operations
          ≡ some printed)
  unfolding run_line
  line-bar w line r e =
      let ((operation, args), first, rest) =
        >>>-eq-finished (or_stop unset_operation (next_char line)) _ e in
      let (r1, done, counted) =
        >>>-eq-finished (run_operation (w.clock r.ith_op) (operation_of operation) args r) _ rest in
      let (printed, shown, last) =
        >>>-eq-finished
          (or_stop division_by_zero
            (update_progress_bar w.bar w.shows (r1.ith_op + 1) w.total_operations))
          _ counted in
      (r1.ith_op + 1, printed, or_stop-eq-finished division_by_zero _ shown)

  lines-division :
      (w : Setting) (lines : List Text) (r : Run d)
      → run_lines w lines r ≡ stopped division_by_zero
      → (w.shows ≡ true) × (w.bar.interval w.total_operations ≡ 0) × FirstRuns lines r
  unfolding run_lines
  lines-division w [] r e = absurd (cc e)
  lines-division w ([] ∷ lines) r e = absurd (cc e)
  lines-division w ((c ∷ line) ∷ lines) r e = elim (>>>-eq-stopped (run_line w (c ∷ line) r) _ e) [
    | inl divided ↦
        let (on, zero_interval, operation, args, found, fine) =
          line-division w (c ∷ line) r divided in
        (on, zero_interval, (operation, args, found, fine))
    | inr (r1, first, more) ↦
        let (on, zero_interval, later) = lines-division w lines r1 more in
        let (current, printed, shown) = line-bar w (c ∷ line) r first in
        absurd (
          cc (
            sym ((bar-none w.bar w.shows current w.total_operations).1 (on, zero_interval))
            ∙ shown))
  ]

  division-line :
      (w : Setting) (line : Text) (r : Run d) {operation : ℕ} {args : Text}
      → w.shows ≡ true
      → w.bar.interval w.total_operations ≡ 0
      → next_char line ≡ some (operation, args)
      → runs (operation_of operation) args r ≡ true
      → run_line w line r ≡ stopped division_by_zero
  unfolding run_line
  division-line w line r {operation} {args} on zero_interval found fine =
      elim (operation-outcome (w.clock r.ith_op) (operation_of operation) args r) [
        | inl (same, (r1, done)) ↦
            let bar =
              (bar-none w.bar w.shows (r1.ith_op + 1) w.total_operations).1 (on, zero_interval) in
            >>>-finished _ (ap (or_stop unset_operation) found)
              (>>>-finished _ done (>>>-stopped _ (ap (or_stop division_by_zero) bar)))
        | inr (fails, failed) ↦ absurd (cc (sym fine ∙ fails))
      ]

  lines_from :
      (w : Setting) (lines : List Text) (r : Run d)
      → (w.shows ≡ true) × (w.bar.interval w.total_operations ≡ 0) × FirstRuns lines r
      → run_lines w lines r ≡ stopped division_by_zero
  unfolding run_lines
  lines_from w [] r (on, zero_interval, first) = absurd first
  lines_from w ([] ∷ lines) r (on, zero_interval, first) = absurd first
  lines_from w ((c ∷ line) ∷ lines) r (on, zero_interval, (operation, args, found, fine)) =
      >>>-stopped _ (division-line w (c ∷ line) r on zero_interval found fine)

-- The loop stops by a division by zero if and only if the progress bar is on, its interval is zero,
-- and the first line is not empty, has an operation, and does not fail the assertion of a scan.
pub run_lines-division_by_zero :
    {d : Database} (w : Setting) (lines : List Text) (r : Run d)
    → (run_lines w lines r ≡ stopped division_by_zero)
      ↔ ((w.shows ≡ true) × (w.bar.interval w.total_operations ≡ 0) × FirstRuns lines r)
run_lines-division_by_zero w lines r = (lines-division w lines r, lines_from w lines r)
