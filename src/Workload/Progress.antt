-- ===== src/Workload/Progress.antt =====
-- UpdateProgressBar of src/utils.cc, with the interval that the runner gives it.
use rocks_db_wrapper.Base.{
  ℕ, zero, suc, ◌+◌, ◌%◌, Bool, true, false, ◌||◌, Option, none, some, [], ◌∷◌, ◌++◌, if◌then◌else◌,
  ltb, ◌==◌,
}
use rocks_db_wrapper.Base.Text.{Text, codes}

-- The floating point of the bar: `(int)total * 0.02` as a size_t, `bar_width * (current / total)` as a
-- size_t, and how `progress * 100.0` prints with two digits.
pub record Bar : Type 0 where
  pub interval : ℕ → ℕ
  pub position : ℕ → ℕ → ℕ → ℕ
  pub percent : ℕ → ℕ → Text

-- The default of `bar_width`.
abbrev pub bar_width : ℕ
bar_width = 50

abbrev pub bar_cell : ℕ → ℕ → ℕ
bar_cell pos i = if ltb i pos then 61 else if i == pos then 62 else 32

-- The cells from `i` on, with the number of those left.
unfoldable pub bar_cells : ℕ → ℕ → ℕ → Text
bar_cells pos i zero = []
bar_cells pos i (suc left) = bar_cell pos i ∷ bar_cells pos (i + 1) left

-- The bar is printed at each multiple of the interval and at the end.
unfoldable pub print_bar : Bar → ℕ → ℕ → ℕ → Text
unfolding bar_cells
print_bar bar update_interval current total =
    if current % update_interval == 0 || (current == total)
    then codes "["
      ++ bar_cells (bar.position bar_width current total) 0 bar_width
      ++ codes "] "
      ++ bar.percent current total
      ++ 37 ∷ 13 ∷ []
    else []

-- What is printed; `none` is the remainder of a division by zero.
unfoldable pub update_progress_bar : Bar → Bool → ℕ → ℕ → Option Text
unfolding print_bar
update_progress_bar bar false current total = some []
update_progress_bar bar true current total = elim (bar.interval total) [
  | zero ↦ none
  | suc n ↦ some (print_bar bar (suc n) current total)
]
