-- ===== src/Report/Setup.antt =====
-- The table of the settings has two rows of the same width.
use mathlib.Core.List.{append-nil, append_assoc}
use rocks_db_wrapper.Base.{
  ℕ, ◌+◌, ◌-◌, ◌≤◌, ◌≡◌, refl, sym, ap, ◌∙◌, true, List, [], ◌∷◌, ◌++◌, length, length-append,
  length-replicate, replicate, All, if◌then◌else◌, arith,
}
use rocks_db_wrapper.Base.Int.{ℤ, pos, ltb_ℤ}
use rocks_db_wrapper.Base.Text.{Text, pad_left}
use rocks_db_wrapper.Env.{DbEnv}
use rocks_db_wrapper.Buffer.{Buffer, endl, put, put_manip}
use rocks_db_wrapper.Buffer.Laws.{contents, put-IsInserted, put_manip-IsInserted}
use rocks_db_wrapper.Report.{
  print_column, print_columns, setup_names, setup_values, print_experimental_setup,
}

abbrev pub row : List (ℕ × Text) → Text
row [] = []
row ((width, value) ∷ columns) = pad_left width value ++ row columns

contents-print_column :
    (value : Text) (width : ℕ) (b : Buffer)
    → contents (print_column value width b) ≡ contents b ++ pad_left width value
unfolding print_column
contents-print_column value width b =
    (put-IsInserted (put (put b []) []) (pad_left width value)).0
    ∙ ap (λ x. x ++ pad_left width value)
        ((put-IsInserted (put b []) []).0
          ∙ append-nil (contents (put b []))
          ∙ (put-IsInserted b []).0
          ∙ append-nil (contents b))

contents-print_columns :
    (columns : List (ℕ × Text)) (b : Buffer)
    → contents (print_columns columns b) ≡ contents b ++ row columns
unfolding print_columns
contents-print_columns [] b = sym (append-nil (contents b))
contents-print_columns ((width, value) ∷ columns) b =
    contents-print_columns columns (print_column value width b)
    ∙ ap (λ x. x ++ row columns) (contents-print_column value width b)
    ∙ append_assoc (contents b) (pad_left width value) (row columns)

-- Every value fits into its column.
abbrev pub Fits : List (ℕ × Text) → Type 0
Fits columns = All (λ (column : ℕ × Text). length column.1 ≤ column.0) columns

abbrev total_width : List (ℕ × Text) → ℕ
total_width [] = 0
total_width ((width, value) ∷ columns) = width + total_width columns

length-pad_left :
    (width : ℕ) (value : Text) → length value ≤ width → length (pad_left width value) ≡ width
unfolding pad_left
length-pad_left width value h = omega (
  arith,
  length-append (replicate (width - length value) 32) value,
  length-replicate {A = ℕ} (width - length value) 32,
  h,
)

length-row : (columns : List (ℕ × Text)) → Fits columns → length (row columns) ≡ total_width columns
length-row [] h = refl
length-row ((width, value) ∷ columns) h = omega (
  arith,
  length-append (pad_left width value) (row columns),
  length-pad_left width value h.0,
  length-row columns h.1,
)

two_rows :
    (first second : List (ℕ × Text)) (b : Buffer)
    → contents (put_manip (print_columns second (put_manip (print_columns first b) endl)) endl)
      ≡ contents b ++ (row first ++ 10 ∷ (row second ++ 10 ∷ []))
two_rows first second b =
    let names = put_manip (print_columns first b) endl in
    (put_manip-IsInserted (print_columns second names) endl).0
    ∙ ap (λ x. x ++ 10 ∷ [])
        (contents-print_columns second names
          ∙ ap (λ x. x ++ row second)
              ((put_manip-IsInserted (print_columns first b) endl).0
                ∙ ap (λ x. x ++ 10 ∷ []) (contents-print_columns first b)))
    ∙ append_assoc ((contents b ++ row first) ++ 10 ∷ []) (row second) (10 ∷ [])
    ∙ append_assoc (contents b ++ row first) (10 ∷ []) (row second ++ 10 ∷ [])
    ∙ append_assoc (contents b) (row first) (10 ∷ (row second ++ 10 ∷ []))

printed :
    (show_double : ℤ → Text) (env : DbEnv) (b : Buffer)
    → ltb_ℤ (pos 0) env.verbosity ≡ true
    → contents (print_experimental_setup show_double env b)
      ≡ contents b ++ (row setup_names ++ 10 ∷ (row (setup_values show_double env) ++ 10 ∷ []))
unfolding print_experimental_setup
printed show_double env b loud =
    ap
      (λ v. contents (
        if v
        then put_manip
            (print_columns (setup_values show_double env)
              (put_manip (print_columns setup_names b) endl))
            endl
        else b))
      loud
    ∙ two_rows setup_names (setup_values show_double env) b

-- With a verbosity above 0, two rows are added to the log, one of names and one of values, and if all
-- values fit into their columns then each row has 104 bytes. (The names always fit.)
pub print_experimental_setup-rows :
    (show_double : ℤ → Text) (env : DbEnv) (b : Buffer)
    → ltb_ℤ (pos 0) env.verbosity ≡ true
    → Fits (setup_values show_double env)
    → (names : Text) × (values : Text) × (contents (print_experimental_setup show_double env b)
        ≡ contents b ++ (names ++ 10 ∷ (values ++ 10 ∷ [])))
      × (length names ≡ 104)
      × (length values ≡ 104)
print_experimental_setup-rows show_double env b loud fits = (
  row setup_names,
  row (setup_values show_double env),
  printed show_double env b loud,
  length-row setup_names (
    omega arith,
    (
      omega arith,
      (
        omega arith,
        (
          omega arith,
          (
            omega arith,
            (
              omega arith,
              (omega arith, (omega arith, (omega arith, (omega arith, (omega arith, tt))))),
            ),
          ),
        ),
      ),
    ),
  ),
  length-row (setup_values show_double env) fits,
)
