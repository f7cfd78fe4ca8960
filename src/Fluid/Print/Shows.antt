-- ===== src/Fluid/Print/Shows.antt =====
-- What PrintFluidLSM shows of the tree.
use mathlib.Core.List.{append-nil}
use rocks_db_wrapper.Base.{
  none, ℕ, zero, suc, ◌+◌, ◌≤◌, ◌<◌, ◌≡◌, refl, sym, ap, ap₂, ◌∙◌, not, ◌||◌, true, false, some,
  some-injective, List, [], ◌∷◌, ◌++◌, >>=-eq-some, >>=-some, if◌then◌else◌, length, get_elem?,
  get_elem?-some, Bool-cases, inl, inr, arith,
}
use rocks_db_wrapper.Fluid.Tree.{SstFile, Run, LazyLevel, is_empty, largest_occupied_level}
use rocks_db_wrapper.Fluid.Tree.Largest.{
  has_files, largest_occupied_level_lem, largest_occupied_level-lt,
}
use rocks_db_wrapper.Fluid.Build.Files.{run_files, tree_files}
use rocks_db_wrapper.Fluid.Print.{
  Line, level_header, run_header, file_line, end_line, lines_text, file_lines, lines_of_runs,
  lines_of_levels, print_fluid_lsm,
}

-- The files that some lines show, in order.
abbrev pub shown : List Line → List SstFile
shown [] = []
shown (file_line file ∷ lines) = file ∷ shown lines
shown (line ∷ lines) = shown lines

shown-append : (xs ys : List Line) → shown (xs ++ ys) ≡ shown xs ++ shown ys
shown-append [] ys = refl
shown-append (level_header i ∷ xs) ys = shown-append xs ys
shown-append (run_header j l ∷ xs) ys = shown-append xs ys
shown-append (file_line file ∷ xs) ys = ap (λ l. file ∷ l) (shown-append xs ys)
shown-append (end_line ∷ xs) ys = shown-append xs ys

shown-file_lines : (files : List SstFile) → shown (file_lines files) ≡ files
shown-file_lines [] = refl
shown-file_lines (file ∷ files) = ap (λ l. file ∷ l) (shown-file_lines files)

shown-run :
    (j l : ℕ) (files : List SstFile)
    → shown (if is_empty files then [] else run_header j l ∷ file_lines files) ≡ files
shown-run j l [] = refl
shown-run j l (file ∷ files) = shown-file_lines (file ∷ files)

shown-lines_of_runs : (j : ℕ) (runs : List Run) → shown (lines_of_runs j runs) ≡ run_files runs
unfolding lines_of_runs
shown-lines_of_runs j [] = refl
shown-lines_of_runs j (run ∷ runs) =
    shown-append
      (if is_empty run.files then [] else run_header j run.rocks_db_level ∷ file_lines run.files)
      (lines_of_runs (j + 1) runs)
    ∙ ap₂ (λ xs ys. xs ++ ys) (shown-run j run.rocks_db_level run.files)
        (shown-lines_of_runs (j + 1) runs)

-- The `n` levels from `i` on.
abbrev slice : ℕ → ℕ → List LazyLevel → List LazyLevel
slice i n [] = []
slice (suc i) n (level ∷ levels) = slice i n levels
slice zero zero (level ∷ levels) = []
slice zero (suc n) (level ∷ levels) = level ∷ slice zero n levels

slice-none : (i : ℕ) (levels : List LazyLevel) → slice i 0 levels ≡ []
slice-none i [] = refl
slice-none zero (level ∷ levels) = refl
slice-none (suc i) (level ∷ levels) = slice-none i levels

slice-get_elem? :
    (i n : ℕ) (levels : List LazyLevel) {level : LazyLevel}
    → get_elem? levels i ≡ some level
    → slice i (suc n) levels ≡ level ∷ slice (suc i) n levels
slice-get_elem? i n [] e = cc
slice-get_elem? zero n (l ∷ levels) e = ap (λ x. x ∷ slice zero n levels) (some-injective _ _ e)
slice-get_elem? (suc i) n (l ∷ levels) e = slice-get_elem? i n levels e

shown-lines_of_levels :
    (n i : ℕ) (levels : List LazyLevel) {lines : List Line}
    → lines_of_levels n i levels ≡ some lines
    → shown lines ≡ tree_files (slice i n levels)
unfolding lines_of_levels
shown-lines_of_levels zero i levels e =
    ap shown (sym (some-injective _ _ e)) ∙ ap tree_files (sym (slice-none i levels))
shown-lines_of_levels (suc n) i levels e =
    let (level, at, more) = >>=-eq-some (get_elem? levels i) _ e in
    let (rest, found, last) = >>=-eq-some (lines_of_levels n (suc i) levels) _ more in
    ap shown (sym (some-injective _ _ last))
    ∙ shown-append (lines_of_runs 0 level.runs) rest
    ∙ ap₂ (λ xs ys. xs ++ ys) (shown-lines_of_runs 0 level.runs)
        (shown-lines_of_levels n (suc i) levels found)
    ∙ ap tree_files (sym (slice-get_elem? i n levels at))

lines_of_levels-some :
    (n i : ℕ) (levels : List LazyLevel)
    → i + n ≤ length levels
    → (lines : List Line) × (lines_of_levels n i levels ≡ some lines)
unfolding lines_of_levels
lines_of_levels-some zero i levels h = ([], refl)
lines_of_levels-some (suc n) i levels h =
    let (level, at) = get_elem?-some levels i (omega arith) in
    let (rest, found) = lines_of_levels-some n (suc i) levels (omega arith) in
    (_, >>=-some _ at (>>=-some _ found refl))

vacant-files :
    (files : List SstFile) (runs : List Run)
    → (not (is_empty files) || has_files runs) ≡ false
    → (has_files runs ≡ false → run_files runs ≡ [])
    → files ++ run_files runs ≡ []
vacant-files [] runs h rest = rest h
vacant-files (file ∷ files) runs h rest = absurd (cc h)

vacant-run_files : (runs : List Run) → has_files runs ≡ false → run_files runs ≡ []
vacant-run_files [] h = refl
vacant-run_files (run ∷ runs) h = vacant-files run.files runs h (vacant-run_files runs)

-- Levels without files may be left out at the end.
slice-tree_files :
    (n : ℕ) (levels : List LazyLevel)
    → ((i : ℕ) (level : LazyLevel)
        → get_elem? levels i ≡ some level
        → has_files level.runs ≡ true
        → i < n)
    → tree_files (slice 0 n levels) ≡ tree_files levels
slice-tree_files n [] h = refl
slice-tree_files (suc n) (level ∷ levels) h =
    ap (λ fs. run_files level.runs ++ fs)
      (slice-tree_files n levels (λ i l at f. omega (arith, h (suc i) l at f)))
slice-tree_files zero (level ∷ levels) h = sym (
    ap₂ (λ xs ys. xs ++ ys)
      (vacant-run_files level.runs (elim (Bool-cases (has_files level.runs)) [
        | inl full ↦ absurd (omega (arith, h 0 level refl full))
        | inr vacant ↦ vacant
      ]))
      (sym (slice-tree_files zero levels (λ i l at f. omega (arith, h (suc i) l at f)))
        ∙ ap tree_files (slice-none 0 levels)))

-- If there is a lazy level, the tree is printed, and the lines about files are those of the tree's files,
-- in order: none is lost by stopping at the largest occupied level.
pub print_fluid_lsm-tree_files :
    (level : LazyLevel) (levels : List LazyLevel)
    → (lines : List Line) × (print_fluid_lsm (level ∷ levels) ≡ some (lines_text lines))
      × (shown lines ≡ tree_files (level ∷ levels))
unfolding print_fluid_lsm
print_fluid_lsm-tree_files level levels =
    let largest = largest_occupied_level (level ∷ levels) in
    let below = largest_occupied_level-lt level levels in
    let (lines, made) =
      lines_of_levels-some (largest + 1) 0 (level ∷ levels) (omega (arith, below)) in
    (
      lines ++ end_line ∷ [],
      >>=-some _ made refl,
      shown-append lines (end_line ∷ [])
          ∙ append-nil (shown lines)
          ∙ shown-lines_of_levels (largest + 1) 0 (level ∷ levels) made
          ∙ slice-tree_files (largest + 1) (level ∷ levels)
              (λ i l at f. omega (arith, (largest_occupied_level_lem (level ∷ levels) i l at f).0)),
    )

-- Without a lazy level the print reads past the end.
pub print_fluid_lsm-none : print_fluid_lsm [] ≡ none
unfolding print_fluid_lsm largest_occupied_level lines_of_levels
print_fluid_lsm-none = refl
