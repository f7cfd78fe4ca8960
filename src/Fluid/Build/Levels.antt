-- ===== src/Fluid/Build/Levels.antt =====
-- Which files BuildStructure puts into which lazy level, in order.
use mathlib.Core.List.{append-nil, append_assoc}
use rocks_db_wrapper.Base.{
  ℕ, zero, suc, ◌+◌, ◌-◌, ◌≡◌, refl, sym, ap, ap₂, ◌∙◌, Bool, true, false, some, List, [], ◌∷◌,
  ◌++◌, map, length, replicate, if◌then◌else◌,
}
use rocks_db_wrapper.Fluid.Double.{Double}
use rocks_db_wrapper.Fluid.Tree.{SstFile, Run, LazyLevel, new_run, is_empty}
use rocks_db_wrapper.Fluid.Build.{LevelMetaData, fluid_level, build_levels}
use rocks_db_wrapper.Fluid.Build.Files.{run_files, add_files-files}
use rocks_db_wrapper.Fluid.Build.Runs.{
  runs_at, same_index, is_index, when, made, first_runs, placed_runs, build_levels-runs_at,
}

-- The files of a lazy level; past the end there are none.
abbrev pub files_at : ℕ → List LazyLevel → List SstFile
files_at i levels = run_files (runs_at i levels)

-- The files of the database's levels from 2 on that belong to lazy level `i`.
abbrev pub placed_files : Double → ℕ → ℕ → List LevelMetaData → List SstFile
placed_files d k i [] = []
placed_files d k i (level ∷ levels) =
    when (is_index i (fluid_level d k level.level)) level.files ++ placed_files d k i levels

pub made-files : (rocks_db_lvl : ℕ) (files : List SstFile) → (made rocks_db_lvl files).files ≡ files
made-files rocks_db_lvl files = add_files-files (new_run rocks_db_lvl) files

run_files-both : (xs ys : List Run) → run_files (xs ++ ys) ≡ run_files xs ++ run_files ys
run_files-both [] ys = refl
run_files-both (x ∷ xs) ys =
    ap (λ fs. x.files ++ fs) (run_files-both xs ys)
    ∙ sym (append_assoc x.files (run_files xs) (run_files ys))

run_files-when : (b : Bool) (runs : List Run) → run_files (when b runs) ≡ when b (run_files runs)
run_files-when true runs = refl
run_files-when false runs = refl

made_one :
    (rocks_db_lvl : ℕ) (files : List SstFile) → run_files (made rocks_db_lvl files ∷ []) ≡ files
made_one rocks_db_lvl files =
    append-nil (made rocks_db_lvl files).files ∙ made-files rocks_db_lvl files

pads_files : (n : ℕ) → run_files (replicate n (made 0 [])) ≡ []
pads_files zero = refl
pads_files (suc n) = ap₂ (λ (xs ys : List SstFile). xs ++ ys) (made-files 0 []) (pads_files n)

flushes_files : (files : List SstFile) → run_files (map (λ file. made 0 (file ∷ [])) files) ≡ files
flushes_files [] = refl
flushes_files (file ∷ files) =
    ap₂ (λ (xs ys : List SstFile). xs ++ ys) (made-files 0 (file ∷ [])) (flushes_files files)

first_runs-files :
    (n : ℕ) (files0 files1 : List SstFile)
    → run_files (first_runs n files0 files1) ≡ files0 ++ files1
first_runs-files n files0 files1 =
    let pads = replicate n (made 0 []) in
    let flushes = map (λ file. made 0 (file ∷ [])) files0 in
    run_files-both (pads ++ flushes) (made 1 files1 ∷ [])
    ∙ ap₂ (λ (xs ys : List SstFile). xs ++ ys)
        (run_files-both pads flushes
          ∙ ap₂ (λ (xs ys : List SstFile). xs ++ ys) (pads_files n) (flushes_files files0))
        (made_one 1 files1)

placed_runs-files :
    (d : Double) (k i : ℕ) (meta : List LevelMetaData)
    → run_files (placed_runs d k i meta) ≡ placed_files d k i meta
placed_runs-files d k i [] = refl
placed_runs-files d k i (level ∷ meta) =
    let here = is_index i (fluid_level d k level.level) in
    run_files-both (when here (made level.level level.files ∷ [])) (placed_runs d k i meta)
    ∙ ap₂ (λ (xs ys : List SstFile). xs ++ ys)
        (run_files-when here (made level.level level.files ∷ [])
          ∙ ap (when here) (made_one level.level level.files))
        (placed_runs-files d k i meta)

-- A lazy level holds, in the order of the metadata, the files of the database's levels that belong to
-- it: those of the levels 0 and 1 for lazy level 0, and those of each deeper level for the lazy level
-- that the formula of BuildStructure gives, whatever the floating point. Nothing of the old tree is
-- left.
pub build_levels-files_at :
    (d : Double) (k i : ℕ) (level0 level1 : LevelMetaData) (meta : List LevelMetaData)
    (levels : List LazyLevel) {out : List LazyLevel}
    → build_levels d k (level0 ∷ level1 ∷ meta) levels ≡ some out
    → files_at i out
      ≡ when (same_index i 0) (level0.files ++ level1.files) ++ placed_files d k i meta
build_levels-files_at d k i level0 level1 meta levels e =
    let n = k - (length level0.files + (if is_empty level1.files then 0 else 1)) in
    let first = first_runs n level0.files level1.files in
    let here = same_index i 0 in
    ap run_files (build_levels-runs_at d k i level0 level1 meta levels e)
    ∙ run_files-both (when here first) (placed_runs d k i meta)
    ∙ ap₂ (λ (xs ys : List SstFile). xs ++ ys)
        (run_files-when here first ∙ ap (when here) (first_runs-files n level0.files level1.files))
        (placed_runs-files d k i meta)
