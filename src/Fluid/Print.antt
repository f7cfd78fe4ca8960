-- ===== src/Fluid/Print.antt =====
-- PrintFluidLSM (fluid_lsm.cc), which the debug mode calls after each BuildStructure, as the lines that
-- it prints and their text.
pub mod Shows
use rocks_db_wrapper.Base.{
  ℕ, zero, suc, ◌+◌, Option, some, List, [], ◌∷◌, ◌++◌, ◌>>=◌, if◌then◌else◌, get_elem?,
}
use rocks_db_wrapper.Base.Text.{Text, codes, show_ℕ}
use rocks_db_wrapper.Fluid.Tree.{SstFile, Run, LazyLevel, is_empty, largest_occupied_level}

-- A line about a lazy level, about a run, about a file, and the empty one at the end.
pub data Line : Type 0 where
  level_header : ℕ → Line
  run_header : ℕ → ℕ → Line
  file_line : SstFile → Line
  end_line : Line

abbrev pub line_text : Line → Text
line_text (level_header i) = codes "lvl: " ++ show_ℕ i ++ 10 ∷ []
line_text (run_header j rocks_db_level) =
    codes "\t run: "
    ++ show_ℕ j
    ++ codes "   (RocksDBLvl: "
    ++ show_ℕ rocks_db_level
    ++ codes ")"
    ++ 10 ∷ []
line_text (file_line file) =
    codes "\t\t "
    ++ show_ℕ file.size
    ++ codes "\t "
    ++ codes file.smallest_key
    ++ codes "-"
    ++ codes file.largest_key
    ++ codes " \t "
    ++ codes file.name
    ++ codes " \t "
    ++ (if file.being_compacted then codes "being compacted" else [])
    ++ 10 ∷ []
line_text end_line = 10 ∷ []

abbrev pub lines_text : List Line → Text
lines_text [] = []
lines_text (line ∷ lines) = line_text line ++ lines_text lines

abbrev pub file_lines : List SstFile → List Line
file_lines [] = []
file_lines (file ∷ files) = file_line file ∷ file_lines files

-- The loop over the runs of a level: an empty run is passed over, and counts.
pub lines_of_runs : ℕ → List Run → List Line
lines_of_runs j [] = []
lines_of_runs j (run ∷ runs) =
    (if is_empty run.files then [] else run_header j run.rocks_db_level ∷ file_lines run.files)
    ++ lines_of_runs (j + 1) runs

-- The loop over the levels, with the rounds that are left.
pub lines_of_levels : ℕ → ℕ → List LazyLevel → Option (List Line)
unfolding lines_of_runs
lines_of_levels zero i levels = some []
lines_of_levels (suc rounds) i levels = get_elem? levels i >>= λ level.
    lines_of_levels rounds (suc i) levels >>= λ rest.
    some (level_header i ∷ (lines_of_runs 0 level.runs ++ rest))

pub print_fluid_lsm : List LazyLevel → Option Text
unfolding lines_of_levels
print_fluid_lsm levels = lines_of_levels (largest_occupied_level levels + 1) 0 levels >>= λ lines.
    some (lines_text (lines ++ end_line ∷ []))
