-- ===== src/Fluid/Compact/Resolves.antt =====
-- A finished compaction: what the database has done, and which files are gone.
pub mod Moved
mod LiveRuns
pub mod Settled
use Prim.Native.String.{String}
use mathlib.Core.List.{map-append}
use rocks_db_wrapper.Base.{
  ℕ, zero, suc, ◌+◌, ◌*◌, ◌^◌, ◌<◌, ◌≡◌, ◌≢◌, ◌⊎◌, inl, inr, refl, sym, ap, ap₂, subst, ◌∙◌, Bool,
  not, ◌&&◌, if◌then◌else◌, true, false, some, some-injective, List, [], ◌∷◌, ◌++◌, map, get_elem?,
  All, length, arith,
}
use rocks_db_wrapper.Base.Int.{pos}
use rocks_db_wrapper.Fluid.Double.{Double, IsExact}
use rocks_db_wrapper.Fluid.Tree.{SstFile, Run, LazyLevel, is_empty, num_live_runs}
use rocks_db_wrapper.Fluid.Tree.Live.{all_idle, live_runs, num_live_runs_lem}
use rocks_db_wrapper.Fluid.Build.{LevelMetaData, fluid_level, build_levels}
use rocks_db_wrapper.Fluid.Build.Files.{run_files}
use rocks_db_wrapper.Fluid.Build.Runs.{runs_at-get_elem?, same_index, is_index, when}
use rocks_db_wrapper.Fluid.Build.Levels.{files_at, placed_files, build_levels-files_at}
use rocks_db_wrapper.Fluid.Compact.{Compactor, output_level}
use rocks_db_wrapper.Fluid.Compact.Pick.{Takes}
use rocks_db_wrapper.Fluid.Compact.Inputs.{name_of}
use rocks_db_wrapper.Fluid.Compact.Visit.{idle_values, idle_level_values}
use rocks_db_wrapper.Fluid.Compact.Lands.{output_level-back, output_level-fluid_level}

abbrev pub Listed : List String → String → Type 0
Listed [] n = ⊥
Listed (m ∷ ms) n = (m ≡ n) ⊎ Listed ms n

-- A file that was among these, and that was not an input.
abbrev pub Survives : List String → List SstFile → SstFile → Type 0
Survives names files file = Listed (map name_of files) file.name × ¬ Listed names file.name

-- What `DB::CompactFiles` does to the levels, as far as it matters here: an input is gone, and a new file
-- appears in the output level only.
abbrev pub IsCompacted : List String → ℕ → List LevelMetaData → List LevelMetaData → Type 0
IsCompacted names r [] [] = Unit
IsCompacted names r [] (level' ∷ levels') = ⊥
IsCompacted names r (level ∷ levels) [] = ⊥
IsCompacted names r (level ∷ levels) (level' ∷ levels') =
    (level'.level ≡ level.level)
    × ((level'.level ≡ r) ⊎ All (Survives names level.files) level'.files)
    × IsCompacted names r levels levels'

pub Covers : List String → List SstFile → Type 0
Covers names files = (n : String) → Listed (map name_of files) n → Listed names n

Listed-left :
    (xs ys : List SstFile) (n : String)
    → Listed (map name_of xs) n
    → Listed (map name_of (xs ++ ys)) n
Listed-left [] ys n h = absurd h
Listed-left (x ∷ xs) ys n (inl e) = inl e
Listed-left (x ∷ xs) ys n (inr h) = inr (Listed-left xs ys n h)

Listed-right :
    (xs ys : List SstFile) (n : String)
    → Listed (map name_of ys) n
    → Listed (map name_of (xs ++ ys)) n
Listed-right [] ys n h = h
Listed-right (x ∷ xs) ys n h = inr (Listed-right xs ys n h)

pub Covers-left :
    (names : List String) (xs ys : List SstFile) → Covers names (xs ++ ys) → Covers names xs
unfolding Covers
Covers-left names xs ys h n l = h n (Listed-left xs ys n l)

pub Covers-right :
    (names : List String) (xs ys : List SstFile) → Covers names (xs ++ ys) → Covers names ys
unfolding Covers
Covers-right names xs ys h n l = h n (Listed-right xs ys n l)

-- No file survives where all were inputs.
pub no_survivors :
    (names : List String) (files files' : List SstFile)
    → Covers names files
    → All (Survives names files) files'
    → files' ≡ []
unfolding Covers
no_survivors names files [] h s = refl
no_survivors names files (file ∷ rest) h s = absurd (s.0.1 (h file.name s.0.0))

pub gone_if :
    (b : Bool) (names : List String) (r m : ℕ) (files files' : List SstFile)
    → (b ≡ true → m ≢ r)
    → Covers names (when b files)
    → (m ≡ r) ⊎ All (Survives names files) files'
    → when b files' ≡ []
gone_if true names r m files files' elsewhere h (inl e) = absurd (elsewhere refl e)
gone_if true names r m files files' elsewhere h (inr s) = no_survivors names files files' h s
gone_if false names r m files files' elsewhere h s = refl

-- A lazy level whose files are all idle: its input names are those of all its files.
abbrev pub AllIdle : List SstFile → Type 0
AllIdle files = All (λ (file : SstFile). file.being_compacted ≡ false) files

idle_values-map :
    (files : List SstFile) → AllIdle files → idle_values name_of files ≡ map name_of files
idle_values-map [] h = refl
idle_values-map (file ∷ files) h = rw (h.0, idle_values-map files h.1) refl

idle_level_values-map :
    (runs : List Run)
    → All (λ (run : Run). AllIdle run.files) runs
    → idle_level_values name_of runs ≡ map name_of (run_files runs)
idle_level_values-map [] h = refl
idle_level_values-map (run ∷ runs) h =
    ap₂ (λ (xs ys : List String). xs ++ ys) (idle_values-map run.files h.0)
      (idle_level_values-map runs h.1)
    ∙ sym (map-append name_of run.files (run_files runs))

pub files_at-get_elem? :
    (i : ℕ) (levels : List LazyLevel) {level : LazyLevel}
    → get_elem? levels i ≡ some level
    → files_at i levels ≡ run_files level.runs
files_at-get_elem? i levels e = ap run_files (runs_at-get_elem? i levels e)

pub inputs-Covers :
    (lvl : ℕ) (levels : List LazyLevel) (level : LazyLevel)
    → get_elem? levels lvl ≡ some level
    → All (λ (run : Run). AllIdle run.files) level.runs
    → Covers (idle_level_values name_of level.runs) (files_at lvl levels)
unfolding Covers
inputs-Covers lvl levels level at idle n l =
    subst (λ ns. Listed ns n) (sym (idle_level_values-map level.runs idle))
      (subst (λ fs. Listed (map name_of fs) n) (files_at-get_elem? lvl levels at) l)
