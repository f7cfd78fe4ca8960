-- ===== src/Fluid/Tree/Live.antt =====
-- NumLiveRuns and SizeInBytes against plain descriptions, and what marking a level does to them.
use rocks_db_wrapper.Base.{
  ℕ, ◌+◌, ◌%◌, ◌^◌, ◌<◌, ◌≡◌, Bool, true, false, not, ◌&&◌, ◌||◌, List, [], ◌∷◌, length, arith,
  if◌then◌else◌,
}
use rocks_db_wrapper.Fluid.Tree.{
  SstFile, Run, LazyLevel, is_empty, any_being_compacted, num_live_runs_from, num_live_runs,
  files_size_from, runs_size_from, size_in_bytes,
}

-- A run is live if it has files and none of them is being compacted.
abbrev pub all_idle : List SstFile → Bool
all_idle [] = true
all_idle (file ∷ files) = not file.being_compacted && all_idle files

abbrev pub is_live : Run → Bool
is_live run = not (is_empty run.files) && all_idle run.files

abbrev pub live_runs : List Run → List Run
live_runs [] = []
live_runs (run ∷ runs) = if is_live run then run ∷ live_runs runs else live_runs runs

any_being_compacted_lem :
    (b : Bool) (files : List SstFile) → any_being_compacted b files ≡ b || not (all_idle files)
unfolding any_being_compacted
any_being_compacted_lem b [] = ground arith
any_being_compacted_lem b (file ∷ files) =
    ground (arith, any_being_compacted_lem (b || file.being_compacted) files)

num_live_runs_from_lem :
    (n : ℕ) (runs : List Run) → num_live_runs_from n runs ≡ n + length (live_runs runs)
unfolding num_live_runs_from
num_live_runs_from_lem n [] = omega arith
num_live_runs_from_lem n (run ∷ runs) = ground (
  arith,
  any_being_compacted_lem false run.files,
  num_live_runs_from_lem (n + 1) runs,
  num_live_runs_from_lem (n + 0) runs,
)

-- The live runs of a level are its runs that hold a file and of whose files none is being compacted.
pub num_live_runs_lem : (level : LazyLevel) → num_live_runs level ≡ length (live_runs level.runs)
unfolding num_live_runs
num_live_runs_lem level = omega (arith, num_live_runs_from_lem 0 level.runs)

abbrev pub total_size : List SstFile → ℕ
total_size [] = 0
total_size (file ∷ files) = file.size + total_size files

abbrev pub total_run_size : List Run → ℕ
total_run_size [] = 0
total_run_size (run ∷ runs) = total_size run.files + total_run_size runs

files_size_from_lem :
    (n : ℕ) (files : List SstFile)
    → n < 2 ^ 64
    → files_size_from n files ≡ (n + total_size files) % 2 ^ 64
unfolding files_size_from
files_size_from_lem n [] h = omega arith
files_size_from_lem n (file ∷ files) h =
    omega (arith, files_size_from_lem ((n + file.size) % 2 ^ 64) files (omega arith))

runs_size_from_lem :
    (n : ℕ) (runs : List Run)
    → n < 2 ^ 64
    → runs_size_from n runs ≡ (n + total_run_size runs) % 2 ^ 64
unfolding runs_size_from
runs_size_from_lem n [] h = omega arith
runs_size_from_lem n (run ∷ runs) h =
    let first = files_size_from_lem n run.files h in
    omega
      (arith, first, runs_size_from_lem (files_size_from n run.files) runs (rw first (omega arith)))

-- The size of a level is the sum of its files' sizes, modulo 2 ^ 64.
pub size_in_bytes_lem :
    (level : LazyLevel) → size_in_bytes level ≡ total_run_size level.runs % 2 ^ 64
unfolding size_in_bytes
size_in_bytes_lem level = omega (arith, runs_size_from_lem 0 level.runs (omega arith))
