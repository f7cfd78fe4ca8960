-- ===== src/Fluid/Build.antt =====
-- FluidLSM::CreateRun and BuildStructure. The metadata that the database reports is an argument;
-- `none` is an access outside a vector. The lazy levels are the state that is passed along.
pub mod Files
pub mod Lengths
pub mod Runs
pub mod Levels
pub mod Placed
pub mod Slots
use rocks_db_wrapper.Base.{
  ℕ, zero, suc, ◌+◌, ◌-◌, Option, none, some, List, [], ◌∷◌, map, length, if◌then◌else◌, ◌>>=◌,
}
use rocks_db_wrapper.Base.Int.{ℤ, pos, negsuc}
use rocks_db_wrapper.Fluid.Double.{Double, of_ℕ}
use rocks_db_wrapper.Fluid.Tree.{
  SstFile, Run, LazyLevel, FluidLsm, new_run, add_file, add_run, clear, is_empty,
}

-- The fields of RocksDB's LevelMetaData that the code reads.
pub record LevelMetaData : Type 0 where
  pub level : ℕ
  pub files : List SstFile

-- `lazy_levels_[lvl].AddRun(run)`
unfoldable pub push_run : ℕ → Run → List LazyLevel → Option (List LazyLevel)
push_run lvl run [] = none
push_run zero run (level ∷ levels) = some (add_run level run ∷ levels)
push_run (suc lvl) run (level ∷ levels) = do rest ← push_run lvl run levels; some (level ∷ rest)

unfoldable pub add_files : Run → List SstFile → Run
unfolding add_file
add_files run [] = run
add_files run (file ∷ files) = add_files (add_file run file) files

unfoldable pub create_run : List SstFile → ℕ → ℕ → List LazyLevel → Option (List LazyLevel)
unfolding push_run add_files
create_run files lvl rocks_db_lvl levels =
    push_run lvl (add_files (new_run rocks_db_lvl) files) levels

unfoldable pub pad_runs : ℕ → List LazyLevel → Option (List LazyLevel)
unfolding create_run
pad_runs zero levels = some levels
pad_runs (suc n) levels = do padded ← create_run [] 0 0 levels; pad_runs n padded

unfoldable pub level0_runs : List SstFile → List LazyLevel → Option (List LazyLevel)
unfolding create_run
level0_runs [] levels = some levels
level0_runs (file ∷ files) levels = do
  more ← create_run (file ∷ []) 0 0 levels
  level0_runs files more

-- `ceil(((double)level - 1) / ((double)smaller_lvl_runs_count_ + 1.0))`
unfoldable pub fluid_level : Double → ℕ → ℕ → ℤ
fluid_level d k level =
    d.to_int (d.ceil (d.div (d.sub (of_ℕ d level) (of_ℕ d 1)) (d.add (of_ℕ d k) (of_ℕ d 1))))

unfoldable pub create_run_at : List SstFile → ℤ → ℕ → List LazyLevel → Option (List LazyLevel)
unfolding create_run
create_run_at files (pos lvl) rocks_db_lvl levels = create_run files lvl rocks_db_lvl levels
create_run_at files (negsuc n) rocks_db_lvl levels = none

unfoldable pub deeper_runs :
    Double → ℕ → List LevelMetaData → List LazyLevel → Option (List LazyLevel)
unfolding fluid_level create_run_at
deeper_runs d k [] levels = some levels
deeper_runs d k (level ∷ rest) levels = do
  more ← create_run_at level.files (fluid_level d k level.level) level.level levels
  deeper_runs d k rest more

unfoldable pub build_levels :
    Double → ℕ → List LevelMetaData → List LazyLevel → Option (List LazyLevel)
unfolding pad_runs level0_runs create_run deeper_runs
build_levels d k [] levels = none
build_levels d k (level0 ∷ []) levels = none
build_levels d k (level0 ∷ level1 ∷ rest) levels = do
  let num_runs_in_lvl1 = length level0.files + (if is_empty level1.files then 0 else 1)
  padded ← pad_runs (k - num_runs_in_lvl1) (map clear levels)
  flushed ← level0_runs level0.files padded
  first ← create_run level1.files 0 1 flushed
  deeper_runs d k rest first

unfoldable pub build_structure : Double → List LevelMetaData → FluidLsm → Option FluidLsm
unfolding build_levels
build_structure d meta lsm = do
  levels ← build_levels d lsm.smaller_lvl_runs_count meta lsm.lazy_levels
  some (record lsm { lazy_levels = levels })
