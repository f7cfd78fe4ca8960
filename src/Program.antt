-- ===== src/Program.antt =====
-- The program: main of src/working_version.cc, and the call of configOptions at the start of
-- runWorkload. The settings are those of a first GetInstance.
pub mod Ran
mod Examples
use Prim.Native.String.{String}
use rocks_db_wrapper.Base.{ℕ, Option, none, some, [], ◌∷◌, ◌++◌, ◌>>=◌, if◌then◌else◌, ◌==◌}
use rocks_db_wrapper.Base.Text.{Text, codes}
use rocks_db_wrapper.Env.{DbEnv, get_instance}
use rocks_db_wrapper.Args.{Parsed, ParseResult, returned, exited, parse_arguments}
use rocks_db_wrapper.Config.{
  Config, Created, ConfigResult, configured, config_exits, config_options,
}
use rocks_db_wrapper.Workload.{Database}
use rocks_db_wrapper.Workload.Finish.{World, WorkloadResult, run_workload}

-- The process ends with a code and a text, before the workload, or the workload ran.
pub data ProgramResult (Env : Type 0) (d : Database) : Type 0 where
  program_exits : ℕ → Text → ProgramResult Env d
  ran : Config Env → WorkloadResult d → ProgramResult Env d

module _ {Env : Type 0} {d : Database} (create_from_uri : String → Env → Option Env → Created Env)
    (options : Config Env) (world : World d) where
  unfoldable pub run_configured : ConfigResult Env → Option (ProgramResult Env d)
  run_configured (configured c) = run_workload c.db_env world >>= λ result. some (ran c result)
  run_configured (config_exits code text) = some (program_exits code text)

  unfoldable pub after_arguments : ParseResult → Option (ProgramResult Env d)
  unfolding run_configured
  after_arguments (exited code text) = some (program_exits code text)
  after_arguments (returned code text env) =
      if code == 0
      then config_options create_from_uri (record options { db_env = env }) >>= run_configured
      else some (program_exits 1 (text ++ codes "Failed to parse arguments. Exiting." ++ 10 ∷ []))

  -- `none`: undefined behaviour.
  unfoldable pub main : Text → Parsed → Option (ProgramResult Env d)
  unfolding after_arguments get_instance
  main usage p = after_arguments (parse_arguments usage p (get_instance none).0)
