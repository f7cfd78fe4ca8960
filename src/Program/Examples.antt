-- ===== src/Program/Examples.antt =====
-- The program on a small workload, without the progress bar.
use rocks_db_wrapper.Base.{ℕ, ◌≡◌, refl, ap, ◌∙◌, >>=-some, true, false, none, some, List, [], ◌∷◌}
use rocks_db_wrapper.Base.Int.{pos}
use rocks_db_wrapper.Base.Text.{Text, codes}
use rocks_db_wrapper.Env.{DbEnv, new_db_env, get_instance}
use rocks_db_wrapper.Args.{Flags, no_flags, parsed, parse_error, returned, parse_arguments}
use rocks_db_wrapper.Buffer.{Buffer}
use rocks_db_wrapper.Config.{
  Config, configured, config_exits, with_env, stats_options, config_options, cache_options, cached,
  before_cache, after_cache, file_system,
}
use rocks_db_wrapper.Config.Effects.{HasRatio}
use rocks_db_wrapper.Config.Examples.{start, uri_env}
use rocks_db_wrapper.Workload.{lines_of, run_lines, update_progress_bar}
use rocks_db_wrapper.Workload.Requests.{Request, requests}
use rocks_db_wrapper.Workload.Finish.{
  WorkloadResult, workload_returned, aborted, run_workload, run_opened, start_run, finish_workload,
  new_log,
}
use rocks_db_wrapper.Workload.Returned.{HasReturned}
use rocks_db_wrapper.Workload.Examples.{store, world}
use rocks_db_wrapper.Program.{program_exits, ran, main, after_arguments, run_configured}
use rocks_db_wrapper.Program.Ran.{main-HasReturned}

abbrev flags : Flags
flags = record no_flags { show_progress_cmd = some (pos 0); size_ratio_cmd = some (pos 6) }

abbrev env : DbEnv
env = record new_db_env {
  show_progress_bar = false;
  size_ratio = pos 6;
  level0_slowdown_writes_trigger = pos 5;
  level0_stop_writes_trigger = pos 6;
  level0_file_num_compaction_trigger = pos 6;
}

accepted : parse_arguments [] (parsed flags) (get_instance none).0 ≡ returned 0 [] env
unfolding parse_arguments new_db_env get_instance
accepted = refl

abbrev config : Config ℕ
config = elim (config_options uri_env (start env)) as (λ x. Config ℕ) [
  | none ↦ start env
  | some x ↦ elim x [ configured c ↦ c | config_exits code text ↦ start env ]
]

config_set : config_options uri_env (start env) ≡ some (configured config)
unfolding config_options cache_options cached before_cache after_cache file_system new_db_env
config_set = refl

abbrev settings : DbEnv
settings = record env { no_block_cache = true }

abbrev result : WorkloadResult store
result = elim (run_workload settings world) as (λ x. WorkloadResult store) [
  | none ↦ aborted []
  | some x ↦ x
]

abbrev log : Buffer
log = elim result [ workload_returned code buffer stats db cerr ↦ buffer | aborted cerr ↦ new_log ]

abbrev times : Buffer
times = elim result [ workload_returned code buffer stats db cerr ↦ stats | aborted cerr ↦ new_log ]

abbrev printed : Text
printed = elim result [ workload_returned code buffer stats db cerr ↦ cerr | aborted cerr ↦ cerr ]

config_env : config.db_env ≡ settings
unfolding config_options cache_options cached before_cache after_cache file_system stats_options
    with_env new_db_env
config_env = refl

settings_ran :
    run_workload settings world
    ≡ some (workload_returned 0 log times (codes "b" ∷ codes "a" ∷ []) printed)
unfolding run_workload new_db_env run_opened run_lines update_progress_bar finish_workload start_run
settings_ran = refl

workload_ran :
    run_workload config.db_env world
    ≡ some (workload_returned 0 log times (codes "b" ∷ codes "a" ∷ []) printed)
workload_ran = ap (λ e. run_workload e world) config_env ∙ settings_ran

main_runs :
    main uri_env (start new_db_env) world [] (parsed flags)
    ≡ some (ran config (workload_returned 0 log times (codes "b" ∷ codes "a" ∷ []) printed))
unfolding main
main_runs =
    ap (after_arguments uri_env (start new_db_env) world) accepted
    ∙ >>=-some (run_configured uri_env (start new_db_env) world) config_set
        (>>=-some _ workload_ran refl)

main_fails :
    main uri_env (start new_db_env) world (codes "usage") (parse_error (codes "what"))
    ≡ some (program_exits 1 (codes "what\nusageFailed to parse arguments. Exiting.\n"))
unfolding main parse_arguments
main_fails = refl

main-HasReturned_example :
    (cmd : Flags) × (parsed flags ≡ parsed cmd)
    × HasRatio config.options
    × (lines : Text) × (world.workload ≡ some lines)
    × (qs : List Request) × (requests (lines_of lines) ≡ some qs)
    × HasReturned world 0 log times (codes "b" ∷ codes "a" ∷ []) qs
main-HasReturned_example =
    main-HasReturned uri_env (start new_db_env) world [] (parsed flags) main_runs
