-- ===== src/Program/Ran.antt =====
-- The parts of the program together: what is true when the workload has returned.
use Prim.Native.String.{String}
use rocks_db_wrapper.Base.{
  ℕ, ◌≡◌, refl, ap, subst, ◌∙◌, Bool, true, false, Option, none, some, some-injective, List,
  if◌then◌else◌, ◌==◌, >>=-eq-some, ==_iff,
}
use rocks_db_wrapper.Base.Text.{Text}
use rocks_db_wrapper.Env.{DbEnv, get_instance}
use rocks_db_wrapper.Args.{
  Flags, Parsed, ParseResult, parsed, help, parse_error, validation_error, returned, exited,
  parse_arguments,
}
use rocks_db_wrapper.Args.Triggers.{parse_arguments-HasTriggers}
use rocks_db_wrapper.Buffer.{Buffer}
use rocks_db_wrapper.Config.{
  Config, Created, ConfigResult, configured, config_exits, config_options,
}
use rocks_db_wrapper.Config.Effects.{HasRatio, config_options-HasRatio}
use rocks_db_wrapper.Workload.{Database, lines_of}
use rocks_db_wrapper.Workload.Requests.{Request, requests}
use rocks_db_wrapper.Workload.Finish.{World, WorkloadResult, workload_returned, run_workload}
use rocks_db_wrapper.Workload.Returned.{HasReturned, run_workload-HasReturned}
use rocks_db_wrapper.Program.{
  ProgramResult, program_exits, ran, run_configured, after_arguments, main,
}

module _ {Env : Type 0} {d : Database} (create_from_uri : String → Env → Option Env → Created Env)
    (options : Config Env) (world : World d) where
  ran_config : Config Env → ProgramResult Env d → Config Env
  ran_config c (ran c' result) = c'
  ran_config c (program_exits code text) = c

  ran_result : WorkloadResult d → ProgramResult Env d → WorkloadResult d
  ran_result x (ran c' result) = result
  ran_result x (program_exits code text) = x

  run_configured-ran :
      (result : ConfigResult Env) {c : Config Env} {x : WorkloadResult d}
      → run_configured create_from_uri options world result ≡ some (ran c x)
      → (result ≡ configured c) × (run_workload c.db_env world ≡ some x)
  unfolding run_configured ran_config ran_result
  run_configured-ran (configured c0) {c = c} {x = x} e =
      let (r, done, last) = >>=-eq-some (run_workload c0.db_env world) _ e in
      let same = some-injective _ _ last in
      let same_config = ap (ran_config c) same in
      (
        ap configured same_config,
        subst (λ (y : Config Env). run_workload y.db_env world ≡ some x) same_config
            (done ∙ ap some (ap (ran_result x) same)),
      )
  run_configured-ran (config_exits code text) e = absurd (cc e)

  chosen :
      (test : Bool) (m : Option (ProgramResult Env d)) (text : Text) {c : Config Env}
      {x : WorkloadResult d}
      → (if test then m else some (program_exits 1 text)) ≡ some (ran c x)
      → (test ≡ true) × (m ≡ some (ran c x))
  chosen true m text e = (refl, e)
  chosen false m text e = absurd (cc e)

  after_arguments-ran :
      (result : ParseResult) {c : Config Env} {x : WorkloadResult d}
      → after_arguments create_from_uri options world result ≡ some (ran c x)
      → (text : Text) × (env : DbEnv) × (result ≡ returned 0 text env)
        × (config_options create_from_uri (record options { db_env = env }) ≡ some (configured c))
        × (run_workload c.db_env world ≡ some x)
  unfolding after_arguments
  after_arguments-ran (exited code text) e = absurd (cc e)
  after_arguments-ran (returned code text env) e =
      let (zero_code, more) = chosen (code == 0) _ _ e in
      let (result, set, last) =
        >>=-eq-some (config_options create_from_uri (record options { db_env = env })) _ more in
      let (same, done) = run_configured-ran result last in
      (
        text,
        env,
        ap (λ n. returned n text env) ((==_iff code 0).0 zero_code),
        set ∙ ap some same,
        done,
      )

  accepted :
      (usage : Text) (p : Parsed) (start : DbEnv) {text : Text} {env : DbEnv}
      → parse_arguments usage p start ≡ returned 0 text env
      → (cmd : Flags) × (p ≡ parsed cmd)
  unfolding parse_arguments
  accepted usage (parsed cmd) start e = (cmd, refl)
  accepted usage help start e = absurd (cc e)
  accepted usage (parse_error what) start e = absurd (cc e)
  accepted usage (validation_error what) start e = absurd (cc e)

  -- If the program's workload has returned, the command line was accepted, the options make writes
  -- slow down and stop by the size ratio, and the whole workload was performed: the program returns 0,
  -- the last request and the closing were ok, and both logs are written out.
  pub main-HasReturned :
      (usage : Text) (p : Parsed) {c : Config Env} {code : ℕ} {b st : Buffer} {db : d.State}
      {cerr : Text}
      → main create_from_uri options world usage p
        ≡ some (ran c (workload_returned code b st db cerr))
      → (cmd : Flags) × (p ≡ parsed cmd)
        × HasRatio c.options
        × (lines : Text) × (world.workload ≡ some lines)
        × (qs : List Request) × (requests (lines_of lines) ≡ some qs)
        × HasReturned world code b st db qs
  unfolding main
  main-HasReturned usage p {c = c} e =
      let start = (get_instance none).0 in
      let (text, env, parse, set, done) = after_arguments-ran (parse_arguments usage p start) e in
      let (cmd, is_parsed) = accepted usage p start parse in
      let triggers = parse_arguments-HasTriggers usage p start parse in
      let before : Config Env = record options { db_env = env } in
      let (lines, read, qs, found, has) = run_workload-HasReturned c.db_env world done in
      (
        cmd,
        is_parsed,
        config_options-HasRatio create_from_uri before set triggers,
        lines,
        read,
        qs,
        found,
        has,
      )
