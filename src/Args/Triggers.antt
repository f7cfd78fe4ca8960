-- ===== src/Args/Triggers.antt =====
-- What the flags do to the settings that the LSM tree is built from, and what no flag does.
use rocks_db_wrapper.Base.{◌≡◌, refl, sym, ap, subst, ◌∙◌, Option, none, some, [], ◌∷◌, ◌++◌}
use rocks_db_wrapper.Base.Int.{pos, ◌-ℤ◌}
use rocks_db_wrapper.Base.Text.{Text}
use rocks_db_wrapper.Env.{DbEnv, new_db_env}
use rocks_db_wrapper.Args.{
  Flags, no_flags, Parsed, parsed, help, parse_error, validation_error, flag_or, ParseResult,
  returned, exited, parse_arguments,
}

-- The settings, code and printed text of a result.
abbrev settings : DbEnv → ParseResult → DbEnv
settings env (returned code text env') = env'
settings env (exited code text) = env

abbrev printed : ParseResult → Text
printed (returned code text env) = text
printed (exited code text) = text

-- The level-0 triggers are those of the size ratio.
abbrev pub HasTriggers : DbEnv → Type 0
HasTriggers env =
    (env.level0_slowdown_writes_trigger ≡ env.size_ratio -ℤ pos 1)
    × (env.level0_stop_writes_trigger ≡ env.size_ratio)
    × (env.level0_file_num_compaction_trigger ≡ env.size_ratio)

-- Whatever the command line was and whatever the settings before: if the call returns 0, the three
-- triggers of level 0 are those of the new size ratio.
pub parse_arguments-HasTriggers :
    (usage : Text) (p : Parsed) (env : DbEnv) {text : Text} {env' : DbEnv}
    → parse_arguments usage p env ≡ returned 0 text env'
    → HasTriggers env'
unfolding parse_arguments
parse_arguments-HasTriggers usage (parsed cmd) env e =
    let same = ap (settings env) e in
    (
      sym (ap (λ x. x.level0_slowdown_writes_trigger) same) ∙ ap (λ x. x.size_ratio -ℤ pos 1) same,
      sym (ap (λ x. x.level0_stop_writes_trigger) same) ∙ ap (λ x. x.size_ratio) same,
      sym (ap (λ x. x.level0_file_num_compaction_trigger) same) ∙ ap (λ x. x.size_ratio) same,
    )
parse_arguments-HasTriggers usage help env e = cc
parse_arguments-HasTriggers usage (parse_error what) env e = absurd (cc e)
parse_arguments-HasTriggers usage (validation_error what) env e = absurd (cc e)

-- If the call returns 1, the parser has thrown an error, its text stands on std::cerr in front of the
-- usage, and no setting has changed.
pub parse_arguments-error :
    (usage : Text) (p : Parsed) (env : DbEnv) {text : Text} {env' : DbEnv}
    → parse_arguments usage p env ≡ returned 1 text env'
    → (env' ≡ env) × ((what : Text) × (text ≡ what ++ 10 ∷ usage))
unfolding parse_arguments
parse_arguments-error usage (parsed cmd) env e = absurd (cc e)
parse_arguments-error usage help env e = absurd (cc e)
parse_arguments-error usage (parse_error what) env e =
    (sym (ap (settings env) e), (what, sym (ap printed e)))
parse_arguments-error usage (validation_error what) env e =
    (sym (ap (settings env) e), (what, sym (ap printed e)))

flag_twice {ℓ κ} :
    {A : Type ℓ} {B : Type κ} (convert : A → B) (flag : Option A) (current : B)
    → flag_or convert flag (flag_or convert flag current) ≡ flag_or convert flag current
flag_twice convert none current = refl
flag_twice convert (some v) current = refl

-- Reading the same command line again changes nothing.
pub parse_arguments_twice :
    (usage : Text) (cmd : Flags) (env : DbEnv) {env' : DbEnv}
    → parse_arguments usage (parsed cmd) env ≡ returned 0 [] env'
    → parse_arguments usage (parsed cmd) env' ≡ returned 0 [] env'
unfolding parse_arguments
parse_arguments_twice usage cmd env e =
    subst (λ x. parse_arguments usage (parsed cmd) x ≡ returned 0 [] x) (ap (settings env) e)
      (simp flag_twice)

-- With no flag, only the explicit buffer size and the triggers are set, and the defaults stay as
-- they are.
pub parse_arguments-no_flags :
    (usage : Text) (env : DbEnv)
    → (parse_arguments usage (parsed no_flags) env
        ≡ returned 0 [] (record env {
          buffer_size = 0;
          level0_slowdown_writes_trigger = env.size_ratio -ℤ pos 1;
          level0_stop_writes_trigger = env.size_ratio;
          level0_file_num_compaction_trigger = env.size_ratio;
        }))
      × (parse_arguments usage (parsed no_flags) new_db_env ≡ returned 0 [] new_db_env)
unfolding parse_arguments new_db_env
parse_arguments-no_flags usage env = (refl, refl)
