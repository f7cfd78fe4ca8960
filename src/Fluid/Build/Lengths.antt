-- ===== src/Fluid/Build/Lengths.antt =====
-- BuildStructure neither adds nor removes a lazy level.
use rocks_db_wrapper.Base.{
  ℕ, zero, suc, ◌+◌, ◌-◌, ◌≡◌, refl, sym, ap, ◌∙◌, some, some-injective, List, [], ◌∷◌, map, length,
  if◌then◌else◌, >>=-eq-some,
}
use rocks_db_wrapper.Base.Int.{ℤ, pos, negsuc}
use rocks_db_wrapper.Fluid.Double.{Double}
use rocks_db_wrapper.Fluid.Tree.{SstFile, Run, LazyLevel, new_run, clear, is_empty}
use rocks_db_wrapper.Fluid.Build.{
  LevelMetaData, push_run, add_files, create_run, pad_runs, level0_runs, fluid_level, create_run_at,
  deeper_runs, build_levels,
}

length-push_run :
    (lvl : ℕ) (run : Run) (levels : List LazyLevel) {out : List LazyLevel}
    → push_run lvl run levels ≡ some out
    → length out ≡ length levels
unfolding push_run
length-push_run lvl run [] e = cc
length-push_run zero run (level ∷ levels) e = ap length (sym (some-injective _ _ e))
length-push_run (suc lvl) run (level ∷ levels) e =
    let (rest, pushed, same) = >>=-eq-some (push_run lvl run levels) _ e in
    ap length (sym (some-injective _ _ same)) ∙ ap suc (length-push_run lvl run levels pushed)

length-create_run :
    (files : List SstFile) (lvl rocks_db_lvl : ℕ) (levels : List LazyLevel) {out : List LazyLevel}
    → create_run files lvl rocks_db_lvl levels ≡ some out
    → length out ≡ length levels
unfolding create_run
length-create_run files lvl rocks_db_lvl levels e =
    length-push_run lvl (add_files (new_run rocks_db_lvl) files) levels e

length-pad_runs :
    (n : ℕ) (levels : List LazyLevel) {out : List LazyLevel}
    → pad_runs n levels ≡ some out
    → length out ≡ length levels
unfolding pad_runs
length-pad_runs zero levels e = ap length (sym (some-injective _ _ e))
length-pad_runs (suc n) levels e =
    let (padded, first, rest) = >>=-eq-some (create_run [] 0 0 levels) _ e in
    length-pad_runs n padded rest ∙ length-create_run [] 0 0 levels first

length-level0_runs :
    (files : List SstFile) (levels : List LazyLevel) {out : List LazyLevel}
    → level0_runs files levels ≡ some out
    → length out ≡ length levels
unfolding level0_runs
length-level0_runs [] levels e = ap length (sym (some-injective _ _ e))
length-level0_runs (file ∷ files) levels e =
    let (more, first, rest) = >>=-eq-some (create_run (file ∷ []) 0 0 levels) _ e in
    length-level0_runs files more rest ∙ length-create_run (file ∷ []) 0 0 levels first

length-create_run_at :
    (files : List SstFile) (lvl : ℤ) (rocks_db_lvl : ℕ) (levels : List LazyLevel)
    {out : List LazyLevel}
    → create_run_at files lvl rocks_db_lvl levels ≡ some out
    → length out ≡ length levels
unfolding create_run_at
length-create_run_at files (pos lvl) rocks_db_lvl levels e =
    length-create_run files lvl rocks_db_lvl levels e
length-create_run_at files (negsuc n) rocks_db_lvl levels e = cc

length-deeper_runs :
    (d : Double) (k : ℕ) (meta : List LevelMetaData) (levels : List LazyLevel)
    {out : List LazyLevel}
    → deeper_runs d k meta levels ≡ some out
    → length out ≡ length levels
unfolding deeper_runs
length-deeper_runs d k [] levels e = ap length (sym (some-injective _ _ e))
length-deeper_runs d k (level ∷ meta) levels e =
    let lvl = fluid_level d k level.level in
    let (more, first, rest) = >>=-eq-some (create_run_at level.files lvl level.level levels) _ e in
    length-deeper_runs d k meta more rest
    ∙ length-create_run_at level.files lvl level.level levels first

pub length-clear : (levels : List LazyLevel) → length (map clear levels) ≡ length levels
length-clear [] = refl
length-clear (level ∷ levels) = ap suc (length-clear levels)

pub length-build_levels :
    (d : Double) (k : ℕ) (meta : List LevelMetaData) (levels : List LazyLevel)
    {out : List LazyLevel}
    → build_levels d k meta levels ≡ some out
    → length out ≡ length levels
unfolding build_levels
length-build_levels d k [] levels e = cc
length-build_levels d k (level0 ∷ []) levels e = cc
length-build_levels d k (level0 ∷ level1 ∷ meta) levels e =
    let n = k - (length level0.files + (if is_empty level1.files then 0 else 1)) in
    let (padded, e1, rest1) = >>=-eq-some (pad_runs n (map clear levels)) _ e in
    let (flushed, e2, rest2) = >>=-eq-some (level0_runs level0.files padded) _ rest1 in
    let (first, e3, rest3) = >>=-eq-some (create_run level1.files 0 1 flushed) _ rest2 in
    length-deeper_runs d k meta first rest3
    ∙ length-create_run level1.files 0 1 flushed e3
    ∙ length-level0_runs level0.files padded e2
    ∙ length-pad_runs n (map clear levels) e1
    ∙ length-clear levels
