-- ===== src/Fluid/Compact/Resolves/Moved.antt =====
-- A compaction into the next lazy level empties the level that asked for it.
use Prim.Native.String.{String}
use rocks_db_wrapper.Base.{
  ℕ, zero, suc, ◌+◌, ◌*◌, ◌^◌, ◌<◌, ◌≡◌, ◌≢◌, ◌⊎◌, inl, inr, refl, sym, ap, ap₂, subst, ◌∙◌, Bool,
  not, ◌&&◌, if◌then◌else◌, true, false, some, List, [], ◌∷◌, ◌++◌, get_elem?, All, length, arith,
}
use rocks_db_wrapper.Base.Int.{pos}
use rocks_db_wrapper.Fluid.Double.{Double, IsExact}
use rocks_db_wrapper.Fluid.Tree.{SstFile, Run, LazyLevel, is_empty, num_live_runs}
use rocks_db_wrapper.Fluid.Tree.Live.{all_idle, live_runs, num_live_runs_lem}
use rocks_db_wrapper.Fluid.Build.{LevelMetaData, fluid_level, build_levels}
use rocks_db_wrapper.Fluid.Build.Files.{run_files}
use rocks_db_wrapper.Fluid.Build.Runs.{same_index, is_index, when}
use rocks_db_wrapper.Fluid.Build.Levels.{placed_files, build_levels-files_at}
use rocks_db_wrapper.Fluid.Compact.{Compactor, output_level}
use rocks_db_wrapper.Fluid.Compact.Pick.{Takes}
use rocks_db_wrapper.Fluid.Compact.Inputs.{name_of}
use rocks_db_wrapper.Fluid.Compact.Visit.{idle_level_values}
use rocks_db_wrapper.Fluid.Compact.Lands.{output_level-back, output_level-fluid_level}
use rocks_db_wrapper.Fluid.Compact.Resolves.{
  Survives, IsCompacted, Covers, Covers-left, Covers-right, gone_if, AllIdle, files_at-get_elem?,
  inputs-Covers,
}

same_index-eq : (i j : ℕ) → same_index i j ≡ true → i ≡ j
same_index-eq zero zero h = refl
same_index-eq zero (suc j) h = cc
same_index-eq (suc i) zero h = cc
same_index-eq (suc i) (suc j) h = ap suc (same_index-eq i j h)

elsewhere :
    (d : Double) (k lvl target r m : ℕ)
    → fluid_level d k r ≡ pos target
    → lvl < target
    → m ≡ r
    → is_index lvl (fluid_level d k m) ≡ true
    → ⊥
elsewhere d k lvl target r m aim below same at =
    let there : same_index lvl target ≡ true =
      sym (ap (λ z. is_index lvl z) (ap (λ x. fluid_level d k x) same ∙ aim)) ∙ at in
    omega (arith, below, same_index-eq lvl target there)

-- The levels of the database from 2 on that belong to the lazy level.
placed_files-gone :
    (d : Double) (k lvl target r : ℕ) (names : List String) (levels levels' : List LevelMetaData)
    → fluid_level d k r ≡ pos target
    → lvl < target
    → IsCompacted names r levels levels'
    → Covers names (placed_files d k lvl levels)
    → placed_files d k lvl levels' ≡ []
placed_files-gone d k lvl target r names [] [] aim below c h = refl
placed_files-gone d k lvl target r names [] (level' ∷ levels') aim below c h = absurd c
placed_files-gone d k lvl target r names (level ∷ levels) [] aim below c h = absurd c
placed_files-gone d k lvl target r names (level ∷ levels) (level' ∷ levels') aim below c h =
    let here = is_index lvl (fluid_level d k level.level) in
    let rest = placed_files d k lvl levels in
    ap₂ (λ xs ys. xs ++ ys)
      (ap (λ m. when (is_index lvl (fluid_level d k m)) level'.files) c.0
        ∙ gone_if here names r level'.level level.files level'.files
            (λ at same. elsewhere d k lvl target r level.level aim below (sym c.0 ∙ same) at)
            (Covers-left names (when here level.files) rest h) c.1)
      (placed_files-gone d k lvl target r names levels levels' aim below c.2
        (Covers-right names (when here level.files) rest h))

-- The levels 0 and 1 of the database, which are never the output of a compaction into a deeper lazy
-- level.
first_files-gone :
    (b : Bool) (names : List String) (r : ℕ) (level0 level1 level0' level1' : LevelMetaData)
    → (level0'.level ≡ level0.level) × (level1'.level ≡ level1.level)
    → level0.level < r
    → level1.level < r
    → (level0'.level ≡ r) ⊎ All (Survives names level0.files) level0'.files
    → (level1'.level ≡ r) ⊎ All (Survives names level1.files) level1'.files
    → Covers names (when b (level0.files ++ level1.files))
    → when b (level0'.files ++ level1'.files) ≡ []
first_files-gone false names r level0 level1 level0' level1' same lo hi s0 s1 h = refl
first_files-gone true names r level0 level1 level0' level1' same lo hi s0 s1 h =
    ap₂ (λ (xs ys : List SstFile). xs ++ ys)
      (gone_if true names r level0'.level level0.files level0'.files
        (λ _ e. omega (arith, same.0, lo, e)) (Covers-left names level0.files level1.files h) s0)
      (gone_if true names r level1'.level level1.files level1'.files
        (λ _ e. omega (arith, same.1, hi, e)) (Covers-right names level0.files level1.files h) s1)

deep_output :
    (levels : List LazyLevel) (k origin target : ℕ) {r : ℕ}
    → origin < target
    → output_level levels k origin target ≡ some r
    → 1 < r
deep_output levels k origin zero below e = absurd (omega arith)
deep_output levels k origin (suc j) below e =
    let (back, near, within, same) = output_level-back levels k origin (suc j) e in
    omega (arith, near, same)

vacant-live_runs_from :
    (files : List SstFile) (run : Run) (runs : List Run)
    → files ++ run_files runs ≡ []
    → (run_files runs ≡ [] → live_runs runs ≡ [])
    → (if not (is_empty files) && all_idle files then run ∷ live_runs runs else live_runs runs) ≡ []
vacant-live_runs_from [] run runs h rest = rest h
vacant-live_runs_from (file ∷ files) run runs h rest = absurd (cc h)

vacant-live_runs : (runs : List Run) → run_files runs ≡ [] → live_runs runs ≡ []
vacant-live_runs [] h = refl
vacant-live_runs (run ∷ runs) h = vacant-live_runs_from run.files run runs h (vacant-live_runs runs)

-- A compaction into a deeper lazy level empties the level that asked for it. If none of that level's
-- files was being compacted when the inputs were selected, and the database has removed the inputs and
-- put the new files into the level of the output, then in the next tree that is built the lazy level
-- has no file and no live run. K and the level's number are so small that doubles are exact.
pub compaction-resolves :
    (d : Double) (exact : IsExact d) (k lvl target r : ℕ)
    (level0 level1 level0' level1' : LevelMetaData) (meta meta' : List LevelMetaData)
    (before later : List LazyLevel) {out out' : List LazyLevel} {level level' : LazyLevel}
    → (level0.level ≡ 0) × (level1.level ≡ 1)
    → k < 2 ^ 52
    → 1 + target * (k + 1) < 2 ^ 52
    → build_levels d k (level0 ∷ level1 ∷ meta) before ≡ some out
    → get_elem? out lvl ≡ some level
    → All (λ (run : Run). AllIdle run.files) level.runs
    → lvl < target
    → output_level out k lvl target ≡ some r
    → IsCompacted
        (idle_level_values name_of level.runs)
        r
        (level0 ∷ level1 ∷ meta)
        (level0' ∷ level1' ∷ meta')
    → build_levels d k (level0' ∷ level1' ∷ meta') later ≡ some out'
    → get_elem? out' lvl ≡ some level'
    → (run_files level'.runs ≡ []) × (num_live_runs level' ≡ 0)
compaction-resolves d exact k lvl target r level0 level1 level0' level1' meta meta' before later
      {out} {out'} {level} {level'} numbers small fits built at idle below aimed c rebuilt at' =
    let names = idle_level_values name_of level.runs in
    let here = same_index lvl 0 in
    let covers =
      subst (Covers names) (build_levels-files_at d k lvl level0 level1 meta before built)
        (inputs-Covers lvl out level at idle) in
    let first = when here (level0.files ++ level1.files) in
    let rest = placed_files d k lvl meta in
    let deep = deep_output out k lvl target below aimed in
    let (_, aim) = output_level-fluid_level d exact out k lvl target small fits aimed in
    let first_gone =
      first_files-gone here names r level0 level1 level0' level1' (c.0, c.2.0)
        (omega (arith, numbers.0, deep)) (omega (arith, numbers.1, deep)) c.1 c.2.1
        (Covers-left names first rest covers) in
    let rest_gone =
      placed_files-gone d k lvl target r names meta meta' aim below c.2.2
        (Covers-right names first rest covers) in
    let empty =
      sym (files_at-get_elem? lvl out' at')
      ∙ build_levels-files_at d k lvl level0' level1' meta' later rebuilt
      ∙ ap₂ (λ (xs ys : List SstFile). xs ++ ys) first_gone rest_gone in
    (
      empty,
      num_live_runs_lem level'
          ∙ ap (λ (rs : List Run). length rs) (vacant-live_runs level'.runs empty),
    )

-- When the task that a flush scheduled has been carried out, the level that it took is empty in the next
-- tree that is built, if its output went to the next lazy level, none of the level's files was being
-- compacted before, the metadata begins with the levels 0 and 1, and K and the level's number are so
-- small that doubles are exact. The database has removed the task's input files, and put new files into
-- the task's output level only.
pub Takes-resolves :
    (d : Double) (exact : IsExact d) (lvl : ℕ) (level0 level1 level0' level1' : LevelMetaData)
    (meta meta' : List LevelMetaData) (before later : List LazyLevel) (c c' : Compactor)
    {out' : List LazyLevel} {level' : LazyLevel}
    → (level0.level ≡ 0) × (level1.level ≡ 1)
    → c.lsm.smaller_lvl_runs_count < 2 ^ 52
    → 1 + (lvl + 1) * (c.lsm.smaller_lvl_runs_count + 1) < 2 ^ 52
    → build_levels d c.lsm.smaller_lvl_runs_count (level0 ∷ level1 ∷ meta) before
      ≡ some c.lsm.lazy_levels
    → (t : Takes c lvl c') → All (λ (run : Run). AllIdle run.files) t.level.runs
    → t.target ≢ lvl
    → IsCompacted t.task.input_file_names t.task.output_lvl
        (level0 ∷ level1 ∷ meta)
        (level0' ∷ level1' ∷ meta')
    → build_levels d c.lsm.smaller_lvl_runs_count (level0' ∷ level1' ∷ meta') later ≡ some out'
    → get_elem? out' lvl ≡ some level'
    → (run_files level'.runs ≡ []) × (num_live_runs level' ≡ 0)
Takes-resolves d exact lvl level0 level1 level0' level1' meta meta' before later c c' numbers small
      fits built t idle moved compacted rebuilt at' =
    let next : t.target ≡ lvl + 1 = elim t.near [ inl same ↦ absurd (moved same) | inr e ↦ e ] in
    compaction-resolves d exact c.lsm.smaller_lvl_runs_count lvl t.target t.task.output_lvl level0
      level1 level0' level1' meta meta' before later numbers small (rw next fits) built t.at_level
      idle (omega (arith, next)) t.output
      (subst
        (λ names.
          IsCompacted names t.task.output_lvl (level0 ∷ level1 ∷ meta) (level0' ∷ level1' ∷ meta'))
        t.names compacted)
      rebuilt at'
