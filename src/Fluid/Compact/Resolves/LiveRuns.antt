-- ===== src/Fluid/Compact/Resolves/LiveRuns.antt =====
-- The live runs of a lazy level that is built after a compaction.
use Prim.Native.String.{String}
use rocks_db_wrapper.Base.{
  ℕ, zero, suc, ◌+◌, ◌<◌, ◌≡◌, refl, sym, ap, subst, ◌∙◌, Bool, true, false, List, [], ◌∷◌, ◌++◌,
  length, arith, replicate, ◌≤◌,
}
use rocks_db_wrapper.Fluid.Double.{Double}
use rocks_db_wrapper.Fluid.Tree.{SstFile, Run}
use rocks_db_wrapper.Fluid.Tree.Live.{live_runs}
use rocks_db_wrapper.Fluid.Build.{LevelMetaData, fluid_level}
use rocks_db_wrapper.Fluid.Build.Runs.{
  same_index, is_index, when, made, first_runs, placed_runs, when-append,
}
use rocks_db_wrapper.Fluid.Build.Levels.{placed_files, made-files}
use native.Mathlib.Decide.{ℕ_discrete}
use rocks_db_wrapper.Fluid.Build.Placed.{IsNumbered}
use rocks_db_wrapper.Fluid.Compact.Resolves.{
  IsCompacted, Covers, Covers-left, Covers-right, gone_if,
}

-- How many of some runs are live.
abbrev pub live : List Run → ℕ
live runs = length (live_runs runs)

live-append : (xs ys : List Run) → live (xs ++ ys) ≡ live xs + live ys
live-append [] ys = omega arith
live-append (x ∷ xs) ys = ground (arith, live-append xs ys)

live_one : (run : Run) → live (run ∷ []) ≤ 1
live_one run = ground arith

live_none : (run : Run) → run.files ≡ [] → live (run ∷ []) ≡ 0
live_none run e = rw e refl

live-when : (b : Bool) (run : Run) → live (when b (run ∷ [])) ≤ 1
live-when true run = live_one run
live-when false run = omega arith

live_gone :
    (b : Bool) (rocks_db_lvl : ℕ) (files : List SstFile)
    → when b files ≡ []
    → live (when b (made rocks_db_lvl files ∷ [])) ≡ 0
live_gone true rocks_db_lvl files e =
    live_none (made rocks_db_lvl files) (made-files rocks_db_lvl files ∙ e)
live_gone false rocks_db_lvl files e = refl

live_pads : (n : ℕ) → live (replicate n (made 0 [])) ≡ 0
live_pads zero = refl
live_pads (suc n) =
    live-append (made 0 [] ∷ []) (replicate n (made 0 []))
    ∙ omega (arith, live_none (made 0 []) (made-files 0 []), live_pads n)

live_flushed :
    (n : ℕ) (files1 : List SstFile) → live (first_runs n [] files1) ≡ live (made 1 files1 ∷ [])
live_flushed n files1 =
    live-append (replicate n (made 0 []) ++ []) (made 1 files1 ∷ [])
    ∙ omega (arith, live-append (replicate n (made 0 [])) [], live_pads n)

first_runs-one :
    (b : Bool) (n : ℕ) (files0 files1 : List SstFile)
    → when b files0 ≡ []
    → live (when b (first_runs n files0 files1)) ≤ 1
first_runs-one true n files0 files1 e =
    subst (λ fs. live (first_runs n fs files1) ≤ 1) (sym e)
      (omega (arith, live_flushed n files1, live_one (made 1 files1)))
first_runs-one false n files0 files1 e = omega arith

first_runs-none :
    (b : Bool) (n : ℕ) (files0 files1 : List SstFile)
    → when b files0 ≡ []
    → when b files1 ≡ []
    → live (when b (first_runs n files0 files1)) ≡ 0
first_runs-none true n files0 files1 e0 e1 =
    subst (λ fs. live (first_runs n fs files1) ≡ 0) (sym e0)
      (live_flushed n files1 ∙ live_gone true 1 files1 e1)
first_runs-none false n files0 files1 e0 e1 = refl

module _ (d : Double) (k lvl r : ℕ) (names : List String) where
  -- None of these levels holds the output.
  placed_runs-none :
      (m : ℕ) (levels levels' : List LevelMetaData)
      → r < m
      → IsNumbered m levels
      → IsCompacted names r levels levels'
      → Covers names (placed_files d k lvl levels)
      → live (placed_runs d k lvl levels') ≡ 0
  placed_runs-none m [] [] below numbered c h = refl
  placed_runs-none m [] (level' ∷ levels') below numbered c h = absurd c
  placed_runs-none m (level ∷ levels) [] below numbered c h = absurd c
  placed_runs-none m (level ∷ levels) (level' ∷ levels') below numbered c h =
      let here = is_index lvl (fluid_level d k level.level) in
      let there = is_index lvl (fluid_level d k level'.level) in
      let gone =
        ap (λ n. when (is_index lvl (fluid_level d k n)) level'.files) c.0
        ∙ gone_if here names r level'.level level.files level'.files
            (λ _ same. omega (arith, same, c.0, numbered.0, below))
            (Covers-left names (when here level.files) (placed_files d k lvl levels) h) c.1 in
      live-append (when there (made level'.level level'.files ∷ [])) (placed_runs d k lvl levels')
      ∙ omega (
        arith,
        live_gone there level'.level level'.files gone,
        placed_runs-none (suc m) levels levels' (omega arith) numbered.1 c.2
            (Covers-right names (when here level.files) (placed_files d k lvl levels) h),
      )

  -- One of them may hold it.
  placed_runs-one :
      (m : ℕ) (levels levels' : List LevelMetaData)
      → IsNumbered m levels
      → IsCompacted names r levels levels'
      → Covers names (placed_files d k lvl levels)
      → live (placed_runs d k lvl levels') ≤ 1
  placed_runs-one m [] [] numbered c h = omega arith
  placed_runs-one m [] (level' ∷ levels') numbered c h = absurd c
  placed_runs-one m (level ∷ levels) [] numbered c h = absurd c
  placed_runs-one m (level ∷ levels) (level' ∷ levels') numbered c h =
      let here = is_index lvl (fluid_level d k level.level) in
      let there = is_index lvl (fluid_level d k level'.level) in
      let first = when there (made level'.level level'.files ∷ []) in
      let covers = Covers-right names (when here level.files) (placed_files d k lvl levels) h in
      let sum = live-append first (placed_runs d k lvl levels') in
      elim (ℕ_discrete m r) [
        | yes output ↦ omega (
          arith,
          sum,
          live-when there (made level'.level level'.files),
          placed_runs-none (suc m) levels levels' (omega (arith, output)) numbered.1 c.2 covers,
        )
        | no other ↦
            let gone =
              ap (λ n. when (is_index lvl (fluid_level d k n)) level'.files) c.0
              ∙ gone_if here names r level'.level level.files level'.files
                  (λ _ same. other (sym numbered.0 ∙ sym c.0 ∙ same))
                  (Covers-left names (when here level.files) (placed_files d k lvl levels) h) c.1 in
            omega (
              arith,
              sum,
              live_gone there level'.level level'.files gone,
              placed_runs-one (suc m) levels levels' numbered.1 c.2 covers,
            )
      ]

  -- The runs of the lazy level in the next tree.
  pub settled :
      (n : ℕ) (level0 level1 level0' level1' : LevelMetaData) (meta meta' : List LevelMetaData)
      → 1 ≤ r
      → IsNumbered 0 (level0 ∷ level1 ∷ meta)
      → IsCompacted names r (level0 ∷ level1 ∷ meta) (level0' ∷ level1' ∷ meta')
      → Covers names
          (when (same_index lvl 0) (level0.files ++ level1.files) ++ placed_files d k lvl meta)
      → live (
          when (same_index lvl 0) (first_runs n level0'.files level1'.files)
          ++ placed_runs d k lvl meta')
        ≤ 1
  settled n level0 level1 level0' level1' meta meta' deep numbered c h =
      let here = same_index lvl 0 in
      let firsts = when here (level0.files ++ level1.files) in
      let rest = placed_files d k lvl meta in
      let split =
        subst (Covers names) (sym (when-append here level0.files level1.files))
          (Covers-left names firsts rest h) in
      let covers = Covers-right names firsts rest h in
      let gone0 =
        gone_if here names r level0'.level level0.files level0'.files
          (λ _ same. omega (arith, same, c.0, numbered.0, deep))
          (Covers-left names (when here level0.files) (when here level1.files) split) c.1 in
      let first = when here (first_runs n level0'.files level1'.files) in
      let sum = live-append first (placed_runs d k lvl meta') in
      elim (ℕ_discrete 1 r) [
        | yes output ↦ omega (
          arith,
          sum,
          first_runs-one here n level0'.files level1'.files gone0,
          placed_runs-none 2 meta meta' (omega (arith, output)) numbered.1.1 c.2.2 covers,
        )
        | no other ↦
            let gone1 =
              gone_if here names r level1'.level level1.files level1'.files
                (λ _ same. other (sym numbered.1.0 ∙ sym c.2.0 ∙ same))
                (Covers-right names (when here level0.files) (when here level1.files) split)
                c.2.1 in
            omega (
              arith,
              sum,
              first_runs-none here n level0'.files level1'.files gone0 gone1,
              placed_runs-one 2 meta meta' numbered.1.1 c.2.2 covers,
            )
      ]
