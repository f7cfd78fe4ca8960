-- ===== src/Fluid/Build/Runs.antt =====
-- Which runs BuildStructure puts into which lazy level, in order.
use mathlib.Core.List.{append-nil, append_assoc}
use mathlib.Core.Option.{some-injective}
use rocks_db_wrapper.Base.{
  ℕ, zero, suc, ◌+◌, ◌-◌, ◌≡◌, refl, sym, ap, ◌∙◌, Bool, true, false, some, List, [], ◌∷◌, ◌++◌,
  map, length, replicate, get_elem?, if◌then◌else◌, >>=-eq-some,
}
use rocks_db_wrapper.Base.Int.{ℤ, pos, negsuc}
use rocks_db_wrapper.Fluid.Double.{Double}
use rocks_db_wrapper.Fluid.Tree.{SstFile, Run, LazyLevel, new_run, clear, is_empty}
use rocks_db_wrapper.Fluid.Build.{
  LevelMetaData, push_run, add_files, create_run, pad_runs, level0_runs, create_run_at, fluid_level,
  deeper_runs, build_levels,
}

-- The runs of a lazy level; past the end there are none.
abbrev pub runs_at : ℕ → List LazyLevel → List Run
runs_at i [] = []
runs_at zero (level ∷ levels) = level.runs
runs_at (suc i) (level ∷ levels) = runs_at i levels

pub runs_at-get_elem? :
    (i : ℕ) (levels : List LazyLevel) {level : LazyLevel}
    → get_elem? levels i ≡ some level
    → runs_at i levels ≡ level.runs
runs_at-get_elem? i [] e = cc
runs_at-get_elem? zero (l ∷ levels) e = ap (λ (x : LazyLevel). x.runs) (some-injective _ _ e)
runs_at-get_elem? (suc i) (l ∷ levels) e = runs_at-get_elem? i levels e

-- The same index, without arithmetic.
abbrev pub same_index : ℕ → ℕ → Bool
same_index zero zero = true
same_index zero (suc j) = false
same_index (suc i) zero = false
same_index (suc i) (suc j) = same_index i j

abbrev pub is_index : ℕ → ℤ → Bool
is_index i (pos j) = same_index i j
is_index i (negsuc n) = false

abbrev pub when {ℓ} : {A : Type ℓ} → Bool → List A → List A
when true xs = xs
when false xs = []

pub when-append {ℓ} :
    {A : Type ℓ} (b : Bool) (xs ys : List A) → when b xs ++ when b ys ≡ when b (xs ++ ys)
when-append true xs ys = refl
when-append false xs ys = refl

when-nil {ℓ} : {A : Type ℓ} (b : Bool) → when {A = A} b [] ≡ []
when-nil true = refl
when-nil false = refl

-- The run that CreateRun makes of some files.
abbrev pub made : ℕ → List SstFile → Run
made rocks_db_lvl files = add_files (new_run rocks_db_lvl) files

-- The runs of the levels 0 and 1 of the database, behind those that pad the level.
abbrev pub first_runs : ℕ → List SstFile → List SstFile → List Run
first_runs pads files0 files1 =
    replicate pads (made 0 []) ++ map (λ file. made 0 (file ∷ [])) files0 ++ made 1 files1 ∷ []

-- The runs of its levels from 2 on that belong to lazy level `i`.
abbrev pub placed_runs : Double → ℕ → ℕ → List LevelMetaData → List Run
placed_runs d k i [] = []
placed_runs d k i (level ∷ levels) =
    when (is_index i (fluid_level d k level.level)) (made level.level level.files ∷ [])
    ++ placed_runs d k i levels

push_run-runs_at :
    (i j : ℕ) (run : Run) (levels : List LazyLevel) {out : List LazyLevel}
    → push_run j run levels ≡ some out
    → runs_at i out ≡ runs_at i levels ++ when (same_index i j) (run ∷ [])
unfolding push_run
push_run-runs_at i j run [] e = cc
push_run-runs_at zero zero run (level ∷ levels) e = ap (runs_at 0) (sym (some-injective _ _ e))
push_run-runs_at (suc i) zero run (level ∷ levels) e =
    ap (runs_at (suc i)) (sym (some-injective _ _ e)) ∙ sym (append-nil (runs_at i levels))
push_run-runs_at zero (suc j) run (level ∷ levels) e =
    let (rest, pushed, last) = >>=-eq-some (push_run j run levels) _ e in
    ap (runs_at 0) (sym (some-injective _ _ last)) ∙ sym (append-nil level.runs)
push_run-runs_at (suc i) (suc j) run (level ∷ levels) e =
    let (rest, pushed, last) = >>=-eq-some (push_run j run levels) _ e in
    ap (runs_at (suc i)) (sym (some-injective _ _ last)) ∙ push_run-runs_at i j run levels pushed

create_run-runs_at :
    (i j : ℕ) (files : List SstFile) (rocks_db_lvl : ℕ) (levels : List LazyLevel)
    {out : List LazyLevel}
    → create_run files j rocks_db_lvl levels ≡ some out
    → runs_at i out ≡ runs_at i levels ++ when (same_index i j) (made rocks_db_lvl files ∷ [])
unfolding create_run
create_run-runs_at i j files rocks_db_lvl levels e =
    push_run-runs_at i j (made rocks_db_lvl files) levels e

create_run_at-runs_at :
    (i : ℕ) (lvl : ℤ) (files : List SstFile) (rocks_db_lvl : ℕ) (levels : List LazyLevel)
    {out : List LazyLevel}
    → create_run_at files lvl rocks_db_lvl levels ≡ some out
    → runs_at i out ≡ runs_at i levels ++ when (is_index i lvl) (made rocks_db_lvl files ∷ [])
unfolding create_run_at
create_run_at-runs_at i (pos j) files rocks_db_lvl levels e =
    create_run-runs_at i j files rocks_db_lvl levels e
create_run_at-runs_at i (negsuc n) files rocks_db_lvl levels e = absurd (cc e)

deeper_runs-runs_at :
    (d : Double) (k i : ℕ) (meta : List LevelMetaData) (levels : List LazyLevel)
    {out : List LazyLevel}
    → deeper_runs d k meta levels ≡ some out
    → runs_at i out ≡ runs_at i levels ++ placed_runs d k i meta
unfolding deeper_runs
deeper_runs-runs_at d k i [] levels e =
    ap (runs_at i) (sym (some-injective _ _ e)) ∙ sym (append-nil (runs_at i levels))
deeper_runs-runs_at d k i (level ∷ meta) levels e =
    let lvl = fluid_level d k level.level in
    let run = made level.level level.files in
    let (more, first, rest) = >>=-eq-some (create_run_at level.files lvl level.level levels) _ e in
    deeper_runs-runs_at d k i meta more rest
    ∙ ap (λ rs. rs ++ placed_runs d k i meta)
        (create_run_at-runs_at i lvl level.files level.level levels first)
    ∙ append_assoc (runs_at i levels) (when (is_index i lvl) (run ∷ [])) (placed_runs d k i meta)

-- One more run in front of the others that are pushed at lazy level 0.
then_runs :
    (i : ℕ) (levels more : List LazyLevel) (run : Run) (rest out : List Run)
    → runs_at i more ≡ runs_at i levels ++ when (same_index i 0) (run ∷ [])
    → out ≡ runs_at i more ++ when (same_index i 0) rest
    → out ≡ runs_at i levels ++ when (same_index i 0) (run ∷ rest)
then_runs i levels more run rest out first all =
    all
    ∙ ap (λ rs. rs ++ when (same_index i 0) rest) first
    ∙ append_assoc (runs_at i levels) (when (same_index i 0) (run ∷ []))
        (when (same_index i 0) rest)
    ∙ ap (λ rs. runs_at i levels ++ rs) (when-append (same_index i 0) (run ∷ []) rest)

no_runs :
    (i : ℕ) (levels : List LazyLevel) {out : List LazyLevel}
    → levels ≡ out
    → runs_at i out ≡ runs_at i levels ++ when (same_index i 0) []
no_runs i levels same =
    ap (runs_at i) (sym same)
    ∙ sym (append-nil (runs_at i levels))
    ∙ ap (λ rs. runs_at i levels ++ rs) (sym (when-nil (same_index i 0)))

pad_runs-runs_at :
    (n i : ℕ) (levels : List LazyLevel) {out : List LazyLevel}
    → pad_runs n levels ≡ some out
    → runs_at i out ≡ runs_at i levels ++ when (same_index i 0) (replicate n (made 0 []))
unfolding pad_runs
pad_runs-runs_at zero i levels e = no_runs i levels (some-injective _ _ e)
pad_runs-runs_at (suc n) i levels {out} e =
    let (padded, first, rest) = >>=-eq-some (create_run [] 0 0 levels) _ e in
    then_runs i levels padded (made 0 []) (replicate n (made 0 [])) (runs_at i out)
      (create_run-runs_at i 0 [] 0 levels first) (pad_runs-runs_at n i padded rest)

level0_runs-runs_at :
    (i : ℕ) (files : List SstFile) (levels : List LazyLevel) {out : List LazyLevel}
    → level0_runs files levels ≡ some out
    → runs_at i out
      ≡ runs_at i levels ++ when (same_index i 0) (map (λ file. made 0 (file ∷ [])) files)
unfolding level0_runs
level0_runs-runs_at i [] levels e = no_runs i levels (some-injective _ _ e)
level0_runs-runs_at i (file ∷ files) levels {out} e =
    let (more, first, rest) = >>=-eq-some (create_run (file ∷ []) 0 0 levels) _ e in
    then_runs i levels more (made 0 (file ∷ [])) (map (λ file. made 0 (file ∷ [])) files)
      (runs_at i out) (create_run-runs_at i 0 (file ∷ []) 0 levels first)
      (level0_runs-runs_at i files more rest)

cleared-runs_at : (i : ℕ) (levels : List LazyLevel) → runs_at i (map clear levels) ≡ []
cleared-runs_at i [] = refl
cleared-runs_at zero (level ∷ levels) = refl
cleared-runs_at (suc i) (level ∷ levels) = cleared-runs_at i levels

-- The runs of a lazy level, in order, whatever the floating point: in lazy level 0 the padding, a run
-- for each file of level 0 and one for level 1; and one for each deeper level of the database that
-- belongs to the lazy level.
pub build_levels-runs_at :
    (d : Double) (k i : ℕ) (level0 level1 : LevelMetaData) (meta : List LevelMetaData)
    (levels : List LazyLevel) {out : List LazyLevel}
    → build_levels d k (level0 ∷ level1 ∷ meta) levels ≡ some out
    → runs_at i out
      ≡ when (same_index i 0) (
          first_runs
            (k - (length level0.files + (if is_empty level1.files then 0 else 1)))
            level0.files
            level1.files)
        ++ placed_runs d k i meta
unfolding build_levels
build_levels-runs_at d k i level0 level1 meta levels e =
    let n = k - (length level0.files + (if is_empty level1.files then 0 else 1)) in
    let (padded, e1, r1) = >>=-eq-some (pad_runs n (map clear levels)) _ e in
    let (flushed, e2, r2) = >>=-eq-some (level0_runs level0.files padded) _ r1 in
    let (first, e3, r3) = >>=-eq-some (create_run level1.files 0 1 flushed) _ r2 in
    let here = same_index i 0 in
    let pads = replicate n (made 0 []) in
    let flushes = map (λ file. made 0 (file ∷ [])) level0.files in
    let padding =
      pad_runs-runs_at n i (map clear levels) e1
      ∙ ap (λ rs. rs ++ when here pads) (cleared-runs_at i levels) in
    let flushing =
      level0_runs-runs_at i level0.files padded e2
      ∙ ap (λ rs. rs ++ when here flushes) padding
      ∙ when-append here pads flushes in
    let firsts =
      create_run-runs_at i 0 level1.files 1 flushed e3
      ∙ ap (λ rs. rs ++ when here (made 1 level1.files ∷ [])) flushing
      ∙ when-append here (pads ++ flushes) (made 1 level1.files ∷ []) in
    deeper_runs-runs_at d k i meta first r3 ∙ ap (λ rs. rs ++ placed_runs d k i meta) firsts
