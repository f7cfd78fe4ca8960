-- ===== src/Fluid/Compact/Inputs.antt =====
-- What a scheduled compaction takes: the idle files of its level. Their names are collected and they
-- are marked; their sizes make up the size of the compaction.
use Prim.Native.String.{String}
use rocks_db_wrapper.Base.{
  ℕ, zero, suc, if◌then◌else◌, ◌+◌, ◌%◌, ◌^◌, ◌<◌, ◌≡◌, refl, sym, ap, subst, ◌∙◌, true, false, not,
  ◌&&◌, length, some, some-injective, List, [], ◌∷◌, map, get_elem?, modify, >>=-some, >>=-eq-some,
  arith,
}
use rocks_db_wrapper.Fluid.Tree.{SstFile, Run, LazyLevel, is_empty, num_live_runs}
use rocks_db_wrapper.Fluid.Tree.Live.{all_idle, live_runs, num_live_runs_lem}
use rocks_db_wrapper.Fluid.Compact.{
  Pointer, deref, mark, mark_at, idle_in_runs, add_files_to_compaction, take_inputs,
  compaction_size_from, compaction_size,
}
use rocks_db_wrapper.Fluid.Compact.Take.{take_by, take_by-nil, take_by-eq-some}
use rocks_db_wrapper.Fluid.Compact.Visit.{
  idle_level_values, touch_run, touch_level, touch_at, pointer_value, take_pointers,
}

mark_busy : (file : SstFile) → file.being_compacted ≡ true → mark file ≡ file
mark_busy file e = ground arith

abbrev pub name_of : SstFile → String
name_of file = file.name

abbrev pub size_of : SstFile → ℕ
size_of file = file.size

take_inputs-take_by :
    (levels : List LazyLevel) (ps : List Pointer) {r : List String × List LazyLevel}
    → take_by (pointer_value name_of) (touch_at mark) levels ps ≡ some r
    → take_inputs levels ps ≡ some r
unfolding take_inputs
take_inputs-take_by levels [] e =
    sym (take_by-nil (pointer_value name_of) (touch_at mark) levels) ∙ e
take_inputs-take_by levels (p ∷ ps) e =
    let (name, rest, looked, taken, same) =
      take_by-eq-some (pointer_value name_of) (touch_at mark) levels p ps e in
    let (file, derefs, named) = >>=-eq-some (deref levels p) _ looked in
    >>=-some _ derefs (
      >>=-some _ (take_inputs-take_by (mark_at p levels) ps taken)
        (ap some (ap (λ n. (n ∷ rest.0, rest.1)) (some-injective _ _ named) ∙ same)))

modify_id {ℓ} :
    {A : Type ℓ} (g : A → A) (i : ℕ) (xs : List A) → ((x : A) → g x ≡ x) → modify g i xs ≡ xs
modify_id g i [] h = refl
modify_id g zero (x ∷ xs) h = ap (λ y. y ∷ xs) (h x)
modify_id g (suc i) (x ∷ xs) h = ap (◌∷◌ x) (modify_id g i xs h)

abbrev untouched : SstFile → SstFile
untouched file = file

touch_at-untouched : (p : Pointer) (levels : List LazyLevel) → touch_at untouched p levels ≡ levels
touch_at-untouched p levels = modify_id _ p.level levels λ level.
    ap (λ runs. record { runs = runs })
      (modify_id _ p.run level.runs λ run.
        ap (λ files. record run { files = files })
          (modify_id untouched p.file run.files λ file. refl))

abbrev pub sum : List ℕ → ℕ
sum [] = 0
sum (x ∷ xs) = x + sum xs

compaction_size-take_by :
    (levels : List LazyLevel) (n : ℕ) (ps : List Pointer) {r : List ℕ × List LazyLevel}
    → n < 2 ^ 64
    → take_by (pointer_value size_of) (touch_at untouched) levels ps ≡ some r
    → compaction_size_from levels n ps ≡ some ((n + sum r.0) % 2 ^ 64)
unfolding compaction_size_from
compaction_size-take_by levels n [] h e =
    let nothing =
      some-injective _ _
        (sym (take_by-nil (pointer_value size_of) (touch_at untouched) levels) ∙ e) in
    subst (λ (r : List ℕ × List LazyLevel). some n ≡ some ((n + sum r.0) % 2 ^ 64)) nothing
      (ap some (omega arith))
compaction_size-take_by levels n (p ∷ ps) h e =
    let (size, rest, looked, taken, same) =
      take_by-eq-some (pointer_value size_of) (touch_at untouched) levels p ps e in
    let (file, derefs, sized) = >>=-eq-some (deref levels p) _ looked in
    let here = some-injective _ _ sized in
    let next =
      compaction_size-take_by levels ((n + file.size) % 2 ^ 64) ps (omega arith)
        (rw (touch_at-untouched p levels) at taken) in
    >>=-some _ derefs
      (next ∙ ap some (omega (arith, here, ap (λ (t : List ℕ × List LazyLevel). sum t.0) same)))

marked-is_live :
    (files : List SstFile) → (not (is_empty (map mark files)) && all_idle (map mark files)) ≡ false
marked-is_live [] = refl
marked-is_live (file ∷ files) = refl

marked-live_runs : (runs : List Run) → live_runs (map (touch_run mark) runs) ≡ []
marked-live_runs [] = refl
marked-live_runs (run ∷ runs) =
    let rest = live_runs (map (touch_run mark) runs) in
    ap (λ b. if b then touch_run mark run ∷ rest else rest) (marked-is_live run.files)
    ∙ marked-live_runs runs

marked-num_live_runs : (level : LazyLevel) → num_live_runs (touch_level mark level) ≡ 0
marked-num_live_runs level =
    num_live_runs_lem (touch_level mark level) ∙ ap length (marked-live_runs level.runs)

-- Selecting the inputs of a level and marking them: the names are those of the level's files that
-- were not being compacted, in order, and afterwards all files of the level are, no other changed.
-- The size of the compaction is the sum of those files' sizes, modulo 2 ^ 64.
-- A level whose files are all marked has no live run.
pub take_inputs_lem :
    (levels : List LazyLevel) (lvl : ℕ) {level : LazyLevel}
    → get_elem? levels lvl ≡ some level
    → (ps : List Pointer) × (add_files_to_compaction levels lvl [] ≡ some ps)
      × (compaction_size levels ps ≡ some (sum (idle_level_values size_of level.runs) % 2 ^ 64))
      × (take_inputs levels ps
          ≡ some (idle_level_values name_of level.runs, modify (touch_level mark) lvl levels))
      × (num_live_runs (touch_level mark level) ≡ 0)
unfolding add_files_to_compaction compaction_size
take_inputs_lem levels lvl {level} at =
    let ps : List Pointer =
      map (λ p. record { level = lvl; run = p.0; file = p.1 }) (idle_in_runs level.runs) in
    (
      ps,
      >>=-some _ at refl,
      compaction_size-take_by levels 0 ps (omega arith)
            (take_pointers size_of untouched (λ f e. refl) levels lvl at)
          ∙ ap some (omega arith),
      take_inputs-take_by levels ps (take_pointers name_of mark mark_busy levels lvl at),
      marked-num_live_runs level,
    )
