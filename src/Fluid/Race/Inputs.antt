-- ===== src/Fluid/Race/Inputs.antt =====
-- The inputs of two threads that are both behind the test of ScheduleCompaction: each collects pointers to
-- the idle files, and only then marks them.
use Prim.Native.String.{String}
use rocks_db_wrapper.Base.{
  ℕ, zero, suc, ◌≡◌, refl, sym, ap, ◌∙◌, Option, none, some, some-injective, List, [], ◌∷◌,
  get_elem?, modify, ◌>>=◌, >>=-eq-some, >>=-some,
}
use rocks_db_wrapper.Fluid.Tree.{SstFile, Run, LazyLevel}
use rocks_db_wrapper.Fluid.Compact.{
  Pointer, deref, mark, mark_in_run, mark_in_level, mark_at, add_files_to_compaction, take_inputs,
}
use rocks_db_wrapper.Fluid.Compact.Inputs.{name_of, take_inputs_lem}
use rocks_db_wrapper.Fluid.Compact.Visit.{idle_level_values, >>=-assoc}

-- A look at a position sees nothing of an update that it does not depend on.
look-modify {ℓ κ} :
    {A : Type ℓ} {B : Type κ} (f : A → A) (look : A → Option B)
    → ((x : A) → look (f x) ≡ look x)
    → (i j : ℕ) (xs : List A) → (get_elem? (modify f i xs) j >>= look) ≡ (get_elem? xs j >>= look)
look-modify f look same i j [] = refl
look-modify f look same zero zero (x ∷ xs) = same x
look-modify f look same zero (suc j) (x ∷ xs) = refl
look-modify f look same (suc i) zero (x ∷ xs) = refl
look-modify f look same (suc i) (suc j) (x ∷ xs) = look-modify f look same i j xs

-- The name of the file at a position.
abbrev name_in_files : ℕ → List SstFile → Option String
name_in_files i files = get_elem? files i >>= λ file. some file.name

abbrev name_in_runs : ℕ → ℕ → List Run → Option String
name_in_runs r i runs = get_elem? runs r >>= λ run. name_in_files i run.files

abbrev name_at : Pointer → List LazyLevel → Option String
name_at p levels = get_elem? levels p.level >>= λ level. name_in_runs p.run p.file level.runs

-- Marks do not change names.
name_at-mark_at :
    (p q : Pointer) (levels : List LazyLevel) → name_at q (mark_at p levels) ≡ name_at q levels
unfolding mark_at
name_at-mark_at p q levels =
    look-modify (mark_in_level p.run p.file) (λ level. name_in_runs q.run q.file level.runs)
      (λ level.
        look-modify (mark_in_run p.file) (λ run. name_in_files q.file run.files)
          (λ run. look-modify mark (λ file. some file.name) (λ file. refl) p.file q.file run.files)
          p.run q.run level.runs)
      p.level q.level levels

SameNames : List LazyLevel → List LazyLevel → Type 0
SameNames levels levels' = (q : Pointer) → name_at q levels' ≡ name_at q levels

>>=-deep {ℓ κ μ ν} :
    {A : Type ℓ} {B : Type κ} {C : Type μ} {D : Type ν} (m : Option A) (f : A → Option B)
    (g : B → Option C) (h : C → Option D)
    → (m >>= λ a. f a >>= λ b. g b >>= h) ≡ ((m >>= λ a. f a >>= g) >>= h)
>>=-deep none f g h = refl
>>=-deep (some a) f g h = sym (>>=-assoc (f a) g h)

name_at-deref :
    (q : Pointer) (levels : List LazyLevel)
    → name_at q levels ≡ (deref levels q >>= λ file. some file.name)
unfolding deref
name_at-deref q levels =
    >>=-deep (get_elem? levels q.level) (λ level. get_elem? level.runs q.run)
      (λ run. get_elem? run.files q.file) (λ file. some file.name)

deref-name :
    (levels levels' : List LazyLevel) (q : Pointer) (file : SstFile)
    → SameNames levels levels'
    → deref levels q ≡ some file
    → (file' : SstFile) × (deref levels' q ≡ some file') × (file'.name ≡ file.name)
unfolding SameNames
deref-name levels levels' q file same at =
    let named : (deref levels' q >>= λ file. some file.name) ≡ some file.name =
      sym (name_at-deref q levels')
      ∙ same q
      ∙ name_at-deref q levels
      ∙ >>=-some (λ (file : SstFile). some file.name) at refl in
    let (file', at', last) = >>=-eq-some (deref levels' q) _ named in
    (file', at', some-injective _ _ last)

SameNames-mark_at :
    (p : Pointer) (levels levels' : List LazyLevel)
    → SameNames levels levels'
    → SameNames (mark_at p levels) (mark_at p levels')
unfolding SameNames
SameNames-mark_at p levels levels' same q =
    name_at-mark_at p q levels' ∙ same q ∙ sym (name_at-mark_at p q levels)

-- The same pointers name the same files, whatever is marked, and in the end too.
take_inputs-SameNames :
    (ps : List Pointer) (levels levels' : List LazyLevel) {names : List String}
    {marked : List LazyLevel}
    → SameNames levels levels'
    → take_inputs levels ps ≡ some (names, marked)
    → (again : List LazyLevel) × (take_inputs levels' ps ≡ some (names, again))
unfolding take_inputs
take_inputs-SameNames [] levels levels' same e =
    (levels', ap (λ (x : List String × List LazyLevel). some (x.0, levels')) (some-injective _ _ e))
take_inputs-SameNames (p ∷ ps) levels levels' same e =
    let (file, at, more) = >>=-eq-some (deref levels p) _ e in
    let ((names, marked), taken, last) = >>=-eq-some (take_inputs (mark_at p levels) ps) _ more in
    let (file', at', name) = deref-name levels levels' p file same at in
    let (again, taken') =
      take_inputs-SameNames ps (mark_at p levels) (mark_at p levels')
        (SameNames-mark_at p levels levels' same) taken in
    (
      again,
      >>=-some _ at' (
          >>=-some _ taken' (
            ap (λ (n : String). some (n ∷ names, again)) name
            ∙ ap (λ (x : List String × List LazyLevel). some (x.0, again))
                (some-injective _ _ last))),
    )

SameNames-marked :
    (ps : List Pointer) (levels : List LazyLevel) {names : List String} {marked : List LazyLevel}
    → take_inputs levels ps ≡ some (names, marked)
    → SameNames levels marked
unfolding take_inputs SameNames
SameNames-marked [] levels e q =
    ap (λ (x : List String × List LazyLevel). name_at q x.1) (sym (some-injective _ _ e))
SameNames-marked (p ∷ ps) levels e q =
    let (file, at, more) = >>=-eq-some (deref levels p) _ e in
    let ((names, marked), taken, last) = >>=-eq-some (take_inputs (mark_at p levels) ps) _ more in
    ap (λ (x : List String × List LazyLevel). name_at q x.1) (sym (some-injective _ _ last))
    ∙ SameNames-marked ps (mark_at p levels) taken q
    ∙ name_at-mark_at p q levels

-- If two threads have both collected pointers to the idle files of a level, the second finds all of them
-- although the first has marked them meanwhile: both compactions get the same input files, all that were
-- idle.
pub take_inputs_twice :
    (levels : List LazyLevel) (lvl : ℕ) {level : LazyLevel}
    → get_elem? levels lvl ≡ some level
    → (ps : List Pointer) × (marked : List LazyLevel) × (again : List LazyLevel)
      × (add_files_to_compaction levels lvl [] ≡ some ps)
      × (take_inputs levels ps ≡ some (idle_level_values name_of level.runs, marked))
      × (take_inputs marked ps ≡ some (idle_level_values name_of level.runs, again))
take_inputs_twice levels lvl at =
    let (ps, listed, _, taken, _) = take_inputs_lem levels lvl at in
    let (again, taken') =
      take_inputs-SameNames ps levels _ (SameNames-marked ps levels taken) taken in
    (ps, _, again, listed, taken, taken')
