-- ===== src/Fluid/Compact/Visit.antt =====
-- Visiting the files of a lazy level that are not being compacted, in a run, in the runs of a level,
-- and through pointers into the lazy levels.
use rocks_db_wrapper.Base.{
  ℕ, zero, suc, ◌≡◌, refl, sym, ap, subst, ◌∙◌, Bool, true, false, Option, none, some,
  some-injective, List, [], ◌∷◌, ◌++◌, map, get_elem?, modify, ◌>>=◌, if◌then◌else◌,
}
use rocks_db_wrapper.Fluid.Tree.{SstFile, Run, LazyLevel}
use rocks_db_wrapper.Fluid.Compact.{Pointer, deref, idle_files, idle_in_runs}
use rocks_db_wrapper.Fluid.Compact.Take.{
  take_by, take_by-nil, take_by-cons, take_by-append, take_by-map,
}

modify-modify {ℓ} :
    {A : Type ℓ} (f g : A → A) (i : ℕ) (xs : List A)
    → modify f i (modify g i xs) ≡ modify (λ x. f (g x)) i xs
modify-modify f g i [] = refl
modify-modify f g zero (x ∷ xs) = refl
modify-modify f g (suc i) (x ∷ xs) = ap (◌∷◌ x) (modify-modify f g i xs)

get_elem?-modify {ℓ} :
    {A : Type ℓ} (f : A → A) (i : ℕ) (xs : List A) {x : A}
    → get_elem? xs i ≡ some x
    → get_elem? (modify f i xs) i ≡ some (f x)
get_elem?-modify f i [] e = cc
get_elem?-modify f zero (x ∷ xs) e = rw (some-injective _ _ e)
get_elem?-modify f (suc i) (x ∷ xs) e = get_elem?-modify f i xs e

modify_self {ℓ} :
    {A : Type ℓ} (i : ℕ) (xs : List A) {x : A} → get_elem? xs i ≡ some x → modify (λ _. x) i xs ≡ xs
modify_self i [] e = cc
modify_self zero (x ∷ xs) e = rw (some-injective _ _ e)
modify_self (suc i) (x ∷ xs) e = ap (◌∷◌ x) (modify_self i xs e)

modify_const {ℓ} :
    {A : Type ℓ} (f : A → A) (i : ℕ) (xs : List A) {x : A}
    → get_elem? xs i ≡ some x
    → modify (λ _. f x) i xs ≡ modify f i xs
modify_const f i [] e = cc
modify_const f zero (x ∷ xs) e = rw (some-injective _ _ e)
modify_const f (suc i) (x ∷ xs) e = ap (◌∷◌ x) (modify_const f i xs e)

pub >>=-assoc {ℓ κ μ} :
    {A : Type ℓ} {B : Type κ} {C : Type μ} (m : Option A) (f : A → Option B) (g : B → Option C)
    → (m >>= f >>= g) ≡ (m >>= λ a. f a >>= g)
>>=-assoc none f g = refl
>>=-assoc (some a) f g = refl

-- What is read at the files of a run, and of a level, that are not being compacted.
abbrev pub idle_values {ℓ} : {N : Type ℓ} → (SstFile → N) → List SstFile → List N
idle_values value [] = []
idle_values value (file ∷ files) =
    let rest = idle_values value files in if file.being_compacted then rest else value file ∷ rest

abbrev pub idle_level_values {ℓ} : {N : Type ℓ} → (SstFile → N) → List Run → List N
idle_level_values value [] = []
idle_level_values value (run ∷ runs) = idle_values value run.files ++ idle_level_values value runs

abbrev pub touch_run : (SstFile → SstFile) → Run → Run
touch_run touch run = record run { files = map touch run.files }

abbrev pub touch_level : (SstFile → SstFile) → LazyLevel → LazyLevel
touch_level touch level = record { runs = map (touch_run touch) level.runs }

-- A file's update at a position of a run, of the runs of a level, and of the lazy levels.
module _ (touch : SstFile → SstFile) where
  abbrev touch_at_run : ℕ → Run → Run
  touch_at_run i run = record run { files = modify touch i run.files }

  abbrev touch_in_runs : ℕ × ℕ → List Run → List Run
  touch_in_runs p runs = modify (touch_at_run p.1) p.0 runs

  abbrev pub touch_at : Pointer → List LazyLevel → List LazyLevel
  touch_at p levels =
      modify (λ level. record { runs = touch_in_runs (p.run, p.file) level.runs }) p.level levels

module _ {N : Type 0} (value : SstFile → N) where
  abbrev file_value : List SstFile → ℕ → Option N
  file_value files i = get_elem? files i >>= λ file. some (value file)

  abbrev level_value : List Run → ℕ × ℕ → Option N
  level_value runs p = get_elem? runs p.0 >>= λ run. file_value run.files p.1

  abbrev pub pointer_value : List LazyLevel → Pointer → Option N
  pointer_value levels p = deref levels p >>= λ file. some (value file)

module _ {N : Type 0} (value : SstFile → N) (touch : SstFile → SstFile)
    (keeps : (file : SstFile) → file.being_compacted ≡ true → touch file ≡ file) where
  abbrev look : List SstFile → ℕ → Option N
  look = file_value value

  take_behind :
      (head : SstFile) (files : List SstFile) (is : List ℕ) {r : List N × List SstFile}
      → take_by look (modify touch) files is ≡ some r
      → take_by look (modify touch) (head ∷ files) (map suc is) ≡ some (r.0, head ∷ r.1)
  take_behind head =
      take_by-map look (modify touch) look (modify touch) (◌∷◌ head) suc (λ s p. refl) λ s p. refl

  take_file :
      (b : Bool) (file : SstFile) (files : List SstFile)
      → file.being_compacted ≡ b
      → take_by look (modify touch) files (idle_files files)
        ≡ some (idle_values value files, map touch files)
      → take_by look
          (modify touch)
          (file ∷ files)
          (if b then map suc (idle_files files) else 0 ∷ map suc (idle_files files))
        ≡ some (
          if b then idle_values value files else value file ∷ idle_values value files,
          touch file ∷ map touch files,
        )
  take_file true file files e h =
      take_behind file files (idle_files files) h
      ∙ ap (λ f. some (idle_values value files, f ∷ map touch files)) (sym (keeps file e))
  take_file false file files e h =
      take_by-cons look (modify touch) (file ∷ files) 0 (map suc (idle_files files)) refl
        (take_behind (touch file) files (idle_files files) h)

  take_files :
      (files : List SstFile)
      → take_by look (modify touch) files (idle_files files)
        ≡ some (idle_values value files, map touch files)
  unfolding idle_files
  take_files [] = take_by-nil look (modify touch) []
  take_files (file ∷ files) = take_file file.being_compacted file files refl (take_files files)

  take_runs :
      (runs : List Run)
      → take_by (level_value value) (touch_in_runs touch) runs (idle_in_runs runs)
        ≡ some (idle_level_values value runs, map (touch_run touch) runs)
  unfolding idle_in_runs
  take_runs [] = take_by-nil (level_value value) (touch_in_runs touch) []
  take_runs (run ∷ runs) =
      take_by-append (level_value value) (touch_in_runs touch) (run ∷ runs)
        (map (λ i. (0, i)) (idle_files run.files)) (map (λ p. (suc p.0, p.1)) (idle_in_runs runs))
        (take_by-map look (modify touch) (level_value value) (touch_in_runs touch)
          (λ files. record run { files = files } ∷ runs) (λ i. (0, i)) (λ s p. refl) (λ s p. refl)
          run.files (idle_files run.files) (take_files run.files))
        (take_by-map (level_value value) (touch_in_runs touch) (level_value value)
          (touch_in_runs touch) (◌∷◌ (touch_run touch run)) (λ p. (suc p.0, p.1)) (λ s p. refl)
          (λ s p. refl) runs (idle_in_runs runs) (take_runs runs))

  module _ (levels : List LazyLevel) (lvl : ℕ) {level : LazyLevel}
      (at : get_elem? levels lvl ≡ some level) where
    abbrev with_runs : List Run → List LazyLevel
    with_runs runs = modify (λ _. record { runs = runs }) lvl levels

    abbrev pointer : ℕ × ℕ → Pointer
    pointer p = record { level = lvl; run = p.0; file = p.1 }

    pointer_value-with_runs :
        (runs : List Run) (p : ℕ × ℕ)
        → pointer_value value (with_runs runs) (pointer p) ≡ level_value value runs p
    unfolding deref
    pointer_value-with_runs runs p =
        rw (get_elem?-modify (λ _. record { runs = runs }) lvl levels at) (
          >>=-assoc (get_elem? runs p.0) (λ run. get_elem? run.files p.1)
            (λ file. some (value file)))

    touch_at-with_runs :
        (runs : List Run) (p : ℕ × ℕ)
        → touch_at touch (pointer p) (with_runs runs) ≡ with_runs (touch_in_runs touch p runs)
    touch_at-with_runs runs p =
        modify-modify (λ level. record { runs = touch_in_runs touch p level.runs })
          (λ _. record { runs = runs }) lvl levels

    -- A visit through the pointers to the idle files of level `lvl`.
    pub take_pointers :
        take_by
          (pointer_value value)
          (touch_at touch)
          levels
          (map pointer (idle_in_runs level.runs))
        ≡ some (idle_level_values value level.runs, modify (touch_level touch) lvl levels)
    take_pointers =
        let taken =
          take_by-map (level_value value) (touch_in_runs touch) (pointer_value value)
            (touch_at touch) with_runs pointer pointer_value-with_runs touch_at-with_runs level.runs
            (idle_in_runs level.runs) (take_runs level.runs) in
        subst
          (λ ls.
            take_by (pointer_value value) (touch_at touch) ls
              (map pointer (idle_in_runs level.runs))
            ≡ some (idle_level_values value level.runs, modify (touch_level touch) lvl levels))
          (modify_self lvl levels at)
          (taken
            ∙ ap (λ ls. some (idle_level_values value level.runs, ls))
                (modify_const (touch_level touch) lvl levels at))
