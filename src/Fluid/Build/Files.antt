-- ===== src/Fluid/Build/Files.antt =====
-- BuildStructure keeps the database's files: what the lazy levels hold is what the metadata lists.
use mathlib.Core.List.{Perm, append-nil, append_assoc, perm_append_comm}
use mathlib.Core.Option.{some-injective}
use mathlib.Core.List.Perm
use rocks_db_wrapper.Base.{
  ℕ, zero, suc, ◌+◌, ◌-◌, ◌≡◌, refl, sym, ◌∙◌, some, List, [], ◌∷◌, ◌++◌, map, length,
  if◌then◌else◌, >>=-eq-some,
}
use rocks_db_wrapper.Base.Int.{ℤ, pos, negsuc}
use rocks_db_wrapper.Fluid.Double.{Double}
use rocks_db_wrapper.Fluid.Tree.{SstFile, Run, LazyLevel, new_run, add_file, clear, is_empty}
use rocks_db_wrapper.Fluid.Build.{
  LevelMetaData, push_run, add_files, create_run, pad_runs, level0_runs, create_run_at, fluid_level,
  deeper_runs, build_levels,
}

abbrev pub run_files : List Run → List SstFile
run_files [] = []
run_files (run ∷ runs) = run.files ++ run_files runs

abbrev pub tree_files : List LazyLevel → List SstFile
tree_files [] = []
tree_files (level ∷ levels) = run_files level.runs ++ tree_files levels

abbrev pub meta_files : List LevelMetaData → List SstFile
meta_files [] = []
meta_files (level ∷ levels) = level.files ++ meta_files levels

pub add_files-files :
    (run : Run) (files : List SstFile) → (add_files run files).files ≡ run.files ++ files
unfolding add_files
add_files-files run [] = sym (append-nil run.files)
add_files-files run (file ∷ files) =
    add_files-files (add_file run file) files ∙ append_assoc run.files (file ∷ []) files

run_files-append :
    (runs : List Run) (run : Run) → run_files (runs ++ run ∷ []) ≡ run_files runs ++ run.files
run_files-append [] run = append-nil run.files
run_files-append (r ∷ runs) run = simp (run_files-append runs run, append_assoc)

tree_files-clear : (levels : List LazyLevel) → tree_files (map clear levels) ≡ []
tree_files-clear [] = refl
tree_files-clear (level ∷ levels) = tree_files-clear levels

perm_of_eq {ℓ} : {A : Type ℓ} {xs ys : List A} → xs ≡ ys → Perm xs ys
perm_of_eq e = rw e (Perm.refl _)

-- Two lists in front of a third change places.
perm_swap_front {ℓ} : {A : Type ℓ} (xs ys zs : List A) → Perm (xs ++ (ys ++ zs)) (ys ++ (xs ++ zs))
perm_swap_front xs ys zs = Perm.trans (perm_of_eq (sym (append_assoc xs ys zs))) (
    Perm.trans (Perm.append_right zs (perm_append_comm xs ys)) (perm_of_eq (append_assoc ys xs zs)))

push_run-perm :
    (lvl : ℕ) (run : Run) (levels : List LazyLevel) {out : List LazyLevel}
    → push_run lvl run levels ≡ some out
    → Perm (tree_files out) (run.files ++ tree_files levels)
unfolding push_run
push_run-perm lvl run [] e = cc
push_run-perm zero run (level ∷ levels) e =
    rw (← some-injective _ _ e, run_files-append level.runs run)
      (Perm.trans
        (Perm.append_right (tree_files levels) (perm_append_comm (run_files level.runs) run.files))
        (perm_of_eq (append_assoc run.files (run_files level.runs) (tree_files levels))))
push_run-perm (suc lvl) run (level ∷ levels) e =
    let (rest, pushed, last) = >>=-eq-some (push_run lvl run levels) _ e in
    rw (← some-injective _ _ last) (
      Perm.trans (Perm.append_left (run_files level.runs) (push_run-perm lvl run levels pushed))
        (perm_swap_front (run_files level.runs) run.files (tree_files levels)))

create_run-perm :
    (files : List SstFile) (lvl rocks_db_lvl : ℕ) (levels : List LazyLevel) {out : List LazyLevel}
    → create_run files lvl rocks_db_lvl levels ≡ some out
    → Perm (tree_files out) (files ++ tree_files levels)
unfolding create_run
create_run-perm files lvl rocks_db_lvl levels e =
    rw (← add_files-files (new_run rocks_db_lvl) files)
      (push_run-perm lvl (add_files (new_run rocks_db_lvl) files) levels e)

pad_runs-perm :
    (n : ℕ) (levels : List LazyLevel) {out : List LazyLevel}
    → pad_runs n levels ≡ some out
    → Perm (tree_files out) (tree_files levels)
unfolding pad_runs
pad_runs-perm zero levels e = rw (some-injective _ _ e) (Perm.refl _)
pad_runs-perm (suc n) levels e =
    let (padded, first, rest) = >>=-eq-some (create_run [] 0 0 levels) _ e in
    Perm.trans (pad_runs-perm n padded rest) (create_run-perm [] 0 0 levels first)

level0_runs-perm :
    (files : List SstFile) (levels : List LazyLevel) {out : List LazyLevel}
    → level0_runs files levels ≡ some out
    → Perm (tree_files out) (files ++ tree_files levels)
unfolding level0_runs
level0_runs-perm [] levels e = rw (some-injective _ _ e) (Perm.refl _)
level0_runs-perm (file ∷ files) levels e =
    let (more, first, rest) = >>=-eq-some (create_run (file ∷ []) 0 0 levels) _ e in
    Perm.trans (level0_runs-perm files more rest) (
      Perm.trans (Perm.append_left files (create_run-perm (file ∷ []) 0 0 levels first))
        (perm_swap_front files (file ∷ []) (tree_files levels)))

create_run_at-perm :
    (files : List SstFile) (lvl : ℤ) (rocks_db_lvl : ℕ) (levels : List LazyLevel)
    {out : List LazyLevel}
    → create_run_at files lvl rocks_db_lvl levels ≡ some out
    → Perm (tree_files out) (files ++ tree_files levels)
unfolding create_run_at
create_run_at-perm files (pos lvl) rocks_db_lvl levels e =
    create_run-perm files lvl rocks_db_lvl levels e
create_run_at-perm files (negsuc n) rocks_db_lvl levels e = cc

deeper_runs-perm :
    (d : Double) (k : ℕ) (meta : List LevelMetaData) (levels : List LazyLevel)
    {out : List LazyLevel}
    → deeper_runs d k meta levels ≡ some out
    → Perm (tree_files out) (meta_files meta ++ tree_files levels)
unfolding deeper_runs
deeper_runs-perm d k [] levels e = rw (some-injective _ _ e) (Perm.refl _)
deeper_runs-perm d k (level ∷ meta) levels e =
    let lvl = fluid_level d k level.level in
    let (more, first, rest) = >>=-eq-some (create_run_at level.files lvl level.level levels) _ e in
    Perm.trans (deeper_runs-perm d k meta more rest) (
      Perm.trans
        (Perm.append_left (meta_files meta)
          (create_run_at-perm level.files lvl level.level levels first))
        (Perm.trans (perm_swap_front (meta_files meta) level.files (tree_files levels))
          (perm_of_eq (sym (append_assoc level.files (meta_files meta) (tree_files levels))))))

-- Whatever the level numbers and the floating point, the lazy levels hold exactly the files that
-- the metadata lists, each as often.
pub build_levels-perm :
    (d : Double) (k : ℕ) (meta : List LevelMetaData) (levels : List LazyLevel)
    {out : List LazyLevel}
    → build_levels d k meta levels ≡ some out
    → Perm (tree_files out) (meta_files meta)
unfolding build_levels
build_levels-perm d k [] levels e = cc
build_levels-perm d k (level0 ∷ []) levels e = cc
build_levels-perm d k (level0 ∷ level1 ∷ meta) levels e =
    let n = length level0.files + (if is_empty level1.files then 0 else 1) in
    let (padded, e1, r1) = >>=-eq-some (pad_runs (k - n) (map clear levels)) _ e in
    let (flushed, e2, r2) = >>=-eq-some (level0_runs level0.files padded) _ r1 in
    let (first, e3, r3) = >>=-eq-some (create_run level1.files 0 1 flushed) _ r2 in
    let none_left : Perm (tree_files padded) [] =
      Perm.trans (pad_runs-perm (k - n) (map clear levels) e1)
        (perm_of_eq (tree_files-clear levels)) in
    let flushes : Perm (tree_files flushed) level0.files =
      Perm.trans (level0_runs-perm level0.files padded e2) (
        Perm.trans (Perm.append_left level0.files none_left)
          (perm_of_eq (append-nil level0.files))) in
    let firsts : Perm (tree_files first) (level0.files ++ level1.files) =
      Perm.trans (create_run-perm level1.files 0 1 flushed e3) (
        Perm.trans (Perm.append_left level1.files flushes)
          (perm_append_comm level1.files level0.files)) in
    Perm.trans (deeper_runs-perm d k meta first r3) (
      Perm.trans (Perm.append_left (meta_files meta) firsts) (
        Perm.trans (perm_append_comm (meta_files meta) (level0.files ++ level1.files))
          (perm_of_eq (append_assoc level0.files level1.files (meta_files meta)))))
