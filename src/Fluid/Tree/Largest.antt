-- ===== src/Fluid/Tree/Largest.antt =====
-- GetLargestOccupiedLevel: the last lazy level with a file in some run.
use mathlib.Core.Option.{some-injective}
use rocks_db_wrapper.Base.{
  ℕ, zero, suc, ◌+◌, ◌≤◌, ◌<◌, ◌≡◌, ◌⊎◌, inl, inr, refl, sym, ap, subst, ◌∙◌, Bool, true, false,
  not, ◌||◌, some, List, [], ◌∷◌, get_elem?, get_elem?-lt, length, arith, if◌then◌else◌, Bool-cases,
}
use rocks_db_wrapper.Fluid.Tree.{
  Run, LazyLevel, is_empty, largest_in_runs, largest_from, largest_occupied_level,
}

abbrev pub has_files : List Run → Bool
has_files [] = false
has_files (run ∷ runs) = not (is_empty run.files) || has_files runs

largest_in_runs_lem :
    (lvl largest : ℕ) (runs : List Run)
    → largest_in_runs lvl largest runs ≡ (if has_files runs then lvl else largest)
unfolding largest_in_runs
largest_in_runs_lem lvl largest [] = refl
largest_in_runs_lem lvl largest (run ∷ runs) =
    ground (arith, largest_in_runs_lem lvl (if is_empty run.files then largest else lvl) runs)

-- `r` is at least `largest` and every position, from `lvl` on, of a level with files, and one of them.
record IsLargest (lvl largest : ℕ) (levels : List LazyLevel) (r : ℕ) : Type 0 where
  grown : largest ≤ r
  above :
      (i : ℕ) (level : LazyLevel)
      → get_elem? levels i ≡ some level
      → has_files level.runs ≡ true
      → lvl + i ≤ r
  attained :
      (r ≡ largest)
      ⊎ ((i : ℕ) × (level : LazyLevel) × (r ≡ lvl + i)
          × (get_elem? levels i ≡ some level)
          × (has_files level.runs ≡ true))

attained_later :
    (lvl largest r : ℕ) (level : LazyLevel) (levels : List LazyLevel)
    → (i : ℕ) (found : LazyLevel) → r ≡ lvl + 1 + i
    → get_elem? levels i ≡ some found
    → has_files found.runs ≡ true
    → (r ≡ largest)
      ⊎ ((i : ℕ) × (found : LazyLevel) × (r ≡ lvl + i)
          × (get_elem? (level ∷ levels) i ≡ some found)
          × (has_files found.runs ≡ true))
attained_later lvl largest r level levels i found e at full =
    inr (suc i, found, omega arith, at, full)

IsLargest-full :
    (lvl largest r : ℕ) (level : LazyLevel) (levels : List LazyLevel)
    → largest ≤ lvl
    → has_files level.runs ≡ true
    → IsLargest (lvl + 1) lvl levels r
    → IsLargest lvl largest (level ∷ levels) r
IsLargest-full lvl largest r level levels h full ih = record {
  grown = omega (arith, ih.grown);
  above = λ i found at f.
      elim i as (λ i. get_elem? (level ∷ levels) i ≡ some found → lvl + i ≤ r) [
        | zero ↦ λ _. omega (arith, ih.grown)
        | suc i ↦ λ at'. omega (arith, ih.above i found at' f)
      ]
        at;
  attained = elim ih.attained [
    | inl e ↦ inr (0, level, omega (arith, e), refl, full)
    | inr (i, found, e, at, f) ↦ attained_later lvl largest r level levels i found e at f
  ];
}

IsLargest-vacant :
    (lvl largest r : ℕ) (level : LazyLevel) (levels : List LazyLevel)
    → has_files level.runs ≡ false
    → IsLargest (lvl + 1) largest levels r
    → IsLargest lvl largest (level ∷ levels) r
IsLargest-vacant lvl largest r level levels vacant ih = record {
  grown = ih.grown;
  above = λ i found at f.
      elim i as (λ i. get_elem? (level ∷ levels) i ≡ some found → lvl + i ≤ r) [
        | zero ↦ λ at'.
            let same = ap (λ (l : LazyLevel). has_files l.runs) (some-injective _ _ at') in
            let wrong : false ≡ true = sym vacant ∙ same ∙ f in cc
        | suc i ↦ λ at'. omega (arith, ih.above i found at' f)
      ]
        at;
  attained = elim ih.attained [
    | inl e ↦ inl e
    | inr (i, found, e, at, f) ↦ attained_later lvl largest r level levels i found e at f
  ];
}

largest_from-IsLargest :
    (lvl largest : ℕ) (levels : List LazyLevel)
    → largest ≤ lvl
    → IsLargest lvl largest levels (largest_from lvl largest levels)
unfolding largest_from
largest_from-IsLargest lvl largest [] h = record {
  grown = omega arith;
  above = λ i level e f. cc;
  attained = inl refl;
}
largest_from-IsLargest lvl largest (level ∷ levels) h =
    let R = λ (x : ℕ). IsLargest lvl largest (level ∷ levels) (largest_from (lvl + 1) x levels) in
    let here = largest_in_runs_lem lvl largest level.runs in
    elim (Bool-cases (has_files level.runs)) [
      | inl full ↦ subst R (sym (here ∙ ap (λ b. if b then lvl else largest) full)) (
          IsLargest-full lvl largest (largest_from (lvl + 1) lvl levels) level levels h full
            (largest_from-IsLargest (lvl + 1) lvl levels (omega arith)))
      | inr vacant ↦ subst R (sym (here ∙ ap (λ b. if b then lvl else largest) vacant)) (
          IsLargest-vacant lvl largest (largest_from (lvl + 1) largest levels) level levels vacant
            (largest_from-IsLargest (lvl + 1) largest levels (omega arith)))
    ]

-- If a lazy level has a file, the result is a level with a file, and no level beyond it has one.
pub largest_occupied_level_lem :
    (levels : List LazyLevel) (i : ℕ) (level : LazyLevel)
    → get_elem? levels i ≡ some level
    → has_files level.runs ≡ true
    → (i ≤ largest_occupied_level levels)
      × (last : LazyLevel) × (get_elem? levels (largest_occupied_level levels) ≡ some last)
      × (has_files last.runs ≡ true)
unfolding largest_occupied_level
largest_occupied_level_lem levels i level at f =
    let v = largest_from-IsLargest 0 0 levels (omega arith) in
    let below : i ≤ largest_from 0 0 levels = omega (arith, v.above i level at f) in
    elim v.attained [
      | inl e ↦ (below, level, ap (get_elem? levels) (omega (arith, e)) ∙ at, f)
      | inr (j, last, e, at', f') ↦
          (below, last, ap (get_elem? levels) (omega (arith, e)) ∙ at', f')
    ]

-- The result is in range, unless there is no level at all.
pub largest_occupied_level-lt :
    (level : LazyLevel) (levels : List LazyLevel)
    → largest_occupied_level (level ∷ levels) < length (level ∷ levels)
unfolding largest_occupied_level
largest_occupied_level-lt level levels =
    elim (largest_from-IsLargest 0 0 (level ∷ levels) (omega arith)).attained [
      | inl e ↦ omega (arith, e)
      | inr (j, last, e, at, f) ↦ omega (arith, e, get_elem?-lt (level ∷ levels) j at)
    ]
