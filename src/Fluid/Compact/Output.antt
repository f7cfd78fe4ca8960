-- ===== src/Fluid/Compact/Output.antt =====
-- The database level that ScheduleCompaction chooses as the output of a compaction.
use Prim.Native.Nat.{min}
use mathlib.Core.Option.{some-injective}
use native.Mathlib.Decide.{ℕ_discrete}
use rocks_db_wrapper.Base.{
  ℕ, zero, suc, ◌+◌, ◌-◌, ◌*◌, ◌≤◌, ◌<◌, ◌≡◌, ◌≢◌, ◌⊎◌, inl, inr, refl, Bool, some, List, [], ◌∷◌,
  length, get_elem?, get_elem?-lt, get_elem?-some, arith, >>=-some, lt→ltb,
}
use rocks_db_wrapper.Fluid.Tree.{Run, LazyLevel, is_empty}
use rocks_db_wrapper.Fluid.Build.Placed.{RunsFrom, RunsFrom-get_elem?, IsPlaced}
use rocks_db_wrapper.Fluid.Compact.{output_level_loop, output_level}

-- Every run from slot `i` on holds a file.
abbrev pub OccupiedFrom : ℕ → List Run → Type 0
OccupiedFrom i runs = (j : ℕ) (run : Run) → i ≤ j → get_elem? runs j ≡ some run → run.files ≢ []

-- `x` is the database level of the deepest run without files, or of the last run if all have some.
pub record IsDeepestFree (runs : List Run) (x : ℕ) : Type 0 where
  pub slot : ℕ
  pub run : Run
  pub at_slot : get_elem? runs slot ≡ some run
  pub run_level : run.rocks_db_level ≡ x
  pub deeper : OccupiedFrom (suc slot) runs
  pub free : (run.files ≡ []) ⊎ ((suc slot ≡ length runs) × OccupiedFrom 0 runs)

is_empty_cases {ℓ} :
    {A : Type ℓ} (xs : List A)
    → ((xs ≡ []) × (is_empty xs ≡ Bool.true)) ⊎ ((xs ≢ []) × (is_empty xs ≡ Bool.false))
is_empty_cases [] = inl (refl, refl)
is_empty_cases (x ∷ xs) = inr ((λ e. cc), refl)

OccupiedFrom-down :
    (i : ℕ) (runs : List Run) (run : Run)
    → get_elem? runs i ≡ some run
    → run.files ≢ []
    → OccupiedFrom (suc i) runs
    → OccupiedFrom i runs
OccupiedFrom-down i runs run at full rest j run' le at' = elim (ℕ_discrete i j) [
  | yes e ↦ λ z. full (cc)
  | no ne ↦ rest j run' (omega arith) at'
]

module _ (k t b : ℕ) (runs : List Run) (size : length runs ≡ k + 1) (placed : RunsFrom b runs)
    (last : 1 + t * (k + 1) ≡ b + k) where
  output_level_loop-IsDeepestFree :
      (rounds lvl : ℕ)
      → rounds + lvl ≡ k + 1
      → OccupiedFrom (k + 1 - lvl) runs
      → (x : ℕ) × (output_level_loop runs k t rounds lvl ≡ some x) × IsDeepestFree runs x
  unfolding output_level_loop
  output_level_loop-IsDeepestFree zero lvl h occupied =
      let (run, at) = get_elem?-some runs k (omega arith) in
      (
        1 + t * (k + 1),
        refl,
        record {
          slot = k;
          run = run;
          at_slot = at;
          run_level = omega (arith, RunsFrom-get_elem? b k runs placed at);
          deeper = λ j r le at'. occupied j r (omega arith) at';
          free = inr (omega arith, λ j r le at'. occupied j r (omega arith) at');
        },
      )
  output_level_loop-IsDeepestFree (suc rounds) lvl h occupied =
      let (run, at) = get_elem?-some runs (k - lvl) (omega arith) in
      let rest : OccupiedFrom (suc (k - lvl)) runs = λ j r le at'. occupied j r (omega arith) at' in
      elim (is_empty_cases run.files) [
        | inl (none_left, e) ↦ (
          1 + t * (k + 1) - lvl,
          >>=-some _ at (rw e),
          record {
            slot = k - lvl;
            run = run;
            at_slot = at;
            run_level = omega (arith, RunsFrom-get_elem? b (k - lvl) runs placed at);
            deeper = rest;
            free = inl none_left;
          },
        )
        | inr (full, e) ↦
            let (x, found, deepest) =
              output_level_loop-IsDeepestFree rounds (lvl + 1) (omega arith) (λ j r le at'.
                OccupiedFrom-down (k - lvl) runs run at full rest j r (omega arith) at') in
            (x, >>=-some _ at (rw e found), deepest)
      ]

pub IsPlaced-get_elem? :
    (q n b j : ℕ) (levels : List LazyLevel) {level : LazyLevel}
    → IsPlaced q n b levels
    → get_elem? levels j ≡ some level
    → RunsFrom (b + j * q) level.runs × (length level.runs ≡ min q (n - (b + j * q)))
IsPlaced-get_elem? q n b j [] p e = cc
IsPlaced-get_elem? q n b zero (level ∷ levels) p e =
    let here : b + 0 * q ≡ b = omega arith in rw (here, ← some-injective _ _ e) (p.0, p.1)
IsPlaced-get_elem? q n b (suc j) (level ∷ levels) p e =
    let there : b + suc j * q ≡ b + q + j * q = omega arith in
    rw there (IsPlaced-get_elem? q n (b + q) j levels p.2 e)

IsDeepestFree-lt :
    (b x : ℕ) (runs : List Run) → RunsFrom b runs → IsDeepestFree runs x → x < b + length runs
IsDeepestFree-lt b x runs from deepest = omega (
  arith,
  deepest.run_level,
  RunsFrom-get_elem? b deepest.slot runs from deepest.at_slot,
  get_elem?-lt runs deepest.slot deepest.at_slot,
)

-- Suppose that the lazy levels from 1 on stand for the database's levels from 2 on, K + 1 to each as far
-- as its `n` levels go, and that all K + 1 runs of the target are levels of the database
-- (2 + target * (K + 1) ≤ n). Then a compaction into this target, from a lazy level above it, goes to the deepest of its runs that holds
-- no file, or to its last run if all hold some, and that run's level exists in the database.
pub output_level-IsDeepestFree :
    (k n origin j : ℕ) (level0 : LazyLevel) (levels : List LazyLevel) {level : LazyLevel}
    → IsPlaced (k + 1) n 2 levels
    → get_elem? levels j ≡ some level
    → 2 + suc j * (k + 1) ≤ n
    → origin < suc j
    → (x : ℕ) × (output_level (level0 ∷ levels) k origin (suc j) ≡ some x)
      × IsDeepestFree level.runs x
      × (x < n)
unfolding output_level
output_level-IsDeepestFree k n origin j level0 levels {level} p at full below =
    let (from, size) = IsPlaced-get_elem? (k + 1) n 2 j levels p at in
    let long : length level.runs ≡ k + 1 = omega arith in
    let (x, found, deepest) =
      output_level_loop-IsDeepestFree k (suc j) (2 + j * (k + 1)) level.runs long from (omega arith)
        (k + 1) 0 (omega arith)
        (λ i r le at'. absurd (omega (arith, get_elem?-lt level.runs i at'))) in
    let bound = IsDeepestFree-lt (2 + j * (k + 1)) x level.runs from deepest in
    (x, rw (lt→ltb _ _ below) (>>=-some _ at found), deepest, omega arith)
