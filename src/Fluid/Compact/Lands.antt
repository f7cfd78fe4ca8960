-- ===== src/Fluid/Compact/Lands.antt =====
-- The two formulas between lazy levels and the database's levels: the one of ScheduleCompaction for a
-- task's output, and the one of BuildStructure.
use native.Mathlib.Nat.{div-eq_of_lt-le}
use native.Mathlib.Numerals.{add-one}
use rocks_db_wrapper.Base.{
  ◌↔◌, ◌<◌, ◌∙◌, ℕ, zero, suc, ◌+◌, ◌-◌, ◌*◌, ◌/◌, ◌^◌, ◌≤◌, ◌<◌, ◌≡◌, sym, ap, ◌∙◌, some,
  some-injective, List, ◌∷◌, length, get_elem?, get_elem?-lt, >>=-eq-some, Bool-cases, inl, inr,
  arith, ltb, ltb→lt,
}
use rocks_db_wrapper.Base.Int.{pos}
use rocks_db_wrapper.Fluid.Double.{Double, IsExact}
use rocks_db_wrapper.Fluid.Tree.{Run, LazyLevel, is_empty}
use rocks_db_wrapper.Fluid.Build.{LevelMetaData, fluid_level, build_levels}
use rocks_db_wrapper.Fluid.Build.Placed.{IsNumbered, IsPlaced}
use rocks_db_wrapper.Fluid.Build.Slots.{fluid_level-exact, build_levels-IsPlaced}
use rocks_db_wrapper.Fluid.Compact.{Compactor, output_level_loop, output_level}
use rocks_db_wrapper.Fluid.Compact.Pick.{Takes}
use rocks_db_wrapper.Fluid.Compact.Output.{IsPlaced-get_elem?}

-- Whatever the runs hold, the loop steps back from the last slot of the target by at most `k`.
output_level_loop-back :
    (runs : List Run) (k t rounds lvl : ℕ) {r : ℕ}
    → output_level_loop runs k t rounds lvl ≡ some r
    → rounds + lvl ≤ k + 1
    → (back : ℕ) × (back ≤ k) × (r ≡ 1 + t * (k + 1) - back)
unfolding output_level_loop
output_level_loop-back runs k t zero lvl e h = (0, omega arith, omega (arith, some-injective _ _ e))
output_level_loop-back runs k t (suc rounds) lvl e h =
    let (run, at, more) = >>=-eq-some (get_elem? runs (k - lvl)) _ e in
    elim (Bool-cases (is_empty run.files)) [
      | inl free ↦ (lvl, omega arith, sym (some-injective _ _ (rw free at more)))
      | inr full ↦ output_level_loop-back runs k t rounds (lvl + 1) (rw full at more) (omega arith)
    ]

pub output_level-back :
    (levels : List LazyLevel) (k origin t : ℕ) {r : ℕ}
    → output_level levels k origin t ≡ some r
    → (back : ℕ) × (back ≤ k) × (back ≤ t * (k + 1)) × (r ≡ 1 + t * (k + 1) - back)
unfolding output_level
output_level-back levels k origin zero e = elim (Bool-cases (ltb origin 0)) [
  | inl deeper ↦ absurd (omega (arith, ltb→lt origin 0 deeper))
  | inr same_level ↦
      (0, omega arith, omega arith, sym (some-injective _ _ (rw same_level at e)) ∙ omega arith)
]
output_level-back levels k origin (suc j) e = elim (Bool-cases (ltb origin (suc j))) [
  | inl deeper ↦
      let (level, at, found) = >>=-eq-some (get_elem? levels (suc j)) _ (rw deeper at e) in
      let (back, small, same) =
        output_level_loop-back level.runs k (suc j) (k + 1) 0 found (omega arith) in
      (back, small, omega (arith, small), same)
  | inr same_level ↦
      (0, omega arith, omega arith, sym (some-injective _ _ (rw same_level at e)) ∙ omega arith)
]

div_near :
    (t k back : ℕ)
    → back ≤ k
    → back ≤ t * (k + 1)
    → (1 + t * (k + 1) - back - 1 + (k + 1) - 1) / (k + 1) ≡ t
div_near t k back h g = div-eq_of_lt-le (k + 1) (omega (arith, h, g)) (omega (arith, h, g))

-- The database level that ScheduleCompaction computes for a lazy level is one that BuildStructure puts
-- into that lazy level, whatever its runs hold: the output of a compaction appears where it was aimed
-- at. The level is not level 0, and K and the number are so small that doubles are exact.
pub output_level-fluid_level :
    (d : Double) (exact : IsExact d) (levels : List LazyLevel) (k origin target : ℕ) {r : ℕ}
    → k < 2 ^ 52
    → 1 + target * (k + 1) < 2 ^ 52
    → output_level levels k origin target ≡ some r
    → (1 ≤ r) × (fluid_level d k r ≡ pos target)
output_level-fluid_level d exact levels k origin target small fits e =
    let (back, near, within, same) = output_level-back levels k origin target e in
    (
      omega (arith, within, same),
      fluid_level-exact d exact k _ (omega (arith, within, same)) (omega (arith, same, fits)) small
          ∙ ap pos
              (ap (λ n. (n - 1 + (k + 1) - 1) / (k + 1)) same ∙ div_near target k back near within),
    )

-- The first round of the loop reads run `k`.
output_level_loop-long :
    (runs : List Run) (k t : ℕ) {r : ℕ}
    → output_level_loop runs k t (k + 1) 0 ≡ some r
    → k < length runs
unfolding output_level_loop
output_level_loop-long runs k t e =
    let (run, at, more) =
      >>=-eq-some (get_elem? runs (k - 0)) _
        (ap (λ n. output_level_loop runs k t n 0) (sym (add-one k)) ∙ e) in
    omega (arith, get_elem?-lt runs (k - 0) at)

output_level-lt :
    (k n lvl target : ℕ) (first : LazyLevel) (out : List LazyLevel) {aimed : LazyLevel} {r : ℕ}
    → IsPlaced (k + 1) n 2 out
    → get_elem? (first ∷ out) target ≡ some aimed
    → 1 ≤ target
    → output_level (first ∷ out) k lvl target ≡ some r
    → (r < n) ↔ (length aimed.runs ≡ k + 1)
unfolding output_level
output_level-lt k n lvl zero first out p at deep e = absurd (omega (arith, deep))
output_level-lt k n lvl (suc j) first out {aimed} {r} p at deep e =
    let (from, size) = IsPlaced-get_elem? (k + 1) n 2 j out p at in
    elim (Bool-cases (ltb lvl (suc j))) [
      | inl deeper ↦
          let (level, at', found) =
            >>=-eq-some (get_elem? (first ∷ out) (suc j)) _ (rw deeper at e) in
          let (back, near, within, same) = output_level-back (first ∷ out) k lvl (suc j) e in
          let long = output_level_loop-long level.runs k (suc j) found in
          let one : length level.runs ≡ length aimed.runs =
            ap (λ (l : LazyLevel). length l.runs) (some-injective _ _ (sym at' ∙ at)) in
          (λ h. omega (arith, size, long, one), λ h. omega (arith, size, same, h))
      | inr same_level ↦
          let same : r ≡ 1 + suc j * (k + 1) = sym (some-injective _ _ (rw same_level at e)) in
          (λ h. omega (arith, size, same, h), λ h. omega (arith, size, same, h))
    ]

-- In a tree that BuildStructure has made of the database's levels, a compaction is sent to a level that
-- the database has if and only if the target, a lazy level from 1 on, holds K + 1 runs; this is so
-- for one that stays within its lazy level as for one that goes deeper. The database numbers its levels
-- from 0, has at least two, and a lazy level for each; K and their number are so small that doubles are
-- exact.
pub Takes-output_lvl :
    (d : Double) (exact : IsExact d) (lvl : ℕ) (meta : List LevelMetaData) (level0 : LazyLevel)
    (levels : List LazyLevel) (c c' : Compactor) (t : Takes c lvl c') {aimed : LazyLevel}
    → c.lsm.smaller_lvl_runs_count < 2 ^ 52
    → length meta < 2 ^ 52
    → 2 ≤ length meta
    → length meta ≤ 2 + length levels * (c.lsm.smaller_lvl_runs_count + 1)
    → IsNumbered 0 meta
    → build_levels d c.lsm.smaller_lvl_runs_count meta (level0 ∷ levels) ≡ some c.lsm.lazy_levels
    → get_elem? c.lsm.lazy_levels t.target ≡ some aimed
    → 1 ≤ t.target
    → (t.task.output_lvl < length meta) ↔ (length aimed.runs ≡ c.lsm.smaller_lvl_runs_count + 1)
Takes-output_lvl d exact lvl meta level0 levels c c' t k_fits fits two most numbered built at deep =
    let k = c.lsm.smaller_lvl_runs_count in
    let (first, out, laid, same, placed) =
      build_levels-IsPlaced d exact k meta level0 levels k_fits fits two most numbered in
    let tree : first ∷ out ≡ c.lsm.lazy_levels = some-injective _ _ (sym laid ∙ built) in
    output_level-lt k (length meta) lvl t.target first out placed
      (ap (λ ls. get_elem? ls t.target) tree ∙ at) deep
      (ap (λ ls. output_level ls k lvl t.target) tree ∙ t.output)
