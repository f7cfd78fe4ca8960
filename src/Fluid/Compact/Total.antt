-- ===== src/Fluid/Compact/Total.antt =====
-- PickCompaction and its callers read and write within bounds: where they return.
use Prim.Native.String.{String}
use rocks_db_wrapper.Base.{
  ℕ, zero, suc, ◌+◌, ◌-◌, ◌*◌, ◌≤◌, ◌<◌, ◌≡◌, ◌⊎◌, inl, inr, refl, ap, ◌∙◌, false, some,
  some-injective, List, [], ◌∷◌, map, modify, length, get_elem?, get_elem?-some, >>=-some,
  Bool-cases, arith, ltb, lt→ltb,
}
use rocks_db_wrapper.Base.Int.{ltb_ℤ}
use rocks_db_wrapper.Fluid.Double.{Double}
use rocks_db_wrapper.Fluid.Tree.{LazyLevel, Run, is_empty, num_live_runs}
use rocks_db_wrapper.Fluid.Compact.{
  Pointer, Compactor, mark, take_inputs, output_level_loop, output_level, start_compaction,
  schedule_compaction, needs_compaction, compaction_size, compaction_target_level, pick_level,
  pick_loop,
}
use rocks_db_wrapper.Fluid.Compact.Inputs.{take_inputs_lem}
use rocks_db_wrapper.Fluid.Compact.Pick.{compaction_target_level-near}
use rocks_db_wrapper.Fluid.Compact.Visit.{touch_run, touch_level}

-- There is a first lazy level, and lazy levels 1 to `top` have K + 1 runs each.
pub record InBounds (top : ℕ) (c : Compactor) : Type 0 where
  pub first : (level : LazyLevel) × (get_elem? c.lsm.lazy_levels 0 ≡ some level)
  pub full :
      (t : ℕ)
      → 1 ≤ t
      → t ≤ top
      → (level : LazyLevel) × (get_elem? c.lsm.lazy_levels t ≡ some level)
        × (length level.runs ≡ c.lsm.smaller_lvl_runs_count + 1)

length-touch : (runs : List Run) → length (map (touch_run mark) runs) ≡ length runs
length-touch [] = refl
length-touch (run ∷ runs) = ap suc (length-touch runs)

-- Marking the files of a level keeps the number of levels, and of the runs of each.
get_elem?-touch :
    (lvl t : ℕ) (levels : List LazyLevel) {level : LazyLevel}
    → get_elem? levels t ≡ some level
    → (level' : LazyLevel) × (get_elem? (modify (touch_level mark) lvl levels) t ≡ some level')
      × (length level'.runs ≡ length level.runs)
get_elem?-touch lvl t [] e = cc
get_elem?-touch zero zero (l ∷ levels) {level} e = (
  touch_level mark l,
  refl,
  length-touch l.runs ∙ ap (λ (x : LazyLevel). length x.runs) (some-injective _ _ e),
)
get_elem?-touch zero (suc t) (l ∷ levels) {level} e = (level, e, refl)
get_elem?-touch (suc lvl) zero (l ∷ levels) {level} e = (level, e, refl)
get_elem?-touch (suc lvl) (suc t) (l ∷ levels) e = get_elem?-touch lvl t levels e

output_level_loop-some :
    (runs : List Run) (k t rounds lvl : ℕ)
    → length runs ≡ k + 1
    → (x : ℕ) × (output_level_loop runs k t rounds lvl ≡ some x)
unfolding output_level_loop
output_level_loop-some runs k t zero lvl h = (_, refl)
output_level_loop-some runs k t (suc rounds) lvl h =
    let (run, at) = get_elem?-some runs (k - lvl) (omega arith) in
    let (x, rest) = output_level_loop-some runs k t rounds (lvl + 1) h in
    elim (Bool-cases (is_empty run.files)) [
      | inl free ↦ (1 + t * (k + 1) - lvl, >>=-some _ at (rw free))
      | inr taken ↦ (x, >>=-some _ at (rw taken rest))
    ]

pub output_level-same :
    (levels : List LazyLevel) (k origin target : ℕ)
    → target ≡ origin
    → output_level levels k origin target ≡ some (1 + target * (k + 1))
unfolding output_level
output_level-same levels k origin target e =
    let same_level : ltb origin target ≡ false = ground arith in rw same_level

output_level-some :
    (levels : List LazyLevel) (k origin target : ℕ) {level : LazyLevel}
    → origin < target
    → get_elem? levels target ≡ some level
    → length level.runs ≡ k + 1
    → (x : ℕ) × (output_level levels k origin target ≡ some x)
unfolding output_level
output_level-some levels k origin target {level} below at size =
    let (x, found) = output_level_loop-some level.runs k target (k + 1) 0 size in
    (x, rw (lt→ltb _ _ below) (>>=-some _ at found))

module _ (top : ℕ) where
  start_compaction-InBounds :
      (c : Compactor) (cf_name : String) (out lvl : ℕ) (ps : List Pointer) {names : List String}
      → take_inputs c.lsm.lazy_levels ps
        ≡ some (names, modify (touch_level mark) lvl c.lsm.lazy_levels)
      → InBounds top c
      → (c' : Compactor) × (start_compaction c cf_name out ps ≡ some c') × InBounds top c'
  unfolding start_compaction
  start_compaction-InBounds c cf_name out lvl ps taken v = (
    _,
    >>=-some _ taken refl,
    record {
      first =
          let (level, at) = v.first in
          let (level', at', same) = get_elem?-touch lvl 0 c.lsm.lazy_levels at in (level', at');
      full = λ t lo hi.
          let (level, at, size) = v.full t lo hi in
          let (level', at', same) = get_elem?-touch lvl t c.lsm.lazy_levels at in
          (level', at', same ∙ size);
    },
  )

  schedule_compaction-InBounds :
      (c : Compactor) (cf_name : String) (lvl target : ℕ) (ps : List Pointer) {names : List String}
      → target ≤ top
      → (target ≡ lvl) ⊎ (target ≡ lvl + 1)
      → take_inputs c.lsm.lazy_levels ps
        ≡ some (names, modify (touch_level mark) lvl c.lsm.lazy_levels)
      → InBounds top c
      → (c' : Compactor) × (schedule_compaction c cf_name lvl target ps ≡ some c') × InBounds top c'
  unfolding schedule_compaction
  schedule_compaction-InBounds c cf_name lvl target ps below near taken v =
      let k = c.lsm.smaller_lvl_runs_count in
      let chosen : (x : ℕ) × (output_level c.lsm.lazy_levels k lvl target ≡ some x) = elim near [
        | inl same ↦ (_, output_level-same c.lsm.lazy_levels k lvl target same)
        | inr deeper ↦
            let (level, at, size) = v.full target (omega arith) below in
            output_level-some c.lsm.lazy_levels k lvl target (omega arith) at size
      ] in
      let (out, found) = chosen in
      let (c', started, v') = start_compaction-InBounds c cf_name out lvl ps taken v in
      elim (Bool-cases
        (ltb_ℤ c.lsm.parallel_compactions_running c.lsm.parallel_compactions_allowed)) [
          | inl free ↦ (c', rw free (>>=-some _ found started), v')
          | inr busy ↦ (c, rw busy, v)
        ]

  level_at :
      (lvl : ℕ) (c : Compactor)
      → lvl < top
      → InBounds top c
      → (level : LazyLevel) × (get_elem? c.lsm.lazy_levels lvl ≡ some level)
  level_at zero c below v = v.first
  level_at (suc lvl) c below v =
      let (level, at, size) = v.full (suc lvl) (omega arith) (omega arith) in (level, at)

  pick_level-InBounds :
      (d : Double) (cf_name : String) (largest lvl : ℕ) (c : Compactor)
      → lvl < top
      → InBounds top c
      → (c' : Compactor) × (pick_level d cf_name largest lvl c ≡ some c') × InBounds top c'
  unfolding pick_level compaction_target_level
  pick_level-InBounds d cf_name largest lvl c below v =
      let (level, at) = level_at lvl c below v in
      let (ps, added, sized, taken, none_live) = take_inputs_lem c.lsm.lazy_levels lvl at in
      let aimed = >>=-some {m = compaction_size c.lsm.lazy_levels ps} _ sized refl in
      let near = compaction_target_level-near d c.lsm lvl ps aimed in
      let (c', scheduled, v') =
        schedule_compaction-InBounds c cf_name lvl _ ps (omega (arith, near)) near taken v in
      elim (Bool-cases (needs_compaction c.lsm largest lvl (num_live_runs level))) [
        | inl needed ↦
            (c', >>=-some _ at (rw needed (>>=-some _ added (>>=-some _ aimed scheduled))), v')
        | inr not_needed ↦ (c, >>=-some _ at (rw not_needed), v)
      ]

  pub pick_loop-InBounds :
      (d : Double) (cf_name : String) (largest n : ℕ) (c : Compactor)
      → n ≤ top
      → InBounds top c
      → (c' : Compactor) × (pick_loop d cf_name largest n c ≡ some c') × InBounds top c'
  unfolding pick_loop
  pick_loop-InBounds d cf_name largest zero c below v = (c, refl, v)
  pick_loop-InBounds d cf_name largest (suc n) c below v =
      let (next, first, v') = pick_level-InBounds d cf_name largest n c (omega arith) v in
      let (c', rest, v'') = pick_loop-InBounds d cf_name largest n next (omega arith) v' in
      (c', >>=-some _ first rest, v'')
