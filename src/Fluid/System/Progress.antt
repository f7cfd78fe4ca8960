-- ===== src/Fluid/System/Progress.antt =====
-- What a flush of an idle compactor does, in every history.
use Prim.Native.String.{String}
use native.Mathlib.Decide.{ℕ_discrete}
use rocks_db_wrapper.Base.{
  ℕ, zero, suc, ◌+◌, ◌*◌, ◌^◌, ◌≤◌, ◌<◌, ◌≡◌, refl, Bool, true, false, Option, none, some,
  some-injective, List, [], length, Bool-cases, inl, inr, arith, if◌then◌else◌,
}
use rocks_db_wrapper.Fluid.Double.{Double, IsExact}
use rocks_db_wrapper.Fluid.Tree.{FluidLsm, FluidOptions, largest_occupied_level}
use rocks_db_wrapper.Fluid.Build.{LevelMetaData, build_structure}
use rocks_db_wrapper.Fluid.Build.Placed.{IsNumbered}
use rocks_db_wrapper.Fluid.Compact.{Compactor, CompactionTask, on_flush_completed}
use rocks_db_wrapper.Fluid.Compact.Pick.{
  Takes, needs_at, on_flush_completed-Takes, on_flush_completed-none,
}
use rocks_db_wrapper.Fluid.Compact.Pool.{IsCounted}
use rocks_db_wrapper.Fluid.System.{Reach, new_compactor, new_compactor-IsCounted, Reach-IsCounted}
use rocks_db_wrapper.Fluid.System.Shape.{Reach-on_flush_completed}

-- The greatest number below `n` that passes a test.
abbrev pub deepest : (ℕ → Bool) → ℕ → Option ℕ
deepest test zero = none
deepest test (suc n) = if test n then some n else deepest test n

deepest-some :
    (test : ℕ → Bool) (n : ℕ) {m : ℕ}
    → deepest test n ≡ some m
    → (m < n) × (test m ≡ true) × ((l : ℕ) → m < l → l < n → test l ≡ false)
deepest-some test zero e = cc
deepest-some test (suc n) {m} e = elim (Bool-cases (test n)) [
  | inl last ↦
      let same : n ≡ m = some-injective _ _ (rw last at e) in
      (omega (arith, same), rw (← same) last, λ l lo hi. absurd (omega (arith, same)))
  | inr failed ↦
      let (lt, passes, above) = deepest-some test n (rw failed at e) in
      (
        omega arith,
        passes,
        λ l lo hi. elim (ℕ_discrete l n) [
          | yes same ↦ rw same failed
          | no before ↦ above l lo (omega arith)
        ],
      )
]

deepest-none : (test : ℕ → Bool) (n : ℕ) → deepest test n ≡ none → (l : ℕ) → l < n → test l ≡ false
deepest-none test zero e l h = absurd (omega arith)
deepest-none test (suc n) e l h = elim (Bool-cases (test n)) [
  | inl last ↦ absurd (cc (rw last at e))
  | inr failed ↦ elim (ℕ_discrete l n) [
    | yes same ↦ rw same failed
    | no before ↦ deepest-none test n (rw failed at e) l (omega arith)
  ]
]

-- The deepest lazy level, up to the largest occupied one, that needs a compaction.
abbrev pub deepest_needing : Compactor → Option ℕ
deepest_needing c =
    let largest = largest_occupied_level c.lsm.lazy_levels in
    deepest (needs_at c largest) (suc largest)

-- The compactor after the flush: that level is taken, or nothing is scheduled.
abbrev pub HasTaken : Compactor → Option ℕ → Compactor → Type 0
HasTaken rebuilt none c' = c' ≡ rebuilt
HasTaken rebuilt (some lvl) c' = Takes rebuilt lvl c'

abbrev no_task : Compactor → CompactionTask
no_task c = record {
  cf_name = "";
  input_file_names = [];
  output_lvl = 0;
  compact_options = c.lsm.compact_options;
  retry_on_fail = false;
  debug_mode = false;
}

flush-HasTaken :
    (d : Double) (meta : List LevelMetaData) (cf_name : String) (c : Compactor) {c' : Compactor}
    (lsm : FluidLsm)
    → IsCounted 0 c
    → c.scheduled ≡ []
    → build_structure d meta c.lsm ≡ some lsm
    → on_flush_completed d meta cf_name c ≡ some c'
    → (o : Option ℕ) → deepest_needing (record c { lsm = lsm }) ≡ o
    → HasTaken (record c { lsm = lsm }) o c'
flush-HasTaken d meta cf_name c {c'} lsm v idle built flushed none e =
    let largest = largest_occupied_level lsm.lazy_levels in
    on_flush_completed-none d meta cf_name c {c' = c'} lsm v idle built flushed λ l hi.
      deepest-none (needs_at (record c { lsm = lsm }) largest) (suc largest) e l (omega arith)
flush-HasTaken d meta cf_name c {c'} lsm v idle built flushed (some lvl) e =
    let largest = largest_occupied_level lsm.lazy_levels in
    let (below, needs, above) =
      deepest-some (needs_at (record c { lsm = lsm }) largest) (suc largest) e in
    on_flush_completed-Takes d meta cf_name c {c' = c'} lsm v idle built flushed lvl (omega arith)
      needs λ l lo hi. above l lo (omega arith)

-- In every history in which nothing is scheduled a flush returns. It builds the structure anew, and
-- schedules one compaction, of the deepest lazy level that needs one, or none if no level does. The
-- database numbers its levels from 0, has at least two, at most `num_levels`, and so many that all
-- runs of the lazy level below the largest occupied one are levels of it; K and their number are so small
-- that doubles are exact.
pub Reach-HasTaken :
    (d : Double) (exact : IsExact d) (size_ratio k z file_size : ℕ) (options : FluidOptions)
    (uninitialised : Bool) {c : Compactor} (meta : List LevelMetaData) (cf_name : String)
    (lsm : FluidLsm)
    → Reach d (new_compactor size_ratio k z file_size options uninitialised) c
    → c.scheduled ≡ []
    → k < 2 ^ 52
    → length meta < 2 ^ 52
    → 2 ≤ length meta
    → length meta ≤ options.num_levels
    → IsNumbered 0 meta
    → build_structure d meta c.lsm ≡ some lsm
    → 2 + suc (largest_occupied_level lsm.lazy_levels) * (k + 1) ≤ length meta
    → (c' : Compactor) × (on_flush_completed d meta cf_name c ≡ some c')
      × HasTaken (record c { lsm = lsm }) (deepest_needing (record c { lsm = lsm })) c'
Reach-HasTaken d exact size_ratio k z file_size options uninitialised {c} meta cf_name lsm r idle
      small fits two within numbered built room =
    let v =
      Reach-IsCounted d _ r
        (new_compactor-IsCounted size_ratio k z file_size options uninitialised) in
    let ((c', flushed), ended) =
      Reach-on_flush_completed d exact size_ratio k z file_size options uninitialised meta cf_name
        true (no_task c) lsm r small fits two within numbered built room in
    (c', flushed, flush-HasTaken d meta cf_name c lsm v idle built flushed _ refl)
