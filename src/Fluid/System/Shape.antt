-- ===== src/Fluid/System/Shape.antt =====
-- What no callback of the compactor changes: K, Z and the number of lazy levels. So a callback returns in
-- every history whose database fills the next lazy level.
use Prim.Native.String.{String}
use native.Mathlib.Nat.{mul-le-mul_left}
use rocks_db_wrapper.Base.{
  subst, ℕ, suc, ◌+◌, ◌*◌, ◌^◌, ◌≤◌, ◌<◌, ◌≡◌, refl, sym, ap, ◌∙◌, ◌++◌, Bool, true, false, some,
  some-injective, List, [], ◌∷◌, length, length-modify, length-replicate, >>=-eq-some, arith,
}
use rocks_db_wrapper.Base.Int.{ltb_ℤ}
use rocks_db_wrapper.Fluid.Double.{Double, IsExact}
use rocks_db_wrapper.Fluid.Tree.{
  LazyLevel, FluidLsm, FluidOptions, new_fluid_lsm, largest_occupied_level,
}
use rocks_db_wrapper.Fluid.Build.{LevelMetaData, build_structure}
use rocks_db_wrapper.Fluid.Build.Placed.{IsNumbered}
use rocks_db_wrapper.Fluid.Compact.{
  Pointer, Compactor, CompactionTask, deref, mark_at, take_inputs, start_compaction,
  pick_compaction, on_flush_completed, compact_files,
}
use rocks_db_wrapper.Fluid.Compact.Keeps.{pick_compaction-Keeps}
use rocks_db_wrapper.Fluid.Compact.Returns.{on_flush_completed-some}
use rocks_db_wrapper.Fluid.System.{Step, flush, finish, Reach, here, next, new_compactor}

-- `levels` lazy levels, and the K and Z of the constructor.
pub record IsShaped (levels k z : ℕ) (c : Compactor) : Type 0 where
  pub level_count : length c.lsm.lazy_levels ≡ levels
  pub run_count : c.lsm.smaller_lvl_runs_count ≡ k
  pub largest_run_count : c.lsm.larger_lvl_runs_count ≡ z

length-take_inputs :
    (levels : List LazyLevel) (ps : List Pointer) {r : List String × List LazyLevel}
    → take_inputs levels ps ≡ some r
    → length r.1 ≡ length levels
unfolding take_inputs mark_at
length-take_inputs levels [] e =
    ap (λ (r : List String × List LazyLevel). length r.1) (sym (some-injective _ _ e))
length-take_inputs levels (p ∷ ps) e =
    let (file, found, more) = >>=-eq-some (deref levels p) _ e in
    let (r, taken, last) = >>=-eq-some (take_inputs (mark_at p levels) ps) _ more in
    ap (λ (r : List String × List LazyLevel). length r.1) (sym (some-injective _ _ last))
    ∙ length-take_inputs (mark_at p levels) ps taken
    ∙ length-modify _ p.level levels

module _ (levels k z : ℕ) where
  start_compaction-IsShaped :
      (c : Compactor) (cf_name : String) (lvl : ℕ) (ps : List Pointer) (c' : Compactor)
      → ltb_ℤ c.lsm.parallel_compactions_running c.lsm.parallel_compactions_allowed ≡ true
      → start_compaction c cf_name lvl ps ≡ some c'
      → IsShaped levels k z c
      → IsShaped levels k z c'
  unfolding start_compaction
  start_compaction-IsShaped c cf_name lvl ps c' free e v =
      let (r, taken, last) = >>=-eq-some (take_inputs c.lsm.lazy_levels ps) _ e in
      let same = sym (some-injective _ _ last) in
      record {
        level_count =
            ap (λ (x : Compactor). length x.lsm.lazy_levels) same
            ∙ length-take_inputs c.lsm.lazy_levels ps taken
            ∙ v.level_count;
        run_count = ap (λ (x : Compactor). x.lsm.smaller_lvl_runs_count) same ∙ v.run_count;
        largest_run_count =
            ap (λ (x : Compactor). x.lsm.larger_lvl_runs_count) same ∙ v.largest_run_count;
      }

  pick_compaction-IsShaped :
      (d : Double) (meta : List LevelMetaData) (cf_name : String) (c : Compactor) {c' : Compactor}
      → pick_compaction d meta cf_name c ≡ some c'
      → IsShaped levels k z c
      → IsShaped levels k z c'
  pick_compaction-IsShaped d meta cf_name c e v =
      pick_compaction-Keeps (IsShaped levels k z)
        (λ c lazy_levels same v. record {
          level_count = same ∙ v.level_count;
          run_count = v.run_count;
          largest_run_count = v.largest_run_count;
        })
        start_compaction-IsShaped d meta cf_name c e v

  -- The counter and the queue do not matter.
  other-IsShaped :
      (c c' : Compactor)
      → c'.lsm.lazy_levels ≡ c.lsm.lazy_levels
      → c'.lsm.smaller_lvl_runs_count ≡ c.lsm.smaller_lvl_runs_count
      → c'.lsm.larger_lvl_runs_count ≡ c.lsm.larger_lvl_runs_count
      → IsShaped levels k z c
      → IsShaped levels k z c'
  other-IsShaped c c' e f g v = record {
    level_count = ap length e ∙ v.level_count;
    run_count = f ∙ v.run_count;
    largest_run_count = g ∙ v.largest_run_count;
  }

  compact_files-IsShaped :
      (d : Double) (is_io_error : Bool) (meta : List LevelMetaData) (task : CompactionTask)
      (c : Compactor) {c' : Compactor}
      → compact_files d is_io_error meta task c ≡ some c'
      → IsShaped levels k z c
      → IsShaped levels k z c'
  unfolding compact_files
  compact_files-IsShaped d true meta task c e v =
      subst (IsShaped levels k z) (some-injective _ _ e) (other-IsShaped c _ refl refl refl v)
  compact_files-IsShaped d false meta task c e v =
      let (picked, first, rest) = >>=-eq-some (pick_compaction d meta task.cf_name c) _ e in
      subst (IsShaped levels k z) (some-injective _ _ rest) (
        other-IsShaped picked _ refl refl refl
          (pick_compaction-IsShaped d meta task.cf_name c first v))

  Step-IsShaped :
      (d : Double) (c c' : Compactor) → Step d c c' → IsShaped levels k z c → IsShaped levels k z c'
  unfolding on_flush_completed
  Step-IsShaped d c c' (flush meta cf_name e) v = pick_compaction-IsShaped d meta cf_name c e v
  Step-IsShaped d c c' (finish before after task is_io_error meta at e) v =
      compact_files-IsShaped d is_io_error meta task (record c { scheduled = before ++ after }) e
        (other-IsShaped c _ refl refl refl v)

  pub Reach-IsShaped :
      (d : Double) (start : Compactor) {c : Compactor}
      → Reach d start c
      → IsShaped levels k z start
      → IsShaped levels k z c
  Reach-IsShaped d start here v = v
  Reach-IsShaped d start (next {c} {c'} r s) v = Step-IsShaped d c c' s (Reach-IsShaped d start r v)

pub new_compactor-IsShaped :
    (size_ratio k z file_size : ℕ) (options : FluidOptions) (uninitialised : Bool)
    → IsShaped options.num_levels k z (new_compactor size_ratio k z file_size options uninitialised)
unfolding new_fluid_lsm
new_compactor-IsShaped size_ratio k z file_size options uninitialised = record {
  level_count = length-replicate options.num_levels (record { runs = [] });
  run_count = refl;
  largest_run_count = refl;
}

cons_of_length {ℓ} :
    {A : Type ℓ} (xs : List A)
    → 1 ≤ length xs
    → (x : A) × (ys : List A) × (xs ≡ x ∷ ys) × (length xs ≡ suc (length ys))
cons_of_length [] h = absurd (omega arith)
cons_of_length (x ∷ xs) h = (x, xs, refl, refl)

enough_levels : (n m k : ℕ) → n ≤ suc m → n ≤ 2 + m * (k + 1)
enough_levels n m k h =
    let more : m * 1 ≤ m * (k + 1) = mul-le-mul_left m (omega arith) in omega (arith, more)

-- In every history, with a database that numbers its levels from 0, has at least two, and at most as
-- many as `num_levels`: if all runs of the lazy level below the largest occupied one are levels of the
-- database, then a flush, and the end of a compaction, read and write within bounds and return. K and the
-- number of levels are so small that doubles are exact.
pub Reach-on_flush_completed :
    (d : Double) (exact : IsExact d) (size_ratio k z file_size : ℕ) (options : FluidOptions)
    (uninitialised : Bool) {c : Compactor} (meta : List LevelMetaData) (cf_name : String)
    (is_io_error : Bool) (task : CompactionTask) (lsm : FluidLsm)
    → Reach d (new_compactor size_ratio k z file_size options uninitialised) c
    → k < 2 ^ 52
    → length meta < 2 ^ 52
    → 2 ≤ length meta
    → length meta ≤ options.num_levels
    → IsNumbered 0 meta
    → build_structure d meta c.lsm ≡ some lsm
    → 2 + suc (largest_occupied_level lsm.lazy_levels) * (k + 1) ≤ length meta
    → ((c' : Compactor) × (on_flush_completed d meta cf_name c ≡ some c'))
      × ((c' : Compactor) × (compact_files d is_io_error meta task c ≡ some c'))
Reach-on_flush_completed d exact size_ratio k z file_size options uninitialised {c} meta cf_name
      is_io_error task lsm r small fits two within numbered built room =
    let v =
      Reach-IsShaped options.num_levels k z d _ r
        (new_compactor-IsShaped size_ratio k z file_size options uninitialised) in
    let (level0, levels, at, size) =
      cons_of_length c.lsm.lazy_levels (omega (arith, v.level_count)) in
    on_flush_completed-some d exact meta cf_name c level0 levels lsm at (rw v.run_count small) fits
      two
      (enough_levels (length meta) (length levels) c.lsm.smaller_lvl_runs_count
        (omega (arith, v.level_count, size)))
      numbered built is_io_error task (rw v.run_count room)
