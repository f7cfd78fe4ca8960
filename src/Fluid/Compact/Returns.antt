-- ===== src/Fluid/Compact/Returns.antt =====
-- Whether the callbacks of the compactor return: ScheduleCompaction reads K + 1 runs of the lazy level
-- below the one that it compacts, and BuildStructure fills that level only as far as the database has
-- levels.
mod Examples
use Prim.Native.String.{String}
use native.Mathlib.Nat.{mul-le-mul_right}
use native.Mathlib.Decide.{dec_lt}
use native.Mathlib.Numerals.{add-one}
use rocks_db_wrapper.Base.{
  ℕ, zero, suc, ◌+◌, ◌-◌, ◌*◌, ◌%◌, ◌^◌, ◌≤◌, ◌<◌, ◌≡◌, refl, sym, ap, subst, ◌∙◌, Bool, true,
  false, none, some, some-injective, List, [], ◌∷◌, length, get_elem?, get_elem?-some, >>=-some,
  >>=-eq-some, arith, lt→ltb,
}
use rocks_db_wrapper.Base.Int.{ltb_ℤ}
use rocks_db_wrapper.Fluid.Double.{Double, IsExact}
use rocks_db_wrapper.Fluid.Tree.{
  FluidLsm, LazyLevel, signed64, num_live_runs, largest_occupied_level,
}
use rocks_db_wrapper.Fluid.Build.{LevelMetaData, build_levels, build_structure}
use rocks_db_wrapper.Fluid.Build.Placed.{IsNumbered, IsPlaced}
use rocks_db_wrapper.Fluid.Build.Slots.{index-lt, build_levels-IsPlaced}
use rocks_db_wrapper.Fluid.Compact.{
  Compactor, CompactionTask, pick_compaction, on_flush_completed, output_level, output_level_loop,
  needs_compaction, level_capacity, pick_level, pick_loop, compaction_target_level,
  schedule_compaction, compact_files,
}
use rocks_db_wrapper.Fluid.Compact.Inputs.{take_inputs_lem, size_of, sum}
use rocks_db_wrapper.Fluid.Compact.Visit.{idle_level_values}
use rocks_db_wrapper.Fluid.Compact.Output.{IsPlaced-get_elem?}
use rocks_db_wrapper.Fluid.Compact.Total.{InBounds, pick_loop-InBounds}

-- Lazy levels that have K + 1 levels of the database each are full.
IsPlaced-full :
    (k n top j : ℕ) (levels : List LazyLevel)
    → 2 + top * (k + 1) ≤ n
    → n ≤ 2 + length levels * (k + 1)
    → j < top
    → IsPlaced (k + 1) n 2 levels
    → (level : LazyLevel) × (get_elem? levels j ≡ some level) × (length level.runs ≡ k + 1)
IsPlaced-full k n top j levels room most below p =
    let more : suc j * (k + 1) ≤ top * (k + 1) = mul-le-mul_right (k + 1) below in
    let (level, at) =
      get_elem?-some levels j
        (index-lt j (length levels) k (2 + j * (k + 1)) (omega arith) (omega (arith, more))) in
    let (from, size) = IsPlaced-get_elem? (k + 1) n 2 j levels p at in
    (level, at, omega (arith, size, more))

IsPlaced-InBounds :
    (n top : ℕ) (c : Compactor) (first : LazyLevel) (out : List LazyLevel)
    → 2 + top * (c.lsm.smaller_lvl_runs_count + 1) ≤ n
    → n ≤ 2 + length out * (c.lsm.smaller_lvl_runs_count + 1)
    → IsPlaced (c.lsm.smaller_lvl_runs_count + 1) n 2 out
    → InBounds top (record c { lsm = record c.lsm { lazy_levels = first ∷ out } })
IsPlaced-InBounds n top c first out room most p = record {
  first = (first, refl);
  full = λ t lo hi.
      elim t
          as (λ t.
            1 ≤ t
            → t ≤ top
            → (level : LazyLevel) × (get_elem? (first ∷ out) t ≡ some level)
              × (length level.runs ≡ c.lsm.smaller_lvl_runs_count + 1)) [
                | zero ↦ λ lo hi. absurd (omega arith)
                | suc j ↦ λ lo hi.
                    IsPlaced-full c.lsm.smaller_lvl_runs_count n top j out room most (omega arith) p
              ]
        lo hi;
}

compact_files-some :
    (d : Double) (is_io_error : Bool) (meta : List LevelMetaData) (task : CompactionTask)
    (c : Compactor)
    → (c' : Compactor) × (pick_compaction d meta task.cf_name c ≡ some c')
    → (c' : Compactor) × (compact_files d is_io_error meta task c ≡ some c')
unfolding compact_files
compact_files-some d true meta task c picked = (_, refl)
compact_files-some d false meta task c picked = let (c', e) = picked in (_, >>=-some _ e refl)

get_elem?-none {ℓ} : {A : Type ℓ} (xs : List A) (i : ℕ) → length xs ≤ i → get_elem? xs i ≡ none
get_elem?-none [] i h = refl
get_elem?-none (x ∷ xs) zero h = absurd (omega arith)
get_elem?-none (x ∷ xs) (suc i) h = get_elem?-none xs i (omega arith)

-- The first round of the loop reads run K.
output_level-none :
    (levels : List LazyLevel) (k origin target : ℕ)
    → origin < target
    → ((level : LazyLevel) → get_elem? levels target ≡ some level → length level.runs ≤ k)
    → output_level levels k origin target ≡ none
unfolding output_level output_level_loop
output_level-none levels k origin target below short =
    rw (lt→ltb _ _ below) (elim (dec_lt target (length levels)) [
      | yes there ↦
          let (level, at) = get_elem?-some levels target there in
          let past = get_elem?-none level.runs (k - 0) (omega (arith, short level at)) in
          let none_left : output_level_loop level.runs k target (suc k) 0 ≡ none = rw past in
          >>=-some _ at
            (ap (λ n. output_level_loop level.runs k target n 0) (add-one k) ∙ none_left)
      | no missing ↦ let past = get_elem?-none levels target (omega arith) in rw past
    ])

IsPlaced-overrun :
    (k n lvl : ℕ) (first : LazyLevel) (out : List LazyLevel)
    → n < 2 + suc lvl * (k + 1)
    → IsPlaced (k + 1) n 2 out
    → output_level (first ∷ out) k lvl (lvl + 1) ≡ none
IsPlaced-overrun k n lvl first out short p =
    ap (output_level (first ∷ out) k lvl) (add-one lvl)
    ∙ output_level-none (first ∷ out) k lvl (suc lvl) (omega arith) λ level at.
      let (from, size) = IsPlaced-get_elem? (k + 1) n 2 lvl out p at in omega (arith, size)

pick_level-none :
    (d : Double) (cf_name : String) (lvl : ℕ) (c : Compactor) {level : LazyLevel}
    → get_elem? c.lsm.lazy_levels lvl ≡ some level
    → needs_compaction c.lsm lvl lvl (num_live_runs level) ≡ true
    → ltb_ℤ c.lsm.parallel_compactions_running c.lsm.parallel_compactions_allowed ≡ true
    → ltb_ℤ
        (level_capacity d c.lsm lvl)
        (signed64 (sum (idle_level_values size_of level.runs) % 2 ^ 64))
      ≡ true
    → output_level c.lsm.lazy_levels c.lsm.smaller_lvl_runs_count lvl (lvl + 1) ≡ none
    → pick_level d cf_name lvl lvl c ≡ none
unfolding pick_level compaction_target_level schedule_compaction
pick_level-none d cf_name lvl c at needed free large past =
    let (ps, added, sized, taken, none_live) = take_inputs_lem c.lsm.lazy_levels lvl at in
    >>=-some _ at (rw needed (>>=-some _ added (rw (sized, large, free, past))))

module _ (d : Double) (exact : IsExact d) (meta : List LevelMetaData) (cf_name : String)
    (c : Compactor) (level0 : LazyLevel) (levels : List LazyLevel) (lsm : FluidLsm)
    (at : c.lsm.lazy_levels ≡ level0 ∷ levels) (k_fits : c.lsm.smaller_lvl_runs_count < 2 ^ 52)
    (fits : length meta < 2 ^ 52) (two : 2 ≤ length meta)
    (most : length meta ≤ 2 + length levels * (c.lsm.smaller_lvl_runs_count + 1))
    (numbered : IsNumbered 0 meta) (built : build_structure d meta c.lsm ≡ some lsm) where
  abbrev largest_lvl : ℕ
  largest_lvl = largest_occupied_level lsm.lazy_levels

  abbrev k : ℕ
  k = c.lsm.smaller_lvl_runs_count

  rebuilt_levels :
      (first : LazyLevel) × (out : List LazyLevel) × (lsm
        ≡ record c.lsm { lazy_levels = first ∷ out })
      × (length out ≡ length levels)
      × IsPlaced (k + 1) (length meta) 2 out
  unfolding build_structure
  rebuilt_levels =
      let (first, out, laid, same, placed) =
        build_levels-IsPlaced d exact k meta level0 levels k_fits fits two most numbered in
      let made = >>=-some _ (ap (build_levels d k meta) at ∙ laid) refl in
      (first, out, some-injective _ _ (sym built ∙ made), same, placed)

  pick_compaction-some :
      (cf : String)
      → 2 + suc largest_lvl * (k + 1) ≤ length meta
      → (c' : Compactor) × (pick_compaction d meta cf c ≡ some c')
  unfolding pick_compaction
  pick_compaction-some cf room =
      let (first, out, is, same, placed) = rebuilt_levels in
      let v : InBounds (suc largest_lvl) (record c { lsm = lsm }) =
        subst (λ (l : FluidLsm). InBounds (suc largest_lvl) (record c { lsm = l })) (sym is)
          (IsPlaced-InBounds (length meta) (suc largest_lvl) c first out room (rw same most)
            placed) in
      let (c', looped, v') =
        pick_loop-InBounds (suc largest_lvl) d cf largest_lvl (suc largest_lvl)
          (record c { lsm = lsm }) (omega arith) v in
      (c', >>=-some _ built looped)

  -- If all runs of the lazy level below the largest occupied one are levels of the database, then a
  -- flush, and the end of a compaction, read and write within bounds and return.
  pub on_flush_completed-some :
      (is_io_error : Bool) (task : CompactionTask)
      → 2 + suc largest_lvl * (k + 1) ≤ length meta
      → ((c' : Compactor) × (on_flush_completed d meta cf_name c ≡ some c'))
        × ((c' : Compactor) × (compact_files d is_io_error meta task c ≡ some c'))
  unfolding on_flush_completed
  on_flush_completed-some is_io_error task room = (
    pick_compaction-some cf_name room,
    compact_files-some d is_io_error meta task c (pick_compaction-some task.cf_name room),
  )

  -- If the largest occupied lazy level asks for a compaction when none is running, its idle files are
  -- larger than its capacity, and not all runs of the lazy level below it are levels of the database,
  -- then the flush reads past the end of a vector. The database numbers its levels from 0, has at least
  -- two, and a lazy level for each; K and their number are so small that doubles are exact.
  pub on_flush_completed_overrun :
      {level : LazyLevel}
      → get_elem? lsm.lazy_levels largest_lvl ≡ some level
      → needs_compaction lsm largest_lvl largest_lvl (num_live_runs level) ≡ true
      → ltb_ℤ c.lsm.parallel_compactions_running c.lsm.parallel_compactions_allowed ≡ true
      → ltb_ℤ
          (level_capacity d lsm largest_lvl)
          (signed64 (sum (idle_level_values size_of level.runs) % 2 ^ 64))
        ≡ true
      → length meta < 2 + suc largest_lvl * (k + 1)
      → on_flush_completed d meta cf_name c ≡ none
  unfolding on_flush_completed pick_compaction pick_loop
  on_flush_completed_overrun here needed free large short =
      let (first, out, is, same, placed) = rebuilt_levels in
      let chosen : output_level lsm.lazy_levels lsm.smaller_lvl_runs_count largest_lvl
            (largest_lvl + 1)
          ≡ none =
        ap
          (λ (l : FluidLsm).
            output_level l.lazy_levels l.smaller_lvl_runs_count largest_lvl (largest_lvl + 1))
          is
        ∙ IsPlaced-overrun k (length meta) largest_lvl first out short placed in
      let picked : pick_level d cf_name largest_lvl largest_lvl (record c { lsm = lsm }) ≡ none =
        pick_level-none d cf_name largest_lvl (record c { lsm = lsm }) here needed
          (ap
              (λ (l : FluidLsm).
                ltb_ℤ l.parallel_compactions_running l.parallel_compactions_allowed)
              is
            ∙ free)
          large chosen in
      >>=-some _ built (rw picked)
