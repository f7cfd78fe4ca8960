-- ===== src/Fluid/Compact/Keeps.antt =====
-- What PickCompaction keeps: a predicate on the compactor that sees no more of the tree than the number
-- of its lazy levels, and that a started compaction keeps whenever the guard lets it start.
use Prim.Native.String.{String}
use rocks_db_wrapper.Base.{
  ℕ, zero, suc, ◌≡◌, subst, true, some, some-injective, List, [], length, get_elem?, >>=-eq-some,
  Bool-cases, inl, inr,
}
use rocks_db_wrapper.Base.Int.{ltb_ℤ}
use rocks_db_wrapper.Fluid.Double.{Double}
use rocks_db_wrapper.Fluid.Tree.{FluidLsm, LazyLevel, num_live_runs, largest_occupied_level}
use rocks_db_wrapper.Fluid.Build.{LevelMetaData, build_levels, build_structure}
use rocks_db_wrapper.Fluid.Build.Lengths.{length-build_levels}
use rocks_db_wrapper.Fluid.Compact.{
  Pointer, Compactor, output_level, start_compaction, schedule_compaction, needs_compaction,
  add_files_to_compaction, compaction_target_level, pick_level, pick_loop, pick_compaction,
}

module _ {ℓ} (Keeps : Compactor → Type ℓ)
    (levels : (c : Compactor) (lazy_levels : List LazyLevel)
      → length lazy_levels ≡ length c.lsm.lazy_levels
      → Keeps c
      → Keeps (record c { lsm = record c.lsm { lazy_levels = lazy_levels } }))
    (start : (c : Compactor) (cf_name : String) (lvl : ℕ) (ps : List Pointer) (c' : Compactor)
      → ltb_ℤ c.lsm.parallel_compactions_running c.lsm.parallel_compactions_allowed ≡ true
      → start_compaction c cf_name lvl ps ≡ some c'
      → Keeps c
      → Keeps c') where
  schedule_compaction-Keeps :
      (c : Compactor) (cf_name : String) (origin target : ℕ) (ps : List Pointer) {c' : Compactor}
      → schedule_compaction c cf_name origin target ps ≡ some c'
      → Keeps c
      → Keeps c'
  unfolding schedule_compaction
  schedule_compaction-Keeps c cf_name origin target ps {c'} e v =
      elim (Bool-cases
        (ltb_ℤ c.lsm.parallel_compactions_running c.lsm.parallel_compactions_allowed)) [
          | inl free ↦
              let (lvl, chosen, started) =
                >>=-eq-some
                  (output_level c.lsm.lazy_levels c.lsm.smaller_lvl_runs_count origin target) _
                  (rw free at e) in
              start c cf_name lvl ps c' free started v
          | inr full ↦ subst Keeps (some-injective _ _ (rw full at e)) v
        ]

  pub pick_level-Keeps :
      (d : Double) (cf_name : String) (largest lvl : ℕ) (c : Compactor) {c' : Compactor}
      → pick_level d cf_name largest lvl c ≡ some c'
      → Keeps c
      → Keeps c'
  unfolding pick_level
  pick_level-Keeps d cf_name largest lvl c e v =
      let (level, at, chosen) = >>=-eq-some (get_elem? c.lsm.lazy_levels lvl) _ e in
      elim (Bool-cases (needs_compaction c.lsm largest lvl (num_live_runs level))) [
        | inl needed ↦
            let (ps, added, more) =
              >>=-eq-some (add_files_to_compaction c.lsm.lazy_levels lvl []) _
                (rw needed at chosen) in
            let (target, aimed, last) =
              >>=-eq-some (compaction_target_level d c.lsm lvl ps) _ more in
            schedule_compaction-Keeps c cf_name lvl target ps last v
        | inr not_needed ↦ subst Keeps (some-injective _ _ (rw not_needed at chosen)) v
      ]

  pick_loop-Keeps :
      (d : Double) (cf_name : String) (largest n : ℕ) (c : Compactor) {c' : Compactor}
      → pick_loop d cf_name largest n c ≡ some c'
      → Keeps c
      → Keeps c'
  unfolding pick_loop
  pick_loop-Keeps d cf_name largest zero c e v = subst Keeps (some-injective _ _ e) v
  pick_loop-Keeps d cf_name largest (suc lvl) c e v =
      let (next, first, rest) = >>=-eq-some (pick_level d cf_name largest lvl c) _ e in
      pick_loop-Keeps d cf_name largest lvl next rest
        (pick_level-Keeps d cf_name largest lvl c first v)

  pub build_structure-Keeps :
      (d : Double) (meta : List LevelMetaData) (c : Compactor) {lsm : FluidLsm}
      → build_structure d meta c.lsm ≡ some lsm
      → Keeps c
      → Keeps (record c { lsm = lsm })
  unfolding build_structure
  build_structure-Keeps d meta c built v =
      let (lazy_levels, laid, same) =
        >>=-eq-some (build_levels d c.lsm.smaller_lvl_runs_count meta c.lsm.lazy_levels) _ built in
      let kept = length-build_levels d c.lsm.smaller_lvl_runs_count meta c.lsm.lazy_levels laid in
      subst (λ l. Keeps (record c { lsm = l })) (some-injective _ _ same)
        (levels c lazy_levels kept v)

  pub pick_compaction-Keeps :
      (d : Double) (meta : List LevelMetaData) (cf_name : String) (c : Compactor) {c' : Compactor}
      → pick_compaction d meta cf_name c ≡ some c'
      → Keeps c
      → Keeps c'
  unfolding pick_compaction
  pick_compaction-Keeps d meta cf_name c e v =
      let (lsm, built, rest) = >>=-eq-some (build_structure d meta c.lsm) _ e in
      let largest = largest_occupied_level lsm.lazy_levels in
      pick_loop-Keeps d cf_name largest (suc largest) (record c { lsm = lsm }) rest
        (build_structure-Keeps d meta c built v)
