-- ===== src/Fluid/Compact/Pick.antt =====
-- Which level PickCompaction compacts: the deepest one that needs it, if the compactor is idle.
use Prim.Native.String.{String}
use native.Mathlib.Decide.{ℕ_discrete}
use rocks_db_wrapper.Base.{
  ℕ, zero, suc, ◌+◌, ◌≤◌, ◌<◌, ◌≡◌, ◌⊎◌, if◌then◌else◌, sym, subst, ap, ap₂, ◌∙◌, Bool, true, false,
  none, some, some-injective, List, [], ◌∷◌, ◌++◌, length, get_elem?, >>=-eq-some, arith,
  Bool-cases, inl, inr,
}
use rocks_db_wrapper.Base.Int.{ℤ, pos, ltb_ℤ}
use rocks_db_wrapper.Fluid.Double.{Double}
use rocks_db_wrapper.Fluid.Tree.{
  signed64, FluidLsm, LazyLevel, num_live_runs, largest_occupied_level,
}
use rocks_db_wrapper.Fluid.Build.{LevelMetaData, build_structure}
use rocks_db_wrapper.Fluid.Compact.{
  Pointer, Compactor, CompactionTask, take_inputs, output_level, start_compaction,
  schedule_compaction, needs_compaction, add_files_to_compaction, compaction_target_level,
  compaction_size, level_capacity, pick_level, pick_loop, pick_compaction, on_flush_completed,
}
use rocks_db_wrapper.Fluid.Compact.Inputs.{name_of, take_inputs_lem}
use rocks_db_wrapper.Fluid.Compact.Visit.{idle_level_values}
use rocks_db_wrapper.Fluid.Compact.Pool.{
  IsCounted, build_structure-IsCounted, start_compaction_effect, count_up,
}

abbrev is_free : Compactor → Bool
is_free c = ltb_ℤ c.lsm.parallel_compactions_running c.lsm.parallel_compactions_allowed

-- Does the test of PickCompaction's loop hold at a level?
abbrev pub needs_at : Compactor → ℕ → ℕ → Bool
needs_at c largest lvl = elim (get_elem? c.lsm.lazy_levels lvl) [
  | none ↦ false
  | some level ↦ needs_compaction c.lsm largest lvl (num_live_runs level)
]

schedule_compaction-busy :
    (c : Compactor) (cf_name : String) (origin target : ℕ) (ps : List Pointer) {c' : Compactor}
    → is_free c ≡ false
    → schedule_compaction c cf_name origin target ps ≡ some c'
    → c ≡ c'
unfolding schedule_compaction
schedule_compaction-busy c cf_name origin target ps busy e = some-injective _ _ (rw busy at e)

schedule_compaction-free :
    (c : Compactor) (cf_name : String) (origin target : ℕ) (ps : List Pointer) {c' : Compactor}
    → is_free c ≡ true
    → schedule_compaction c cf_name origin target ps ≡ some c'
    → (out : ℕ) × (output_level c.lsm.lazy_levels c.lsm.smaller_lvl_runs_count origin target
        ≡ some out)
      × (start_compaction c cf_name out ps ≡ some c')
unfolding schedule_compaction
schedule_compaction-free c cf_name origin target ps free e =
    let (out, found, started) =
      >>=-eq-some (output_level c.lsm.lazy_levels c.lsm.smaller_lvl_runs_count origin target) _
        (rw free at e) in
    (out, found, started)

-- The compactor `c'` is `c` after it scheduled the idle files of level `lvl`, for that level or the
-- next one.
pub record Takes (c : Compactor) (lvl : ℕ) (c' : Compactor) : Type 0 where
  pub level : LazyLevel
  pub task : CompactionTask
  pub at_level : get_elem? c.lsm.lazy_levels lvl ≡ some level
  pub scheduled : c'.scheduled ≡ task ∷ []
  pub names : task.input_file_names ≡ idle_level_values name_of level.runs
  pub target : ℕ
  pub near : (target ≡ lvl) ⊎ (target ≡ lvl + 1)
  pub output :
      output_level c.lsm.lazy_levels c.lsm.smaller_lvl_runs_count lvl target ≡ some task.output_lvl

one_of {ℓ} : {A : Type ℓ} (b : Bool) {x y z : A} → (if b then x else y) ≡ z → (z ≡ y) ⊎ (z ≡ x)
one_of true e = inr (sym e)
one_of false e = inl (sym e)

pub compaction_target_level-near :
    (d : Double) (lsm : FluidLsm) (lvl : ℕ) (ps : List Pointer) {target : ℕ}
    → compaction_target_level d lsm lvl ps ≡ some target
    → (target ≡ lvl) ⊎ (target ≡ lvl + 1)
unfolding compaction_target_level
compaction_target_level-near d lsm lvl ps e =
    let (size, summed, last) = >>=-eq-some (compaction_size lsm.lazy_levels ps) _ e in
    one_of (ltb_ℤ (level_capacity d lsm lvl) (signed64 size)) (some-injective _ _ last)

free_of_idle : (c : Compactor) → IsCounted 0 c → c.scheduled ≡ [] → is_free c ≡ true
free_of_idle c v idle =
    let counted = v.counted ∙ ap pos (omega (arith, ap length idle)) in
    ap₂ ltb_ℤ {x = c.lsm.parallel_compactions_running} {y = pos 0} counted v.allowed

busy_of_full : (r a : ℤ) → r ≡ pos (0 + 1) → a ≡ pos 1 → ltb_ℤ r a ≡ false
busy_of_full r a e f = ground arith

module _ (d : Double) (cf_name : String) (largest : ℕ) where
  pick_level-busy :
      (lvl : ℕ) (c : Compactor) {c' : Compactor}
      → is_free c ≡ false
      → pick_level d cf_name largest lvl c ≡ some c'
      → c ≡ c'
  unfolding pick_level
  pick_level-busy lvl c busy e =
      let (level, at, chosen) = >>=-eq-some (get_elem? c.lsm.lazy_levels lvl) _ e in
      elim (Bool-cases (needs_compaction c.lsm largest lvl (num_live_runs level))) [
        | inl needed ↦
            let (ps, added, more) =
              >>=-eq-some (add_files_to_compaction c.lsm.lazy_levels lvl []) _
                (rw needed at chosen) in
            let (target, aimed, last) =
              >>=-eq-some (compaction_target_level d c.lsm lvl ps) _ more in
            schedule_compaction-busy c cf_name lvl target ps busy last
        | inr not_needed ↦ some-injective _ _ (rw not_needed at chosen)
      ]

  pick_loop-busy :
      (n : ℕ) (c : Compactor) {c' : Compactor}
      → is_free c ≡ false
      → pick_loop d cf_name largest n c ≡ some c'
      → c ≡ c'
  unfolding pick_loop
  pick_loop-busy zero c busy e = some-injective _ _ e
  pick_loop-busy (suc lvl) c busy e =
      let (next, first, rest) = >>=-eq-some (pick_level d cf_name largest lvl c) _ e in
      let same = pick_level-busy lvl c busy first in
      same ∙ pick_loop-busy lvl next (subst (λ x. is_free x ≡ false) same busy) rest

  pick_level-not_needed :
      (lvl : ℕ) (c : Compactor) {c' : Compactor}
      → needs_at c largest lvl ≡ false
      → pick_level d cf_name largest lvl c ≡ some c'
      → c ≡ c'
  unfolding pick_level
  pick_level-not_needed lvl c h e =
      let (level, at, chosen) = >>=-eq-some (get_elem? c.lsm.lazy_levels lvl) _ e in
      let not_needed : needs_compaction c.lsm largest lvl (num_live_runs level) ≡ false =
        rw (needs_at, at) at h in
      some-injective _ _ (rw not_needed at chosen)

  pick_level-needed :
      (lvl : ℕ) (c : Compactor) {c' : Compactor}
      → IsCounted 0 c
      → c.scheduled ≡ []
      → needs_at c largest lvl ≡ true
      → pick_level d cf_name largest lvl c ≡ some c'
      → Takes c lvl c' × (is_free c' ≡ false)
  unfolding pick_level
  pick_level-needed lvl c v idle h e =
      let (level, at, chosen) = >>=-eq-some (get_elem? c.lsm.lazy_levels lvl) _ e in
      let needed : needs_compaction c.lsm largest lvl (num_live_runs level) ≡ true =
        rw (needs_at, at) at h in
      let (ps, added, more) =
        >>=-eq-some (add_files_to_compaction c.lsm.lazy_levels lvl []) _ (rw needed at chosen) in
      let (target, aimed, last) = >>=-eq-some (compaction_target_level d c.lsm lvl ps) _ more in
      let free : is_free c ≡ true = free_of_idle c v idle in
      let (out, found, started) = schedule_compaction-free c cf_name lvl target ps free last in
      let (task, r, taken, names, to, marked, grown, counts, same) =
        start_compaction_effect c cf_name out ps started in
      let (qs, listed, sized, inputs, none_live) = take_inputs_lem c.lsm.lazy_levels lvl at in
      let ps_qs : ps ≡ qs = some-injective _ _ (sym added ∙ listed) in
      let r_is =
        some-injective _ _ (sym taken ∙ ap (take_inputs c.lsm.lazy_levels) ps_qs ∙ inputs) in
      (
        record {
          level = level;
          task = task;
          at_level = at;
          scheduled = grown ∙ ap (λ ts. ts ++ task ∷ []) idle;
          names = names ∙ ap (λ (x : List String × List LazyLevel). x.0) r_is;
          target = target;
          near = compaction_target_level-near d c.lsm lvl ps aimed;
          output = found ∙ ap some (sym to);
        },
        busy_of_full _ _
            (counts ∙ count_up _ 0 (v.counted ∙ ap pos (omega (arith, ap length idle))))
            (same ∙ v.allowed),
      )

  -- An idle compactor takes the deepest of the levels below `n` that needs a compaction.
  pick_loop-Takes :
      (n lvl : ℕ) (c : Compactor) {c' : Compactor}
      → IsCounted 0 c
      → c.scheduled ≡ []
      → lvl < n
      → needs_at c largest lvl ≡ true
      → ((l : ℕ) → lvl < l → l < n → needs_at c largest l ≡ false)
      → pick_loop d cf_name largest n c ≡ some c'
      → Takes c lvl c'
  unfolding pick_loop
  pick_loop-Takes zero lvl c v idle below h deeper e = absurd (omega arith)
  pick_loop-Takes (suc n) lvl c {c'} v idle below h deeper e =
      let (next, first, rest) = >>=-eq-some (pick_level d cf_name largest n c) _ e in
      elim (ℕ_discrete n lvl) [
        | yes here ↦
            let (takes, full) = pick_level-needed n c v idle (rw here h) first in
            subst (λ x. Takes c lvl x) (pick_loop-busy n next full rest)
              (subst (λ l. Takes c l next) here takes)
        | no later ↦
            let same = pick_level-not_needed n c (deeper n (omega arith) (omega arith)) first in
            pick_loop-Takes n lvl c v idle (omega arith) h (λ l lo hi. deeper l lo (omega arith))
              (ap (pick_loop d cf_name largest n) same ∙ rest)
      ]

  pick_loop-none :
      (n : ℕ) (c : Compactor) {c' : Compactor}
      → ((l : ℕ) → l < n → needs_at c largest l ≡ false)
      → pick_loop d cf_name largest n c ≡ some c'
      → c ≡ c'
  unfolding pick_loop
  pick_loop-none zero c h e = some-injective _ _ e
  pick_loop-none (suc n) c h e =
      let (next, first, rest) = >>=-eq-some (pick_level d cf_name largest n c) _ e in
      let same = pick_level-not_needed n c (h n (omega arith)) first in
      pick_loop-none n c (λ l lo. h l (omega arith))
        (ap (pick_loop d cf_name largest n) same ∙ rest)

module _ (d : Double) (meta : List LevelMetaData) (cf_name : String) (c : Compactor)
    {c' : Compactor} (lsm : FluidLsm) (v : IsCounted 0 c) (idle : c.scheduled ≡ [])
    (built : build_structure d meta c.lsm ≡ some lsm)
    (flushed : on_flush_completed d meta cf_name c ≡ some c') where
  abbrev rebuilt : Compactor
  rebuilt = record c { lsm = lsm }

  abbrev largest_lvl : ℕ
  largest_lvl = largest_occupied_level lsm.lazy_levels

  looped : pick_loop d cf_name largest_lvl (suc largest_lvl) rebuilt ≡ some c'
  unfolding on_flush_completed pick_compaction
  looped =
      let (lsm', built', rest) = >>=-eq-some (build_structure d meta c.lsm) _ flushed in
      subst
        (λ (l : FluidLsm).
          let largest = largest_occupied_level l.lazy_levels in
          pick_loop d cf_name largest (suc largest) (record c { lsm = l }) ≡ some c')
        (some-injective _ _ (sym built' ∙ built)) rest

  -- With no compaction running, a flush builds the structure anew and schedules one compaction: of
  -- the deepest lazy level, up to the largest occupied one, that needs a compaction, with the names
  -- of that level's files that are not being compacted as its inputs, and with the output level that
  -- ScheduleCompaction computes for this lazy level or for the next one.
  pub on_flush_completed-Takes :
      (lvl : ℕ)
      → lvl ≤ largest_lvl
      → needs_at rebuilt largest_lvl lvl ≡ true
      → ((l : ℕ) → lvl < l → l ≤ largest_lvl → needs_at rebuilt largest_lvl l ≡ false)
      → Takes rebuilt lvl c'
  on_flush_completed-Takes lvl le h deeper =
      pick_loop-Takes d cf_name largest_lvl (suc largest_lvl) lvl rebuilt
        (build_structure-IsCounted 0 d meta c v built) idle (omega arith) h
        (λ l lo hi. deeper l lo (omega arith)) looped

  -- If no lazy level up to the largest occupied one needs a compaction, the flush schedules none: it
  -- only builds the structure anew.
  pub on_flush_completed-none :
      ((l : ℕ) → l ≤ largest_lvl → needs_at rebuilt largest_lvl l ≡ false) → c' ≡ rebuilt
  on_flush_completed-none h = sym (
      pick_loop-none d cf_name largest_lvl (suc largest_lvl) rebuilt (λ l lo. h l (omega arith))
        looped)
