-- ===== src/Fluid/Debug/Erases.antt =====
-- The prints of the compactor are outputs only: without them it is the compactor of Compact.
use Prim.Native.String.{String}
use rocks_db_wrapper.Base.{
  ℕ, zero, suc, ◌≡◌, refl, sym, ap, ◌∙◌, Bool, true, false, Option, none, some, List, [], ◌∷◌, ◌++◌,
  get_elem?, if◌then◌else◌, ◌>>=◌, Bool-cases, inl, inr,
}
use rocks_db_wrapper.Base.Int.{ltb_ℤ}
use rocks_db_wrapper.Base.Text.{Text}
use rocks_db_wrapper.Fluid.Double.{Double}
use rocks_db_wrapper.Fluid.Tree.{LazyLevel, num_live_runs, largest_occupied_level}
use rocks_db_wrapper.Fluid.Build.{LevelMetaData, build_structure}
use rocks_db_wrapper.Fluid.Print.{print_fluid_lsm}
use rocks_db_wrapper.Fluid.Print.Shows.{print_fluid_lsm-none, print_fluid_lsm-tree_files}
use rocks_db_wrapper.Fluid.Compact.{
  Pointer, Compactor, CompactionTask, output_level, start_compaction, schedule_compaction,
  needs_compaction, add_files_to_compaction, compaction_target_level, pick_level, pick_loop,
  pick_compaction, on_flush_completed, compact_files,
}
use rocks_db_wrapper.Fluid.Debug.{
  CompactFilesResult, schedule_compaction_debug, pick_level_debug, pick_loop_debug,
  pick_compaction_debug, on_flush_completed_debug, compact_files_debug,
}

-- The outcome without what was printed.
abbrev pub forget {ℓ} : {A : Type ℓ} → Option (A × Text) → Option A
forget none = none
forget (some r) = some r.0

pub >>=-right_id {ℓ} : {A : Type ℓ} (m : Option A) → (m >>= some) ≡ m
>>=-right_id none = refl
>>=-right_id (some a) = refl

forget->>= {ℓ κ} :
    {A : Type ℓ} {B : Type κ} (m : Option A) (f : A → Option (B × Text)) (g : A → Option B)
    → ((a : A) → m ≡ some a → forget (f a) ≡ g a)
    → forget (m >>= f) ≡ (m >>= g)
forget->>= none f g h = refl
forget->>= (some a) f g h = h a refl

forget_printed {ℓ κ} :
    {A : Type ℓ} {B : Type κ} (m : Option (A × Text)) (f : A × Text → Option (B × Text))
    (g : A → Option B)
    → ((r : A × Text) → forget (f r) ≡ g r.0)
    → forget (m >>= f) ≡ (forget m >>= g)
forget_printed none f g h = refl
forget_printed (some r) f g h = h r

-- An outcome with more printed in front of it.
forget_prefix {ℓ} :
    {A : Type ℓ} (m : Option (A × Text)) (t : Text)
    → forget (m >>= λ (a, more). some (a, t ++ more)) ≡ forget m
forget_prefix none t = refl
forget_prefix (some r) t = refl

schedule_compaction_debug-erases :
    (c : Compactor) (cf_name : String) (origin target : ℕ) (ps : List Pointer) {level : LazyLevel}
    → get_elem? c.lsm.lazy_levels origin ≡ some level
    → forget (schedule_compaction_debug c cf_name origin target ps)
      ≡ schedule_compaction c cf_name origin target ps
unfolding schedule_compaction_debug schedule_compaction
schedule_compaction_debug-erases c cf_name origin target ps at =
    elim (Bool-cases
      (ltb_ℤ c.lsm.parallel_compactions_running c.lsm.parallel_compactions_allowed)) [
        | inl free ↦ rw free (
            forget->>= (output_level c.lsm.lazy_levels c.lsm.smaller_lvl_runs_count origin target) _
              _
              λ out e.
                forget->>= (start_compaction c cf_name out ps) _ some (λ c' e'. refl)
                ∙ >>=-right_id (start_compaction c cf_name out ps))
        | inr busy ↦ rw busy (elim (Bool-cases c.lsm.debug_mode) [
          | inl loud ↦ rw (loud, at)
          | inr silent ↦ rw silent
        ])
      ]

pick_level_debug-erases :
    (d : Double) (cf_name : String) (largest lvl : ℕ) (c : Compactor)
    → forget (pick_level_debug d cf_name largest lvl c) ≡ pick_level d cf_name largest lvl c
unfolding pick_level_debug pick_level
pick_level_debug-erases d cf_name largest lvl c =
    forget->>= (get_elem? c.lsm.lazy_levels lvl) _ _ λ level at.
      elim (Bool-cases (needs_compaction c.lsm largest lvl (num_live_runs level))) [
        | inl needed ↦ rw needed (
            forget->>= (add_files_to_compaction c.lsm.lazy_levels lvl []) _ _ λ ps e.
              forget->>= (compaction_target_level d c.lsm lvl ps) _ _
                λ target e'. schedule_compaction_debug-erases c cf_name lvl target ps at)
        | inr not_needed ↦ rw not_needed
      ]

pick_loop_debug-erases :
    (d : Double) (cf_name : String) (largest n : ℕ) (c : Compactor)
    → forget (pick_loop_debug d cf_name largest n c) ≡ pick_loop d cf_name largest n c
unfolding pick_loop_debug pick_loop
pick_loop_debug-erases d cf_name largest zero c = refl
pick_loop_debug-erases d cf_name largest (suc lvl) c =
    forget_printed (pick_level_debug d cf_name largest lvl c) _ (pick_loop d cf_name largest lvl)
      (λ r.
        forget_prefix (pick_loop_debug d cf_name largest lvl r.0) r.1
        ∙ pick_loop_debug-erases d cf_name largest lvl r.0)
    ∙ ap (λ m. m >>= pick_loop d cf_name largest lvl)
        (pick_level_debug-erases d cf_name largest lvl c)

-- A print of the tree fails only where there is no lazy level.
print_first :
    (b : Bool) (levels : List LazyLevel) (m : Option (Compactor × Text)) (n : Option Compactor)
    → forget m ≡ n
    → (levels ≡ [] → n ≡ none)
    → forget (
        (if b then print_fluid_lsm levels else some []) >>= λ printed.
        m >>= λ (c, more). some (c, printed ++ more))
      ≡ n
print_first false levels m n e h = forget_prefix m [] ∙ e
print_first true [] m n e h = rw print_fluid_lsm-none (sym (h refl))
print_first true (level ∷ levels) m n e h =
    let (lines, shows, same) = print_fluid_lsm-tree_files level levels in
    rw shows (forget_prefix m _ ∙ e)

pick_loop-none_at :
    (d : Double) (cf_name : String) (largest n : ℕ) (c : Compactor)
    → c.lsm.lazy_levels ≡ []
    → pick_loop d cf_name largest (suc n) c ≡ none
unfolding pick_loop pick_level
pick_loop-none_at d cf_name largest n c e = rw e

pub pick_compaction_debug-erases :
    (d : Double) (meta : List LevelMetaData) (cf_name : String) (c : Compactor)
    → forget (pick_compaction_debug d meta cf_name c) ≡ pick_compaction d meta cf_name c
unfolding pick_compaction_debug pick_compaction
pick_compaction_debug-erases d meta cf_name c =
    forget->>= (build_structure d meta c.lsm) _ _ λ lsm built.
      let largest = largest_occupied_level lsm.lazy_levels in
      print_first lsm.debug_mode lsm.lazy_levels _ _
        (pick_loop_debug-erases d cf_name largest (suc largest) (record c { lsm = lsm }))
        (pick_loop-none_at d cf_name largest largest (record c { lsm = lsm }))

pub on_flush_completed_debug-erases :
    (d : Double) (meta : List LevelMetaData) (cf_name : String) (c : Compactor)
    → forget (on_flush_completed_debug d meta cf_name c) ≡ on_flush_completed d meta cf_name c
unfolding on_flush_completed_debug on_flush_completed
on_flush_completed_debug-erases d meta cf_name c = pick_compaction_debug-erases d meta cf_name c

pub compact_files_debug-erases :
    (d : Double) (result : CompactFilesResult) (meta : List LevelMetaData) (task : CompactionTask)
    (c : Compactor)
    → forget (compact_files_debug d result meta task c)
      ≡ compact_files d result.is_io_error meta task c
unfolding compact_files_debug compact_files
compact_files_debug-erases d result meta task c = elim (Bool-cases result.is_io_error) [
  | inl failed ↦ rw failed
  | inr done ↦
      rw (done, ← pick_compaction_debug-erases d meta task.cf_name c)
        (forget_printed (pick_compaction_debug d meta task.cf_name c) _ _ (λ r. refl))
]
