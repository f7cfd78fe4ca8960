-- ===== src/Fluid/Debug/Silent.antt =====
-- Without the debug mode the compactor prints nothing.
use Prim.Native.String.{String}
use rocks_db_wrapper.Base.{
  ℕ, zero, suc, ◌≡◌, refl, sym, ap, ◌∙◌, Bool, true, false, Option, none, some, some-injective,
  List, [], ◌++◌, get_elem?, if◌then◌else◌, ◌>>=◌, >>=-eq-some, Bool-cases, inl, inr,
}
use rocks_db_wrapper.Base.Int.{ltb_ℤ}
use rocks_db_wrapper.Base.Text.{Text}
use rocks_db_wrapper.Fluid.Double.{Double}
use rocks_db_wrapper.Fluid.Tree.{LazyLevel, num_live_runs, largest_occupied_level}
use rocks_db_wrapper.Fluid.Build.{LevelMetaData, build_structure}
use rocks_db_wrapper.Fluid.Print.{print_fluid_lsm}
use rocks_db_wrapper.Fluid.Compact.{
  Pointer, Compactor, CompactionTask, take_inputs, output_level, start_compaction,
  schedule_compaction, needs_compaction, add_files_to_compaction, compaction_target_level,
  pick_level, pick_loop, pick_compaction, on_flush_completed, compact_files,
}
use rocks_db_wrapper.Fluid.Compact.Keeps.{build_structure-Keeps, pick_level-Keeps}
use rocks_db_wrapper.Fluid.Debug.{
  CompactFilesResult, schedule_compaction_debug, pick_level_debug, pick_loop_debug,
  pick_compaction_debug, on_flush_completed_debug, compact_files_debug,
}
use rocks_db_wrapper.Fluid.Debug.Erases.{>>=-right_id}

-- The outcome with nothing printed.
abbrev pub quiet {ℓ} : {A : Type ℓ} → Option A → Option (A × Text)
quiet none = none
quiet (some a) = some (a, [])

>>=-quiet {ℓ κ} :
    {A : Type ℓ} {B : Type κ} (m : Option A) (f : A → Option (B × Text)) (g : A → Option B)
    → ((a : A) → m ≡ some a → f a ≡ quiet (g a))
    → (m >>= f) ≡ quiet (m >>= g)
>>=-quiet none f g h = refl
>>=-quiet (some a) f g h = h a refl

quiet->>= {ℓ κ} :
    {A : Type ℓ} {B : Type κ} (m : Option A) (f : A × Text → Option (B × Text)) (g : A → Option B)
    → ((a : A) → m ≡ some a → f (a, []) ≡ quiet (g a))
    → (quiet m >>= f) ≡ quiet (m >>= g)
quiet->>= none f g h = refl
quiet->>= (some a) f g h = h a refl

quiet_prefix {ℓ} :
    {A : Type ℓ} (m : Option A) → (quiet m >>= λ (a, more). some (a, [] ++ more)) ≡ quiet m
quiet_prefix none = refl
quiet_prefix (some a) = refl

abbrev IsSilent : Compactor → Type 0
IsSilent c = c.lsm.debug_mode ≡ false

start_compaction-IsSilent :
    (c : Compactor) (cf_name : String) (lvl : ℕ) (ps : List Pointer) (c' : Compactor)
    → start_compaction c cf_name lvl ps ≡ some c'
    → IsSilent c
    → IsSilent c'
unfolding start_compaction
start_compaction-IsSilent c cf_name lvl ps c' e s =
    let (r, taken, last) = >>=-eq-some (take_inputs c.lsm.lazy_levels ps) _ e in
    ap (λ (x : Compactor). x.lsm.debug_mode) (sym (some-injective _ _ last)) ∙ s

pick_level-IsSilent :
    (d : Double) (cf_name : String) (largest lvl : ℕ) (c : Compactor) {c' : Compactor}
    → pick_level d cf_name largest lvl c ≡ some c'
    → IsSilent c
    → IsSilent c'
pick_level-IsSilent d cf_name largest lvl c e s =
    pick_level-Keeps IsSilent (λ c levels kept s. s)
      (λ c cf l ps c' free started s. start_compaction-IsSilent c cf l ps c' started s) d cf_name
      largest lvl c e s

schedule_compaction_debug-quiet :
    (c : Compactor) (cf_name : String) (origin target : ℕ) (ps : List Pointer)
    → IsSilent c
    → schedule_compaction_debug c cf_name origin target ps
      ≡ quiet (schedule_compaction c cf_name origin target ps)
unfolding schedule_compaction_debug schedule_compaction
schedule_compaction_debug-quiet c cf_name origin target ps s =
    elim (Bool-cases
      (ltb_ℤ c.lsm.parallel_compactions_running c.lsm.parallel_compactions_allowed)) [
        | inl free ↦ rw free (
            >>=-quiet (output_level c.lsm.lazy_levels c.lsm.smaller_lvl_runs_count origin target) _
              _
              λ out e.
                >>=-quiet (start_compaction c cf_name out ps) _ some (λ c' e'. refl)
                ∙ ap quiet (>>=-right_id (start_compaction c cf_name out ps)))
        | inr busy ↦ rw (busy, s)
      ]

pick_level_debug-quiet :
    (d : Double) (cf_name : String) (largest lvl : ℕ) (c : Compactor)
    → IsSilent c
    → pick_level_debug d cf_name largest lvl c ≡ quiet (pick_level d cf_name largest lvl c)
unfolding pick_level_debug pick_level
pick_level_debug-quiet d cf_name largest lvl c s =
    >>=-quiet (get_elem? c.lsm.lazy_levels lvl) _ _ λ level at.
      elim (Bool-cases (needs_compaction c.lsm largest lvl (num_live_runs level))) [
        | inl needed ↦ rw needed (
            >>=-quiet (add_files_to_compaction c.lsm.lazy_levels lvl []) _ _ λ ps e.
              >>=-quiet (compaction_target_level d c.lsm lvl ps) _ _
                λ target e'. schedule_compaction_debug-quiet c cf_name lvl target ps s)
        | inr not_needed ↦ rw not_needed
      ]

pick_loop_debug-quiet :
    (d : Double) (cf_name : String) (largest n : ℕ) (c : Compactor)
    → IsSilent c
    → pick_loop_debug d cf_name largest n c ≡ quiet (pick_loop d cf_name largest n c)
unfolding pick_loop_debug pick_loop
pick_loop_debug-quiet d cf_name largest zero c s = refl
pick_loop_debug-quiet d cf_name largest (suc lvl) c s =
    rw (pick_level_debug-quiet d cf_name largest lvl c s) (
      quiet->>= (pick_level d cf_name largest lvl c) _ (pick_loop d cf_name largest lvl) λ next e.
        let s' = pick_level-IsSilent d cf_name largest lvl c e s in
        rw (pick_loop_debug-quiet d cf_name largest lvl next s')
          (quiet_prefix (pick_loop d cf_name largest lvl next)))

no_print :
    (b : Bool) (levels : List LazyLevel) (m : Option (Compactor × Text)) (n : Option Compactor)
    → b ≡ false
    → m ≡ quiet n
    → ((if b then print_fluid_lsm levels else some []) >>= λ printed.
        m >>= λ (c, more). some (c, printed ++ more))
      ≡ quiet n
no_print true levels m n h e = absurd (cc h)
no_print false levels m n h e = rw e (quiet_prefix n)

pick_compaction_debug-quiet :
    (d : Double) (meta : List LevelMetaData) (cf_name : String) (c : Compactor)
    → IsSilent c
    → pick_compaction_debug d meta cf_name c ≡ quiet (pick_compaction d meta cf_name c)
unfolding pick_compaction_debug pick_compaction
pick_compaction_debug-quiet d meta cf_name c s =
    >>=-quiet (build_structure d meta c.lsm) _ _ λ lsm built.
      let s' : IsSilent (record c { lsm = lsm }) =
        build_structure-Keeps IsSilent (λ c levels kept s. s)
          (λ c cf l ps c' free started s. start_compaction-IsSilent c cf l ps c' started s) d meta c
          built s in
      let largest = largest_occupied_level lsm.lazy_levels in
      no_print lsm.debug_mode lsm.lazy_levels _ _ s'
        (pick_loop_debug-quiet d cf_name largest (suc largest) (record c { lsm = lsm }) s')

-- A compactor that is not in debug mode prints nothing in a flush, and at the end of a compaction
-- whose task is not in debug mode either: each operation is that of the compactor without prints.
pub compact_files_debug-quiet :
    (d : Double) (meta : List LevelMetaData) (cf_name : String) (result : CompactFilesResult)
    (task : CompactionTask) (c : Compactor)
    → IsSilent c
    → task.debug_mode ≡ false
    → (on_flush_completed_debug d meta cf_name c ≡ quiet (on_flush_completed d meta cf_name c))
      × (compact_files_debug d result meta task c
          ≡ quiet (compact_files d result.is_io_error meta task c))
unfolding on_flush_completed_debug on_flush_completed compact_files_debug compact_files
compact_files_debug-quiet d meta cf_name result task c s t = (
  pick_compaction_debug-quiet d meta cf_name c s,
  elim (Bool-cases result.is_io_error) [
    | inl failed ↦ rw (failed, t)
    | inr done ↦
        rw (done, t, pick_compaction_debug-quiet d meta task.cf_name c s)
          (quiet->>= (pick_compaction d meta task.cf_name c) _ _ (λ a e. refl))
  ],
)
