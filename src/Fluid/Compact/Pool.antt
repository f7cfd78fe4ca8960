-- ===== src/Fluid/Compact/Pool.antt =====
-- The count of running compactions against the tasks handed to the thread pool.
use Prim.Native.String.{String}
use rocks_db_wrapper.Base.{
  ℕ, ◌+◌, ◌≤◌, ◌≡◌, refl, sym, subst, ap, ◌∙◌, Bool, true, false, Option, some, some-injective,
  List, [], ◌∷◌, ◌++◌, length, length-append, >>=-eq-some, arith,
}
use rocks_db_wrapper.Base.Int.{ℤ, pos, ltb_ℤ, ◌+ℤ◌, ◌-ℤ◌}
use rocks_db_wrapper.Fluid.Double.{Double}
use rocks_db_wrapper.Fluid.Tree.{FluidLsm, LazyLevel}
use rocks_db_wrapper.Fluid.Build.{LevelMetaData, build_structure}
use rocks_db_wrapper.Fluid.Compact.Keeps.{build_structure-Keeps, pick_compaction-Keeps}
use rocks_db_wrapper.Fluid.Compact.{
  Pointer, Compactor, CompactionTask, take_inputs, start_compaction, pick_compaction,
  on_flush_completed, compact_files,
}

-- `extra` tasks are being executed, the others wait; the counter holds their sum, at most one.
pub record IsCounted (extra : ℕ) (c : Compactor) : Type 0 where
  pub counted : c.lsm.parallel_compactions_running ≡ pos (length c.scheduled + extra)
  pub within : length c.scheduled + extra ≤ 1
  pub allowed : c.lsm.parallel_compactions_allowed ≡ pos 1

-- What a started compaction changes, apart from the marks.
pub start_compaction_effect :
    (c : Compactor) (cf_name : String) (lvl : ℕ) (ps : List Pointer) {c' : Compactor}
    → start_compaction c cf_name lvl ps ≡ some c'
    → (task : CompactionTask) × (r : List String × List LazyLevel) × (take_inputs c.lsm.lazy_levels
          ps
        ≡ some r)
      × (task.input_file_names ≡ r.0)
      × (task.output_lvl ≡ lvl)
      × (c'.lsm.lazy_levels ≡ r.1)
      × (c'.scheduled ≡ c.scheduled ++ task ∷ [])
      × (c'.lsm.parallel_compactions_running ≡ c.lsm.parallel_compactions_running +ℤ pos 1)
      × (c'.lsm.parallel_compactions_allowed ≡ c.lsm.parallel_compactions_allowed)
unfolding start_compaction
start_compaction_effect c cf_name lvl ps e =
    let (r, taken, last) = >>=-eq-some (take_inputs c.lsm.lazy_levels ps) _ e in
    let same = some-injective _ _ last in
    (
      _,
      r,
      taken,
      refl,
      refl,
      ap (λ (x : Compactor). x.lsm.lazy_levels) (sym same),
      ap (λ (x : Compactor). x.scheduled) (sym same),
      ap (λ (x : Compactor). x.lsm.parallel_compactions_running) (sym same),
      ap (λ (x : Compactor). x.lsm.parallel_compactions_allowed) (sym same),
    )

pub count_up : (r : ℤ) (n : ℕ) → r ≡ pos n → r +ℤ pos 1 ≡ pos (n + 1)
unfolding ◌+ℤ◌
count_up r n e = ground arith

count_down : (r : ℤ) (n : ℕ) → r ≡ pos (n + 1) → r -ℤ pos 1 ≡ pos n
unfolding ◌-ℤ◌
count_down r n e = ground arith

pub idle_below : (r a : ℤ) (n : ℕ) → r ≡ pos n → a ≡ pos 1 → ltb_ℤ r a ≡ true → n ≡ 0
idle_below r a n e f h = ground arith

pub start_compaction-IsCounted :
    (extra : ℕ) (c : Compactor) (cf_name : String) (lvl : ℕ) (ps : List Pointer) {c' : Compactor}
    → IsCounted extra c
    → length c.scheduled + extra ≡ 0
    → start_compaction c cf_name lvl ps ≡ some c'
    → IsCounted extra c'
start_compaction-IsCounted extra c cf_name lvl ps v idle e =
    let (task, r, taken, names, out, marked, grown, counts, same) =
      start_compaction_effect c cf_name lvl ps e in
    let more = ap length grown ∙ length-append c.scheduled (task ∷ []) in
    record {
      counted = counts ∙ count_up _ _ v.counted ∙ ap pos (omega (arith, more));
      within = omega (arith, more);
      allowed = same ∙ v.allowed;
    }

levels-IsCounted :
    (extra : ℕ) (c : Compactor) (lazy_levels : List LazyLevel)
    → length lazy_levels ≡ length c.lsm.lazy_levels
    → IsCounted extra c
    → IsCounted extra (record c { lsm = record c.lsm { lazy_levels = lazy_levels } })
levels-IsCounted extra c lazy_levels same v = record {
  counted = v.counted;
  within = v.within;
  allowed = v.allowed;
}

free-IsCounted :
    (extra : ℕ) (c : Compactor) (cf_name : String) (lvl : ℕ) (ps : List Pointer) (c' : Compactor)
    → ltb_ℤ c.lsm.parallel_compactions_running c.lsm.parallel_compactions_allowed ≡ true
    → start_compaction c cf_name lvl ps ≡ some c'
    → IsCounted extra c
    → IsCounted extra c'
free-IsCounted extra c cf_name lvl ps c' free e v =
    start_compaction-IsCounted extra c cf_name lvl ps v (idle_below _ _ _ v.counted v.allowed free)
      e

pub build_structure-IsCounted :
    (extra : ℕ) (d : Double) (meta : List LevelMetaData) (c : Compactor) {lsm : FluidLsm}
    → IsCounted extra c
    → build_structure d meta c.lsm ≡ some lsm
    → IsCounted extra (record c { lsm = lsm })
build_structure-IsCounted extra d meta c v built =
    build_structure-Keeps (IsCounted extra) (levels-IsCounted extra) (free-IsCounted extra) d meta c
      built v

pick_compaction-IsCounted :
    (extra : ℕ) (d : Double) (meta : List LevelMetaData) (cf_name : String) (c : Compactor)
    {c' : Compactor}
    → IsCounted extra c
    → pick_compaction d meta cf_name c ≡ some c'
    → IsCounted extra c'
pick_compaction-IsCounted extra d meta cf_name c v e =
    pick_compaction-Keeps (IsCounted extra) (levels-IsCounted extra) (free-IsCounted extra) d meta
      cf_name c e v

pub on_flush_completed-IsCounted :
    (d : Double) (meta : List LevelMetaData) (cf_name : String) (c : Compactor) {c' : Compactor}
    → IsCounted 0 c
    → on_flush_completed d meta cf_name c ≡ some c'
    → IsCounted 0 c'
unfolding on_flush_completed
on_flush_completed-IsCounted d meta cf_name c v e = pick_compaction-IsCounted 0 d meta cf_name c v e

empty_of_length {ℓ} : {A : Type ℓ} (xs : List A) → length xs ≡ 0 → xs ≡ []
empty_of_length [] h = refl
empty_of_length (x ∷ xs) h = absurd (omega arith)

finish-IsCounted :
    (picked : Compactor) {c' : Compactor}
    → IsCounted 1 picked
    → ◌≡◌ {A = Option Compactor}
        (some (record {
          lsm = record picked.lsm {
            parallel_compactions_running = picked.lsm.parallel_compactions_running -ℤ pos 1;
          };
          scheduled = picked.scheduled;
        }))
        (some c')
    → IsCounted 0 c' × (c'.scheduled ≡ [])
finish-IsCounted picked v e =
    subst (λ (c : Compactor). IsCounted 0 c × (c.scheduled ≡ [])) (some-injective _ _ e)
      (
        record {
          counted = count_down _ _ v.counted ∙ ap pos (omega arith);
          within = omega (arith, v.within);
          allowed = v.allowed;
        },
        empty_of_length picked.scheduled (omega arith),
      )

-- While a task is executed it holds the one slot: whatever the database reports, the compaction that
-- it picks at its end is skipped, and nothing is scheduled when the slot has been given back.
pub compact_files-IsCounted :
    (d : Double) (is_io_error : Bool) (meta : List LevelMetaData) (task : CompactionTask)
    (c : Compactor) {c' : Compactor}
    → IsCounted 1 c
    → compact_files d is_io_error meta task c ≡ some c'
    → IsCounted 0 c' × (c'.scheduled ≡ [])
unfolding compact_files
compact_files-IsCounted d true meta task c v e = finish-IsCounted c v e
compact_files-IsCounted d false meta task c v e =
    let (picked, first, rest) = >>=-eq-some (pick_compaction d meta task.cf_name c) _ e in
    finish-IsCounted picked (pick_compaction-IsCounted 1 d meta task.cf_name c v first) rest
