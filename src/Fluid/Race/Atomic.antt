-- ===== src/Fluid/Race/Atomic.antt =====
-- The histories of whole callbacks (System) are histories of one thread of the race.
use Prim.Native.String.{String}
use rocks_db_wrapper.Base.{
  ℕ, ◌+◌, ◌≡◌, refl, sym, ap, subst, ◌∙◌, Bool, true, false, some, some-injective, List, [], ◌∷◌,
  length, length-append, >>=-eq-some, arith,
}
use rocks_db_wrapper.Base.Int.{ℤ, pos, ◌-ℤ◌, ltb_ℤ}
use rocks_db_wrapper.Fluid.Double.{Double}
use rocks_db_wrapper.Fluid.Tree.{FluidOptions, new_fluid_lsm}
use rocks_db_wrapper.Fluid.Build.{LevelMetaData}
use rocks_db_wrapper.Fluid.Compact.{
  Pointer, Compactor, CompactionTask, start_compaction, pick_compaction, on_flush_completed,
  compact_files,
}
use rocks_db_wrapper.Fluid.Compact.Keeps.{pick_compaction-Keeps}
use rocks_db_wrapper.Fluid.Compact.Pool.{start_compaction_effect}
use rocks_db_wrapper.Fluid.System.{
  Step, flush, finish, Reach, here, next, new_compactor, length-middle,
}
use rocks_db_wrapper.Fluid.Race.{
  Pc, outside, Shared, check, increment, decrement, Interleaves, at_start, moved, start,
}

-- What one thread sees of the compactor, with `extra` tasks being executed.
abbrev pub view : ℕ → Compactor → Shared
view extra c = record {
  parallel_compactions_running = c.lsm.parallel_compactions_running;
  parallel_compactions_allowed = c.lsm.parallel_compactions_allowed;
  scheduled = length c.scheduled + extra;
  threads = outside ∷ [];
}

shared_eq :
    {r r' a a' : ℤ} {n n' : ℕ} (ts : List Pc)
    → r ≡ r'
    → a ≡ a'
    → n ≡ n'
    → ◌≡◌ {A = Shared}
        (record {
          parallel_compactions_running = r;
          parallel_compactions_allowed = a;
          scheduled = n;
          threads = ts;
        })
        (record {
          parallel_compactions_running = r';
          parallel_compactions_allowed = a';
          scheduled = n';
          threads = ts;
        })
shared_eq ts e f g = cc

started :
    (s : Shared) (extra : ℕ) (c : Compactor) (cf_name : String) (lvl : ℕ) (ps : List Pointer)
    (c' : Compactor)
    → ltb_ℤ c.lsm.parallel_compactions_running c.lsm.parallel_compactions_allowed ≡ true
    → start_compaction c cf_name lvl ps ≡ some c'
    → Interleaves s (view extra c)
    → Interleaves s (view extra c')
started s extra c cf_name lvl ps c' free e r =
    let (task, taken, _, _, _, _, grown, counts, same) =
      start_compaction_effect c cf_name lvl ps e in
    moved (moved r (check [] [] refl free refl)) (
      increment [] [] refl (
        shared_eq (outside ∷ []) counts same
          (omega (arith, ap length grown ∙ length-append c.scheduled (task ∷ [])))))

picked :
    (s : Shared) (extra : ℕ) (d : Double) (meta : List LevelMetaData) (cf_name : String)
    (c : Compactor) {c' : Compactor}
    → pick_compaction d meta cf_name c ≡ some c'
    → Interleaves s (view extra c)
    → Interleaves s (view extra c')
picked s extra d meta cf_name c e r =
    pick_compaction-Keeps (λ c. Interleaves s (view extra c)) (λ c lazy_levels same r. r)
      (started s extra) d meta cf_name c e r

given_back :
    (s : Shared) (c : Compactor) {c' : Compactor}
    → Interleaves s (view 1 c)
    → record c {
      lsm = record c.lsm {
        parallel_compactions_running = c.lsm.parallel_compactions_running -ℤ pos 1;
      };
    }
      ≡ c'
    → Interleaves s (view 0 c')
given_back s c r same = moved r (
    decrement (length c.scheduled) (omega arith)
      (sym (ap (view 0) same) ∙ shared_eq (outside ∷ []) refl refl (omega arith)))

compacted :
    (s : Shared) (d : Double) (is_io_error : Bool) (meta : List LevelMetaData)
    (task : CompactionTask) (c : Compactor) {c' : Compactor}
    → compact_files d is_io_error meta task c ≡ some c'
    → Interleaves s (view 1 c)
    → Interleaves s (view 0 c')
unfolding compact_files
compacted s d true meta task c e r = given_back s c r (some-injective _ _ e)
compacted s d false meta task c e r =
    let (after, first, rest) = >>=-eq-some (pick_compaction d meta task.cf_name c) _ e in
    given_back s after (picked s 1 d meta task.cf_name c first r) (some-injective _ _ rest)

Step-Interleaves :
    (s : Shared) (d : Double) (c c' : Compactor)
    → Step d c c'
    → Interleaves s (view 0 c)
    → Interleaves s (view 0 c')
unfolding on_flush_completed
Step-Interleaves s d c c' (flush meta cf_name e) r = picked s 0 d meta cf_name c e r
Step-Interleaves s d c c' (finish before after task is_io_error meta at e) r =
    compacted s d is_io_error meta task _ e (
      subst (Interleaves s)
        (shared_eq (outside ∷ []) refl refl
          (omega (arith, ap length at ∙ length-middle before task after)))
        r)

-- On the counter and the queue, each history of whole flushes and background compactions is a history of
-- one thread that tests, counts and gives back.
pub Reach-Interleaves :
    (d : Double) (size_ratio k z file_size : ℕ) (options : FluidOptions) (uninitialised : Bool)
    {c : Compactor}
    → Reach d (new_compactor size_ratio k z file_size options uninitialised) c
    → Interleaves (start 1) (view 0 c)
unfolding new_fluid_lsm
Reach-Interleaves d size_ratio k z file_size options uninitialised here = at_start
Reach-Interleaves d size_ratio k z file_size options uninitialised (next {c} {c'} r step) =
    Step-Interleaves (start 1) d c c' step
      (Reach-Interleaves d size_ratio k z file_size options uninitialised r)
