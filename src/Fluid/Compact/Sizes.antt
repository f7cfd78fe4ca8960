-- ===== src/Fluid/Compact/Sizes.antt =====
-- GetCompactionSize, which goes through the pointers to the inputs, against SizeInBytes, which goes
-- through the level.
use rocks_db_wrapper.Base.{
  ℕ, ◌+◌, ◌%◌, ◌^◌, ◌≡◌, refl, sym, ap, ◌∙◌, some, List, [], ◌∷◌, ◌++◌, get_elem?, All, arith,
}
use rocks_db_wrapper.Fluid.Tree.{SstFile, Run, LazyLevel, size_in_bytes}
use rocks_db_wrapper.Fluid.Tree.Live.{total_size, total_run_size, size_in_bytes_lem}
use rocks_db_wrapper.Fluid.Compact.{Pointer, add_files_to_compaction, compaction_size}
use rocks_db_wrapper.Fluid.Compact.Inputs.{size_of, sum, take_inputs_lem}
use rocks_db_wrapper.Fluid.Compact.Visit.{idle_values, idle_level_values}
use rocks_db_wrapper.Fluid.Compact.Resolves.{AllIdle}

sum-append : (xs ys : List ℕ) → sum (xs ++ ys) ≡ sum xs + sum ys
sum-append [] ys = omega arith
sum-append (x ∷ xs) ys = omega (arith, sum-append xs ys)

idle_sizes :
    (files : List SstFile) → AllIdle files → sum (idle_values size_of files) ≡ total_size files
idle_sizes [] h = refl
idle_sizes (file ∷ files) h = rw (h.0) (omega (arith, idle_sizes files h.1))

idle_level_sizes :
    (runs : List Run)
    → All (λ (run : Run). AllIdle run.files) runs
    → sum (idle_level_values size_of runs) ≡ total_run_size runs
idle_level_sizes [] h = refl
idle_level_sizes (run ∷ runs) h = omega (
  arith,
  sum-append (idle_values size_of run.files) (idle_level_values size_of runs),
  idle_sizes run.files h.0,
  idle_level_sizes runs h.1,
)

-- For a lazy level with no file being compacted, the size of a compaction of it, summed through the
-- pointers that AddFilesToCompaction collects, is the size of the level, as a 64-bit pattern.
pub compaction_size-size_in_bytes :
    (levels : List LazyLevel) (lvl : ℕ) {level : LazyLevel}
    → get_elem? levels lvl ≡ some level
    → All (λ (run : Run). AllIdle run.files) level.runs
    → (ps : List Pointer) × (add_files_to_compaction levels lvl [] ≡ some ps)
      × (compaction_size levels ps ≡ some (size_in_bytes level))
compaction_size-size_in_bytes levels lvl {level} at idle =
    let (ps, added, sized, taken, none_live) = take_inputs_lem levels lvl at in
    let same : sum (idle_level_values size_of level.runs) % 2 ^ 64 ≡ size_in_bytes level =
      ap (λ n. n % 2 ^ 64) (idle_level_sizes level.runs idle) ∙ sym (size_in_bytes_lem level) in
    (ps, added, sized ∙ ap some same)
