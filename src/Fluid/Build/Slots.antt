-- ===== src/Fluid/Build/Slots.antt =====
-- Where BuildStructure puts the database's levels: with K + 1 runs to a lazy level, level m of the
-- database (m from 2 on) is run (m - 2) % (K + 1) of lazy level 1 + (m - 2) / (K + 1).
use native.Mathlib.Nat.{add-zero, add-div_right, div-mul-le_self, mul-le-mul_right, lt-div-mul-add}
use native.Mathlib.Decide.{dec_lt}
use native.Mathlib.Numerals.{add-one}
use rocks_db_wrapper.Base.{
  ℕ, zero, suc, ◌+◌, ◌-◌, ◌*◌, ◌/◌, ◌^◌, ◌≤◌, ◌<◌, ◌≡◌, refl, ap, ap₂, ◌∙◌, some, List, [], ◌∷◌,
  map, length, if◌then◌else◌, >>=-some, arith,
}
use rocks_db_wrapper.Base.Int.{pos}
use rocks_db_wrapper.Fluid.Double.{Double, IsExact}
use rocks_db_wrapper.Fluid.Tree.{SstFile, LazyLevel, new_run, add_run, clear, is_empty}
use rocks_db_wrapper.Fluid.Build.{
  LevelMetaData, add_files, pad_runs, level0_runs, create_run_at, fluid_level, deeper_runs,
  build_levels,
}
use rocks_db_wrapper.Fluid.Build.Lengths.{length-clear}
use rocks_db_wrapper.Fluid.Build.Placed.{
  IsNumbered, IsPlaced, push_run-IsPlaced, add_files-rocks_db_level,
}

-- The lazy level of level `m`, without floating point: 1 + (m - 2) / (K + 1).
fluid_index :
    (k m : ℕ)
    → 2 ≤ m
    → (j : ℕ) × ((m - 1 + (k + 1) - 1) / (k + 1) ≡ suc j)
      × (2 + j * (k + 1) ≤ m)
      × (m < 2 + j * (k + 1) + (k + 1))
fluid_index k m h =
    let j = (m - 2) / (k + 1) in
    let add : m - 1 + (k + 1) - 1 ≡ m - 2 + (k + 1) = omega arith in
    let low : j * (k + 1) ≤ m - 2 = div-mul-le_self (m - 2) (k + 1) in
    let high : m - 2 < j * (k + 1) + (k + 1) = lt-div-mul-add (omega arith) in
    (
      j,
      rw (add, add-div_right (m - 2) {k = k + 1} (omega arith)) (add-one _),
      omega arith,
      omega arith,
    )

-- Pushes at lazy level 0 leave the other levels alone.
pad_runs-zero :
    (n : ℕ) (level : LazyLevel) (levels : List LazyLevel)
    → (level' : LazyLevel) × (pad_runs n (level ∷ levels) ≡ some (level' ∷ levels))
unfolding pad_runs
pad_runs-zero zero level levels = (level, refl)
pad_runs-zero (suc n) level levels = pad_runs-zero n _ levels

level0_runs-zero :
    (files : List SstFile) (level : LazyLevel) (levels : List LazyLevel)
    → (level' : LazyLevel) × (level0_runs files (level ∷ levels) ≡ some (level' ∷ levels))
unfolding level0_runs
level0_runs-zero [] level levels = (level, refl)
level0_runs-zero (file ∷ files) level levels = level0_runs-zero files _ levels

IsPlaced-clear : (q b : ℕ) (levels : List LazyLevel) → 2 ≤ b → IsPlaced q 2 b (map clear levels)
IsPlaced-clear q b [] h = tt
IsPlaced-clear q b (level ∷ levels) h =
    (tt, omega arith, IsPlaced-clear q (b + q) levels (omega arith))

pub index-lt : (j n k m : ℕ) → 2 + j * (k + 1) ≤ m → m < 2 + n * (k + 1) → j < n
index-lt j n k m low room = elim (dec_lt j n) [
  | yes h ↦ h
  | no h ↦ let le : n ≤ j = omega arith in absurd (omega (arith, mul-le-mul_right (k + 1) le))
]

two_more : (n : ℕ) → suc (suc n) ≡ 2 + n
two_more n = omega arith

shift : (m n : ℕ) → m + suc n ≡ suc m + n
shift m n = omega arith

module _ (d : Double) (exact : IsExact d) (k : ℕ) where
  pub fluid_level-exact :
      (m : ℕ)
      → 1 ≤ m
      → m < 2 ^ 52
      → k < 2 ^ 52
      → fluid_level d k m ≡ pos ((m - 1 + (k + 1) - 1) / (k + 1))
  unfolding fluid_level
  fluid_level-exact m h hm hk =
      let less = exact.sub_exact m 1 h (omega arith) in
      let more = exact.add_exact k 1 (omega arith) in
      ap₂ (λ x y. d.to_int (d.ceil (d.div x y))) less more
      ∙ exact.ceil_div (m - 1) (k + 1) (omega arith) (omega arith) (omega arith)

  create_run_at-IsPlaced :
      (files : List SstFile) (m : ℕ) (level0 : LazyLevel) (levels : List LazyLevel)
      → 2 ≤ m
      → k < 2 ^ 52
      → m < 2 ^ 52
      → m < 2 + length levels * (k + 1)
      → IsPlaced (k + 1) m 2 levels
      → (out : List LazyLevel) × (create_run_at files (fluid_level d k m) m (level0 ∷ levels)
          ≡ some (level0 ∷ out))
        × (length out ≡ length levels)
        × IsPlaced (k + 1) (suc m) 2 out
  unfolding create_run_at
  create_run_at-IsPlaced files m level0 levels h hk hm room p =
      let (j, e, low, high) = fluid_index k m h in
      let exactly = fluid_level-exact m (omega arith) hm hk ∙ ap pos e in
      let run = add_files (new_run m) files in
      let (out, pushed, same, placed) =
        push_run-IsPlaced j (k + 1) m 2 run levels (add_files-rocks_db_level (new_run m) files)
          (index-lt j (length levels) k m low room) low high p in
      (out, rw exactly (>>=-some _ pushed refl), same, placed)

  -- The same, where the number stands in the metadata.
  create_run_numbered :
      (files : List SstFile) (n m : ℕ)
      → n ≡ m
      → (level0 : LazyLevel) (levels : List LazyLevel) → 2 ≤ m
      → k < 2 ^ 52
      → m < 2 ^ 52
      → m < 2 + length levels * (k + 1)
      → IsPlaced (k + 1) m 2 levels
      → (out : List LazyLevel) × (create_run_at files (fluid_level d k n) n (level0 ∷ levels)
          ≡ some (level0 ∷ out))
        × (length out ≡ length levels)
        × IsPlaced (k + 1) (suc m) 2 out
  create_run_numbered files n m e level0 levels h hk hm room p =
      rw e (create_run_at-IsPlaced files m level0 levels h hk hm room p)

  deeper_runs-IsPlaced :
      (m : ℕ) (meta : List LevelMetaData) (level0 : LazyLevel) (levels : List LazyLevel)
      → 2 ≤ m
      → k < 2 ^ 52
      → m + length meta < 2 ^ 52
      → m + length meta ≤ 2 + length levels * (k + 1)
      → IsNumbered m meta
      → IsPlaced (k + 1) m 2 levels
      → (out : List LazyLevel) × (deeper_runs d k meta (level0 ∷ levels) ≡ some (level0 ∷ out))
        × (length out ≡ length levels)
        × IsPlaced (k + 1) (m + length meta) 2 out
  unfolding deeper_runs
  deeper_runs-IsPlaced m [] level0 levels h hk hm room numbered p =
      (levels, refl, refl, rw add-zero p)
  deeper_runs-IsPlaced m (level ∷ meta) level0 levels h hk hm room numbered p =
      let (mid, e, same, placed) =
        create_run_numbered level.files level.level m numbered.0 level0 levels h hk (omega arith)
          (omega arith) p in
      let (out, e', same', placed') =
        deeper_runs-IsPlaced (suc m) meta level0 mid (omega arith) hk (omega arith)
          (rw same (omega arith)) numbered.1 placed in
      (out, >>=-some _ e e', same' ∙ same, rw (shift m (length meta)) placed')

  -- If the metadata numbers its levels from 0, has at least two of them and there is a lazy level
  -- for each, then BuildStructure reads and writes within bounds, keeps the number of lazy levels,
  -- and puts the database's levels from 2 on in order, `k + 1` to a lazy level, from lazy level 1. K and
  -- the number of levels are so small that doubles are exact.
  pub build_levels-IsPlaced :
      (meta : List LevelMetaData) (level0 : LazyLevel) (levels : List LazyLevel)
      → k < 2 ^ 52
      → length meta < 2 ^ 52
      → 2 ≤ length meta
      → length meta ≤ 2 + length levels * (k + 1)
      → IsNumbered 0 meta
      → (first : LazyLevel) × (out : List LazyLevel) × (build_levels d k meta (level0 ∷ levels)
          ≡ some (first ∷ out))
        × (length out ≡ length levels)
        × IsPlaced (k + 1) (length meta) 2 out
  unfolding build_levels
  build_levels-IsPlaced [] level0 levels hk hm two room numbered = absurd (omega arith)
  build_levels-IsPlaced (meta0 ∷ []) level0 levels hk hm two room numbered = absurd (omega arith)
  build_levels-IsPlaced (meta0 ∷ meta1 ∷ meta) level0 levels hk hm two room numbered =
      let n = length meta0.files + (if is_empty meta1.files then 0 else 1) in
      let cleared = map clear levels in
      let (padded, e1) = pad_runs-zero (k - n) (clear level0) cleared in
      let (flushed, e2) = level0_runs-zero meta0.files padded cleared in
      let first = add_run flushed (add_files (new_run 1) meta1.files) in
      let same : length cleared ≡ length levels = length-clear levels in
      let (out, e4, kept, placed) =
        deeper_runs-IsPlaced 2 meta first cleared (omega arith) hk (omega arith)
          (rw same (omega arith)) numbered.1.1 (IsPlaced-clear (k + 1) 2 levels (omega arith)) in
      (
        first,
        out,
        >>=-some _ e1 (>>=-some _ e2 e4),
        kept ∙ same,
        rw (two_more (length meta)) placed,
      )
