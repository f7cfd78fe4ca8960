-- ===== src/Fluid/Compact/Target.antt =====
-- GetCompactionTargetLevel where the floating point is exact: the capacity of a level is
-- write_buffer_size * size_ratio ^ origin_lvl * (size_ratio - 1).
use native.Mathlib.Nat.{pow-suc, mul-div_cancel}
use native.Mathlib.Numerals.{add-one}
use rocks_db_wrapper.Base.{
  ℕ, ◌+◌, ◌-◌, ◌*◌, ◌/◌, ◌^◌, ◌<◌, ◌≡◌, ap, ap₂, ◌∙◌, some, List, arith, ltb, lt→ltb, if◌then◌else◌,
  >>=-some,
}
use rocks_db_wrapper.Base.Int.{ℤ, pos, sub_ℕ, ltb_ℤ}
use rocks_db_wrapper.Fluid.Double.{Double, of_ℕ, IsExact}
use rocks_db_wrapper.Fluid.Tree.{FluidLsm, signed64}
use rocks_db_wrapper.Fluid.Compact.{
  Pointer, compaction_size, level_capacity, compaction_target_level,
}

capacity_quotient : (w t o : ℕ) → 0 < t → w * t ^ (o + 1) * (t - 1) / t ≡ w * t ^ o * (t - 1)
capacity_quotient w t o h =
    let power : t ^ (o + 1) ≡ t ^ o * t = rw add-one (pow-suc t o) in
    let moved : w * t ^ (o + 1) * (t - 1) ≡ w * t ^ o * (t - 1) * t = rw power (omega arith) in
    rw moved (mul-div_cancel (w * t ^ o * (t - 1)) h)

signed64-small : (s : ℕ) → s < 2 ^ 63 → signed64 s ≡ pos s
signed64-small s h = rw (lt→ltb s (2 ^ 63) h)

ltb_ℤ-pos : (a b : ℕ) → ltb_ℤ (pos a) (pos b) ≡ ltb a b
ltb_ℤ-pos a b = ground arith

module _ (d : Double) (exact : IsExact d) (lsm : FluidLsm) (origin_lvl : ℕ)
    (positive : 0 < lsm.size_ratio) (power_fits : lsm.size_ratio ^ (origin_lvl + 1) < 2 ^ 53)
    (product_fits : lsm.options.write_buffer_size * lsm.size_ratio ^ (origin_lvl + 1) < 2 ^ 53)
    (fits : lsm.options.write_buffer_size * lsm.size_ratio ^ (origin_lvl + 1) * (lsm.size_ratio - 1)
      < 2 ^ 53)
    (ratio_fits : lsm.size_ratio < 2 ^ 53) where
  open lsm use {size_ratio, options}

  level_capacity-exact :
      level_capacity d lsm origin_lvl
      ≡ pos (options.write_buffer_size * size_ratio ^ origin_lvl * (size_ratio - 1))
  unfolding level_capacity
  level_capacity-exact =
      let w = options.write_buffer_size in
      let less : sub_ℕ size_ratio 1 ≡ pos (size_ratio - 1) = ground arith in
      let quotient = λ (x : d.Value). d.to_int (d.div x (of_ℕ d size_ratio)) in
      ap (λ x. quotient (d.mul (d.mul (of_ℕ d w) x) (d.of_int (sub_ℕ size_ratio 1))))
        (exact.pow_exact size_ratio (origin_lvl + 1) power_fits)
      ∙ ap₂ (λ x n. quotient (d.mul x (d.of_int n)))
          (exact.mul_exact w (size_ratio ^ (origin_lvl + 1)) product_fits) less
      ∙ ap quotient (exact.mul_exact (w * size_ratio ^ (origin_lvl + 1)) (size_ratio - 1) fits)
      ∙ exact.floor_div _ size_ratio fits ratio_fits positive
      ∙ ap pos (capacity_quotient w size_ratio origin_lvl positive)

  -- The compaction moves down by one level exactly when its inputs are larger than the capacity,
  -- write_buffer_size * size_ratio ^ origin_lvl * (size_ratio - 1). The size ratio is positive, the
  -- products stay below 2 ^ 53, where doubles are exact, and the size of the inputs fits a long.
  pub compaction_target_level-exact :
      (input_files : List Pointer) {size : ℕ}
      → compaction_size lsm.lazy_levels input_files ≡ some size
      → size < 2 ^ 63
      → compaction_target_level d lsm origin_lvl input_files
        ≡ some (
            if ltb (options.write_buffer_size * size_ratio ^ origin_lvl * (size_ratio - 1)) size
            then origin_lvl + 1
            else origin_lvl)
  unfolding compaction_target_level
  compaction_target_level-exact input_files {size} sized small =
      let pick = λ (c s : ℤ). some (if ltb_ℤ c s then origin_lvl + 1 else origin_lvl) in
      >>=-some _ sized (
        ap₂ pick level_capacity-exact (signed64-small size small)
        ∙ ap (λ b. some (if b then origin_lvl + 1 else origin_lvl))
            (ltb_ℤ-pos (options.write_buffer_size * size_ratio ^ origin_lvl * (size_ratio - 1))
              size))
