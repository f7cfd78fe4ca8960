-- ===== src/Fluid/Sample.antt =====
-- The data of the compactor's tests: a tree of four levels with K = Z = 1. The doubles are the
-- fractions, which stand for all that the examples compute.
use native.Mathlib.Nat.{mul-one, one-mul, div-one, pow-zero, pow-suc}
use Prim.Native.String.{String}
use rocks_db_wrapper.Base.{
  ℕ, zero, suc, ◌+◌, ◌-◌, ◌*◌, ◌/◌, ◌^◌, ◌≡◌, refl, ap, ◌∙◌, false, Option, none, some, List, [],
  ◌∷◌, ◌++◌, map, arith,
}
use rocks_db_wrapper.Base.Int.{pos, pos_part}
use rocks_db_wrapper.Fluid.Double.{Double, IsExact}
use rocks_db_wrapper.Fluid.Tree.{
  SstFile, Run, LazyLevel, FluidOptions, FluidLsm, new_fluid_lsm, num_live_runs,
  any_being_compacted, largest_occupied_level,
}
use rocks_db_wrapper.Fluid.Build.{LevelMetaData, build_levels, build_structure}
use rocks_db_wrapper.Fluid.Compact.{Compactor, CompactionTask, on_flush_completed, compact_files}
use rocks_db_wrapper.Fluid.System.{new_compactor}

pub record Fraction : Type 0 where
  pub num : ℕ
  pub den : ℕ

abbrev pub fractions : Double
fractions = record {
  Value = Fraction;
  of_int = λ z. record { num = pos_part z; den = 1 };
  add = λ p q. record { num = p.num * q.den + q.num * p.den; den = p.den * q.den };
  sub = λ p q. record { num = p.num * q.den - q.num * p.den; den = p.den * q.den };
  mul = λ p q. record { num = p.num * q.num; den = p.den * q.den };
  div = λ p q. record { num = p.num * q.den; den = p.den * q.num };
  pow = λ p q. record { num = p.num ^ q.num; den = p.den ^ q.num };
  ceil = λ p. record { num = (p.num + p.den - 1) / p.den; den = 1 };
  to_int = λ p. pos (p.num / p.den);
}

one-pow : (n : ℕ) → 1 ^ n ≡ 1
one-pow zero = pow-zero 1
one-pow (suc n) = pow-suc 1 n ∙ omega (arith, one-pow n)

fraction_eq :
    (a b c : ℕ)
    → a ≡ b
    → c ≡ 1
    → ◌≡◌ {A = Fraction} (record { num = a; den = c }) (record { num = b; den = 1 })
fraction_eq a b c e f = ground arith

pub fractions-IsExact : IsExact fractions
fractions-IsExact = record {
  add_exact = λ a b h. fraction_eq _ _ _ (omega arith) (omega arith);
  sub_exact = λ a b le h. fraction_eq _ _ _ (omega arith) (omega arith);
  mul_exact = λ a b h. fraction_eq _ _ _ (omega arith) (omega arith);
  pow_exact = λ a n h. fraction_eq _ _ _ refl (one-pow n);
  ceil_div = λ a b h k p. ap pos (rw (mul-one a, one-mul b) (div-one ((a + b - 1) / b)));
  floor_div = λ a b h k p. ap pos (rw (mul-one a, one-mul b) refl);
}

abbrev pub sst : String → ℕ → SstFile
sst name size = record {
  name = name;
  size = size;
  smallest_key = "a";
  largest_key = "z";
  being_compacted = false;
}

-- Level 0 has two files, levels 1 and 2 one each, and level 3 none.
abbrev pub metadata : List LevelMetaData
metadata =
    record { level = 0; files = sst "a" 60 ∷ sst "b" 70 ∷ [] }
    ∷ record { level = 1; files = sst "c" 50 ∷ [] }
    ∷ record { level = 2; files = sst "d" 500 ∷ [] }
    ∷ record { level = 3; files = [] }
    ∷ []

-- Two more levels, so that all runs of lazy level 2 exist.
abbrev pub roomy_metadata : List LevelMetaData
roomy_metadata =
    metadata ++ record { level = 4; files = [] } ∷ record { level = 5; files = [] } ∷ []

abbrev pub options : FluidOptions
options = record {
  num_levels = 3;
  write_buffer_size = 100;
  target_file_size_base = 64;
  compression = 1;
}

abbrev pub idle : Compactor
idle = new_compactor 2 1 1 64 options false

abbrev pub empty_level : LazyLevel
empty_level = record { runs = [] }

abbrev pub levels_or_none : Option (List LazyLevel) → List LazyLevel
levels_or_none none = []
levels_or_none (some levels) = levels

abbrev pub compactor_or : Compactor → Option Compactor → Compactor
compactor_or c none = c
compactor_or c (some c') = c'

unfoldable pub laid : List LazyLevel
unfolding build_levels new_fluid_lsm
laid = levels_or_none (build_levels fractions 1 metadata idle.lsm.lazy_levels)

unfoldable pub built : FluidLsm
unfolding laid
built = record idle.lsm { lazy_levels = laid }

unfoldable pub flushed : Compactor
unfolding on_flush_completed new_fluid_lsm build_structure largest_occupied_level num_live_runs
    any_being_compacted
flushed = compactor_or idle (on_flush_completed fractions metadata "default" idle)

abbrev pub level_at : ℕ → List LazyLevel → LazyLevel
level_at i [] = empty_level
level_at zero (level ∷ levels) = level
level_at (suc i) (level ∷ levels) = level_at i levels

run_levels :
    map (λ (level : LazyLevel). map (λ (run : Run). run.rocks_db_level) level.runs) laid
    ≡ (0 ∷ 0 ∷ 1 ∷ []) ∷ (2 ∷ 3 ∷ []) ∷ [] ∷ []
unfolding laid
run_levels = refl

scheduled_names :
    map (λ (t : CompactionTask). t.input_file_names) flushed.scheduled ≡ ("a" ∷ "b" ∷ "c" ∷ []) ∷ []
unfolding flushed
scheduled_names = refl

scheduled_level : map (λ (t : CompactionTask). t.output_lvl) flushed.scheduled ≡ 3 ∷ []
unfolding flushed
scheduled_level = refl

abbrev pub first_task : CompactionTask
first_task = record {
  cf_name = "default";
  input_file_names = "a" ∷ "b" ∷ "c" ∷ [];
  output_lvl = 3;
  compact_options = record { compression = 1; output_file_size_limit = 64 };
  retry_on_fail = false;
  debug_mode = false;
}

unfoldable pub finished : Compactor
unfolding compact_files flushed
finished =
    compactor_or idle
      (compact_files fractions false metadata first_task (record flushed { scheduled = [] }))
