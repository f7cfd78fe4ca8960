-- ===== src/Fluid/Build/Placed.antt =====
-- What it means that the lazy levels stand for the database's levels in order, and how a new run keeps
-- it.
use Prim.Native.Nat.{min}
use rocks_db_wrapper.Base.{
  ℕ, zero, suc, ◌+◌, ◌-◌, ◌*◌, ◌≤◌, ◌<◌, ◌≡◌, refl, some, List, [], ◌∷◌, ◌++◌, length,
  length-append, arith, get_elem?,
}
use rocks_db_wrapper.Fluid.Tree.{SstFile, Run, LazyLevel, add_file}
use rocks_db_wrapper.Fluid.Build.{LevelMetaData, push_run, add_files}

-- The metadata of level `m` and the levels after it carry their numbers.
abbrev pub IsNumbered : ℕ → List LevelMetaData → Type 0
IsNumbered m [] = Unit
IsNumbered m (level ∷ levels) = (level.level ≡ m) × IsNumbered (suc m) levels

-- The runs stand for the levels `b`, `b + 1`, … of the database.
abbrev pub RunsFrom : ℕ → List Run → Type 0
RunsFrom b [] = Unit
RunsFrom b (run ∷ runs) = (run.rocks_db_level ≡ b) × RunsFrom (suc b) runs

-- From lazy level 1 on: with `q` runs to a lazy level, the database's levels `b` up to `m`, in order.
abbrev pub IsPlaced : ℕ → ℕ → ℕ → List LazyLevel → Type 0
IsPlaced q m b [] = Unit
IsPlaced q m b (level ∷ levels) =
    RunsFrom b level.runs × (length level.runs ≡ min q (m - b)) × IsPlaced q m (b + q) levels

RunsFrom-append :
    (b : ℕ) (runs : List Run) (run : Run)
    → RunsFrom b runs
    → run.rocks_db_level ≡ b + length runs
    → RunsFrom b (runs ++ run ∷ [])
RunsFrom-append b [] run h e = (omega arith, tt)
RunsFrom-append b (r ∷ runs) run h e = (h.0, RunsFrom-append (suc b) runs run h.1 (omega arith))

pub RunsFrom-get_elem? :
    (b i : ℕ) (runs : List Run) {run : Run}
    → RunsFrom b runs
    → get_elem? runs i ≡ some run
    → run.rocks_db_level ≡ b + i
RunsFrom-get_elem? b i [] h e = cc
RunsFrom-get_elem? b zero (r ∷ runs) h e = ground arith
RunsFrom-get_elem? b (suc i) (r ∷ runs) h e = omega (arith, RunsFrom-get_elem? (suc b) i runs h.1 e)

-- Levels past `m` are not there yet, and one more level changes nothing behind it.
IsPlaced-later :
    (q m b : ℕ) (levels : List LazyLevel)
    → m < b
    → IsPlaced q m b levels
    → IsPlaced q (suc m) b levels
IsPlaced-later q m b [] h p = tt
IsPlaced-later q m b (level ∷ levels) h p =
    (p.0, omega (arith, p.1), IsPlaced-later q m (b + q) levels (omega arith) p.2)

pub push_run-IsPlaced :
    (j q m b : ℕ) (run : Run) (levels : List LazyLevel)
    → run.rocks_db_level ≡ m
    → j < length levels
    → b + j * q ≤ m
    → m < b + j * q + q
    → IsPlaced q m b levels
    → (out : List LazyLevel) × (push_run j run levels ≡ some out)
      × (length out ≡ length levels)
      × IsPlaced q (suc m) b out
unfolding push_run
push_run-IsPlaced j q m b run [] r h lo hi p = absurd (omega arith)
push_run-IsPlaced zero q m b run (level ∷ levels) r h lo hi p = (
  record { runs = level.runs ++ run ∷ [] } ∷ levels,
  refl,
  refl,
  (
    RunsFrom-append b level.runs run p.0 (omega (arith, p.1)),
    omega (arith, p.1, length-append level.runs (run ∷ [])),
    IsPlaced-later q m (b + q) levels (omega arith) p.2,
  ),
)
push_run-IsPlaced (suc j) q m b run (level ∷ levels) r h lo hi p =
    let (out, e, same, placed) =
      push_run-IsPlaced j q m (b + q) run levels r (omega arith) (omega arith) (omega arith) p.2 in
    (level ∷ out, rw e, omega (arith, same), (p.0, omega (arith, p.1), placed))

pub add_files-rocks_db_level :
    (run : Run) (files : List SstFile) → (add_files run files).rocks_db_level ≡ run.rocks_db_level
unfolding add_files
add_files-rocks_db_level run [] = refl
add_files-rocks_db_level run (file ∷ files) = add_files-rocks_db_level (add_file run file) files
