-- ===== src/Stats/Amplification.antt =====
-- What printStats changes in the statistics, and the space amplification that it computes.
use native.Mathlib.Nat.{mod-eq_of_lt}
use rocks_db_wrapper.Base.{
  if_else_none, ℕ, zero, suc, ◌+◌, ◌-◌, ◌*◌, ◌%◌, ◌^◌, ◌≤◌, ◌<◌, ◌≡◌, refl, sym, ap, ap₂, ◌∙◌,
  Option, none, some, some-injective, >>=-eq-some, >>=-some, if◌then◌else◌, ltb, lt→ltb, arith,
}
use rocks_db_wrapper.Base.Int.{ℤ, pos, pos_part, ◌-ℤ◌}
use rocks_db_wrapper.Env.{DbEnv, get_instance}
use rocks_db_wrapper.Stats.{
  Floats, Stats, Cout, sub_long, set_proportion, file_loop, superfluous_bytes, unique_bytes,
  set_space_amp, print_counts, print_amp, print_stats,
}

-- One round is as good as many.
file_loop-once :
    {f : Floats} (n : ℕ) (s : Stats f) → file_loop n (set_proportion s) ≡ set_proportion s
unfolding file_loop
file_loop-once zero s = refl
file_loop-once (suc n) s = file_loop-once n s

-- The proportion of updates after a report: a new one if the tree has files, else the old one.
abbrev pub proportion_after : {f : Floats} → Stats f → f.Float
proportion_after {f} s =
    if ltb 0 (pos_part s.files_in_tree)
    then f.div (f.of_int s.updates_completed) (f.of_int s.inserts_completed)
    else s.update_proportion

file_loop-proportion :
    {f : Floats} (n : ℕ) (s : Stats f)
    → file_loop n s ≡ record s {
      update_proportion =
          if ltb 0 n
          then f.div (f.of_int s.updates_completed) (f.of_int s.inserts_completed)
          else s.update_proportion;
    }
unfolding file_loop
file_loop-proportion zero s = refl
file_loop-proportion (suc n) s = rw (lt→ltb 0 (suc n) (omega arith)) (file_loop-once n s)

set_space_amp-changes :
    {f : Floats} (s : Stats f) {s' : Stats f}
    → set_space_amp s ≡ some s'
    → s' ≡ record s { space_amp = s'.space_amp }
unfolding set_space_amp
set_space_amp-changes s e =
    let (unique, _, last) = >>=-eq-some (unique_bytes s) _ e in
    let same = some-injective _ _ last in
    sym same ∙ ap (λ (x : Stats _). record s { space_amp = x.space_amp }) same

-- The parts of a report that comes about.
pub print_stats-parts :
    {f : Floats} (instance_ : Option DbEnv) (s : Stats f) (c : Cout) {left : Option DbEnv}
    {s' : Stats f} {c' : Cout}
    → print_stats instance_ s c ≡ some (left, s', c')
    → (set_space_amp (file_loop (pos_part s.files_in_tree) s) ≡ some s')
      × (left ≡ (get_instance instance_).1)
      × (c' ≡ print_amp s' (print_counts s c))
unfolding print_stats
print_stats-parts {f} instance_ s c e =
    let looped = file_loop (pos_part s.files_in_tree) s in
    let inside = if_else_none (ltb (pos_part s.files_in_tree) (2 ^ 31)) e in
    let (s1, amp, last) = >>=-eq-some (set_space_amp looped) _ inside in
    let same = some-injective _ _ last in
    (
      amp ∙ ap (λ (x : Option DbEnv × Stats f × Cout). some x.1) same,
      sym (ap (λ (x : Option DbEnv × Stats f × Cout). x.0) same),
      sym (ap (λ (x : Option DbEnv × Stats f × Cout). x.2) same)
          ∙ ap (λ (x : Option DbEnv × Stats f × Cout). print_amp x.1 (print_counts s c)) same,
    )

get_instance-left : (instance_ : Option DbEnv) → (get_instance instance_).1 ≡ none
unfolding get_instance
get_instance-left none = refl
get_instance-left (some env) = refl

-- A report changes two of the statistics and no other: the space amplification, and the proportion of
-- updates if the tree has files; with none, or the initial count -1, the proportion stays as it was.
-- The call of DBEnv::GetInstance leaves no instance behind.
pub print_stats-changes :
    {f : Floats} (instance_ : Option DbEnv) (s : Stats f) (c : Cout) {left : Option DbEnv}
    {s' : Stats f} {c' : Cout}
    → print_stats instance_ s c ≡ some (left, s', c')
    → (s' ≡ record s { update_proportion = proportion_after s; space_amp = s'.space_amp })
      × (left ≡ none)
print_stats-changes {f} instance_ s c {s' = s'} e =
    let (amp, left, _) = print_stats-parts instance_ s c e in
    (
      set_space_amp-changes (file_loop (pos_part s.files_in_tree) s) amp
          ∙ ap (λ (x : Stats f). record x { space_amp = s'.space_amp })
              (file_loop-proportion (pos_part s.files_in_tree) s),
      left ∙ get_instance-left instance_,
    )

sub_long-exact : (i p : ℕ) → p ≤ i → i < 2 ^ 63 → sub_long (pos i) (pos p) ≡ some (pos (i - p))
unfolding sub_long ◌-ℤ◌
sub_long-exact i p le small = ground (arith, le, small)

-- The bytes of the entries that are not deleted, when nothing wraps.
unique_bytes-exact :
    {f : Floats} (s : Stats f) (i p : ℕ)
    → s.inserts_completed ≡ pos i
    → s.point_deletes_completed ≡ pos p
    → p ≤ i
    → i < 2 ^ 63
    → s.key_size + s.value_size < 2 ^ 64
    → (i - p) * (s.key_size + s.value_size) < 2 ^ 64
    → unique_bytes s ≡ some ((i - p) * (s.key_size + s.value_size))
unfolding unique_bytes
unique_bytes-exact s i p inserts deletes le small entry all =
    >>=-some _ (ap₂ sub_long inserts deletes ∙ sub_long-exact i p le small) (
      ap some (
        ap₂ (λ a b. a * b % 2 ^ 64) (mod-eq_of_lt (omega (arith, small))) (mod-eq_of_lt entry)
        ∙ mod-eq_of_lt all))

-- The quotient that the space amplification is meant to be: the bytes of the tombstones, with one more
-- for each, per hundred bytes of the entries that are left.
abbrev pub amplification : (f : Floats) → ℤ → ℕ → ℕ → f.Float
amplification f tombstones key_size unique =
    f.div (f.mul (f.of_int (pos 100)) (f.mul (f.of_int tombstones) (f.of_unsigned (key_size + 1))))
      (f.of_unsigned unique)

set_space_amp-exact :
    {f : Floats} (s : Stats f) (unique : ℕ)
    → unique_bytes s ≡ some unique
    → s.key_size + 1 < 2 ^ 64
    → set_space_amp s
      ≡ some (record s { space_amp = amplification f s.point_tombstones_in_tree s.key_size unique })
unfolding set_space_amp superfluous_bytes
set_space_amp-exact {f} s unique found key = >>=-some _ found (
    ap
      (λ n. some (record s {
        space_amp =
            f.div
              (f.mul (f.of_int (pos 100))
                (f.mul (f.of_int s.point_tombstones_in_tree) (f.of_unsigned n)))
              (f.of_unsigned unique);
      }))
      (mod-eq_of_lt key))

print_stats-some :
    {f : Floats} (instance_ : Option DbEnv) (s : Stats f) (c : Cout) {s' : Stats f}
    → pos_part s.files_in_tree < 2 ^ 31
    → set_space_amp (file_loop (pos_part s.files_in_tree) s) ≡ some s'
    → print_stats instance_ s c ≡ some (none, s', print_amp s' (print_counts s c))
unfolding print_stats
print_stats-some instance_ s c files amp =
    rw (lt→ltb (pos_part s.files_in_tree) (2 ^ 31) files, amp, get_instance-left instance_) refl

-- A report comes about, and the space amplification is the one it is meant to be, if no more entries
-- were deleted than inserted, the sizes and the bytes of the entries that are left fit into 64 bits, and
-- the number of files into an int.
pub print_stats-amplification :
    {f : Floats} (instance_ : Option DbEnv) (s : Stats f) (c : Cout) (i p : ℕ)
    → pos_part s.files_in_tree < 2 ^ 31
    → s.inserts_completed ≡ pos i
    → s.point_deletes_completed ≡ pos p
    → p ≤ i
    → i < 2 ^ 63
    → s.key_size + 1 < 2 ^ 64
    → s.key_size + s.value_size < 2 ^ 64
    → (i - p) * (s.key_size + s.value_size) < 2 ^ 64
    → (s' : Stats f) × (c' : Cout) × (print_stats instance_ s c ≡ some (none, s', c'))
      × (s'.space_amp
          ≡ amplification f s.point_tombstones_in_tree s.key_size
              ((i - p) * (s.key_size + s.value_size)))
print_stats-amplification {f} instance_ s c i p files inserts deletes le small key entry all =
    let n = pos_part s.files_in_tree in
    let looped = record s { update_proportion = proportion_after s } in
    let exact = unique_bytes-exact looped i p inserts deletes le small entry all in
    let amp =
      ap set_space_amp (file_loop-proportion n s) ∙ set_space_amp-exact looped _ exact key in
    (_, _, print_stats-some instance_ s c files amp, refl)
