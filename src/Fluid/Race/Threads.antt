-- ===== src/Fluid/Race/Threads.antt =====
-- How many compactions run at the same time among threads: the bound, and that it is reached.
use rocks_db_wrapper.Base.{
  ℕ, zero, suc, ◌+◌, ◌-◌, ◌≤◌, ◌≡◌, refl, sym, ap, ap₂, subst, ◌∙◌, true, List, [], ◌∷◌, ◌++◌, ◌↔◌,
  replicate, arith,
}
use rocks_db_wrapper.Base.Int.{ℤ, pos, pos_part, ◌+ℤ◌, ◌-ℤ◌, ltb_ℤ}
use rocks_db_wrapper.Fluid.Race.{
  Pc, outside, passed, Shared, may_start, count_in, give_back, Move, check, increment, decrement,
  Interleaves, at_start, moved, start,
}

abbrev size : List Pc → ℕ
size [] = 0
size (t ∷ ts) = suc (size ts)

abbrev behind : List Pc → ℕ
behind [] = 0
behind (outside ∷ ts) = behind ts
behind (passed ∷ ts) = suc (behind ts)

size-middle : (xs ys : List Pc) (t : Pc) → size (xs ++ t ∷ ys) ≡ size xs + size ys + 1
size-middle [] ys t = omega arith
size-middle (x ∷ xs) ys t = omega (arith, size-middle xs ys t)

behind-outside : (xs ys : List Pc) → behind (xs ++ outside ∷ ys) ≡ behind xs + behind ys
behind-outside [] ys = omega arith
behind-outside (outside ∷ xs) ys = behind-outside xs ys
behind-outside (passed ∷ xs) ys = omega (arith, behind-outside xs ys)

behind-passed : (xs ys : List Pc) → behind (xs ++ passed ∷ ys) ≡ behind xs + behind ys + 1
behind-passed [] ys = omega arith
behind-passed (outside ∷ xs) ys = behind-passed xs ys
behind-passed (passed ∷ xs) ys = omega (arith, behind-passed xs ys)

behind-le : (xs : List Pc) → behind xs ≤ size xs
behind-le [] = omega arith
behind-le (outside ∷ xs) = omega (arith, behind-le xs)
behind-le (passed ∷ xs) = omega (arith, behind-le xs)

-- The counter is right, and whoever counts or is about to was outside once when nothing ran.
record IsBounded (n : ℕ) (s : Shared) : Type 0 where
  counted : s.parallel_compactions_running ≡ pos s.scheduled
  allowed : s.parallel_compactions_allowed ≡ pos 1
  callers : size s.threads ≡ n
  bounded : s.scheduled + behind s.threads ≤ n

pos-injective : {m n : ℕ} → pos m ≡ pos n → m ≡ n
pos-injective e = ap (λ x. pos_part x) e

idle : {a b : ℤ} (m : ℕ) → ltb_ℤ a b ≡ true → a ≡ pos m → b ≡ pos 1 → m ≡ 0
idle m below a_m b_1 = ground (arith, below, a_m, b_1)

one_more : (n : ℕ) → pos n +ℤ pos 1 ≡ pos (suc n)
unfolding ◌+ℤ◌
one_more n = ground arith

one_less : (n : ℕ) → pos (suc n) -ℤ pos 1 ≡ pos n
unfolding ◌-ℤ◌
one_less n = ground arith

check-IsBounded :
    (n : ℕ) (s : Shared) (before after : List Pc)
    → s.threads ≡ before ++ outside ∷ after
    → may_start s ≡ true
    → IsBounded n s
    → IsBounded n (record s { threads = before ++ passed ∷ after })
check-IsBounded n s before after at below v =
    let before_size = ap size at ∙ size-middle before after outside in
    record {
      counted = v.counted;
      allowed = v.allowed;
      callers = omega (arith, size-middle before after passed, before_size, v.callers);
      bounded = omega (
        arith,
        idle s.scheduled below v.counted v.allowed,
        behind-passed before after,
        behind-le before,
        behind-le after,
        before_size,
        v.callers,
      );
    }

increment-IsBounded :
    (n : ℕ) (s : Shared) (before after : List Pc)
    → s.threads ≡ before ++ passed ∷ after
    → IsBounded n s
    → IsBounded n (record (count_in s) { threads = before ++ outside ∷ after })
increment-IsBounded n s before after at v = record {
  counted = ap (λ x. x +ℤ pos 1) v.counted ∙ one_more s.scheduled;
  allowed = v.allowed;
  callers = omega (
    arith,
    size-middle before after outside,
    ap size at ∙ size-middle before after passed,
    v.callers,
  );
  bounded =
      omega
        (arith, behind-outside before after, ap behind at ∙ behind-passed before after, v.bounded);
}

decrement-IsBounded :
    (n : ℕ) (s : Shared) (rest : ℕ)
    → s.scheduled ≡ suc rest
    → IsBounded n s
    → IsBounded n (give_back rest s)
decrement-IsBounded n s rest at v = record {
  counted = ap (λ x. x -ℤ pos 1) (v.counted ∙ ap pos at) ∙ one_less rest;
  allowed = v.allowed;
  callers = v.callers;
  bounded = omega (arith, v.bounded, at);
}

Move-IsBounded : (n : ℕ) (s s' : Shared) → Move s s' → IsBounded n s → IsBounded n s'
Move-IsBounded n s s' (check before after at below same) v =
    subst (IsBounded n) (sym same) (check-IsBounded n s before after at below v)
Move-IsBounded n s s' (increment before after at same) v =
    subst (IsBounded n) (sym same) (increment-IsBounded n s before after at v)
Move-IsBounded n s s' (decrement rest at same) v =
    subst (IsBounded n) (sym same) (decrement-IsBounded n s rest at v)

size-replicate : (n : ℕ) → size (replicate n outside) ≡ n
size-replicate zero = refl
size-replicate (suc n) = omega (arith, size-replicate n)

behind-replicate : (n : ℕ) → behind (replicate n outside) ≡ 0
behind-replicate zero = refl
behind-replicate (suc n) = behind-replicate n

start-IsBounded : (n : ℕ) → IsBounded n (start n)
start-IsBounded n = record {
  counted = refl;
  allowed = refl;
  callers = size-replicate n;
  bounded = omega (arith, behind-replicate n);
}

Interleaves-IsBounded : (n : ℕ) {s : Shared} → Interleaves (start n) s → IsBounded n s
Interleaves-IsBounded n at_start = start-IsBounded n
Interleaves-IsBounded n (moved {s} {s'} r step) =
    Move-IsBounded n s s' step (Interleaves-IsBounded n r)

-- The last `k` threads are behind the test, and `m` of them have counted themselves since.
abbrev racing : ℕ → ℕ → ℕ → Shared
racing idle_threads k m = record {
  parallel_compactions_running = pos m;
  parallel_compactions_allowed = pos 1;
  scheduled = m;
  threads = replicate idle_threads outside ++ replicate k passed;
}

replicate-snoc :
    (n : ℕ) (t : Pc) (ts : List Pc) → replicate n t ++ t ∷ ts ≡ replicate (suc n) t ++ ts
replicate-snoc zero t ts = refl
replicate-snoc (suc n) t ts = ap (λ l. t ∷ l) (replicate-snoc n t ts)

all_outside : (n : ℕ) → replicate n outside ++ [] ≡ replicate n outside
all_outside zero = refl
all_outside (suc n) = ap (λ l. outside ∷ l) (all_outside n)

-- All of the last `k` threads pass the test, the last one first.
checks : (k j : ℕ) → Interleaves (start (j + k)) (racing j k 0)
checks zero j =
    subst (Interleaves (start (j + 0)))
      (ap (λ ts. record (start 0) { threads = ts })
        (ap (λ n. replicate n outside) (omega arith) ∙ sym (all_outside j)))
      at_start
checks (suc k) j =
    moved (subst (λ n. Interleaves (start n) (racing (suc j) k 0)) (omega arith) (checks k (suc j)))
      (check (replicate j outside) (replicate k passed) (sym (replicate-snoc j outside _)) refl
        refl)

-- Then `m` of them count themselves, the first one first.
increments :
    (n j k m : ℕ)
    → Interleaves (start n) (racing j (m + k) 0)
    → Interleaves (start n) (racing (j + m) k m)
increments n j k zero r =
    subst (Interleaves (start n)) (ap₂ (λ x y. racing x y 0) (omega arith) (omega arith)) r
increments n j k (suc m) r =
    moved
      (increments n j (suc k) m (subst (λ x. Interleaves (start n) (racing j x 0)) (omega arith) r))
      (increment (replicate (j + m) outside) (replicate k passed) refl (
        ap₂
          (λ x ts. record (racing 0 0 0) {
            parallel_compactions_running = x;
            scheduled = suc m;
            threads = ts;
          })
          (sym (one_more m))
          (ap (λ x. replicate x outside ++ replicate k passed) {y = suc (j + m)} (omega arith)
            ∙ sym (replicate-snoc (j + m) outside (replicate k passed)))))

-- With `n` threads that may be in ScheduleCompaction at a time, the numbers of compactions that can run
-- at the same time are exactly those up to `n`, although one is allowed.
pub running-threads :
    (n m : ℕ)
    → ((s : Shared) × Interleaves (start n) s × (s.parallel_compactions_running ≡ pos m)) ↔ (m ≤ n)
running-threads n m = (
  λ (s, r, running).
      let v = Interleaves-IsBounded n r in
      omega (arith, pos-injective (sym running ∙ v.counted), v.bounded),
  λ h. (
    racing (n - m + m) 0 m,
    increments n (n - m) 0 m (
        subst (λ k. Interleaves (start n) (racing (n - m) k 0)) (omega arith)
          (subst (λ x. Interleaves (start x) (racing (n - m) m 0)) (omega (arith, h))
            (checks m (n - m)))),
    refl,
  ),
)
