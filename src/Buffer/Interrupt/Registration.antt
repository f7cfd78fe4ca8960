-- ===== src/Buffer/Interrupt/Registration.antt =====
-- A signal after each statement of register_instance and unregister_instance.
use rocks_db_wrapper.Base.{
  ℕ, zero, suc, ◌≡◌, ◌⊎◌, ◌↔◌, refl, ap, ◌∙◌, Bool, true, false, ◌||◌, none, List, [], ◌∷◌, ◌==◌,
  arith,
}
use rocks_db_wrapper.Buffer.{register_instance, unregister_instance}
use rocks_db_wrapper.Buffer.Interrupt.{
  Statement, lock, unlock, push_back, remove_this, Process, execute, execute_all,
  register_statements, unregister_statements, take, interrupt,
}
use rocks_db_wrapper.Buffer.Interrupt.Prefixes.{take-nil}

abbrev guarded : Statement → List Statement
guarded middle = lock ∷ middle ∷ unlock ∷ []

not_one_or_two : (n : ℕ) → false ≡ (suc (suc (suc n)) == 1) || (suc (suc (suc n)) == 2)
not_one_or_two n = ground arith

-- The mutex is held after the first and the second statement.
guarded-locked :
    (middle : Statement) (n : ℕ) (p : Process)
    → ((q : Process) → (execute middle q).locked ≡ q.locked)
    → p.locked ≡ false
    → (execute_all (take n (guarded middle)) p).locked ≡ (n == 1) || (n == 2)
unfolding execute_all
guarded-locked middle zero p keeps free = free
guarded-locked middle (suc zero) p keeps free = refl
guarded-locked middle (suc (suc zero)) p keeps free = keeps (execute lock p)
guarded-locked middle (suc (suc (suc n))) p keeps free =
    ap (λ ss. (execute_all ss (execute unlock (execute middle (execute lock p)))).locked)
      (take-nil n)
    ∙ not_one_or_two n

interrupt-none :
    (signal : ℕ) (p : Process) (held : Bool)
    → p.locked ≡ held
    → (interrupt signal p ≡ none) ↔ (held ≡ true)
unfolding interrupt
interrupt-none signal p true e = ((λ h. refl), (λ h. rw e))
interrupt-none signal p false e = ((λ h. absurd (cc (rw e at h))), (λ h. cc))

one_or_two : (n : ℕ) → (((n == 1) || (n == 2)) ≡ true) ↔ ((n ≡ 1) ⊎ (n ≡ 2))
one_or_two n = ground arith

interrupt-guarded :
    (signal : ℕ) (middle : Statement) (n : ℕ) (p : Process)
    → ((q : Process) → (execute middle q).locked ≡ q.locked)
    → p.locked ≡ false
    → (interrupt signal (execute_all (take n (guarded middle)) p) ≡ none) ↔ ((n ≡ 1) ⊎ (n ≡ 2))
interrupt-guarded signal middle n p keeps free =
    let held =
      interrupt-none signal (execute_all (take n (guarded middle)) p) ((n == 1) || (n == 2))
        (guarded-locked middle n p keeps free) in
    ((λ e. (one_or_two n).0 (held.0 e)), (λ h. held.1 ((one_or_two n).1 h)))

-- After so many statements of register_instance or unregister_instance, the handler waits for the
-- mutex of its own thread exactly when one or two of the three have been executed: the program then
-- never ends. All three leave the mutex free, and the list as the whole call does.
pub interrupt-register_statements :
    (signal n this : ℕ) (p : Process)
    → p.locked ≡ false
    → ((interrupt signal (execute_all (take n (register_statements this)) p) ≡ none)
        ↔ ((n ≡ 1) ⊎ (n ≡ 2)))
      × ((interrupt signal (execute_all (take n (unregister_statements this)) p) ≡ none)
          ↔ ((n ≡ 1) ⊎ (n ≡ 2)))
      × (execute_all (register_statements this) p
          ≡ record { buffers = register_instance this p.buffers; locked = false })
      × (execute_all (unregister_statements this) p
          ≡ record { buffers = unregister_instance this p.buffers; locked = false })
unfolding execute_all interrupt
interrupt-register_statements signal n this p free = (
  interrupt-guarded signal (push_back this) n p (λ q. refl) free,
  interrupt-guarded signal (remove_this this) n p (λ q. refl) free,
  refl,
  refl,
)
