-- ===== src/Buffer/Interrupt/Examples.antt =====
-- A signal in the middle of an insertion, and of a registration.
use rocks_db_wrapper.Base.{ℕ, ◌≡◌, ◌⊎◌, ◌↔◌, refl, true, false, none, some, [], ◌∷◌, ◌++◌, map}
use rocks_db_wrapper.Base.Text.{codes}
use rocks_db_wrapper.Buffer.{
  Buffer, Buffers, put_statements, lookup, register_instance, unregister_instance,
}
use rocks_db_wrapper.Buffer.Interrupt.{
  Process, at, execute_all, register_statements, unregister_statements, take, interrupt,
}
use rocks_db_wrapper.Buffer.Interrupt.Prefixes.{interrupt-put_statements}
use rocks_db_wrapper.Buffer.Interrupt.Registration.{interrupt-register_statements}

abbrev log : Buffer
log = record { buffer = codes "ab"; output_file = codes "x"; is_open = true; buffer_limit = 4 }

abbrev process : Process
process = record {
  buffers = record { store = (7, log) ∷ []; instances = 7 ∷ []; next = 8; handles_signals = true };
  locked = false;
}

-- The buffer is full, and the signal comes before it is reset.
interrupt-put_statements_example :
    (s : Buffers) × (interrupt 15
        (execute_all (take 2 (map (at 7) (put_statements log (codes "cd")))) process)
      ≡ some (15, s))
    × (lookup 7 s.store
        ≡ some
            (record log { output_file = codes "xab" ++ codes "cd" ++ codes "abcd"; buffer = [] }))
unfolding lookup
interrupt-put_statements_example =
    interrupt-put_statements 15 2 7 process log (codes "cd") refl refl refl

interrupt-register_statements_example :
    ((interrupt 15 (execute_all (take 1 (register_statements 9)) process) ≡ none)
      ↔ (◌≡◌ {A = ℕ} 1 1 ⊎ ◌≡◌ {A = ℕ} 1 2))
    × ((interrupt 15 (execute_all (take 1 (unregister_statements 9)) process) ≡ none)
        ↔ (◌≡◌ {A = ℕ} 1 1 ⊎ ◌≡◌ {A = ℕ} 1 2))
    × (execute_all (register_statements 9) process
        ≡ record { buffers = register_instance 9 process.buffers; locked = false })
    × (execute_all (unregister_statements 9) process
        ≡ record { buffers = unregister_instance 9 process.buffers; locked = false })
interrupt-register_statements_example = interrupt-register_statements 15 1 9 process refl
