-- ===== src/Buffer/Interrupt.antt =====
-- A signal between two statements of src/buffer.cc: the calls as sequences of statements, and the
-- handler, which runs on the thread that it interrupts and locks the same mutex, whatever that thread
-- holds; it is set at the end of the first constructor. A statement of the standard library counts as
-- one.
pub mod Prefixes
pub mod Registration
mod Examples
use rocks_db_wrapper.Base.{
  ℕ, zero, suc, Bool, true, false, Option, none, some, List, [], ◌∷◌, ◌++◌, map, length,
  if◌then◌else◌, ltb, leb,
}
use rocks_db_wrapper.Base.Text.{Text}
use rocks_db_wrapper.Buffer.{
  BufferStatement, effect, Buffers, update, register_instance, unregister_instance, handle_signal,
}

-- The constructor and the end of a lock_guard, and what is done under it.
pub data Statement : Type 0 where
  at : ℕ → BufferStatement → Statement
  lock unlock : Statement
  push_back remove_this : ℕ → Statement

pub record Process : Type 0 where
  pub buffers : Buffers
  pub locked : Bool

unfoldable pub execute : Statement → Process → Process
unfolding update register_instance unregister_instance
execute (at this s) p = record p {
  buffers = record p.buffers { store = update this (effect s) p.buffers.store };
}
execute lock p = record p { locked = true }
execute unlock p = record p { locked = false }
execute (push_back this) p = record p { buffers = register_instance this p.buffers }
execute (remove_this this) p = record p { buffers = unregister_instance this p.buffers }

unfoldable pub execute_all : List Statement → Process → Process
unfolding execute
execute_all [] p = p
execute_all (s ∷ ss) p = execute_all ss (execute s p)

abbrev pub register_statements : ℕ → List Statement
register_statements this = lock ∷ push_back this ∷ unlock ∷ []

abbrev pub unregister_statements : ℕ → List Statement
unregister_statements this = lock ∷ remove_this this ∷ unlock ∷ []

-- The first `n` elements.
abbrev pub take {ℓ} : {A : Type ℓ} → ℕ → List A → List A
take zero xs = []
take (suc n) [] = []
take (suc n) (x ∷ xs) = x ∷ take n xs

-- The handler on a thread that holds the mutex waits for itself (`none`).
unfoldable pub interrupt : ℕ → Process → Option (ℕ × Buffers)
unfolding handle_signal
interrupt signal p = if p.locked then none else some (handle_signal signal p.buffers)
