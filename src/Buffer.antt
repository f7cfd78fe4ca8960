-- ===== src/Buffer.antt =====
-- The buffered log files: src/buffer.cc and include/buffer.h. Data reaches a buffer as the bytes that
-- the stream prints for it. `this` pointers are numbers, and the live objects stand in a store.
pub mod Laws
pub mod Registry
pub mod Signal
pub mod Interrupt
mod Examples
use rocks_db_wrapper.Base.{
  ℕ, zero, suc, ◌+◌, Bool, true, false, List, [], ◌∷◌, ◌++◌, length, if◌then◌else◌, ltb, leb, ◌==◌,
  Option, none, some,
}
use rocks_db_wrapper.Base.Text.{Text}

-- `buffer` is what the stringstream holds, `output_file` what was written to the file.
pub record Buffer : Type 0 where
  pub buffer : Text
  pub output_file : Text
  pub is_open : Bool
  pub buffer_limit : ℕ

-- `std::endl` and `std::flush`; on a stringstream the flush itself does nothing.
pub data Manip : Type 0 where
  endl flush : Manip

abbrev pub manip_text : Manip → Text
manip_text endl = 10 ∷ []
manip_text flush = []

-- The statements on a buffer's fields: `buffer << data`, `output_file << buffer.str()` with the file's
-- flush, and `buffer.str("")`. The operations are sequences of them, which a signal can cut.
pub data BufferStatement : Type 0 where
  append : Text → BufferStatement
  write_out reset : BufferStatement

abbrev pub effect : BufferStatement → Buffer → Buffer
effect (append data') b = record b { buffer = b.buffer ++ data' }
effect write_out b = record b { output_file = b.output_file ++ b.buffer }
effect reset b = record b { buffer = [] }

abbrev pub effects : List BufferStatement → Buffer → Buffer
effects [] b = b
effects (s ∷ ss) b = effects ss (effect s b)

-- The statements of `flush` on a buffer that holds these data.
abbrev pub flush_statements : Text → List BufferStatement
flush_statements buffer = if ltb 0 (length buffer) then write_out ∷ reset ∷ [] else []

unfoldable pub flush_buffer : Buffer → Buffer
flush_buffer b = effects (flush_statements b.buffer) b

-- The statements of `operator<<` of the template, and of the one for manipulators.
abbrev pub put_statements : Buffer → Text → List BufferStatement
put_statements b data' =
    let next = b.buffer ++ data' in
    append data' ∷ (if leb b.buffer_limit (length next) then flush_statements next else [])

unfoldable pub put : Buffer → Text → Buffer
put b data' = effects (put_statements b data') b

unfoldable pub put_manip : Buffer → Manip → Buffer
put_manip b manip = effects (put_statements b (manip_text manip)) b

-- The default limit, 10 MB.
abbrev pub default_limit : ℕ
default_limit = 10_485_760

-- The static members, the objects alive, and whether the handlers of SIGTERM and SIGINT are set.
pub record Buffers : Type 0 where
  pub store : List (ℕ × Buffer)
  pub instances : List ℕ
  pub next : ℕ
  pub handles_signals : Bool

unfoldable pub lookup {ℓ} : {A : Type ℓ} → ℕ → List (ℕ × A) → Option A
lookup k [] = none
lookup k ((j, a) ∷ m) = if j == k then some a else lookup k m

unfoldable pub update {ℓ} : {A : Type ℓ} → ℕ → (A → A) → List (ℕ × A) → List (ℕ × A)
update k f [] = []
update k f ((j, a) ∷ m) = if j == k then (j, f a) ∷ m else (j, a) ∷ update k f m

unfoldable pub remove {ℓ} : {A : Type ℓ} → ℕ → List (ℕ × A) → List (ℕ × A)
remove k [] = []
remove k ((j, a) ∷ m) = if j == k then remove k m else (j, a) ∷ remove k m

-- `std::list::remove`
unfoldable pub remove_id : ℕ → List ℕ → List ℕ
remove_id k [] = []
remove_id k (j ∷ js) = if j == k then remove_id k js else j ∷ remove_id k js

unfoldable pub register_instance : ℕ → Buffers → Buffers
register_instance this s = record s { instances = s.instances ++ this ∷ [] }

unfoldable pub unregister_instance : ℕ → Buffers → Buffers
unfolding remove_id
unregister_instance this s = record s { instances = remove_id this s.instances }

unfoldable pub register_signals : Buffers → Buffers
register_signals s = record s { handles_signals = true }

-- The constructor, which throws if the file does not open, and otherwise truncates it.
unfoldable pub new_buffer : Bool → ℕ → Buffers → Option (ℕ × Buffers)
unfolding register_instance register_signals
new_buffer opens limit s =
    let b : Buffer = record {
      buffer = [];
      output_file = [];
      is_open = true;
      buffer_limit = limit;
    } in
    if opens
    then some (
      s.next,
      register_signals (
          register_instance s.next
            (record s { store = s.store ++ (s.next, b) ∷ []; next = s.next + 1 })),
    )
    else none

-- The destructor, with the file that it leaves behind.
unfoldable pub delete_buffer : ℕ → Buffers → Option Text × Buffers
unfolding flush_buffer unregister_instance remove lookup
delete_buffer this s = (
  elim (lookup this s.store) [ none ↦ none | some b ↦ some (flush_buffer b).output_file ],
  unregister_instance this (record s { store = remove this s.store }),
)

-- The handler: every registered buffer is flushed in turn, then the process exits with `signal`.
unfoldable pub flush_instances : List ℕ → List (ℕ × Buffer) → List (ℕ × Buffer)
unfolding flush_buffer update
flush_instances [] store = store
flush_instances (this ∷ rest) store = flush_instances rest (update this flush_buffer store)

unfoldable pub handle_signal : ℕ → Buffers → ℕ × Buffers
unfolding flush_instances
handle_signal signal s = (signal, record s { store = flush_instances s.instances s.store })
