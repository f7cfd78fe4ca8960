-- ===== src/Buffer/Interrupt/Prefixes.antt =====
-- What a signal finds, and leaves behind, after each statement of an insertion.
use mathlib.Core.List.{append-nil, append_assoc}
use rocks_db_wrapper.Base.{
  ℕ, zero, suc, ◌≡◌, refl, sym, ap, ◌∙◌, Bool, true, false, ◌&&◌, some, List, [], ◌∷◌, ◌++◌, map,
  length, if◌then◌else◌, ltb, leb, ◌==◌, arith,
}
use rocks_db_wrapper.Base.Text.{Text}
use rocks_db_wrapper.Buffer.{
  BufferStatement, append, write_out, reset, effect, effects, put_statements, Buffer, Buffers,
  flush_buffer, lookup, update, handle_signal,
}
use rocks_db_wrapper.Buffer.Laws.{contents, flush_buffer_lem}
use rocks_db_wrapper.Buffer.Signal.{map_option, lookup-update, lookup-flush_instances, member}
use rocks_db_wrapper.Buffer.Interrupt.{at, Process, execute, execute_all, take, interrupt}

-- Statements on a buffer change the buffer, and not the list of instances or the mutex.
lookup-execute_all :
    (this : ℕ) (ss : List BufferStatement) (p : Process) {b : Buffer}
    → lookup this p.buffers.store ≡ some b
    → let p' = execute_all (map (at this) ss) p in
      (lookup this p'.buffers.store ≡ some (effects ss b))
      × (p'.buffers.instances ≡ p.buffers.instances)
      × (p'.locked ≡ p.locked)
unfolding execute_all
lookup-execute_all this [] p found = (found, refl, refl)
lookup-execute_all this (s ∷ ss) p {b} found =
    let self : (this == this) ≡ true = ground arith in
    let changed : lookup this (update this (effect s) p.buffers.store) ≡ some (effect s b) =
      lookup-update this this (effect s) p.buffers.store
      ∙ ap
          (λ t.
            if t
            then map_option (effect s) (lookup this p.buffers.store)
            else lookup this p.buffers.store)
          self
      ∙ ap (map_option (effect s)) found in
    lookup-execute_all this ss (execute (at this s) p) changed

take-map {ℓ κ} :
    {A : Type ℓ} {B : Type κ} (f : A → B) (n : ℕ) (xs : List A)
    → take n (map f xs) ≡ map f (take n xs)
take-map f zero xs = refl
take-map f (suc n) [] = refl
take-map f (suc n) (x ∷ xs) = ap (λ ys. f x ∷ ys) (take-map f n xs)

-- The handler flushes a registered buffer, if it gets the mutex.
interrupt-lookup :
    (signal this : ℕ) (p : Process) {b : Buffer}
    → p.locked ≡ false
    → member this p.buffers.instances ≡ true
    → lookup this p.buffers.store ≡ some b
    → (s : Buffers) × (interrupt signal p ≡ some (signal, s))
      × (lookup this s.store ≡ some (record b { output_file = contents b; buffer = [] }))
unfolding interrupt handle_signal
interrupt-lookup signal this p {b} free listed found = (
  (handle_signal signal p.buffers).1,
  rw free,
  lookup-flush_instances this p.buffers.instances p.buffers.store
      ∙ ap
          (λ t.
            if t
            then map_option flush_buffer (lookup this p.buffers.store)
            else lookup this p.buffers.store)
          listed
      ∙ ap (map_option flush_buffer) found
      ∙ ap some (flush_buffer_lem b),
)

abbrev emptied : Buffer → Buffer
emptied b = record b { output_file = contents b; buffer = [] }

-- Does `operator<<` flush?
abbrev pub is_full : Buffer → Text → Bool
is_full b data' =
    leb b.buffer_limit (length (b.buffer ++ data')) && ltb 0 (length (b.buffer ++ data'))

-- The file after a signal that comes after so many statements of `operator<<`: between the write to the
-- file and the reset, the handler writes what the buffer holds again.
abbrev pub signalled_file : Bool → ℕ → Buffer → Text → Text
signalled_file full zero b data' = contents b
signalled_file full (suc zero) b data' = contents b ++ data'
signalled_file full (suc (suc zero)) b data' =
    if full then contents b ++ data' ++ (b.buffer ++ data') else contents b ++ data'
signalled_file full (suc (suc (suc n))) b data' = contents b ++ data'

pub take-nil {ℓ} : {A : Type ℓ} (n : ℕ) → ◌≡◌ {A = List A} (take n []) []
take-nil zero = refl
take-nil (suc n) = refl

emptied_as : (b : Buffer) (file : Text) → Buffer
emptied_as b file = record b { output_file = file; buffer = [] }

appended_file :
    (b : Buffer) (data' : Text) → b.output_file ++ (b.buffer ++ data') ≡ contents b ++ data'
appended_file b data' = sym (append_assoc b.output_file b.buffer data')

emptied-effects :
    (l p : Bool) (n : ℕ) (b : Buffer) (data' : Text)
    → emptied (
        effects
          (take n (append data' ∷ (if l then if p then write_out ∷ reset ∷ [] else [] else [])))
          b)
      ≡ emptied_as b (signalled_file (l && p) n b data')
unfolding emptied_as
emptied-effects l p zero b data' = refl
emptied-effects l p (suc zero) b data' = ap (emptied_as b) (appended_file b data')
emptied-effects false p (suc (suc zero)) b data' = ap (emptied_as b) (appended_file b data')
emptied-effects true false (suc (suc zero)) b data' = ap (emptied_as b) (appended_file b data')
emptied-effects true true (suc (suc zero)) b data' =
    ap (λ t. emptied_as b (t ++ (b.buffer ++ data'))) (appended_file b data')
emptied-effects false p (suc (suc (suc n))) b data' = ap (emptied_as b) (appended_file b data')
emptied-effects true false (suc (suc (suc n))) b data' = ap (emptied_as b) (appended_file b data')
emptied-effects true true (suc (suc (suc n))) b data' =
    ap
      (λ ss.
        emptied (
          effects ss
            (record b { output_file = b.output_file ++ (b.buffer ++ data'); buffer = [] })))
      (take-nil n)
    ∙ ap (emptied_as b) (append-nil (b.output_file ++ (b.buffer ++ data')) ∙ appended_file b data')

-- A signal that arrives between two statements of `operator<<` on a registered buffer, with the mutex
-- free, loses nothing: the buffer's whole contents are in its file, with the new data as soon as they
-- are in the buffer. If it arrives between the write to the file and the reset of a flush, what the
-- buffer held is in the file twice.
pub interrupt-put_statements :
    (signal n this : ℕ) (p : Process) (b : Buffer) (data' : Text)
    → p.locked ≡ false
    → member this p.buffers.instances ≡ true
    → lookup this p.buffers.store ≡ some b
    → (s : Buffers) × (interrupt signal
          (execute_all (take n (map (at this) (put_statements b data'))) p)
        ≡ some (signal, s))
      × (lookup this s.store
          ≡ some
              (record b { output_file = signalled_file (is_full b data') n b data'; buffer = [] }))
unfolding emptied_as
interrupt-put_statements signal n this p b data' free listed found =
    rw (take-map (at this) n (put_statements b data')) (
      let ss = take n (put_statements b data') in
      let (now, same, lock') = lookup-execute_all this ss p found in
      let (s, handled, after) =
        interrupt-lookup signal this (execute_all (map (at this) ss) p) (lock' ∙ free)
          (ap (member this) same ∙ listed) now in
      (
        s,
        handled,
        after
            ∙ ap some (
                emptied-effects (leb b.buffer_limit (length (b.buffer ++ data')))
                  (ltb 0 (length (b.buffer ++ data'))) n b data'),
      ))
