-- ===== src/Buffer/Signal.antt =====
-- The signal handler reaches every live buffer, since the constructor registers a buffer and only the
-- destructor takes it off the list.
use mathlib.Core.List.{append-nil}
use rocks_db_wrapper.Base.{
  ℕ, ◌≡◌, refl, sym, ap, ◌∙◌, Bool, true, false, ◌||◌, Option, none, some, List, [], ◌∷◌, ◌++◌,
  if◌then◌else◌, ◌==◌, arith,
}
use rocks_db_wrapper.Buffer.{
  Buffer, flush_buffer, put, put_manip, Buffers, lookup, update, remove, remove_id, new_buffer,
  delete_buffer, flush_instances, handle_signal,
}
use rocks_db_wrapper.Buffer.Laws.{contents, flush_buffer_lem}
use rocks_db_wrapper.Buffer.Registry.{Call, create, write, manipulate, flushes, destroy, step, run}

abbrev pub map_option {ℓ κ} : {A : Type ℓ} {B : Type κ} → (A → B) → Option A → Option B
map_option f none = none
map_option f (some a) = some (f a)

abbrev pub member : ℕ → List ℕ → Bool
member k [] = false
member k (j ∷ js) = j == k || member k js

pub lookup-update {ℓ} :
    {A : Type ℓ} (k j : ℕ) (f : A → A) (m : List (ℕ × A))
    → lookup k (update j f m) ≡ (if j == k then map_option f (lookup k m) else lookup k m)
unfolding lookup update
lookup-update k j f [] = ground arith
lookup-update k j f ((i, a) ∷ m) = ground (arith, lookup-update k j f m)

-- Is there an object at this address?
abbrev pub has {ℓ} : {A : Type ℓ} → ℕ → List (ℕ × A) → Bool
has k [] = false
has k ((j, a) ∷ m) = j == k || has k m

has-update {ℓ} :
    {A : Type ℓ} (k j : ℕ) (f : A → A) (m : List (ℕ × A)) → has k (update j f m) ≡ has k m
unfolding update
has-update k j f [] = refl
has-update k j f ((i, a) ∷ m) = ground (arith, has-update k j f m)

has-remove {ℓ} :
    {A : Type ℓ} (k j : ℕ) (m : List (ℕ × A))
    → has k (remove j m) ≡ (if j == k then false else has k m)
unfolding remove
has-remove k j [] = ground arith
has-remove k j ((i, a) ∷ m) = ground (arith, has-remove k j m)

has-append {ℓ} :
    {A : Type ℓ} (k j : ℕ) (a : A) (m : List (ℕ × A))
    → has k (m ++ (j, a) ∷ []) ≡ has k m || (j == k)
has-append k j a [] = ground arith
has-append k j a ((i, b) ∷ m) = ground (arith, has-append k j a m)

has_of_lookup {ℓ} :
    {A : Type ℓ} (k : ℕ) (m : List (ℕ × A)) {a : A} → lookup k m ≡ some a → has k m ≡ true
unfolding lookup
has_of_lookup k [] e = cc
has_of_lookup k ((j, b) ∷ m) {a} e = ground (arith, has_of_lookup k m {a = a})

member-append : (k j : ℕ) (js : List ℕ) → member k (js ++ j ∷ []) ≡ member k js || (j == k)
member-append k j [] = ground arith
member-append k j (i ∷ js) = ground (arith, member-append k j js)

member-remove_id :
    (k j : ℕ) (js : List ℕ) → member k (remove_id j js) ≡ (if j == k then false else member k js)
unfolding remove_id
member-remove_id k j [] = ground arith
member-remove_id k j (i ∷ js) = ground (arith, member-remove_id k j js)

-- Every live buffer is on the list of instances.
abbrev pub IsRegistered : Buffers → Type 0
IsRegistered s = (k : ℕ) → has k s.store ≡ true → member k s.instances ≡ true

step-IsRegistered : (s : Buffers) (call : Call) → IsRegistered s → IsRegistered (step s call)
unfolding step new_buffer delete_buffer
step-IsRegistered s (create false limit) v k e = v k e
step-IsRegistered s (create true limit) v k e =
    let b : Buffer = record {
      buffer = [];
      output_file = [];
      is_open = true;
      buffer_limit = limit;
    } in
    ground (arith, v k, has-append k s.next b s.store, member-append k s.next s.instances)
step-IsRegistered s (write this text) v k e =
    v k (sym (has-update k this (λ b. put b text) s.store) ∙ e)
step-IsRegistered s (manipulate this manip) v k e =
    v k (sym (has-update k this (λ b. put_manip b manip) s.store) ∙ e)
step-IsRegistered s (flushes this) v k e = v k (sym (has-update k this flush_buffer s.store) ∙ e)
step-IsRegistered s (destroy this) v k e =
    ground (arith, v k, has-remove k this s.store, member-remove_id k this s.instances)

run-IsRegistered : (s : Buffers) (calls : List Call) → IsRegistered s → IsRegistered (run s calls)
unfolding run
run-IsRegistered s [] v = v
run-IsRegistered s (call ∷ calls) v =
    run-IsRegistered (step s call) calls (step-IsRegistered s call v)

abbrev emptied : Buffer → Buffer
emptied b = record b { output_file = contents b; buffer = [] }

emptied_twice : (b : Buffer) → flush_buffer (flush_buffer b) ≡ flush_buffer b
emptied_twice b =
    ap flush_buffer (flush_buffer_lem b)
    ∙ flush_buffer_lem (emptied b)
    ∙ ap (λ t. record b { output_file = t; buffer = [] }) (append-nil (contents b))
    ∙ sym (flush_buffer_lem b)

flush_again :
    (here later : Bool) (x : Option Buffer)
    → let once = if here then map_option flush_buffer x else x in
      (if later then map_option flush_buffer once else once)
      ≡ (if here || later then map_option flush_buffer x else x)
flush_again true true none = refl
flush_again true true (some b) = ap some (emptied_twice b)
flush_again true false x = refl
flush_again false true x = refl
flush_again false false x = refl

pub lookup-flush_instances :
    (k : ℕ) (ids : List ℕ) (m : List (ℕ × Buffer))
    → lookup k (flush_instances ids m)
      ≡ (if member k ids then map_option flush_buffer (lookup k m) else lookup k m)
unfolding flush_instances
lookup-flush_instances k [] m = refl
lookup-flush_instances k (j ∷ ids) m =
    lookup-flush_instances k ids (update j flush_buffer m)
    ∙ ap (λ x. if member k ids then map_option flush_buffer x else x)
        (lookup-update k j flush_buffer m)
    ∙ flush_again (j == k) (member k ids) (lookup k m)

abbrev pub no_buffers : Buffers
no_buffers = record { store = []; instances = []; next = 0; handles_signals = false }

-- When a signal arrives after any calls, every buffer that is alive then has all of its contents in
-- its file and none waiting, and the process exits with the signal's number.
pub handle_signal_lem :
    (signal : ℕ) (calls : List Call) (k : ℕ) (b : Buffer)
    → lookup k (run no_buffers calls).store ≡ some b
    → let (code, s) = handle_signal signal (run no_buffers calls) in
      (code ≡ signal)
      × (lookup k s.store ≡ some (record b { output_file = contents b; buffer = [] }))
unfolding handle_signal
handle_signal_lem signal calls k b e =
    let s = run no_buffers calls in
    let listed = run-IsRegistered no_buffers calls (λ j h. cc) k (has_of_lookup k s.store e) in
    (
      refl,
      lookup-flush_instances k s.instances s.store
          ∙ ap (λ t. if t then map_option flush_buffer (lookup k s.store) else lookup k s.store)
              listed
          ∙ ap (map_option flush_buffer) e
          ∙ ap some (flush_buffer_lem b),
    )
