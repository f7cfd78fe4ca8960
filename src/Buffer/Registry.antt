-- ===== src/Buffer/Registry.antt =====
-- All buffers together: buffering is invisible. What a program has written to each live buffer is the
-- contents of that buffer, and a signal puts all of it into the files.
use rocks_db_wrapper.Base.{
  ℕ, ◌+◌, ◌≡◌, refl, ap, ◌∙◌, inl, inr, Bool, true, false, Option, none, some, List, [], ◌∷◌, ◌++◌,
  ◌==◌, Bool-cases,
}
use rocks_db_wrapper.Base.Text.{Text}
use rocks_db_wrapper.Buffer.{
  Buffer, Manip, manip_text, flush_buffer, put, put_manip, Buffers, update, remove, new_buffer,
  delete_buffer,
}
use rocks_db_wrapper.Buffer.Laws.{
  contents, contents-flush_buffer, put-IsInserted, put_manip-IsInserted,
}

-- What a program does with buffers.
pub data Call : Type 0 where
  create : Bool → ℕ → Call
  write : ℕ → Text → Call
  manipulate : ℕ → Manip → Call
  flushes : ℕ → Call
  destroy : ℕ → Call

abbrev on_store : Buffers → List (ℕ × Buffer) → Buffers
on_store s store = record s { store = store }

abbrev created : Buffers → Option (ℕ × Buffers) → Buffers
created s none = s
created s (some (this, s')) = s'

unfoldable pub step : Buffers → Call → Buffers
step s (create opens limit) = created s (new_buffer opens limit s)
step s (write this text) = on_store s (update this (λ b. put b text) s.store)
step s (manipulate this manip) = on_store s (update this (λ b. put_manip b manip) s.store)
step s (flushes this) = on_store s (update this flush_buffer s.store)
step s (destroy this) = (delete_buffer this s).1

unfoldable pub run : Buffers → List Call → Buffers
run s [] = s
run s (call ∷ calls) = run (step s call) calls

-- The specification: texts that only grow, with the number of the next buffer.
pub record Logs : Type 0 where
  pub texts : List (ℕ × Text)
  pub next : ℕ

unfoldable pub step_logs : Logs → Call → Logs
step_logs l (create false limit) = l
step_logs l (create true limit) = record { texts = l.texts ++ (l.next, []) ∷ []; next = l.next + 1 }
step_logs l (write this text) = record l { texts = update this (λ t. t ++ text) l.texts }
step_logs l (manipulate this manip) = record l {
  texts = update this (λ t. t ++ manip_text manip) l.texts;
}
step_logs l (flushes this) = l
step_logs l (destroy this) = record l { texts = remove this l.texts }

unfoldable pub run_logs : Logs → List Call → Logs
run_logs l [] = l
run_logs l (call ∷ calls) = run_logs (step_logs l call) calls

abbrev pub logged : List (ℕ × Buffer) → List (ℕ × Text)
logged [] = []
logged ((j, b) ∷ m) = (j, contents b) ∷ logged m

abbrev pub view : Buffers → Logs
view s = record { texts = logged s.store; next = s.next }

logged-update :
    (k : ℕ) (f : Buffer → Buffer) (g : Text → Text) (m : List (ℕ × Buffer))
    → ((b : Buffer) → contents (f b) ≡ g (contents b))
    → logged (update k f m) ≡ update k g (logged m)
unfolding update
logged-update k f g [] h = refl
logged-update k f g ((j, b) ∷ m) h = elim (Bool-cases (j == k)) [
  | inl hit ↦ rw hit (ap (λ t. (j, t) ∷ logged m) (h b))
  | inr miss ↦ rw miss (ap (◌∷◌ (j, contents b)) (logged-update k f g m h))
]

update_id : (k : ℕ) (m : List (ℕ × Text)) → update k (λ t. t) m ≡ m
unfolding update
update_id k [] = refl
update_id k ((j, t) ∷ m) = elim (Bool-cases (j == k)) [
  | inl hit ↦ rw hit
  | inr miss ↦ rw miss (ap (◌∷◌ (j, t)) (update_id k m))
]

logged-remove : (k : ℕ) (m : List (ℕ × Buffer)) → logged (remove k m) ≡ remove k (logged m)
unfolding remove
logged-remove k [] = refl
logged-remove k ((j, b) ∷ m) = elim (Bool-cases (j == k)) [
  | inl hit ↦ rw hit (logged-remove k m)
  | inr miss ↦ rw miss (ap (◌∷◌ (j, contents b)) (logged-remove k m))
]

logged-append : (m n : List (ℕ × Buffer)) → logged (m ++ n) ≡ logged m ++ logged n
logged-append [] n = refl
logged-append ((j, b) ∷ m) n = ap (◌∷◌ (j, contents b)) (logged-append m n)

view-step : (s : Buffers) (call : Call) → view (step s call) ≡ step_logs (view s) call
unfolding step step_logs new_buffer delete_buffer
view-step s (create false limit) = refl
view-step s (create true limit) =
    ap (λ t. record { texts = t; next = s.next + 1 }) (logged-append s.store _)
view-step s (write this text) =
    ap (λ t. record { texts = t; next = s.next })
      (logged-update this (λ b. put b text) (λ t. t ++ text) s.store λ b. (put-IsInserted b text).0)
view-step s (manipulate this manip) =
    ap (λ t. record { texts = t; next = s.next })
      (logged-update this (λ b. put_manip b manip) (λ t. t ++ manip_text manip) s.store
        λ b. (put_manip-IsInserted b manip).0)
view-step s (flushes this) =
    ap (λ t. record { texts = t; next = s.next })
      (logged-update this flush_buffer (λ t. t) s.store contents-flush_buffer
        ∙ update_id this (logged s.store))
view-step s (destroy this) =
    ap (λ t. record { texts = t; next = s.next }) (logged-remove this s.store)

-- Buffering is invisible: after any calls the buffers alive hold, in their files and what waits, just
-- what the calls wrote to them, in order.
pub view-run : (s : Buffers) (calls : List Call) → view (run s calls) ≡ run_logs (view s) calls
unfolding run run_logs
view-run s [] = refl
view-run s (call ∷ calls) =
    view-run (step s call) calls ∙ ap (λ l. run_logs l calls) (view-step s call)
