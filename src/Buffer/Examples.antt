-- ===== src/Buffer/Examples.antt =====
-- The buffers on small inputs: tests, and the theorems at concrete calls.
use rocks_db_wrapper.Base.{◌≡◌, refl, true, false, some, List, [], ◌∷◌, ◌++◌}
use rocks_db_wrapper.Base.Text.{codes}
use rocks_db_wrapper.Buffer.{
  Buffer, endl, flush_buffer, put, put_manip, Buffers, lookup, new_buffer, delete_buffer,
  handle_signal,
}
use rocks_db_wrapper.Buffer.Laws.{contents, IsInserted, put-IsInserted}
use rocks_db_wrapper.Buffer.Registry.{
  Call, create, write, manipulate, destroy, run, run_logs, view, view-run,
}
use rocks_db_wrapper.Buffer.Signal.{no_buffers, handle_signal_lem}

-- A limit of four bytes.
abbrev waiting : Buffer
waiting = record { buffer = codes "ab"; output_file = codes "x"; is_open = true; buffer_limit = 4 }

abbrev written : Buffer
written = record { buffer = []; output_file = codes "xabcd"; is_open = true; buffer_limit = 4 }

put_reaches_limit : put waiting (codes "cd") ≡ written
unfolding put
put_reaches_limit = refl

put-IsInserted_example : IsInserted waiting (codes "cd") (put waiting (codes "cd"))
put-IsInserted_example = put-IsInserted waiting (codes "cd")

put_below_limit : (put waiting (codes "c")).buffer ≡ codes "abc"
unfolding put
put_below_limit = refl

-- Two buffers are opened, a third file does not open, and the first buffer is destroyed.
abbrev calls : List Call
calls =
    create true 4
    ∷ create true 100
    ∷ create false 4
    ∷ write 0 (codes "abcde")
    ∷ write 1 (codes "log")
    ∷ manipulate 1 endl
    ∷ destroy 0
    ∷ []

view-run_example : view (run no_buffers calls) ≡ run_logs (view no_buffers) calls
view-run_example = view-run no_buffers calls

logs_after_calls :
    run_logs (view no_buffers) calls ≡ record { texts = (1, codes "log" ++ 10 ∷ []) ∷ []; next = 2 }
unfolding run_logs rocks_db_wrapper.Buffer.Registry.step_logs rocks_db_wrapper.Buffer.update
    rocks_db_wrapper.Buffer.remove
logs_after_calls = refl

destroyed_file :
    (delete_buffer 0 (run no_buffers (create true 100 ∷ write 0 (codes "ab") ∷ []))).0
    ≡ some (codes "ab")
unfolding delete_buffer run rocks_db_wrapper.Buffer.Registry.step rocks_db_wrapper.Buffer.update
    new_buffer put
destroyed_file = refl

abbrev second : Buffer
second = record {
  buffer = codes "log" ++ 10 ∷ [];
  output_file = [];
  is_open = true;
  buffer_limit = 100;
}

second_is_alive : lookup 1 (run no_buffers calls).store ≡ some second
unfolding run lookup rocks_db_wrapper.Buffer.Registry.step delete_buffer
    rocks_db_wrapper.Buffer.update new_buffer put_manip put
second_is_alive = refl

handle_signal_lem_example :
    let (code, s) = handle_signal 15 (run no_buffers calls) in
    (code ≡ 15)
    × (lookup 1 s.store ≡ some (record second { output_file = contents second; buffer = [] }))
handle_signal_lem_example = handle_signal_lem 15 calls 1 second second_is_alive
