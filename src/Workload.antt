-- ===== src/Workload.antt =====
-- The workload runner: the line loop of runWorkload in src/run_workload.cc, and what it does with the
-- database, the two logs and the progress bar. The database is an interface, the clock and the
-- floating point of the progress bar are arguments. The timers are always compiled in, since the
-- preprocessor does not see the tests around their definitions, and PROFILE is not defined.
mod Lines
pub use Lines.*
mod Stops
pub use Stops.*
mod Progress
unfoldable pub use Progress.*
pub mod Requests
pub mod Effects
pub mod Total
pub mod Division
pub mod Finish
pub mod Returned
pub mod Succeeds
pub mod RoundTrip
pub mod Times
pub mod Examples
use rocks_db_wrapper.Base.{
  ℕ, zero, suc, ◌+◌, ◌%◌, ◌^◌, Bool, true, false, Option, none, some, List, [], ◌∷◌, ◌++◌, ◌>>=◌,
  if◌then◌else◌, ◌==◌,
}
use rocks_db_wrapper.Base.Int.{ℤ, to_unsigned}
use rocks_db_wrapper.Base.Text.{Text, codes, show_ℤ}
use rocks_db_wrapper.Buffer.{Buffer, endl, flush, put, put_manip}

-- `rocksdb::Status`, with the text of `ToString`.
pub record Status : Type 0 where
  pub ok : Bool
  pub message : Text

-- An iterator after Seek: its first status, the keys that Next visits, and its status after so many
-- steps.
pub record Iterator : Type 0 where
  pub status : Status
  pub keys : List Text
  pub status_after : ℕ → Status

-- The database's operations that the runner calls.
pub record Database : Type 1 where
  pub State : Type 0
  pub put_key : Text → Text → State → Status × State
  pub delete_key : Text → State → Status × State
  pub get_key : Text → State → Status × State
  pub delete_range : Text → Text → State → Status × State
  pub new_iterator : Text → State → Iterator
  pub close : State → Status × State

-- The variables of the loop; the five times are unsigned longs.
pub record Run (d : Database) : Type 0 where
  pub db : d.State
  pub s : Status
  pub buffer : Buffer
  pub stats : Buffer
  pub inserts_exec_time : ℕ
  pub updates_exec_time : ℕ
  pub pq_exec_time : ℕ
  pub pdelete_exec_time : ℕ
  pub rq_exec_time : ℕ
  pub ith_op : ℕ
  pub cerr : Text

-- `(*stats) << "…: " << duration.count() << std::endl`
unfoldable pub log_time : Text → ℤ → Buffer → Buffer
log_time label duration stats = put_manip (put (put stats label) (show_ℤ duration)) endl

abbrev pub add_time : ℕ → ℤ → ℕ
add_time total duration = (total + to_unsigned (2 ^ 64) duration) % 2 ^ 64

-- The loop of a scan: how many keys it passes before the first one from `end_key` on.
unfoldable pub scan : Text → List Text → ℕ
scan end_key [] = 0
scan end_key (key ∷ keys) =
    let rest = scan end_key keys in if text_geb key end_key then 0 else suc rest

module _ {d : Database} where
  unfoldable pub insert : ℤ → Text → Run d → Run d
  insert duration args r =
      let (key, rest) = next_word args in
      let (value, _) = next_word rest in
      let (s, db) = d.put_key key value r.db in
      record r {
        s = s;
        db = db;
        stats = log_time (codes "InsertTime: ") duration r.stats;
        inserts_exec_time = add_time r.inserts_exec_time duration;
      }

  unfoldable pub update_key : ℤ → Text → Run d → Run d
  update_key duration args r =
      let (key, rest) = next_word args in
      let (value, _) = next_word rest in
      let (s, db) = d.put_key key value r.db in
      record r {
        s = s;
        db = db;
        stats = log_time (codes "UpdateTime: ") duration r.stats;
        updates_exec_time = add_time r.updates_exec_time duration;
      }

  unfoldable pub point_delete : ℤ → Text → Run d → Run d
  point_delete duration args r =
      let (key, _) = next_word args in
      let (s, db) = d.delete_key key r.db in
      record r {
        s = s;
        db = db;
        stats = log_time (codes "DeleteTime: ") duration r.stats;
        pdelete_exec_time = add_time r.pdelete_exec_time duration;
      }

  unfoldable pub point_query : ℤ → Text → Run d → Run d
  point_query duration args r =
      let (key, _) = next_word args in
      let (s, db) = d.get_key key r.db in
      record r {
        s = s;
        db = db;
        stats = log_time (codes "GetTime: ") duration r.stats;
        pq_exec_time = add_time r.pq_exec_time duration;
      }

  -- An error of the iterator is logged; the status of the run stays. A new iterator that is not ok
  -- fails the assertion.
  unfoldable pub range_query : ℤ → Text → Run d → Outcome (Run d)
  unfolding scan
  range_query duration args r =
      let (start_key, rest) = next_word args in
      let (end_key, _) = next_word rest in
      let it = d.new_iterator start_key r.db in
      let after = it.status_after (scan end_key it.keys) in
      if it.status.ok
      then finished (record r {
        buffer =
            if after.ok
            then r.buffer
            else put_manip (put_manip (put r.buffer after.message) endl) flush;
        stats = log_time (codes "ScanTime: ") duration r.stats;
        rq_exec_time = add_time r.rq_exec_time duration;
      })
      else stopped (assertion_failed r.cerr)

  unfoldable pub range_delete : Text → Run d → Run d
  range_delete args r =
      let (start_key, rest) = next_word args in
      let (end_key, _) = next_word rest in
      let (s, db) = d.delete_range start_key end_key r.db in record r { s = s; db = db }

  unfoldable pub no_match : Run d → Run d
  no_match r = record r {
    buffer = put_manip (put r.buffer (codes "ERROR: Case match NOT found !!")) endl;
  }

  unfoldable pub run_operation : ℤ → Operation → Text → Run d → Outcome (Run d)
  unfolding insert update_key point_delete point_query range_query range_delete no_match
  run_operation duration inserts args r = finished (insert duration args r)
  run_operation duration updates args r = finished (update_key duration args r)
  run_operation duration point_deletes args r = finished (point_delete duration args r)
  run_operation duration point_queries args r = finished (point_query duration args r)
  run_operation duration range_queries args r = range_query duration args r
  run_operation duration range_deletes args r = finished (range_delete args r)
  run_operation duration unmatched args r = finished (no_match r)

-- What comes from outside of the loop.
pub record Setting : Type 0 where
  pub clock : ℕ → ℤ
  pub bar : Bar
  pub shows : Bool
  pub total_operations : ℕ

module _ {d : Database} (w : Setting) where
  -- One line that is not empty. A line of blanks leaves `operation` without a value.
  unfoldable pub run_line : Text → Run d → Outcome (Run d)
  unfolding run_operation
  run_line line r = or_stop unset_operation (next_char line) >>> λ (operation, args).
      run_operation (w.clock r.ith_op) (operation_of operation) args r >>> λ r'.
      let shown = update_progress_bar w.bar w.shows (r'.ith_op + 1) w.total_operations in
      or_stop division_by_zero shown >>> λ printed.
      finished (record r' { ith_op = r'.ith_op + 1; cerr = r'.cerr ++ printed })

  -- The lines that are left; the loop ends at an empty one and after the last one.
  unfoldable pub run_lines : List Text → Run d → Outcome (Run d)
  unfolding run_line
  run_lines [] r = finished r
  run_lines ([] ∷ lines) r = finished r
  run_lines ((c ∷ line) ∷ lines) r = run_line (c ∷ line) r >>> λ r'. run_lines lines r'
