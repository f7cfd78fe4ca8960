-- ===== src/Workload/Requests.antt =====
-- The workload as a list of requests, and what a list of requests does to a database: no logs, no
-- buffers, no clock and no lines.
use rocks_db_wrapper.Base.{ℕ, ◌+◌, Option, some, List, [], ◌∷◌, ◌++◌, ◌>>=◌}
use rocks_db_wrapper.Base.Int.{ℤ}
use rocks_db_wrapper.Base.Text.{Text, codes, show_ℤ}
use rocks_db_wrapper.Workload.{
  Status, Database, Operation, inserts, updates, point_deletes, point_queries, range_queries,
  range_deletes, unmatched, operation_of, next_char, next_word,
}

pub data Request : Type 0 where
  insert_request update_request : Text → Text → Request
  delete_request query_request : Text → Request
  scan_request delete_range_request : Text → Text → Request
  unknown_request : Request

abbrev words : Text → Text × Text
words args = ((next_word args).0, (next_word (next_word args).1).0)

abbrev pub request_of : Operation → Text → Request
request_of inserts args = insert_request (words args).0 (words args).1
request_of updates args = update_request (words args).0 (words args).1
request_of point_deletes args = delete_request (words args).0
request_of point_queries args = query_request (words args).0
request_of range_queries args = scan_request (words args).0 (words args).1
request_of range_deletes args = delete_range_request (words args).0 (words args).1
request_of unmatched args = unknown_request

-- The requests of the lines before the first empty one; a line of blanks has none.
unfoldable pub requests : List Text → Option (List Request)
requests [] = some []
requests ([] ∷ lines) = some []
requests ((c ∷ line) ∷ lines) = next_char (c ∷ line) >>= λ (operation, args).
    requests lines >>= λ rest. some (request_of (operation_of operation) args ∷ rest)

-- The status is that of the last request that changes or reads a key; a scan leaves it.
abbrev pub perform : (d : Database) → Request → Status × d.State → Status × d.State
perform d (insert_request key value) (s, db) = d.put_key key value db
perform d (update_request key value) (s, db) = d.put_key key value db
perform d (delete_request key) (s, db) = d.delete_key key db
perform d (query_request key) (s, db) = d.get_key key db
perform d (scan_request start_key end_key) (s, db) = (s, db)
perform d (delete_range_request start_key end_key) (s, db) = d.delete_range start_key end_key db
perform d unknown_request (s, db) = (s, db)

abbrev pub perform_all : (d : Database) → List Request → Status × d.State → Status × d.State
perform_all d [] state = state
perform_all d (q ∷ qs) state = perform_all d qs (perform d q state)

-- The line about a request that took so long.
abbrev pub time_line : Request → ℤ → Text
time_line (insert_request key value) t = codes "InsertTime: " ++ show_ℤ t ++ 10 ∷ []
time_line (update_request key value) t = codes "UpdateTime: " ++ show_ℤ t ++ 10 ∷ []
time_line (delete_request key) t = codes "DeleteTime: " ++ show_ℤ t ++ 10 ∷ []
time_line (query_request key) t = codes "GetTime: " ++ show_ℤ t ++ 10 ∷ []
time_line (scan_request start_key end_key) t = codes "ScanTime: " ++ show_ℤ t ++ 10 ∷ []
time_line (delete_range_request start_key end_key) t = []
time_line unknown_request t = []

abbrev pub time_lines : (ℕ → ℤ) → ℕ → List Request → Text
time_lines clock i [] = []
time_lines clock i (q ∷ qs) = time_line q (clock i) ++ time_lines clock (i + 1) qs
