-- ===== src/Listener/Examples.antt =====
-- Waiting for compactions in a short history.
use rocks_db_wrapper.Base.{◌≡◌, refl, true, false, List, [], ◌∷◌, ◌++◌}
use rocks_db_wrapper.Base.Int.{pos}
use rocks_db_wrapper.Env.{DbEnv, new_db_env}
use rocks_db_wrapper.Listener.{
  Observed, Event, completed, checked, run_events, wait_for_compactions,
}
use rocks_db_wrapper.Listener.Waiting.{saw_idle, run_events-saw_idle, run_events-waiting}

abbrev busy : Observed
busy = record {
  num_running_compactions = 1;
  pending_compaction_bytes = 9;
  num_pending_compactions = 0;
}

abbrev idle : Observed
idle = record {
  num_running_compactions = 0;
  pending_compaction_bytes = 0;
  num_pending_compactions = 0;
}

abbrev events : List Event
events = checked busy ∷ completed busy ∷ completed idle ∷ []

still_waiting : (run_events events (wait_for_compactions false)).waiting ≡ true
unfolding run_events
still_waiting = refl

ended : (run_events (events ++ checked busy ∷ []) (wait_for_compactions false)).waiting ≡ false
unfolding run_events
ended = refl

-- Nothing resets the flag, so another wait returns at its first check of a busy database.
second_wait : (run_events (checked busy ∷ []) (wait_for_compactions true)).waiting ≡ false
unfolding run_events
second_wait = refl

run_events-saw_idle_example : saw_idle (events ++ checked busy ∷ []) ≡ true
run_events-saw_idle_example = run_events-saw_idle (events ++ checked busy ∷ []) ended

run_events-waiting_example :
    (run_events (events ++ checked busy ∷ []) (wait_for_compactions false)).waiting ≡ false
run_events-waiting_example = run_events-waiting events busy false refl

abbrev loud : DbEnv
loud = record new_db_env { verbosity = pos 3 }
