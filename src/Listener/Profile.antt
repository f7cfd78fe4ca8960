-- ===== src/Listener/Profile.antt =====
-- The callbacks of CompactionsListner (src/event_listners.cc) as PROFILE compiles them, with what they
-- print on std::cout. Whether PROFILE is defined is an argument.
use rocks_db_wrapper.Base.{◌≡◌, refl, ap, Bool, ◌&&◌, List, [], ◌∷◌, ◌++◌, if◌then◌else◌}
use rocks_db_wrapper.Base.Int.{ltb_ℤ}
use rocks_db_wrapper.Base.Text.{Text, codes}
use rocks_db_wrapper.Env.{DbEnv}
use rocks_db_wrapper.Env.Default.{medium, level_of}
use rocks_db_wrapper.Listener.{
  Observed, Event, completed, checked, Waiter, run_events, on_compaction_completed,
  check_compactions,
}

abbrev pub before_text : Text
before_text = codes "    ================> Before compaction <================"

abbrev pub after_text : Text
after_text = codes "    ================> After compaction <================"

-- `#ifdef PROFILE` around `if (db_env->verbosity > Verbosity::MEDIUM)`
abbrev pub prints : Bool → DbEnv → Bool
prints profile env = profile && ltb_ℤ (level_of medium) env.verbosity

abbrev pub on_compaction_begin : Bool → DbEnv → Text
on_compaction_begin profile env = if prints profile env then before_text else []

-- The callback with its print.
abbrev pub on_compaction_completed_profile : Bool → DbEnv → Observed → Waiter → Waiter × Text
on_compaction_completed_profile profile env o w =
    (on_compaction_completed o w, if prints profile env then after_text else [])

-- What the listener and the waiting thread meet.
pub data Callback : Type 0 where
  began : Callback
  happened : Event → Callback

unfoldable pub run_callbacks : Bool → DbEnv → List Callback → Waiter → Waiter × Text
unfolding on_compaction_completed check_compactions
run_callbacks profile env [] w = (w, [])
run_callbacks profile env (began ∷ callbacks) w =
    let (w', printed) = run_callbacks profile env callbacks w in
    (w', on_compaction_begin profile env ++ printed)
run_callbacks profile env (happened (completed o) ∷ callbacks) w =
    let (w', after) = on_compaction_completed_profile profile env o w in
    let (w'', printed) = run_callbacks profile env callbacks w' in (w'', after ++ printed)
run_callbacks profile env (happened (checked o) ∷ callbacks) w =
    run_callbacks profile env callbacks (if w.waiting then check_compactions o w else w)

-- The events without the beginnings of compactions.
abbrev pub events_of : List Callback → List Event
events_of [] = []
events_of (began ∷ callbacks) = events_of callbacks
events_of (happened event ∷ callbacks) = event ∷ events_of callbacks

-- A line for each beginning and end of a compaction, in order.
abbrev pub banners : Bool → List Callback → Text
banners shown [] = []
banners shown (began ∷ callbacks) = (if shown then before_text else []) ++ banners shown callbacks
banners shown (happened (completed o) ∷ callbacks) =
    (if shown then after_text else []) ++ banners shown callbacks
banners shown (happened (checked o) ∷ callbacks) = banners shown callbacks

-- With or without PROFILE, the waiting thread and the flag go through the history in the same way; a
-- beginning and an end of a compaction are printed, in order, if PROFILE is defined and the verbosity
-- is above MEDIUM.
pub run_callbacks-run_events :
    (profile : Bool) (env : DbEnv) (callbacks : List Callback) (w : Waiter)
    → run_callbacks profile env callbacks w
      ≡ (run_events (events_of callbacks) w, banners (prints profile env) callbacks)
unfolding run_callbacks run_events
run_callbacks-run_events profile env [] w = refl
run_callbacks-run_events profile env (began ∷ callbacks) w =
    ap (λ (r : Waiter × Text). (r.0, on_compaction_begin profile env ++ r.1))
      (run_callbacks-run_events profile env callbacks w)
run_callbacks-run_events profile env (happened (completed o) ∷ callbacks) w =
    ap (λ (r : Waiter × Text). (r.0, (if prints profile env then after_text else []) ++ r.1))
      (run_callbacks-run_events profile env callbacks (on_compaction_completed o w))
run_callbacks-run_events profile env (happened (checked o) ∷ callbacks) w =
    run_callbacks-run_events profile env callbacks (if w.waiting then check_compactions o w else w)
