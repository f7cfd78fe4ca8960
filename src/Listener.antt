-- ===== src/Listener.antt =====
-- Waiting for compactions: src/event_listners.cc. The waiting thread holds the mutex except while it
-- waits, so a check and a callback are atomic, and a history is a sequence of them. What the database
-- reports at each is part of the event. The prints that PROFILE compiles in are in Profile, and
-- FlushListner::OnFlushCompleted is declared and not defined.
pub mod Waiting
pub mod Profile
mod Examples
use rocks_db_wrapper.Base.{ℕ, Bool, true, false, ◌&&◌, List, [], ◌∷◌, if◌then◌else◌, ◌==◌}

-- The three properties that are read.
pub record Observed : Type 0 where
  pub num_running_compactions : ℕ
  pub pending_compaction_bytes : ℕ
  pub num_pending_compactions : ℕ

abbrev pub is_idle : Observed → Bool
is_idle o =
    o.num_running_compactions == 0
    && (o.pending_compaction_bytes == 0 && (o.num_pending_compactions == 0))

-- The flag, and whether WaitForCompactions is still in its loop.
pub record Waiter : Type 0 where
  pub compaction_complete : Bool
  pub waiting : Bool

unfoldable pub on_compaction_completed : Observed → Waiter → Waiter
on_compaction_completed o w = record w {
  compaction_complete = if is_idle o then true else w.compaction_complete;
}

-- One round of the loop, which a notification or ten milliseconds start.
unfoldable pub check_compactions : Observed → Waiter → Waiter
check_compactions o w =
    if w.compaction_complete
    then record w { waiting = false }
    else if is_idle o
    then record w { waiting = false }
    else w

pub data Event : Type 0 where
  completed : Observed → Event
  checked : Observed → Event

unfoldable pub run_events : List Event → Waiter → Waiter
unfolding on_compaction_completed check_compactions
run_events [] w = w
run_events (completed o ∷ events) w = run_events events (on_compaction_completed o w)
run_events (checked o ∷ events) w =
    run_events events (if w.waiting then check_compactions o w else w)

-- A call of WaitForCompactions begins with the flag as it is; nothing resets it.
abbrev pub wait_for_compactions : Bool → Waiter
wait_for_compactions complete = record { compaction_complete = complete; waiting = true }
