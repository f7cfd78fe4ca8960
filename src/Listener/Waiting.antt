-- ===== src/Listener/Waiting.antt =====
-- The waiting ends for a reason, and it does end.
use rocks_db_wrapper.Base.{
  ◌≡◌, refl, ap, Bool, true, false, ◌||◌, not, List, [], ◌∷◌, ◌++◌, if◌then◌else◌, arith,
}
use rocks_db_wrapper.Listener.{
  Observed, is_idle, Waiter, Event, completed, checked, run_events, on_compaction_completed,
  check_compactions, wait_for_compactions,
}

-- Did an event of this history see an idle database?
abbrev pub saw_idle : List Event → Bool
saw_idle [] = false
saw_idle (completed o ∷ events) = is_idle o || saw_idle events
saw_idle (checked o ∷ events) = is_idle o || saw_idle events

-- What a state owes to the events before it.
abbrev reason : Waiter → List Event → Bool
reason w events = not w.waiting || (w.compaction_complete || saw_idle events)

completed_reason :
    (idle waiting complete saw : Bool)
    → (not waiting || ((if idle then true else complete) || saw)) ≡ true
    → (not waiting || (complete || (idle || saw))) ≡ true
completed_reason true true true saw h = refl
completed_reason true true false saw h = refl
completed_reason false true complete saw h = h
completed_reason idle false complete saw h = refl

checked_waiter : Bool → Bool → Bool → Waiter
checked_waiter idle waiting complete =
    let w : Waiter = record { compaction_complete = complete; waiting = waiting } in
    if waiting
    then if complete
      then record w { waiting = false }
      else if idle
      then record w { waiting = false }
      else w
    else w

checked_reason :
    (idle waiting complete : Bool) (events : List Event)
    → reason (checked_waiter idle waiting complete) events ≡ true
    → (not waiting || (complete || (idle || saw_idle events))) ≡ true
unfolding checked_waiter
checked_reason idle false complete events h = refl
checked_reason idle true true events h = refl
checked_reason true true false events h = refl
checked_reason false true false events h = h

run_events-reason :
    (events : List Event) (w : Waiter)
    → (run_events events w).waiting ≡ false
    → reason w events ≡ true
unfolding run_events checked_waiter
run_events-reason [] w e = ap (λ b. not b || (w.compaction_complete || false)) e
run_events-reason (completed o ∷ events) w e =
    completed_reason (is_idle o) w.waiting w.compaction_complete (saw_idle events)
      (run_events-reason events (on_compaction_completed o w) e)
run_events-reason (checked o ∷ events) w e =
    checked_reason (is_idle o) w.waiting w.compaction_complete events
      (run_events-reason events (if w.waiting then check_compactions o w else w) e)

-- If a wait that began with the flag down has ended, then an event of its history saw the database
-- without running and pending compactions.
pub run_events-saw_idle :
    (events : List Event)
    → (run_events events (wait_for_compactions false)).waiting ≡ false
    → saw_idle events ≡ true
run_events-saw_idle events e = run_events-reason events (wait_for_compactions false) e

-- Did a finished compaction see an idle database?
abbrev pub completed_idle : List Event → Bool
completed_idle [] = false
completed_idle (completed o ∷ events) = is_idle o || completed_idle events
completed_idle (checked o ∷ events) = completed_idle events

ends_completed :
    (idle waiting complete saw : Bool)
    → (not waiting || (complete || (idle || saw))) ≡ true
    → (not waiting || ((if idle then true else complete) || saw)) ≡ true
ends_completed true waiting complete saw h = ground arith
ends_completed false waiting complete saw h = h

either_ends :
    (idle : Bool) (events : List Event) (a b : Waiter)
    → (run_events events a).waiting ≡ false
    → (run_events events b).waiting ≡ false
    → (run_events events (if idle then a else b)).waiting ≡ false
either_ends true events a b ends_a ends_b = ends_a
either_ends false events a b ends_a ends_b = ends_b

run_events-ends :
    (events : List Event) (o : Observed) (complete waiting : Bool)
    → (not waiting || (complete || completed_idle events)) ≡ true
    → (run_events
        (events ++ checked o ∷ [])
        (record { compaction_complete = complete; waiting = waiting })).waiting
      ≡ false
unfolding run_events
run_events-ends [] o true true e = refl
run_events-ends [] o complete false e = refl
run_events-ends [] o false true e = cc
run_events-ends (completed p ∷ events) o complete waiting e =
    run_events-ends events o (if is_idle p then true else complete) waiting
      (ends_completed (is_idle p) waiting complete (completed_idle events) e)
run_events-ends (checked p ∷ events) o complete false e =
    run_events-ends events o complete false refl
run_events-ends (checked p ∷ events) o true true e = run_events-ends events o true false refl
run_events-ends (checked p ∷ events) o false true e =
    either_ends (is_idle p) (events ++ checked o ∷ []) _ _
      (run_events-ends events o false false refl) (run_events-ends events o false true e)

-- Once a finished compaction has seen an idle database, the next check ends the wait, whatever it
-- sees itself and whatever came in between.
pub run_events-waiting :
    (events : List Event) (o : Observed) (complete : Bool)
    → completed_idle events ≡ true
    → (run_events (events ++ checked o ∷ []) (wait_for_compactions complete)).waiting ≡ false
run_events-waiting events o complete e = run_events-ends events o complete true (ground (arith, e))
