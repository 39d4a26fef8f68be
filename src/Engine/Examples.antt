-- ===== src/Engine/Examples.antt =====
-- The theorems about the engine at concrete inputs, over a heap that is kept sorted.
use mathlib.Core.List.{Mem, mem-cons, not-mem-nil, Perm}
use mathlib.Core.List.Perm
use mathlib.Core.Logic.Or
use mathlib.Core.Bool.{Bool-set}
use simulation_core.Base.{
  ℕ, ◌+◌, ◌≡◌, ◌&&◌, not, ◌≤◌, refl, subst, sym, true, false, String, List, [], ◌∷◌, Option, none,
  some, arith, if◌then◌else◌, if_elim,
}
use simulation_core.Base.Int.{pos}
use simulation_core.Engine.Event.{Event, EventType, request_arrival, less}
use simulation_core.Engine.Heap.{HeapOps}
use simulation_core.Engine.State.{Engine, schedule_event, stamp, no_limits, pending, reported}
use simulation_core.Engine.Loop.{
  one_turn, take_next, process, at_end, Outcome, again, ended, Turn, Command, Handler, schedules,
  triggers, obey, event_loop, run, stopped, guard, check_wall_clock,
}
use simulation_core.Engine.Loop.Progress.{Ends}
use simulation_core.Engine.Loop.Ends.{run-Ends}
use simulation_core.Engine.Loop.Clock.{Later}
use simulation_core.Engine.Loop.Onward.{Onward, event_loop-Onward}
use simulation_core.Engine.Loop.Finish.{run-Reaches}
use simulation_core.Engine.Loop.QueueBound.{obey-size}
use simulation_core.Engine.Queue.{size, next}
use simulation_core.Engine.Loop.Latch.{event_loop-first_error}
use simulation_core.Engine.Order.{less-IsStrictWeak, less-asym, less-le}

module _ {Payload : Type 0} where
  abbrev NotBefore : Event Payload → List (Event Payload) → Type 0
  NotBefore x events = (y : Event Payload) → Mem y events → less y x ≡ false

  abbrev Sorted : List (Event Payload) → Type 0
  Sorted [] = Unit {0}
  Sorted (x ∷ events) = NotBefore x events × Sorted events

  abbrev insert : Event Payload → List (Event Payload) → List (Event Payload)
  insert x [] = x ∷ []
  insert x (y ∷ events) = if less x y then x ∷ y ∷ events else y ∷ insert x events

  insert-perm :
      (x : Event Payload) (events : List (Event Payload)) → Perm (insert x events) (x ∷ events)
  insert-perm x [] = Perm.refl _
  insert-perm x (y ∷ events) =
      if_elim (λ l. Perm l (x ∷ y ∷ events)) (less x y) (λ _. Perm.refl _)
        (λ _. Perm.trans (Perm.cons y (insert-perm x events)) (Perm.swap x y events))

  insert-Sorted :
      (x : Event Payload) (events : List (Event Payload)) → Sorted events → Sorted (insert x events)
  insert-Sorted x [] s = (λ y m. absurd (not-mem-nil m), tt)
  insert-Sorted x (y ∷ events) s =
      if_elim Sorted (less x y)
        (λ before.
          let asym = less-asym x y before in
          (
            λ z m.
                Or.elim (Bool-set _ _) (mem-cons.0 m)
                  (λ same. subst (λ w. less w x ≡ false) (sym same) asym)
                  (λ k. less-le x y z before (s.0 z k)),
            s,
          ))
        (λ after. (
          λ z m.
              Or.elim (Bool-set _ _) (mem-cons.0 ((Perm.mem_iff (insert-perm x events)).0 m))
                (λ same. subst (λ w. less w y ≡ false) (sym same) after) (s.0 z),
          insert-Sorted x events s.1,
        ))

  sorted_heap : HeapOps (less {Payload = Payload})
  sorted_heap = record {
    push = insert;
    pop = λ events. elim events [ [] ↦ none | x ∷ rest ↦ some (x, rest) ];
    IsHeap = Sorted;
    nil-IsHeap = tt;
    push-IsHeap = insert-Sorted;
    push-perm = insert-perm;
    pop-nil = refl;
    pop-cons = λ x h s. (h, refl, s.1, Perm.refl h);
    least = λ x h s. s.0;
  }

abbrev event_name : ℕ → String
event_name n = "evt"

abbrev arrival : ℕ → Event ℕ
arrival t = record {
  id = "";
  type = request_arrival;
  time = t;
  priority = pos 0;
  sequence = 0;
  service_id = "web";
  payload = 7;
}

-- Each arrival schedules the next one, two nanoseconds later.
abbrev again_and_again : Handler ℕ
again_and_again e event = schedules (arrival (e.sim_time + 2)) ∷ []

abbrev handlers : EventType → Option (Handler ℕ)
handlers type = some again_and_again

abbrev calm : Turn ℕ
calm = record { elapsed = pos 5; meanwhile = λ e. e; interrupted = false }

abbrev limited : Engine ℕ
limited = record {
  events = arrival 1 ∷ [];
  sim_time = 0;
  event_counter = 1;
  processed = 0;
  limits = record no_limits { max_events_processed = pos 3 };
  guard_err = none;
  cancelled = false;
  status = pending;
  max_queue_seen = 0;
  real_time_mode = false;
}

one-Sorted : Sorted (arrival 1 ∷ [])
one-Sorted = (λ y m. absurd (not-mem-nil m), tt)

less-IsStrictWeak_example :
    ((less (arrival 5) (arrival 4) && less (arrival 4) (arrival 5)) ≡ false)
    × ((less (arrival 3) (arrival 5)
          && not (less (arrival 3) (arrival 4))
          && not (less (arrival 4) (arrival 5)))
        ≡ false)
less-IsStrictWeak_example = less-IsStrictWeak (arrival 5) (arrival 4) (arrival 3)

-- Two arrivals of the same time, with a later one scheduled in between.
abbrev earlier : Event ℕ
earlier = stamp event_name 2 (arrival 4)

abbrev between : Event ℕ
between = stamp event_name 3 (arrival 9)

abbrev later : Event ℕ
later = stamp event_name 4 (arrival 4)

abbrev queued : List (Event ℕ)
queued = insert later (insert between (insert earlier []))

run-Ends_example :
    Ends (run sorted_heap event_name handlers 0 limited 100 (calm ∷ calm ∷ calm ∷ calm ∷ []))
unfolding sorted_heap
run-Ends_example =
    run-Ends sorted_heap event_name handlers 0 limited 3 100 (calm ∷ calm ∷ calm ∷ calm ∷ []) refl
      (omega arith) (omega arith) (omega arith) one-Sorted

abbrev LaterIfAny : Engine ℕ → Event ℕ → Option (Handler ℕ) → Type 0
LaterIfAny e event none = Unit {0}
LaterIfAny e event (some handler) = Later sorted_heap event_name e.sim_time (handler e event)

handlers-Later :
    (type : EventType) (handler : Handler ℕ) (e : Engine ℕ) (event : Event ℕ)
    → handlers type ≡ some handler
    → Later sorted_heap event_name e.sim_time (handler e event)
handlers-Later type handler e event h = subst (LaterIfAny e event) h (omega arith, tt)

event_loop-Onward_example :
    Onward sorted_heap event_name handlers 0 100 handlers-Later 0
      (event_loop sorted_heap event_name handlers 0 limited 100 (calm ∷ calm ∷ []))
unfolding sorted_heap
event_loop-Onward_example =
    event_loop-Onward sorted_heap event_name handlers 0 100 handlers-Later (calm ∷ calm ∷ [])
      limited (λ e k. (omega arith, k), (λ e k. (omega arith, k), tt))
      (record { heaped = one-Sorted; ahead = λ x m. omega arith })

abbrev tripped : Engine ℕ
tripped = record limited { guard_err = some (reported "first"); cancelled = true }

abbrev commands : List (Command ℕ)
commands = schedules (arrival 9) ∷ triggers (reported "second") ∷ []

event_loop-first_error_example :
    event_loop sorted_heap event_name handlers 0
      (obey sorted_heap event_name tripped commands)
      100
      (calm ∷ [])
    ≡ stopped
        (guard (reported "first"))
        (check_wall_clock (obey sorted_heap event_name tripped commands) calm)
event_loop-first_error_example =
    event_loop-first_error sorted_heap event_name handlers 0 tripped commands 100 calm []
      (reported "first") refl

-- With a handler that schedules nothing the run comes to its end event.
abbrev quiet : EventType → Option (Handler ℕ)
quiet type = some (λ e event. [])

-- The clock where a run returned without an error, and 0 else.
abbrev end_clock : Outcome ℕ → ℕ
end_clock (again e) = 0
end_clock (ended e) = e.sim_time
end_clock (stopped err e) = 0

run-Reaches_example :
    100 ≤ end_clock (run sorted_heap event_name quiet 0 limited 100 (calm ∷ calm ∷ []))
unfolding run event_loop one_turn take_next process at_end schedule_event stamp next sorted_heap
    less obey check_wall_clock
run-Reaches_example = run-Reaches sorted_heap event_name quiet 0 limited 100 (calm ∷ calm ∷ [])

abbrev narrow : Engine ℕ
narrow = record limited { limits = record no_limits { max_event_queue_size = pos 2 } }

obey-size_example : size (obey sorted_heap event_name narrow commands).events ≤ 2
obey-size_example =
    obey-size sorted_heap event_name commands narrow 2 refl (omega arith) (omega arith)
