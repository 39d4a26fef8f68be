-- ===== src/Engine/Loop/Clock.antt =====
-- ScheduleEvent and the guards of internal/engine/engine.go, and the clock.
use mathlib.Core.List.{Mem, mem-cons}
use mathlib.Core.List.Perm
use mathlib.Core.Logic.Or
use native.Mathlib.Bridge.{le_prop}
use simulation_core.Base.{
  ℕ, suc, ◌≤◌, ◌≡◌, inl, inr, refl, sym, subst, false, String, List, [], ◌∷◌, none, some, arith,
  if_elim, Bool-cases, ltb,
}
use simulation_core.Engine.Event.{Event, less}
use simulation_core.Engine.Heap.{HeapOps}
use simulation_core.Engine.Queue.{next}
use simulation_core.Engine.State.{
  Engine, GuardError, trigger_guard_failure, schedule_event, stamp, exceeds, limit_exceeded,
  wall_clock_runtime,
}
use simulation_core.Engine.Loop.{
  Turn, Command, schedules, triggers, obey, check_wall_clock, milliseconds,
}
use simulation_core.Engine.Loop.Frame.{
  trigger-Same, trigger-events, schedule_event_cases, schedule_event-Same, schedule_event-IsHeap,
}

module _ {Payload : Type 0} where
  less-time : (x y : Event Payload) → less y x ≡ false → x.time ≤ y.time
  unfolding less
  less-time x y h = elim (Bool-cases (ltb y.time x.time)) [
    | inl earlier ↦ ground arith
    | inr later ↦ ground arith
  ]

  pub check_wall_clock-time :
      (e : Engine Payload) (turn : Turn Payload) → (check_wall_clock e turn).sim_time ≡ e.sim_time
  unfolding check_wall_clock
  check_wall_clock-time e turn =
      if_elim (λ (d : Engine Payload). d.sim_time ≡ e.sim_time)
        (exceeds e.limits.max_wall_clock_run turn.elapsed)
        (λ _.
          (trigger-Same e (
            limit_exceeded wall_clock_runtime (milliseconds turn.elapsed)
              (milliseconds e.limits.max_wall_clock_run))).sim_time)
        (λ _. refl)

  module _ (heap : HeapOps (less {Payload = Payload})) where
    -- Every queued event stands at or after a point of time.
    abbrev pub Ahead : ℕ → List (Event Payload) → Type 0
    Ahead t events = (x : Event Payload) → Mem x events → t ≤ x.time

    -- The queue is a heap of events at or after the simulation time.
    pub record Timely (e : Engine Payload) : Type 0 where
      pub heaped : heap.IsHeap e.events
      pub ahead : Ahead e.sim_time e.events

    refused :
        (e : Engine Payload) (err : GuardError)
        → Ahead e.sim_time e.events
        → Ahead (trigger_guard_failure e err).sim_time (trigger_guard_failure e err).events
    refused e err k x m =
        let time = (trigger-Same e err).sim_time in
        let event = k x (subst (Mem x) (trigger-events e err) m) in omega (arith, time, event)

    refused-Timely :
        (e : Engine Payload) (err : GuardError) → Timely e → Timely (trigger_guard_failure e err)
    refused-Timely e err k = record {
      heaped = rw (trigger-events e err) k.heaped;
      ahead = refused e err k.ahead;
    }

    pub next-nil : next heap [] ≡ none
    unfolding next
    next-nil = refl

    pub next-cons :
        (event : Event Payload) (events rest : List (Event Payload))
        → heap.pop (event ∷ events) ≡ some (event, rest)
        → next heap (event ∷ events) ≡ some (event, rest)
    unfolding next
    next-cons event events rest popped = popped

    pub head-least :
        (x : Event Payload) (events : List (Event Payload))
        → heap.IsHeap (x ∷ events)
        → Ahead x.time events
    head-least x events h y m = less-time x y (heap.least x events h y m)

    Ahead-push :
        (t : ℕ) (x : Event Payload) (events : List (Event Payload))
        → t ≤ x.time
        → Ahead t events
        → Ahead t (heap.push x events)
    Ahead-push t x events h k y m =
        Or.elim le_prop (mem-cons.0 ((Perm.mem_iff (heap.push-perm x events)).0 m))
          (λ same. subst (λ (z : Event Payload). t ≤ z.time) (sym same) h) (k y)

    module _ (event_name : ℕ → String) where
      pub schedule_event-Timely :
          (e : Engine Payload) (event : Event Payload)
          → e.sim_time ≤ event.time
          → Timely e
          → Timely (schedule_event heap event_name e event)
      unfolding stamp
      schedule_event-Timely e event h k = record {
        heaped = schedule_event-IsHeap heap event_name e event k.heaped;
        ahead =
            schedule_event_cases heap event_name (λ (d : Engine Payload). Ahead d.sim_time d.events)
              e event
              (λ err. refused (record e { event_counter = suc e.event_counter }) err k.ahead)
              (Ahead-push e.sim_time (stamp event_name (suc e.event_counter) event) e.events h
                k.ahead);
      }

      pub schedule_event-time :
          (e : Engine Payload) (event : Event Payload)
          → (schedule_event heap event_name e event).sim_time ≡ e.sim_time
      schedule_event-time e event = (schedule_event-Same heap event_name e event).sim_time

      -- A handler's commands schedule at or after a point of time.
      abbrev pub Later : ℕ → List (Command Payload) → Type 0
      Later t [] = Unit {0}
      Later t (schedules event ∷ rest) = (t ≤ event.time) × Later t rest
      Later t (triggers err ∷ rest) = Later t rest

      pub obey-Timely :
          (commands : List (Command Payload)) (e : Engine Payload)
          → Later e.sim_time commands
          → Timely e
          → Timely (obey heap event_name e commands)
      unfolding obey
      obey-Timely [] e l k = k
      obey-Timely (schedules event ∷ rest) e l k =
          obey-Timely rest (schedule_event heap event_name e event)
            (rw (schedule_event-time e event) l.1) (schedule_event-Timely e event l.0 k)
      obey-Timely (triggers err ∷ rest) e l k =
          obey-Timely rest (trigger_guard_failure e err) (rw ((trigger-Same e err).sim_time) l)
            (refused-Timely e err k)
