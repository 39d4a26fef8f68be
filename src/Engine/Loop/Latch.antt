-- ===== src/Engine/Loop/Latch.antt =====
-- The latched guard error of internal/engine/engine.go, over a handler and the turn after it.
use simulation_core.Base.{ℕ, suc, ◌≡◌, ap, ◌∙◌, String, List, [], ◌∷◌, Option, some}
use simulation_core.Engine.Event.{Event, EventType, less}
use simulation_core.Engine.Heap.{HeapOps}
use simulation_core.Engine.State.{Engine, GuardError, trigger_guard_failure, schedule_event}
use simulation_core.Engine.Loop.{
  Turn, Handler, stopped, Command, guard, schedules, triggers, obey, check_wall_clock, event_loop,
  go_on,
}
use simulation_core.Engine.Loop.Frame.{first_error, trigger-latched, schedule_event_cases}
use simulation_core.Engine.Loop.Ends.{one_turn-latched}

module _ {Payload : Type 0} (heap : HeapOps (less {Payload = Payload}))
    (event_name : ℕ → String) where
  kept :
      (e : Engine Payload) (err late : GuardError)
      → e.guard_err ≡ some err
      → (trigger_guard_failure e late).guard_err ≡ some err
  kept e err late h = trigger-latched e late ∙ ap (λ o. some (first_error o late)) h

  schedule_event-kept :
      (e : Engine Payload) (event : Event Payload) (err : GuardError)
      → e.guard_err ≡ some err
      → (schedule_event heap event_name e event).guard_err ≡ some err
  schedule_event-kept e event err h =
      schedule_event_cases heap event_name (λ (d : Engine Payload). d.guard_err ≡ some err) e event
        (λ late. kept (record e { event_counter = suc e.event_counter }) err late h) h

  obey-kept :
      (commands : List (Command Payload)) (e : Engine Payload) (err : GuardError)
      → e.guard_err ≡ some err
      → (obey heap event_name e commands).guard_err ≡ some err
  unfolding obey
  obey-kept [] e err h = h
  obey-kept (schedules event ∷ rest) e err h =
      obey-kept rest (schedule_event heap event_name e event) err
        (schedule_event-kept e event err h)
  obey-kept (triggers late ∷ rest) e err h =
      obey-kept rest (trigger_guard_failure e late) err (kept e err late h)

  module _ (handlers : EventType → Option (Handler Payload)) (empty_payload : Payload) where
    -- The first guard error wins: once an error is latched, whatever the rest of a handler's commands
    -- schedule or report, the loop returns that error at the next turn and processes no further event.
    pub event_loop-first_error :
        (e : Engine Payload) (commands : List (Command Payload)) (end_time : ℕ)
        (turn : Turn Payload) (turns : List (Turn Payload)) (err : GuardError)
        → e.guard_err ≡ some err
        → event_loop heap event_name handlers empty_payload
            (obey heap event_name e commands)
            end_time
            (turn ∷ turns)
          ≡ stopped (guard err) (check_wall_clock (obey heap event_name e commands) turn)
    unfolding event_loop
    event_loop-first_error e commands end_time turn turns err h =
        let f = obey heap event_name e commands in
        ap (λ o. go_on o (λ g. event_loop heap event_name handlers empty_payload g end_time turns))
          (one_turn-latched heap event_name handlers empty_payload f end_time turn err
            (obey-kept commands e err h))
