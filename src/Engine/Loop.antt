-- ===== src/Engine/Loop.antt =====
-- Engine.Run of internal/engine/engine.go: one turn of the event loop, and the loop. Other goroutines
-- and the wall clock act through a `Turn`; waiting, throttling and logging change no state here.
pub mod Frame
pub mod Progress
pub mod Ends
pub mod Clock
pub mod Onward
pub mod Latch
pub mod Finish
pub mod QueueBound
use simulation_core.Base.{
  ℕ, suc, ◌+◌, ◌-◌, ◌/◌, max, Bool, true, false, not, String, List, [], ◌∷◌, Option, none, some,
  ◌&&◌, ltb, if◌then◌else◌,
}
use simulation_core.Base.Int.{ℤ, pos, negsuc, sub_ℕ}
use simulation_core.Engine.Event.{Event, EventType, simulation_end, less}
use simulation_core.Engine.Heap.{HeapOps}
use simulation_core.Engine.Queue.{next, peek, size, is_empty}
use simulation_core.Engine.State.{
  Engine, GuardError, limit_exceeded, wall_clock_runtime, events_processed, RunStatus, running,
  completed, exceeds, trigger_guard_failure, schedule_event, schedule_at, set_sim_time,
}

-- What the surroundings do during one turn: the wall clock's reading since the start in nanoseconds,
-- what other goroutines do to the engine while the loop sleeps, and whether the run is cancelled
-- during the wait at the end of a real-time run.
pub record Turn (Payload : Type 0) : Type 0 where
  pub elapsed : ℤ
  pub meanwhile : Engine Payload → Engine Payload
  pub interrupted : Bool

-- A handler acts on the engine by scheduling events and by reporting that a limit is exceeded. Its
-- error is only logged.
pub data Command (Payload : Type 0) : Type 0 where
  schedules : Event Payload → Command Payload
  triggers : GuardError → Command Payload

abbrev pub Handler : Type 0 → Type 0
Handler Payload = Engine Payload → Event Payload → List (Command Payload)

pub data RunError : Type 0 where
  guard : GuardError → RunError
  simulation_cancelled : RunError

pub data Outcome (Payload : Type 0) : Type 0 where
  again : Engine Payload → Outcome Payload
  ended : Engine Payload → Outcome Payload
  stopped : RunError → Engine Payload → Outcome Payload

abbrev pub is_end : EventType → Bool
is_end simulation_end = true
is_end _ = false

-- Duration.Milliseconds, which rounds towards zero.
abbrev pub milliseconds : ℤ → ℤ
milliseconds (pos n) = pos (n / 1000000)
milliseconds (negsuc n) = sub_ℕ 0 (suc n / 1000000)

module _ {Payload : Type 0} where
  -- The check of MaxWallClockRun at the top of a turn.
  unfoldable pub check_wall_clock : Engine Payload → Turn Payload → Engine Payload
  check_wall_clock e turn =
      if exceeds e.limits.max_wall_clock_run turn.elapsed
      then trigger_guard_failure e (
          limit_exceeded wall_clock_runtime (milliseconds turn.elapsed)
            (milliseconds e.limits.max_wall_clock_run))
      else e

  -- What follows a turn: the next one, unless the loop returns.
  abbrev pub go_on : Outcome Payload → (Engine Payload → Outcome Payload) → Outcome Payload
  go_on (again e) next_turn = next_turn e
  go_on (ended e) next_turn = ended e
  go_on (stopped err e) next_turn = stopped err e

  abbrev pub see_queue : Engine Payload → Engine Payload
  see_queue e = record e { max_queue_seen = max e.max_queue_seen (size e.events) }

  abbrev end_first : Option (Event Payload) → Bool
  end_first none = false
  end_first (some event) = is_end event.type

  -- A turn that finds the queue empty: it ends the run at or close to its end, and otherwise waits.
  unfoldable pub idle : Engine Payload → ℕ → Turn Payload → Outcome Payload
  idle e end_time turn =
      let waited = turn.meanwhile e in
      let near_end = ltb (end_time - e.sim_time) 200000000 in
      if not (ltb e.sim_time end_time)
      then ended e
      else if end_first (peek e.events)
      then again waited
      else if is_empty waited.events && near_end
      then ended (set_sim_time waited end_time)
      else again waited

  -- `return e.guardrailErr()`
  abbrev pub return_guard : Option GuardError → Engine Payload → Outcome Payload
  return_guard none e = ended e
  return_guard (some err) e = stopped (guard err) e

  unfoldable pub over_processed : Engine Payload → Outcome Payload
  over_processed e =
      let t =
        trigger_guard_failure e
          (limit_exceeded events_processed (pos e.processed) e.limits.max_events_processed) in
      return_guard t.guard_err t

  -- Run's deferred call: a run that is still running is completed, also when an error is returned.
  abbrev pub complete_if_running : RunStatus → Engine Payload → Engine Payload
  complete_if_running running e = record e { status = completed }
  complete_if_running _ e = e

  abbrev pub deferred : Outcome Payload → Outcome Payload
  deferred (again e) = again e
  deferred (ended e) = ended (complete_if_running e.status e)
  deferred (stopped err e) = stopped err (complete_if_running e.status e)

module _ {Payload : Type 0} (heap : HeapOps (less {Payload = Payload}))
    (event_name : ℕ → String) where
  unfoldable pub obey : Engine Payload → List (Command Payload) → Engine Payload
  obey e [] = e
  obey e (schedules event ∷ rest) = obey (schedule_event heap event_name e event) rest
  obey e (triggers err ∷ rest) = obey (trigger_guard_failure e err) rest

  abbrev pub handle : Option (Handler Payload) → Engine Payload → Event Payload → Engine Payload
  handle none e event = e
  handle (some handler) e event = obey e (handler e event)

module _ {Payload : Type 0} (heap : HeapOps (less {Payload = Payload})) (event_name : ℕ → String)
    (handlers : EventType → Option (Handler Payload)) (empty_payload : Payload) where
  -- The end event: one that came too early is put back at the end.
  unfoldable pub at_end : Engine Payload → Event Payload → ℕ → Turn Payload → Outcome Payload
  at_end e event end_time turn =
      let arrived = set_sim_time e event.time in
      if ltb event.time end_time
      then again (schedule_at heap event_name e simulation_end end_time "" empty_payload)
      else if e.real_time_mode && turn.interrupted
      then stopped simulation_cancelled arrived
      else ended arrived

  -- An event that was taken from the queue.
  unfoldable pub process : Engine Payload → Event Payload → ℕ → Turn Payload → Outcome Payload
  unfolding over_processed at_end
  process e event end_time turn =
      let counted : Engine Payload = record e { processed = suc e.processed } in
      if exceeds e.limits.max_events_processed (pos (suc e.processed))
      then over_processed counted
      else if is_end event.type
      then at_end counted event end_time turn
      else again
          (handle heap event_name (handlers event.type) (set_sim_time counted event.time) event)

  unfoldable pub take_next : Engine Payload → ℕ → Turn Payload → Outcome Payload
  take_next e end_time turn = elim (next heap e.events) [
    | none ↦ idle (see_queue e) end_time turn
    | some (event, rest) ↦ process (see_queue (record e { events = rest })) event end_time turn
  ]

  -- One turn of the event loop.
  unfoldable pub one_turn : Engine Payload → ℕ → Turn Payload → Outcome Payload
  one_turn e end_time turn =
      let checked = check_wall_clock e turn in
      elim checked.guard_err [
        | some err ↦ stopped (guard err) checked
        | none ↦
            if checked.cancelled
            then stopped simulation_cancelled checked
            else take_next checked end_time turn
      ]

  -- The loop over the turns that the surroundings grant; `again` if they run out.
  unfoldable pub event_loop : Engine Payload → ℕ → List (Turn Payload) → Outcome Payload
  event_loop e end_time [] = again e
  event_loop e end_time (turn ∷ turns) =
      go_on (one_turn e end_time turn) (λ f. event_loop f end_time turns)

  unfoldable pub run : Engine Payload → ℕ → List (Turn Payload) → Outcome Payload
  run e duration turns =
      let end_time = e.sim_time + duration in
      let started : Engine Payload = record e { status = running } in
      deferred (
        event_loop (schedule_at heap event_name started simulation_end end_time "" empty_payload)
          end_time turns)
