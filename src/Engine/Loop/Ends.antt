-- ===== src/Engine/Loop/Ends.antt =====
-- Runs of Engine.Run in internal/engine/engine.go, and when they return.
use mathlib.Core.List.{Mem, mem-cons_self}
use mathlib.Core.List.Perm
use simulation_core.Base.{
  ℕ, suc, ◌+◌, ◌≤◌, ◌<◌, ◌≡◌, refl, sym, ap, ◌∙◌, true, false, String, List, [], ◌∷◌, Option, some,
  arith, if_elim, length,
}
use simulation_core.Base.Int.{ℤ, pos}
use simulation_core.Engine.Event.{Event, EventType, simulation_end, less}
use simulation_core.Engine.Heap.{HeapOps}
use simulation_core.Engine.State.{
  Engine, GuardError, trigger_guard_failure, stamp, running, exceeds, limit_exceeded,
  wall_clock_runtime,
}
use simulation_core.Engine.Loop.{
  Turn, Handler, Outcome, again, ended, stopped, guard, check_wall_clock, one_turn, event_loop, run,
  is_end, milliseconds, deferred,
}
use simulation_core.Engine.Loop.Frame.{first_error, trigger-latched, schedule_event_cases}
use simulation_core.Engine.Loop.Progress.{Ends, end_event, go_on-Ends, one_turn-Progress}

module _ {Payload : Type 0} where
  -- The wall clock check keeps an error that is latched.
  pub check_wall_clock-latched :
      (e : Engine Payload) (turn : Turn Payload) (err : GuardError)
      → e.guard_err ≡ some err
      → (check_wall_clock e turn).guard_err ≡ some err
  unfolding check_wall_clock
  check_wall_clock-latched e turn err h =
      if_elim (λ (d : Engine Payload). d.guard_err ≡ some err)
        (exceeds e.limits.max_wall_clock_run turn.elapsed)
        (λ _.
          let late =
            limit_exceeded wall_clock_runtime (milliseconds turn.elapsed)
              (milliseconds e.limits.max_wall_clock_run) in
          trigger-latched e late ∙ ap (λ o. some (first_error o late)) h)
        (λ _. h)

  module _ (heap : HeapOps (less {Payload = Payload})) (event_name : ℕ → String)
      (handlers : EventType → Option (Handler Payload)) (empty_payload : Payload) (end_time : ℕ)
      (final : Event Payload) (final_type : is_end final.type ≡ true)
      (final_time : final.time ≡ end_time) where
    limited :
        (limit : ℤ) (m k : ℕ)
        → limit ≡ pos m
        → 1 ≤ m
        → exceeds limit (pos (suc k)) ≡ false
        → suc k ≤ m
    limited limit m k q positive within =
        let at : exceeds (pos m) (pos (suc k)) ≡ false =
          ap (λ l. exceeds l (pos (suc k))) (sym q) ∙ within in
        ground arith

    -- The loop ends: every turn that does not end it counts one more event, and the limit stops that.
    event_loop-Ends :
        (turns : List (Turn Payload)) (e : Engine Payload) (m : ℕ)
        → e.limits.max_events_processed ≡ pos m
        → 1 ≤ m
        → e.processed ≤ m
        → m < length turns + e.processed
        → heap.IsHeap e.events
        → Mem final e.events
        → Ends (event_loop heap event_name handlers empty_payload e end_time turns)
    unfolding event_loop
    event_loop-Ends [] e m q positive few enough h k = absurd (omega (arith, few, enough))
    event_loop-Ends (turn ∷ turns) e m q positive few enough h k =
        go_on-Ends heap event_name handlers empty_payload end_time final final_type final_time e
          (one_turn heap event_name handlers empty_payload e end_time turn)
          (λ f. event_loop heap event_name handlers empty_payload f end_time turns)
          (one_turn-Progress heap event_name handlers empty_payload end_time final final_type
            final_time e turn h k)
          λ f w.
            let less_left =
              limited e.limits.max_events_processed m e.processed q positive w.within in
            event_loop-Ends turns f m (ap (λ l. l.max_events_processed) w.limits ∙ q) positive
              (omega (arith, less_left, w.counted)) (omega (arith, enough, w.counted)) w.heaped
              w.final_queued

  pub deferred-Ends : (o : Outcome Payload) → Ends o → Ends (deferred o)
  deferred-Ends (again e) p = p
  deferred-Ends (ended e) p = tt
  deferred-Ends (stopped err e) p = tt

  module _ (heap : HeapOps (less {Payload = Payload})) (event_name : ℕ → String)
      (handlers : EventType → Option (Handler Payload)) (empty_payload : Payload) where
    -- Once an error is latched the next turn returns it.
    pub one_turn-latched :
        (e : Engine Payload) (end_time : ℕ) (turn : Turn Payload) (err : GuardError)
        → e.guard_err ≡ some err
        → one_turn heap event_name handlers empty_payload e end_time turn
          ≡ stopped (guard err) (check_wall_clock e turn)
    unfolding one_turn check_wall_clock
    one_turn-latched e end_time turn err h =
        rw (check_wall_clock-latched e turn err h, one_turn) refl

    stopped_at_once :
        (e : Engine Payload) (err : GuardError) (end_time : ℕ) (turns : List (Turn Payload))
        → 1 ≤ length turns
        → Ends (
            event_loop heap event_name handlers empty_payload
              (trigger_guard_failure e err)
              end_time
              turns)
    unfolding event_loop
    stopped_at_once e err end_time [] h = absurd (omega arith)
    stopped_at_once e err end_time (turn ∷ turns) h =
        rw
          (
            one_turn-latched (trigger_guard_failure e err) end_time turn _ (trigger-latched e err),
            event_loop,
          )
          tt

    begun-Ends :
        (e : Engine Payload) (m end_time : ℕ) (turns : List (Turn Payload)) (final : Event Payload)
        → final.type ≡ simulation_end
        → final.time ≡ end_time
        → e.limits.max_events_processed ≡ pos m
        → 1 ≤ m
        → e.processed ≤ m
        → m < length turns + e.processed
        → heap.IsHeap e.events
        → Ends (
            event_loop heap event_name handlers empty_payload
              (record e { events = heap.push final e.events })
              end_time
              turns)
    begun-Ends e m end_time turns final type time q positive few enough h =
        event_loop-Ends heap event_name handlers empty_payload end_time final (ap is_end type) time
          turns (record e { events = heap.push final e.events }) m q positive few enough
          (heap.push-IsHeap final e.events h)
          ((Perm.mem_iff (heap.push-perm final e.events)).1 mem-cons_self)

    -- With a limit m > 0 on the events processed, a run that has processed at most m events returns
    -- within as many turns as it may still process and one more, whatever the handlers schedule and
    -- whatever other goroutines do meanwhile.
    pub run-Ends :
        (e : Engine Payload) (m duration : ℕ) (turns : List (Turn Payload))
        → e.limits.max_events_processed ≡ pos m
        → 1 ≤ m
        → e.processed ≤ m
        → m < length turns + e.processed
        → heap.IsHeap e.events
        → Ends (run heap event_name handlers empty_payload e duration turns)
    unfolding run stamp
    run-Ends e m duration turns q positive few enough h =
        let end_time = e.sim_time + duration in
        let begun : Engine Payload = record e { status = running } in
        deferred-Ends _ (
          schedule_event_cases heap event_name
            (λ d. Ends (event_loop heap event_name handlers empty_payload d end_time turns)) begun
            (end_event empty_payload end_time)
            (λ err. stopped_at_once _ err end_time turns (omega (arith, few, enough)))
            (begun-Ends (record begun { event_counter = suc e.event_counter }) m end_time turns
              (stamp event_name (suc e.event_counter) (end_event empty_payload end_time)) refl refl
              q positive few enough h))
