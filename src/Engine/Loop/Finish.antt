-- ===== src/Engine/Loop/Finish.antt =====
-- Engine.Run of internal/engine/engine.go where it returns without an error.
use simulation_core.Base.{
  ℕ, suc, ◌+◌, ◌-◌, ◌≤◌, not, String, List, [], ◌∷◌, Option, ◌&&◌, ltb, if_elim, arith,
  Option-cases, inl, inr,
}
use simulation_core.Base.Int.{pos}
use simulation_core.Engine.Event.{Event, EventType, less}
use simulation_core.Engine.Heap.{HeapOps}
use simulation_core.Engine.Queue.{next, peek, is_empty}
use simulation_core.Engine.State.{
  Engine, RunStatus, pending, running, completed, failed, exceeds, limit_exceeded, events_processed,
}
use simulation_core.Engine.Loop.{
  Turn, Handler, Outcome, again, ended, stopped, go_on, idle, end_first, over_processed, is_end,
  at_end, process, take_next, one_turn, event_loop, deferred, complete_if_running, run, see_queue,
  check_wall_clock,
}
use simulation_core.Engine.Loop.Frame.{trigger-latched}

module _ {Payload : Type 0} (end_time : ℕ) where
  -- A loop that returns without an error has brought the clock to the end.
  abbrev pub Reaches : Outcome Payload → Type 0
  Reaches (again f) = Unit {0}
  Reaches (ended f) = end_time ≤ f.sim_time
  Reaches (stopped err f) = Unit {0}

  idle-Reaches : (e : Engine Payload) (turn : Turn Payload) → Reaches (idle e end_time turn)
  unfolding idle
  idle-Reaches e turn =
      let waited = turn.meanwhile e in
      if_elim Reaches (not (ltb e.sim_time end_time)) (λ late. ground arith)
        λ _.
          if_elim Reaches (end_first (peek e.events)) (λ _. tt)
            λ _.
              if_elim Reaches (is_empty waited.events && ltb (end_time - e.sim_time) 200000000)
                (λ _. omega arith) (λ _. tt)

  over_processed-Reaches : (e : Engine Payload) → Reaches (over_processed e)
  unfolding over_processed
  over_processed-Reaches e =
      let err = limit_exceeded events_processed (pos e.processed) e.limits.max_events_processed in
      rw (trigger-latched e err) tt

  deferred-Reaches : (o : Outcome Payload) → Reaches o → Reaches (deferred o)
  deferred-Reaches (again e) r = tt
  deferred-Reaches (ended e) r = completed-Reaches e.status e r
    where
      completed-Reaches :
          (status : RunStatus) (e : Engine Payload)
          → end_time ≤ e.sim_time
          → end_time ≤ (complete_if_running status e).sim_time
      completed-Reaches pending e r = r
      completed-Reaches running e r = r
      completed-Reaches completed e r = r
      completed-Reaches failed e r = r
  deferred-Reaches (stopped err e) r = tt

  go_on-Reaches :
      (o : Outcome Payload) (next_turn : Engine Payload → Outcome Payload)
      → Reaches o
      → ((f : Engine Payload) → Reaches (next_turn f))
      → Reaches (go_on o next_turn)
  go_on-Reaches (again f) next_turn r h = h f
  go_on-Reaches (ended f) next_turn r h = r
  go_on-Reaches (stopped err f) next_turn r h = tt

  module _ (heap : HeapOps (less {Payload = Payload})) (event_name : ℕ → String)
      (handlers : EventType → Option (Handler Payload)) (empty_payload : Payload) where
    process-Reaches :
        (e : Engine Payload) (event : Event Payload) (turn : Turn Payload)
        → Reaches (process heap event_name handlers empty_payload e event end_time turn)
    unfolding process at_end
    process-Reaches e event turn =
        let counted : Engine Payload = record e { processed = suc e.processed } in
        if_elim Reaches (exceeds e.limits.max_events_processed (pos (suc e.processed)))
          (λ _. over_processed-Reaches counted)
          λ _.
            if_elim Reaches (is_end event.type)
              (λ _.
                if_elim Reaches (ltb event.time end_time) (λ _. tt)
                  λ late.
                    if_elim Reaches (e.real_time_mode && turn.interrupted) (λ _. tt)
                      (λ _. ground arith))
              (λ _. tt)

    take_next-Reaches :
        (e : Engine Payload) (turn : Turn Payload)
        → Reaches (take_next heap event_name handlers empty_payload e end_time turn)
    unfolding take_next
    take_next-Reaches e turn = elim (Option-cases (next heap e.events)) [
      | inl nothing ↦ rw (nothing, take_next) (idle-Reaches (see_queue e) turn)
      | inr ((event, rest), taken) ↦
          rw (taken, take_next)
            (process-Reaches (see_queue (record e { events = rest })) event turn)
    ]

    one_turn-Reaches :
        (e : Engine Payload) (turn : Turn Payload)
        → Reaches (one_turn heap event_name handlers empty_payload e end_time turn)
    unfolding one_turn
    one_turn-Reaches e turn = elim (Option-cases (check_wall_clock e turn).guard_err) [
      | inr (err, tripped) ↦ rw (tripped, one_turn) tt
      | inl clear ↦
          simp (clear, one_turn)
            (if_elim Reaches (check_wall_clock e turn).cancelled (λ _. tt)
              (λ _. take_next-Reaches (check_wall_clock e turn) turn))
    ]

    event_loop-Reaches :
        (turns : List (Turn Payload)) (e : Engine Payload)
        → Reaches (event_loop heap event_name handlers empty_payload e end_time turns)
    unfolding event_loop
    event_loop-Reaches [] e = tt
    event_loop-Reaches (turn ∷ turns) e =
        go_on-Reaches (one_turn heap event_name handlers empty_payload e end_time turn)
          (λ f. event_loop heap event_name handlers empty_payload f end_time turns)
          (one_turn-Reaches e turn) (event_loop-Reaches turns)

module _ {Payload : Type 0} (heap : HeapOps (less {Payload = Payload})) where
  -- A run that returns without an error has simulated its whole duration: the clock stands at or after
  -- the start and the duration, whatever the handlers and other goroutines do.
  pub run-Reaches :
      (event_name : ℕ → String) (handlers : EventType → Option (Handler Payload))
      (empty_payload : Payload) (e : Engine Payload) (duration : ℕ) (turns : List (Turn Payload))
      → Reaches
          (e.sim_time + duration)
          (run heap event_name handlers empty_payload e duration turns)
  unfolding run
  run-Reaches event_name handlers empty_payload e duration turns =
      let end_time = e.sim_time + duration in
      deferred-Reaches end_time _
        (event_loop-Reaches end_time heap event_name handlers empty_payload turns _)
