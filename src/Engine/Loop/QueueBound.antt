-- ===== src/Engine/Loop/QueueBound.antt =====
-- The limit on the size of the event queue of internal/engine/engine.go.
use simulation_core.Base.{
  ℕ, suc, ◌+◌, ◌≤◌, ◌≡◌, sym, ap, ◌∙◌, String, List, [], ◌∷◌, arith, if_elim,
}
use simulation_core.Base.Perms.{length-Perm}
use simulation_core.Base.Int.{pos}
use simulation_core.Engine.Event.{Event, less}
use simulation_core.Engine.Heap.{HeapOps}
use simulation_core.Engine.State.{
  Engine, GuardError, schedule_event, trigger_guard_failure, exceeds, stamp, limit_exceeded,
  events_scheduled, event_queue_size,
}
use simulation_core.Engine.Queue.{size}
use simulation_core.Engine.Loop.{Command, schedules, triggers, obey}
use simulation_core.Engine.Loop.Frame.{trigger-events, trigger-Same, schedule_event-Same}

module _ {Payload : Type 0} (heap : HeapOps (less {Payload = Payload}))
    (event_name : ℕ → String) where
  schedule_event-size :
      (e : Engine Payload) (event : Event Payload) (m : ℕ)
      → e.limits.max_event_queue_size ≡ pos m
      → 1 ≤ m
      → size e.events ≤ m
      → size (schedule_event heap event_name e event).events ≤ m
  unfolding schedule_event
  schedule_event-size e event m q positive h =
      let counted : Engine Payload = record e { event_counter = suc e.event_counter } in
      if_elim (λ (d : Engine Payload). size d.events ≤ m)
        (exceeds e.limits.max_events_scheduled (pos (suc e.event_counter)))
        (λ _.
          rw
            (trigger-events counted (
              limit_exceeded events_scheduled (pos (suc e.event_counter))
                e.limits.max_events_scheduled))
            h)
        λ _.
          if_elim (λ (d : Engine Payload). size d.events ≤ m)
            (exceeds e.limits.max_event_queue_size (pos (size e.events + 1)))
            (λ _.
              rw
                (trigger-events counted (
                  limit_exceeded event_queue_size (pos (size e.events + 1))
                    e.limits.max_event_queue_size))
                h)
            (λ fits.
              let within = ap (λ l. exceeds l (pos (size e.events + 1))) (sym q) ∙ fits in
              let grown =
                length-Perm
                  (heap.push-perm (stamp event_name (suc e.event_counter) event) e.events) in
              ground arith)

  trigger-size :
      (e : Engine Payload) (err : GuardError) (m : ℕ)
      → size e.events ≤ m
      → size (trigger_guard_failure e err).events ≤ m
  trigger-size e err m h = rw (trigger-events e err) h

  -- With a limit m > 0 on the size of the event queue, a queue of at most m events has at most m
  -- events after every command of a handler, however many events it schedules.
  pub obey-size :
      (commands : List (Command Payload)) (e : Engine Payload) (m : ℕ)
      → e.limits.max_event_queue_size ≡ pos m
      → 1 ≤ m
      → size e.events ≤ m
      → size (obey heap event_name e commands).events ≤ m
  unfolding obey
  obey-size [] e m q positive h = h
  obey-size (schedules event ∷ rest) e m q positive h =
      let kept = (schedule_event-Same heap event_name e event).limits in
      obey-size rest (schedule_event heap event_name e event) m
        (ap (λ l. l.max_event_queue_size) kept ∙ q) positive
        (schedule_event-size e event m q positive h)
  obey-size (triggers err ∷ rest) e m q positive h =
      let kept = (trigger-Same e err).limits in
      obey-size rest (trigger_guard_failure e err) m (ap (λ l. l.max_event_queue_size) kept ∙ q)
        positive (trigger-size e err m h)
