-- ===== src/Engine/Loop/Frame.antt =====
-- What scheduling, tripping a guard and a handler do to the state of internal/engine/engine.go.
use mathlib.Core.List.{Mem, mem-cons_of_mem}
use mathlib.Core.List.Perm
use simulation_core.Base.{
  ℕ, suc, ◌+◌, ◌≡◌, refl, ◌∙◌, String, List, [], ◌∷◌, Option, none, some, if_elim,
}
use simulation_core.Engine.Event.{Event, less}
use simulation_core.Engine.Heap.{HeapOps}
use simulation_core.Base.Int.{pos}
use simulation_core.Engine.Queue.{size}
use simulation_core.Engine.State.{
  Engine, GuardError, trigger_guard_failure, schedule_event, latch, stamp, exceeds, limit_exceeded,
  events_scheduled, event_queue_size,
}
use simulation_core.Engine.Loop.{Command, schedules, triggers, obey}

abbrev pub first_error : Option GuardError → GuardError → GuardError
first_error none err = err
first_error (some old) err = old

module _ {Payload : Type 0} where
  -- The fields that no handler reaches.
  pub record Same (d e : Engine Payload) : Type 0 where
    pub sim_time : d.sim_time ≡ e.sim_time
    pub processed : d.processed ≡ e.processed
    pub limits : d.limits ≡ e.limits
    pub status : d.status ≡ e.status
    pub real_time_mode : d.real_time_mode ≡ e.real_time_mode

  Same-refl : (e : Engine Payload) → Same e e
  Same-refl e = record {
    sim_time = refl;
    processed = refl;
    limits = refl;
    status = refl;
    real_time_mode = refl;
  }

  pub Same-trans : {c d e : Engine Payload} → Same c d → Same d e → Same c e
  Same-trans p q = record {
    sim_time = p.sim_time ∙ q.sim_time;
    processed = p.processed ∙ q.processed;
    limits = p.limits ∙ q.limits;
    status = p.status ∙ q.status;
    real_time_mode = p.real_time_mode ∙ q.real_time_mode;
  }

  latch-Same :
      (o : Option GuardError) (err : GuardError) (e : Engine Payload) → Same (latch o err e) e
  latch-Same none err e = record {
    sim_time = refl;
    processed = refl;
    limits = refl;
    status = refl;
    real_time_mode = refl;
  }
  latch-Same (some old) err e = Same-refl e

  pub trigger-Same : (e : Engine Payload) (err : GuardError) → Same (trigger_guard_failure e err) e
  unfolding trigger_guard_failure
  trigger-Same e err = latch-Same e.guard_err err e

  latch-events :
      (o : Option GuardError) (err : GuardError) (e : Engine Payload)
      → (latch o err e).events ≡ e.events
  latch-events none err e = refl
  latch-events (some old) err e = refl

  pub trigger-events :
      (e : Engine Payload) (err : GuardError) → (trigger_guard_failure e err).events ≡ e.events
  unfolding trigger_guard_failure
  trigger-events e err = latch-events e.guard_err err e

  -- After a guard failure an error is latched, and it is the first.
  latch-latched :
      (o : Option GuardError) (err : GuardError) (e : Engine Payload)
      → e.guard_err ≡ o
      → (latch o err e).guard_err ≡ some (first_error o err)
  latch-latched none err e h = refl
  latch-latched (some old) err e h = h

  pub trigger-latched :
      (e : Engine Payload) (err : GuardError)
      → (trigger_guard_failure e err).guard_err ≡ some (first_error e.guard_err err)
  unfolding trigger_guard_failure
  trigger-latched e err = latch-latched e.guard_err err e refl

  module _ (heap : HeapOps (less {Payload = Payload})) (event_name : ℕ → String) where
    counted-Same : (e : Engine Payload) (n : ℕ) → Same (record e { event_counter = n }) e
    counted-Same e n = record {
      sim_time = refl;
      processed = refl;
      limits = refl;
      status = refl;
      real_time_mode = refl;
    }

    pushed-Same :
        (e : Engine Payload) (n : ℕ) (events : List (Event Payload))
        → Same (record e { event_counter = n; events = events }) e
    pushed-Same e n events = record {
      sim_time = refl;
      processed = refl;
      limits = refl;
      status = refl;
      real_time_mode = refl;
    }

    -- A property of what ScheduleEvent does, by its three branches: two guards, and the push.
    pub schedule_event_cases {ℓ} :
        (P : Engine Payload → Type ℓ) (e : Engine Payload) (event : Event Payload)
        → ((err : GuardError)
            → P (trigger_guard_failure (record e { event_counter = suc e.event_counter }) err))
        → P (record e {
          event_counter = suc e.event_counter;
          events = heap.push (stamp event_name (suc e.event_counter) event) e.events;
        })
        → P (schedule_event heap event_name e event)
    unfolding schedule_event
    schedule_event_cases P e event refused pushed =
        let scheduled = pos (suc e.event_counter) in
        let grown = pos (size e.events + 1) in
        if_elim P (exceeds e.limits.max_events_scheduled scheduled)
          (λ _. refused (limit_exceeded events_scheduled scheduled e.limits.max_events_scheduled))
          λ _.
            if_elim P (exceeds e.limits.max_event_queue_size grown)
              (λ _. refused (limit_exceeded event_queue_size grown e.limits.max_event_queue_size))
              (λ _. pushed)

    pub schedule_event-Same :
        (e : Engine Payload) (event : Event Payload)
        → Same (schedule_event heap event_name e event) e
    schedule_event-Same e event =
        schedule_event_cases (λ d. Same d e) e event
          (λ err. Same-trans (trigger-Same _ err) (counted-Same e _)) (pushed-Same e _ _)

    pub obey-Same :
        (commands : List (Command Payload)) (e : Engine Payload)
        → Same (obey heap event_name e commands) e
    unfolding obey
    obey-Same [] e = Same-refl e
    obey-Same (schedules event ∷ rest) e =
        Same-trans (obey-Same rest (schedule_event heap event_name e event))
          (schedule_event-Same e event)
    obey-Same (triggers err ∷ rest) e =
        Same-trans (obey-Same rest (trigger_guard_failure e err)) (trigger-Same e err)

    -- Scheduling takes no event out of the queue.
    pub schedule_event-mem :
        (e : Engine Payload) (event x : Event Payload)
        → Mem x e.events
        → Mem x (schedule_event heap event_name e event).events
    schedule_event-mem e event x m =
        schedule_event_cases (λ d. Mem x d.events) e event (λ err. rw (trigger-events _ err) m)
          ((Perm.mem_iff (heap.push-perm _ e.events)).1 (mem-cons_of_mem _ m))

    pub obey-mem :
        (commands : List (Command Payload)) (e : Engine Payload) (x : Event Payload)
        → Mem x e.events
        → Mem x (obey heap event_name e commands).events
    unfolding obey
    obey-mem [] e x m = m
    obey-mem (schedules event ∷ rest) e x m =
        obey-mem rest (schedule_event heap event_name e event) x (schedule_event-mem e event x m)
    obey-mem (triggers err ∷ rest) e x m =
        obey-mem rest (trigger_guard_failure e err) x (rw (trigger-events e err) m)

    -- The queue stays a heap.
    pub schedule_event-IsHeap :
        (e : Engine Payload) (event : Event Payload)
        → heap.IsHeap e.events
        → heap.IsHeap (schedule_event heap event_name e event).events
    schedule_event-IsHeap e event h =
        schedule_event_cases (λ d. heap.IsHeap d.events) e event
          (λ err. rw (trigger-events (record e { event_counter = suc e.event_counter }) err) h)
          (heap.push-IsHeap (stamp event_name (suc e.event_counter) event) e.events h)

    pub obey-IsHeap :
        (commands : List (Command Payload)) (e : Engine Payload)
        → heap.IsHeap e.events
        → heap.IsHeap (obey heap event_name e commands).events
    unfolding obey
    obey-IsHeap [] e h = h
    obey-IsHeap (schedules event ∷ rest) e h =
        obey-IsHeap rest (schedule_event heap event_name e event) (schedule_event-IsHeap e event h)
    obey-IsHeap (triggers err ∷ rest) e h =
        obey-IsHeap rest (trigger_guard_failure e err) (rw (trigger-events e err) h)
