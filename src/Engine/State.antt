-- ===== src/Engine/State.antt =====
-- The engine's state and the operations that schedule events and trip the guards, from
-- internal/engine/engine.go. Counters are int64 in the source and do not overflow here; logging is
-- left out. `event_name n` stands for `fmt.Sprintf("evt-%d", n)`.
use simulation_core.Base.{
  ℕ, suc, ◌+◌, ◌==◌, Bool, true, false, String, List, Option, none, some, ◌&&◌, ◌=ₛ◌, if◌then◌else◌,
}
use simulation_core.Base.Int.{ℤ, pos, ltb_ℤ, ◌+ℤ◌, pos_part}
use simulation_core.Engine.Event.{Event, EventType, less}
use simulation_core.Engine.Heap.{HeapOps}
use simulation_core.Engine.Queue.{schedule, size, new_event_queue, clear}

-- A limit that is not positive is off.
pub record RuntimeLimits : Type 0 where
  pub max_events_scheduled : ℤ
  pub max_events_processed : ℤ
  pub max_event_queue_size : ℤ
  pub max_wall_clock_run : ℤ

pub data Limit : Type 0 where
  events_scheduled event_queue_size wall_clock_runtime events_processed : Limit

-- `limit_exceeded` is LimitExceededError; `reported` is any error that TriggerLimitExceeded is given.
pub data GuardError : Type 0 where
  limit_exceeded : Limit → (value max : ℤ) → GuardError
  reported : String → GuardError

pub data RunStatus : Type 0 where
  pending running completed failed : RunStatus

-- `cancelled` says that the run manager's context is done.
pub record Engine (Payload : Type 0) : Type 0 where
  pub events : List (Event Payload)
  pub sim_time : ℕ
  pub event_counter : ℕ
  pub processed : ℕ
  pub limits : RuntimeLimits
  pub guard_err : Option GuardError
  pub cancelled : Bool
  pub status : RunStatus
  pub max_queue_seen : ℕ
  pub real_time_mode : Bool

abbrev pub no_limits : RuntimeLimits
no_limits = record {
  max_events_scheduled = pos 0;
  max_events_processed = pos 0;
  max_event_queue_size = pos 0;
  max_wall_clock_run = pos 0;
}

-- `max > 0 && value > max`
abbrev pub exceeds : ℤ → ℤ → Bool
exceeds max value = ltb_ℤ (pos 0) max && ltb_ℤ max value

module _ {Payload : Type 0} where
  unfoldable pub new_engine : ℕ → Engine Payload
  new_engine start = record {
    events = new_event_queue;
    sim_time = start;
    event_counter = 0;
    processed = 0;
    limits = no_limits;
    guard_err = none;
    cancelled = false;
    status = pending;
    max_queue_seen = 0;
    real_time_mode = false;
  }

  abbrev pub set_runtime_limits : Engine Payload → RuntimeLimits → Engine Payload
  set_runtime_limits e limits = record e { limits = limits }

  abbrev pub set_real_time_mode : Engine Payload → Bool → Engine Payload
  set_real_time_mode e mode = record e { real_time_mode = mode }

  abbrev pub set_sim_time : Engine Payload → ℕ → Engine Payload
  set_sim_time e t = record e { sim_time = t }

  -- Stop cancels the run and clears the queue.
  abbrev pub stop : Engine Payload → Engine Payload
  stop e = record e { cancelled = true; events = clear e.events }

  -- Only the first error is kept, and only it cancels the run.
  abbrev pub latch : Option GuardError → GuardError → Engine Payload → Engine Payload
  latch none err e = record e { guard_err = some err; cancelled = true }
  latch (some old) err e = e

  unfoldable pub trigger_guard_failure : Engine Payload → GuardError → Engine Payload
  trigger_guard_failure e err = latch e.guard_err err e

  -- The id and the sequence that an event without them is given.
  unfoldable pub stamp : (ℕ → String) → ℕ → Event Payload → Event Payload
  stamp event_name counter event = record event {
    id = if event.id =ₛ "" then event_name counter else event.id;
    sequence = if event.sequence == 0 then counter else event.sequence;
  }

  module _ (heap : HeapOps (less {Payload = Payload})) (event_name : ℕ → String) where
    unfoldable pub schedule_event : Engine Payload → Event Payload → Engine Payload
    schedule_event e event =
        let counter = suc e.event_counter in
        let counted : Engine Payload = record e { event_counter = counter } in
        let next_size = size e.events + 1 in
        if exceeds e.limits.max_events_scheduled (pos counter)
        then trigger_guard_failure counted
            (limit_exceeded events_scheduled (pos counter) e.limits.max_events_scheduled)
        else if exceeds e.limits.max_event_queue_size (pos next_size)
        then trigger_guard_failure counted
            (limit_exceeded event_queue_size (pos next_size) e.limits.max_event_queue_size)
        else record counted { events = schedule heap (stamp event_name counter event) e.events }

    -- An event that ScheduleAt, ScheduleAtPriority and ScheduleAfter build.
    abbrev pub schedule_at_priority :
        Engine Payload → EventType → ℕ → ℤ → String → Payload → Engine Payload
    schedule_at_priority e type time priority service payload = schedule_event e (record {
      id = "";
      type = type;
      time = time;
      priority = priority;
      sequence = 0;
      service_id = service;
      payload = payload;
    })

    abbrev pub schedule_at : Engine Payload → EventType → ℕ → String → Payload → Engine Payload
    schedule_at e type time service payload =
        schedule_at_priority e type time (pos 0) service payload

    -- A delay that would reach before Go's zero time is cut off there.
    abbrev pub schedule_after : Engine Payload → EventType → ℤ → String → Payload → Engine Payload
    schedule_after e type delay service payload =
        schedule_at e type (pos_part (pos e.sim_time +ℤ delay)) service payload
