-- ===== src/Engine/Loop/Onward.antt =====
-- The clock over the turns of Engine.Run in internal/engine/engine.go.
use mathlib.Core.List.{mem-cons_self}
use mathlib.Core.List.Perm
use simulation_core.Base.{
  ℕ, suc, ◌-◌, ◌≤◌, ◌≡◌, inl, inr, refl, sym, ap, subst, ◌∙◌, not, String, List, [], ◌∷◌, Option,
  none, some, arith, if_elim, Option-cases, ltb, ltb→lt, ◌&&◌, All,
}
use simulation_core.Base.Int.{pos}
use simulation_core.Engine.Event.{Event, EventType, less}
use simulation_core.Engine.Heap.{HeapOps}
use simulation_core.Engine.Queue.{next, peek, is_empty}
use simulation_core.Engine.State.{Engine, exceeds, limit_exceeded, set_sim_time, events_processed}
use simulation_core.Engine.Loop.{
  Turn, Handler, Outcome, again, ended, stopped, check_wall_clock, one_turn, take_next, process,
  at_end, over_processed, event_loop, is_end, handle, see_queue, go_on, idle, end_first,
}
use simulation_core.Engine.Loop.Frame.{obey-Same, trigger-Same, trigger-latched}
use simulation_core.Engine.Loop.Progress.{end_event, check_wall_clock-none}
use simulation_core.Engine.Loop.Clock.{
  check_wall_clock-time, next-nil, next-cons, head-least, Ahead, Timely, Later, schedule_event-time,
  schedule_event-Timely, obey-Timely,
}

module _ {Payload : Type 0} where
  module _ (heap : HeapOps (less {Payload = Payload})) (event_name : ℕ → String)
      (handlers : EventType → Option (Handler Payload)) (empty_payload : Payload) (end_time : ℕ)
      (handlers-Later : (type : EventType) (handler : Handler Payload) (e : Engine Payload)
          (event : Event Payload)
        → handlers type ≡ some handler
        → Later heap event_name e.sim_time (handler e event)) where
    -- After a turn that began at time t the clock stands at t or later, and if the loop goes on the
    -- queue is timely.
    abbrev pub Onward : ℕ → Outcome Payload → Type 0
    Onward t (again f) = (t ≤ f.sim_time) × Timely heap f
    Onward t (ended f) = t ≤ f.sim_time
    Onward t (stopped err f) = t ≤ f.sim_time

    Onward-trans : (s t : ℕ) (o : Outcome Payload) → s ≤ t → Onward t o → Onward s o
    Onward-trans s t (again f) h w = (omega (arith, h, w.0), w.1)
    Onward-trans s t (ended f) h w = omega (arith, h, w)
    Onward-trans s t (stopped err f) h w = omega (arith, h, w)

    -- What other goroutines do while the loop sleeps keeps the clock and the queue in order.
    abbrev pub Undisturbed : Turn Payload → Type 0
    Undisturbed turn =
        (e : Engine Payload)
        → Timely heap e
        → (e.sim_time ≤ (turn.meanwhile e).sim_time) × Timely heap (turn.meanwhile e)

    idle-Onward :
        (e : Engine Payload) (turn : Turn Payload)
        → Undisturbed turn
        → Timely heap e
        → Onward e.sim_time (idle e end_time turn)
    unfolding idle
    idle-Onward e turn calm k =
        let waited = turn.meanwhile e in
        if_elim (Onward e.sim_time) (not (ltb e.sim_time end_time)) (λ _. omega arith)
          λ before.
            if_elim (Onward e.sim_time) (end_first (peek e.events)) (λ _. calm e k)
              λ _.
                if_elim (Onward e.sim_time)
                  (is_empty waited.events && ltb (end_time - e.sim_time) 200000000)
                  (λ _. ground arith) (λ _. calm e k)

    over_processed-Onward : (e : Engine Payload) → Onward e.sim_time (over_processed e)
    unfolding over_processed
    over_processed-Onward e =
        let err = limit_exceeded events_processed (pos e.processed) e.limits.max_events_processed in
        let time = (trigger-Same e err).sim_time in rw (trigger-latched e err) (omega (arith, time))

    at_end-Onward :
        (e : Engine Payload) (event : Event Payload) (turn : Turn Payload)
        → e.sim_time ≤ event.time
        → heap.IsHeap e.events
        → Ahead heap event.time e.events
        → Onward e.sim_time (at_end heap event_name handlers empty_payload e event end_time turn)
    unfolding at_end
    at_end-Onward e event turn h k l =
        let last = end_event empty_payload end_time in
        if_elim (Onward e.sim_time) (ltb event.time end_time)
          (λ early.
            let before = ltb→lt _ _ early in
            (
              rw (schedule_event-time heap event_name e last) (omega arith),
              schedule_event-Timely heap event_name e last (omega (arith, h, before))
                  (record { heaped = k; ahead = λ x m. let n = l x m in omega (arith, h, n) }),
            ))
          (λ _.
            if_elim (Onward e.sim_time) (e.real_time_mode && turn.interrupted) (λ _. h) (λ _. h))

    handled_time :
        (handler : Option (Handler Payload)) (e : Engine Payload) (event : Event Payload)
        → (handle heap event_name handler e event).sim_time ≡ e.sim_time
    handled_time none e event = refl
    handled_time (some handler) e event = (obey-Same heap event_name (handler e event) e).sim_time

    handle-Timely :
        (o : Option (Handler Payload)) (e : Engine Payload) (event : Event Payload)
        → handlers event.type ≡ o
        → Timely heap e
        → Timely heap (handle heap event_name o e event)
    handle-Timely none e event q k = k
    handle-Timely (some handler) e event q k =
        obey-Timely heap event_name (handler e event) e
          (handlers-Later event.type handler e event q) k

    -- An event that is taken stands at or after the clock, and the rest at or after the event.
    process-Onward :
        (e : Engine Payload) (event : Event Payload) (turn : Turn Payload)
        → e.sim_time ≤ event.time
        → heap.IsHeap e.events
        → Ahead heap event.time e.events
        → Onward e.sim_time (process heap event_name handlers empty_payload e event end_time turn)
    unfolding process
    process-Onward e event turn h k l =
        let counted : Engine Payload = record e { processed = suc e.processed } in
        if_elim (Onward e.sim_time) (exceeds e.limits.max_events_processed (pos (suc e.processed)))
          (λ _. over_processed-Onward counted)
          λ _.
            if_elim (Onward e.sim_time) (is_end event.type)
              (λ _. at_end-Onward counted event turn h k l)
              (λ _. (
                rw (handled_time (handlers event.type) (set_sim_time counted event.time) event) h,
                handle-Timely (handlers event.type) (set_sim_time counted event.time) event refl
                    (record { heaped = k; ahead = l }),
              ))

    taken-Onward :
        (e : Engine Payload) (events : List (Event Payload)) (turn : Turn Payload)
        → e.events ≡ events
        → Undisturbed turn
        → heap.IsHeap events
        → Ahead heap e.sim_time events
        → Onward e.sim_time (take_next heap event_name handlers empty_payload e end_time turn)
    unfolding take_next
    taken-Onward e [] turn q calm h a =
        rw (ap (next heap) q ∙ next-nil heap, take_next)
          (idle-Onward (see_queue e) turn calm
            (record { heaped = subst heap.IsHeap (sym q) h; ahead = rw q a }))
    taken-Onward e (event ∷ events) turn q calm h a =
        let popped = heap.pop-cons event events h in
        let rest = popped.0 in
        let first : next heap e.events ≡ some (event, rest) =
          ap (next heap) q ∙ next-cons heap event events rest popped.1 in
        let p =
          process-Onward (see_queue (record e { events = rest })) event turn (a event mem-cons_self)
            popped.2 (λ x m. head-least heap event events h x ((Perm.mem_iff popped.3).0 m)) in
        rw (first, take_next) p

    -- A turn does not put the clock back, and leaves the queue timely.
    one_turn-Onward :
        (e : Engine Payload) (turn : Turn Payload)
        → Undisturbed turn
        → Timely heap e
        → Onward e.sim_time (one_turn heap event_name handlers empty_payload e end_time turn)
    unfolding one_turn
    one_turn-Onward e turn calm k = elim (Option-cases (check_wall_clock e turn).guard_err) [
      | inr (err, tripped) ↦
          rw (tripped, one_turn) (rw (check_wall_clock-time e turn) (omega arith))
      | inl clear ↦
          let same = check_wall_clock-none e turn clear in
          rw (clear, one_turn)
            (rw same (
              if_elim (Onward e.sim_time) e.cancelled (λ _. omega arith)
                (λ _. taken-Onward e e.events turn refl calm k.heaped k.ahead)))
    ]

    go_on-Onward :
        (t : ℕ) (o : Outcome Payload) (next_turn : Engine Payload → Outcome Payload)
        → Onward t o
        → ((f : Engine Payload) → Timely heap f → Onward f.sim_time (next_turn f))
        → Onward t (go_on o next_turn)
    go_on-Onward t (again f) next_turn w h = Onward-trans t f.sim_time (next_turn f) w.0 (h f w.1)
    go_on-Onward t (ended f) next_turn w h = w
    go_on-Onward t (stopped err f) next_turn w h = w

    -- The simulation clock is never put back: when every handler schedules at or after the time of
    -- the event it handles, every queued event stands at or after the clock, and what other
    -- goroutines do while the loop sleeps respects both, the loop ends or goes on with a clock that
    -- is not before the one it started with, and goes on only with a queue that is still a heap of
    -- events at or after the clock.
    pub event_loop-Onward :
        (turns : List (Turn Payload)) (e : Engine Payload)
        → All Undisturbed turns
        → Timely heap e
        → Onward e.sim_time (event_loop heap event_name handlers empty_payload e end_time turns)
    unfolding event_loop
    event_loop-Onward [] e calm k = (omega arith, k)
    event_loop-Onward (turn ∷ turns) e calm k =
        go_on-Onward e.sim_time (one_turn heap event_name handlers empty_payload e end_time turn)
          (λ f. event_loop heap event_name handlers empty_payload f end_time turns)
          (one_turn-Onward e turn calm.0 k) (λ f l. event_loop-Onward turns f calm.1 l)
