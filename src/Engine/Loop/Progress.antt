-- ===== src/Engine/Loop/Progress.antt =====
-- One turn of Engine.Run in internal/engine/engine.go, its effect on the end event and the count.
use mathlib.Core.List.{Mem, Mem-prop, mem-cons, not-mem-nil}
use mathlib.Core.List.Perm
use mathlib.Core.Logic.Or
use simulation_core.Base.{
  ℕ, suc, ◌≡◌, ◌≢◌, inl, inr, refl, sym, ap, ◌∙◌, true, false, String, List, [], ◌∷◌, Option, none,
  some, arith, if_elim, Option-cases, ltb, ltb→lt, ◌&&◌,
}
use simulation_core.Base.Int.{pos}
use simulation_core.Engine.Event.{Event, EventType, simulation_end, less}
use simulation_core.Engine.Heap.{HeapOps}
use simulation_core.Engine.Queue.{next}
use simulation_core.Engine.State.{
  Engine, exceeds, limit_exceeded, set_sim_time, wall_clock_runtime, events_processed,
}
use simulation_core.Engine.Loop.{
  Turn, Handler, Outcome, again, ended, stopped, check_wall_clock, one_turn, take_next, process,
  at_end, over_processed, is_end, milliseconds, handle, see_queue, go_on,
}
use simulation_core.Engine.Loop.Frame.{
  trigger-latched, schedule_event-Same, schedule_event-mem, schedule_event-IsHeap, obey-Same,
  obey-mem, obey-IsHeap,
}

module _ {Payload : Type 0} where
  -- The loop has returned.
  abbrev pub Ends : Outcome Payload → Type 0
  Ends (again e) = ⊥
  Ends (ended e) = Unit {0}
  Ends (stopped err e) = Unit {0}

  -- The event that Run schedules for the end, before it is stamped.
  abbrev pub end_event : Payload → ℕ → Event Payload
  end_event empty_payload end_time = record {
    id = "";
    type = simulation_end;
    time = end_time;
    priority = pos 0;
    sequence = 0;
    service_id = "";
    payload = empty_payload;
  }

  pub check_wall_clock-none :
      (e : Engine Payload) (turn : Turn Payload)
      → (check_wall_clock e turn).guard_err ≡ none
      → check_wall_clock e turn ≡ e
  unfolding check_wall_clock
  check_wall_clock-none e turn =
      if_elim (λ d. d.guard_err ≡ none → d ≡ e) (exceeds e.limits.max_wall_clock_run turn.elapsed)
        (λ _ h. cc (
          trigger-latched e (
            limit_exceeded wall_clock_runtime (milliseconds turn.elapsed)
              (milliseconds e.limits.max_wall_clock_run))))
        (λ _ h. refl)

  over_processed-Ends : (e : Engine Payload) → Ends (over_processed e)
  unfolding over_processed
  over_processed-Ends e =
      rw
        (trigger-latched e
          (limit_exceeded events_processed (pos e.processed) e.limits.max_events_processed))
        tt

  module _ (heap : HeapOps (less {Payload = Payload})) (event_name : ℕ → String)
      (handlers : EventType → Option (Handler Payload)) (empty_payload : Payload) (end_time : ℕ)
      (final : Event Payload) (final_type : is_end final.type ≡ true)
      (final_time : final.time ≡ end_time) where
    -- What a turn that does not end the run leaves behind.
    pub record Waiting (e f : Engine Payload) : Type 0 where
      pub within : exceeds e.limits.max_events_processed (pos (suc e.processed)) ≡ false
      pub counted : f.processed ≡ suc e.processed
      pub limits : f.limits ≡ e.limits
      pub heaped : heap.IsHeap f.events
      pub final_queued : Mem final f.events

    abbrev pub Progress : Engine Payload → Outcome Payload → Type 0
    Progress e (again f) = Waiting e f
    Progress e (ended f) = Unit {0}
    Progress e (stopped err f) = Unit {0}

    pub Ends-Progress : (e : Engine Payload) (o : Outcome Payload) → Ends o → Progress e o
    Ends-Progress e (again f) h = absurd h
    Ends-Progress e (ended f) h = tt
    Ends-Progress e (stopped err f) h = tt

    Progress-see :
        (e : Engine Payload) (rest : List (Event Payload)) (o : Outcome Payload)
        → Progress (see_queue (record e { events = rest })) o
        → Progress e o
    Progress-see e rest (again f) w = record {
      within = w.within;
      counted = w.counted;
      limits = w.limits;
      heaped = w.heaped;
      final_queued = w.final_queued;
    }
    Progress-see e rest (ended f) w = tt
    Progress-see e rest (stopped err f) w = tt

    pub go_on-Ends :
        (e : Engine Payload) (o : Outcome Payload) (next_turn : Engine Payload → Outcome Payload)
        → Progress e o
        → ((f : Engine Payload) → Waiting e f → Ends (next_turn f))
        → Ends (go_on o next_turn)
    go_on-Ends e (again f) next_turn w h = h f w
    go_on-Ends e (ended f) next_turn w h = tt
    go_on-Ends e (stopped err f) next_turn w h = tt

    too_early : (event : Event Payload) → ltb event.time end_time ≡ true → final ≢ event
    too_early event early same =
        let at : event.time ≡ end_time =
          sym (ap (λ (x : Event Payload). x.time) same) ∙ final_time in
        absurd (omega (arith, ltb→lt _ _ early))

    differs : (event : Event Payload) → is_end event.type ≡ false → final ≢ event
    differs event other same =
        let ends : is_end event.type ≡ true =
          sym (ap (λ (x : Event Payload). is_end x.type) same) ∙ final_type in
        cc

    -- The final event is still queued unless it was the one taken.
    final-kept :
        (event : Event Payload) (rest : List (Event Payload))
        → final ≢ event
        → Mem final (event ∷ rest)
        → Mem final rest
    final-kept event rest ne m = Or.elim Mem-prop (mem-cons.0 m) (λ e. absurd (ne e)) (λ k. k)

    module _ (d e : Engine Payload) (one : e.processed ≡ suc d.processed)
        (same : e.limits ≡ d.limits)
        (few : exceeds d.limits.max_events_processed (pos (suc d.processed)) ≡ false) where
      at_end-Progress :
          (event : Event Payload) (turn : Turn Payload)
          → heap.IsHeap e.events
          → (final ≢ event → Mem final e.events)
          → Progress d (at_end heap event_name handlers empty_payload e event end_time turn)
      unfolding at_end
      at_end-Progress event turn h m =
          if_elim (Progress d) (ltb event.time end_time)
            (λ early.
              let last = end_event empty_payload end_time in
              let q = schedule_event-Same heap event_name e last in
              record {
                within = few;
                counted = q.processed ∙ one;
                limits = q.limits ∙ same;
                heaped = schedule_event-IsHeap heap event_name e last h;
                final_queued =
                    schedule_event-mem heap event_name e last final (m (too_early event early));
              })
            (λ _. if_elim (Progress d) (e.real_time_mode && turn.interrupted) (λ _. tt) (λ _. tt))

      handle-Progress :
          (handler : Option (Handler Payload)) (event : Event Payload)
          → heap.IsHeap e.events
          → Mem final e.events
          → Waiting d (handle heap event_name handler (set_sim_time e event.time) event)
      handle-Progress none event h m = record {
        within = few;
        counted = one;
        limits = same;
        heaped = h;
        final_queued = m;
      }
      handle-Progress (some handler) event h m =
          let moved = set_sim_time e event.time in
          let commands = handler moved event in
          let q = obey-Same heap event_name commands moved in
          record {
            within = few;
            counted = q.processed ∙ one;
            limits = q.limits ∙ same;
            heaped = obey-IsHeap heap event_name commands moved h;
            final_queued = obey-mem heap event_name commands moved final m;
          }

    process-Progress :
        (d : Engine Payload) (event : Event Payload) (turn : Turn Payload)
        → heap.IsHeap d.events
        → (final ≢ event → Mem final d.events)
        → Progress d (process heap event_name handlers empty_payload d event end_time turn)
    unfolding process
    process-Progress d event turn h m =
        let e : Engine Payload = record d { processed = suc d.processed } in
        if_elim (Progress d) (exceeds d.limits.max_events_processed (pos (suc d.processed)))
          (λ _. Ends-Progress d _ (over_processed-Ends e))
          λ few.
            if_elim (Progress d) (is_end event.type)
              (λ _. at_end-Progress d e refl refl few event turn h m)
              (λ other.
                handle-Progress d e refl refl few (handlers event.type) event h
                  (m (differs event other)))

    taken :
        (e : Engine Payload) (event : Event Payload) (events rest : List (Event Payload))
        → e.events ≡ event ∷ events
        → heap.pop (event ∷ events) ≡ some (event, rest)
        → next heap e.events ≡ some (event, rest)
    unfolding next
    taken e event events rest q popped = ap (next heap) q ∙ popped

    take_next-Progress :
        (e : Engine Payload) (events : List (Event Payload)) (turn : Turn Payload)
        → e.events ≡ events
        → heap.IsHeap events
        → Mem final events
        → Progress e (take_next heap event_name handlers empty_payload e end_time turn)
    unfolding take_next
    take_next-Progress e [] turn q h m = absurd (not-mem-nil m)
    take_next-Progress e (event ∷ events) turn q h m =
        let popped = heap.pop-cons event events h in
        let rest = popped.0 in
        let d = see_queue (record e { events = rest }) in
        let p =
          process-Progress d event turn popped.2
            (λ ne. (Perm.mem_iff popped.3).1 (final-kept event events ne m)) in
        rw (taken e event events rest q popped.1, take_next) (Progress-see e rest _ p)

    pub one_turn-Progress :
        (e : Engine Payload) (turn : Turn Payload)
        → heap.IsHeap e.events
        → Mem final e.events
        → Progress e (one_turn heap event_name handlers empty_payload e end_time turn)
    unfolding one_turn
    one_turn-Progress e turn h m = elim (Option-cases (check_wall_clock e turn).guard_err) [
      | inr (err, tripped) ↦ rw (tripped, one_turn) tt
      | inl clear ↦
          let same = check_wall_clock-none e turn clear in
          rw (clear, one_turn)
            (rw same (
              if_elim (Progress e) e.cancelled (λ _. tt)
                (λ _. take_next-Progress e e.events turn refl h m)))
    ]
