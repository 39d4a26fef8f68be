-- ===== src/Broker/Shard/Bounded.antt =====
-- The bounds of a shard: its consumer slots and its capacity.
use simulation_core.Base.{
  ℕ, ◌+◌, ◌*◌, ◌≤◌, ◌<◌, ◌≡◌, refl, ap, String, List, [], ◌∷◌, Option, ◌&&◌, arith, if_elim, ltb,
  leb, length, length-append,
}
use simulation_core.Base.Int.{ℤ, pos, leb_ℤ, ◌-ℤ◌, pos_part}
use simulation_core.Broker.Shard.{
  Shard, QueuedMessage, EnqueueResult, DropPolicy, reject, drop_newest, drop_oldest, block, other,
  policy_of, capacity_reached, enqueue, enqueue_full, replace_oldest, try_pop_for_dispatch,
  pop_from, consumer_finished, requeue_front, expire_queued_by_retention,
}
use simulation_core.Broker.Shard.Calls.{
  Call, publishes, dispatches, finishes, requeues, expires, step, Allowed,
}
use simulation_core.Broker.Shard.Conserved.{expire_loop-length}

module _ {Payload Float : Type 0} where
  -- No more consumers than slots, and where the capacity is limited, no more messages queued and in
  -- flight than the capacity and the slots together.
  pub record IsBounded (s : Shard Payload Float) : Type 0 where
    pub some_slot : 1 ≤ s.max_concurrency
    pub slots : s.in_flight ≤ s.max_concurrency
    pub room : 1 ≤ s.capacity → length s.messages + s.in_flight ≤ s.capacity + s.max_concurrency

  module _ (normalise : String → String) where
    replace_oldest-IsBounded :
        (s : Shard Payload Float) (messages : List (QueuedMessage Payload))
        (m : QueuedMessage Payload)
        → s.messages ≡ messages
        → IsBounded s
        → IsBounded (replace_oldest s messages m).1
    replace_oldest-IsBounded s [] m h b = record {
      some_slot = b.some_slot;
      slots = b.slots;
      room = λ limited. let slots = b.slots in omega (arith, limited, slots);
    }
    replace_oldest-IsBounded s (oldest ∷ rest) m h b = record {
      some_slot = b.some_slot;
      slots = b.slots;
      room = λ limited.
          let l = ap length h in
          let room = b.room limited in omega (arith, l, room, length-append rest (m ∷ []));
    }

    enqueue_full-IsBounded :
        (policy : DropPolicy) (s : Shard Payload Float) (m : QueuedMessage Payload)
        → IsBounded s
        → IsBounded (enqueue_full policy s m).1
    enqueue_full-IsBounded reject s m b = record {
      some_slot = b.some_slot;
      slots = b.slots;
      room = b.room;
    }
    enqueue_full-IsBounded drop_newest s m b = record {
      some_slot = b.some_slot;
      slots = b.slots;
      room = b.room;
    }
    enqueue_full-IsBounded drop_oldest s m b = replace_oldest-IsBounded s s.messages m refl b
    enqueue_full-IsBounded block s m b = record {
      some_slot = b.some_slot;
      slots = b.slots;
      room = b.room;
    }
    enqueue_full-IsBounded other s m b = record {
      some_slot = b.some_slot;
      slots = b.slots;
      room = b.room;
    }

    enqueue-IsBounded :
        (s : Shard Payload Float) (m : QueuedMessage Payload)
        → IsBounded s
        → IsBounded (enqueue normalise s m).1
    unfolding enqueue
    enqueue-IsBounded s m b =
        if_elim (λ (r : EnqueueResult × Shard Payload Float). IsBounded r.1) (capacity_reached s)
          (λ _. enqueue_full-IsBounded (policy_of (normalise s.drop_policy)) s m b)
          (λ free. record {
            some_slot = b.some_slot;
            slots = b.slots;
            room = λ limited.
                let slots = b.slots in let l = length-append s.messages (m ∷ []) in ground arith;
          })

    pop_from-IsBounded :
        (s : Shard Payload Float) (messages : List (QueuedMessage Payload))
        → s.messages ≡ messages
        → s.in_flight < s.max_concurrency
        → IsBounded s
        → IsBounded (pop_from s messages).1
    pop_from-IsBounded s [] h free b = b
    pop_from-IsBounded s (m ∷ rest) h free b = record {
      some_slot = b.some_slot;
      slots = omega (arith, free);
      room = λ limited. let l = ap length h in let room = b.room limited in omega (arith, l, room);
    }

    pop-IsBounded : (s : Shard Payload Float) → IsBounded s → IsBounded (try_pop_for_dispatch s).1
    unfolding try_pop_for_dispatch
    pop-IsBounded s b =
        if_elim (λ (r : Option (QueuedMessage Payload) × Shard Payload Float). IsBounded r.1)
          (ltb 0 s.max_concurrency && leb s.max_concurrency s.in_flight) (λ _. b)
          (λ free. let slot = b.some_slot in pop_from-IsBounded s s.messages refl (ground arith) b)

    expire-IsBounded :
        (s : Shard Payload Float) (now : ℕ) (retention_ms : ℤ)
        → IsBounded s
        → IsBounded (expire_queued_by_retention s now retention_ms).1
    unfolding expire_queued_by_retention
    expire-IsBounded s now retention_ms b =
        if_elim (λ (r : List ℕ × Shard Payload Float). IsBounded r.1) (leb_ℤ retention_ms (pos 0))
          (λ _. b)
          (λ _. record {
            some_slot = b.some_slot;
            slots = b.slots;
            room = λ limited.
                let room = b.room limited in
                omega (
                  arith,
                  room,
                  expire_loop-length (pos now -ℤ pos (pos_part retention_ms * 1000000)) s.messages,
                );
          })

    -- Every call keeps the bounds, where consumers finish and messages are put back only while one is
    -- in flight: no more consumers than slots, and where the capacity is limited, no more messages
    -- queued and in flight than the capacity and the slots together.
    pub step-IsBounded :
        (s : Shard Payload Float) (c : Call Payload)
        → Allowed normalise s c
        → IsBounded s
        → IsBounded (step normalise s c)
    unfolding consumer_finished requeue_front
    step-IsBounded s (publishes m) a b = enqueue-IsBounded s m b
    step-IsBounded s dispatches a b = pop-IsBounded s b
    step-IsBounded s finishes a b = record {
      some_slot = b.some_slot;
      slots = let slots = b.slots in omega (arith, slots);
      room = λ limited. let room = b.room limited in omega (arith, room);
    }
    step-IsBounded s (requeues m) a b = record {
      some_slot = b.some_slot;
      slots = let slots = b.slots in omega (arith, slots);
      room = λ limited. let room = b.room limited in omega (arith, room, a);
    }
    step-IsBounded s (expires now retention_ms) a b = expire-IsBounded s now retention_ms b
