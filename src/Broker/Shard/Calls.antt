-- ===== src/Broker/Shard/Calls.antt =====
-- The calls that a shard gets, one at a time under its lock.
use simulation_core.Base.{ℕ, ◌≤◌, String, List, [], ◌∷◌}
use simulation_core.Base.Int.{ℤ}
use simulation_core.Broker.Shard.{
  Shard, QueuedMessage, enqueue, try_pop_for_dispatch, consumer_finished, requeue_front,
  expire_queued_by_retention,
}

-- A call that a shard gets from the broker's event handlers.
pub data Call (Payload : Type 0) : Type 0 where
  publishes : QueuedMessage Payload → Call Payload
  dispatches : Call Payload
  finishes : Call Payload
  requeues : QueuedMessage Payload → Call Payload
  expires : ℕ → ℤ → Call Payload

module _ {Payload Float : Type 0} (normalise : String → String) where
  abbrev pub step : Shard Payload Float → Call Payload → Shard Payload Float
  step s (publishes m) = (enqueue normalise s m).1
  step s dispatches = (try_pop_for_dispatch s).1
  step s finishes = consumer_finished s
  step s (requeues m) = requeue_front s m
  step s (expires now retention_ms) = (expire_queued_by_retention s now retention_ms).1

  -- A consumer finishes, or its message is put back, only while one is in flight.
  abbrev pub Allowed : Shard Payload Float → Call Payload → Type 0
  Allowed s finishes = 1 ≤ s.in_flight
  Allowed s (requeues m) = 1 ≤ s.in_flight
  Allowed s _ = Unit {0}

  abbrev pub steps : Shard Payload Float → List (Call Payload) → Shard Payload Float
  steps s [] = s
  steps s (c ∷ rest) = steps (step s c) rest

  abbrev pub AllAllowed : Shard Payload Float → List (Call Payload) → Type 0
  AllAllowed s [] = Unit {0}
  AllAllowed s (c ∷ rest) = Allowed s c × AllAllowed (step s c) rest
