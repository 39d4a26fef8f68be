-- ===== src/Broker/Registry/Laws.antt =====
-- What the registry of shards and offsets promises.
use simulation_core.Base.{
  ℕ, suc, ◌+◌, ◌≤◌, ◌≡◌, refl, ap, ◌∙◌, String, List, [], ◌∷◌, Option, none, some, ◌=ₛ◌,
  if◌then◌else◌, arith, eq_iff,
}
use simulation_core.Base.Int.{ℤ}
use simulation_core.Base.Dict.{Dict, lookup, lookup-insert}
use simulation_core.Broker.Shard.{Shard}
use simulation_core.Broker.Shard.Calls.{Call, step, steps, AllAllowed}
use simulation_core.Broker.Shard.Bounded.{IsBounded, step-IsBounded}
use simulation_core.Broker.Registry.{
  BrokerQueues, QueueBehavior, or_default, default_queue_behavior, broker_queue_key, or_zero,
  at_least_one, high_watermark_of, next_offset_of, new_queue_shard, queue_shard_or,
  get_or_create_shard, get_shard,
}

-- The number of assignments for one partition's key among several.
abbrev pub count : String → List String → ℕ
count key [] = 0
count key (k ∷ keys) = let rest = count key keys in if k =ₛ key then suc rest else rest

at_least_one_lem : (n : ℤ) → 1 ≤ at_least_one n
at_least_one_lem n = ground arith

module _ {Payload Float : Type 0} where
  -- Offsets are assigned for the keys one after another.
  abbrev pub assign_all : BrokerQueues Payload Float → List String → BrokerQueues Payload Float
  assign_all b [] = b
  assign_all b (k ∷ keys) = assign_all (next_offset_of b k).1 keys

  after_next :
      (b : BrokerQueues Payload Float) (k key : String)
      → high_watermark_of (next_offset_of b k).1 key
        ≡ (if k =ₛ key then suc (high_watermark_of b k) else high_watermark_of b key)
  unfolding next_offset_of
  after_next b k key =
      rw (lookup-insert k key (suc (high_watermark_of b k)) b.topic_partition_hw) (ground arith)

  high_watermark-assign_all :
      (keys : List String) (b : BrokerQueues Payload Float) (key : String)
      → high_watermark_of (assign_all b keys) key ≡ high_watermark_of b key + count key keys
  high_watermark-assign_all [] b key = omega arith
  high_watermark-assign_all (k ∷ keys) b key = ground (
    arith,
    high_watermark-assign_all keys (next_offset_of b k).1 key,
    after_next b k key,
    eq_iff k key,
  )

  -- The offsets of a partition count up from zero without gaps, whatever is assigned to other
  -- partitions in between: after any assignments the next offset of a key is the number of those that
  -- were for it.
  pub next_offset-assign_all :
      (keys : List String) (b : BrokerQueues Payload Float) (key : String)
      → b.topic_partition_hw ≡ []
      → (next_offset_of (assign_all b keys) key).0 ≡ count key keys
  unfolding next_offset_of lookup
  next_offset-assign_all keys b key empty =
      let none_yet = ap (λ (hw : Dict ℕ). or_zero (lookup key hw)) empty in
      omega (arith, high_watermark-assign_all keys b key, none_yet)

  stored :
      (b : BrokerQueues Payload Float) (key : String) (fresh : Shard Payload Float)
      (o : Option (Shard Payload Float))
      → lookup key b.queue_shards ≡ o
      → lookup key (queue_shard_or b key fresh o).1.queue_shards
        ≡ some (queue_shard_or b key fresh o).0
  stored b key fresh none h =
      lookup-insert key key fresh b.queue_shards ∙ ground (arith, eq_iff key key)
  stored b key fresh (some found) h = h

  -- The shard of a queue is made once: the one that a call returns is stored, stays the one that later
  -- calls return whatever configuration they bring, and they change nothing.
  pub get_or_create_shard-again :
      (b : BrokerQueues Payload Float) (broker topic : String) (eff later : Option QueueBehavior)
      → (get_shard (get_or_create_shard b broker topic eff).1 broker topic
          ≡ some (get_or_create_shard b broker topic eff).0)
        × (get_or_create_shard (get_or_create_shard b broker topic eff).1 broker topic later
            ≡ get_or_create_shard b broker topic eff)
  unfolding get_or_create_shard
  get_or_create_shard-again b broker topic eff later =
      let key = broker_queue_key broker topic in
      let fresh : Shard Payload Float =
        new_queue_shard broker topic (or_default default_queue_behavior eff) in
      let kept = stored b key fresh (lookup key b.queue_shards) refl in
      (
        kept,
        ap
            (queue_shard_or (get_or_create_shard b broker topic eff).1 key
              (new_queue_shard broker topic (or_default default_queue_behavior later)))
            kept,
      )

  steps-IsBounded :
      (normalise : String → String) (calls : List (Call Payload)) (s : Shard Payload Float)
      → AllAllowed normalise s calls
      → IsBounded s
      → IsBounded (steps normalise s calls)
  steps-IsBounded normalise [] s a b = b
  steps-IsBounded normalise (c ∷ calls) s a b =
      steps-IsBounded normalise calls (step normalise s c) a.1 (step-IsBounded normalise s c a.0 b)

  -- Whatever its configuration, a queue shard that is made has a consumer slot, and over any calls in
  -- which consumers finish and messages are put back only while one is in flight it never has more
  -- consumers than slots, nor, where its capacity is limited, more messages queued and in flight than
  -- the capacity and the slots together.
  pub new_queue_shard-IsBounded :
      (normalise : String → String) (broker topic : String) (eff : QueueBehavior)
      (calls : List (Call Payload))
      → AllAllowed {Float = Float} normalise (new_queue_shard broker topic eff) calls
      → IsBounded {Payload = Payload} {Float = Float}
          (steps normalise (new_queue_shard broker topic eff) calls)
  new_queue_shard-IsBounded normalise broker topic eff calls a =
      steps-IsBounded normalise calls (new_queue_shard broker topic eff) a (record {
        some_slot = at_least_one_lem eff.consumer_concurrency;
        slots = omega arith;
        room = λ limited. omega arith;
      })
