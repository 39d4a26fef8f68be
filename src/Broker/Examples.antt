-- ===== src/Broker/Examples.antt =====
-- The theorems about the broker at concrete inputs.
use simulation_core.Base.{
  ℕ, ◌++◌, zero, suc, Bool, false, ap, ◌+◌, ◌≤◌, ◌≡◌, ◌<◌, ◌↔◌, refl, true, String, List, [], ◌∷◌,
  none, some, arith, length,
}
use simulation_core.Base.Int.{pos}
use simulation_core.Broker.Commit.{contains, record_all, record_all-frontier}
use simulation_core.Broker.Shard.{
  Shard, QueuedMessage, expire_queued_by_retention, enqueue, try_pop_for_dispatch,
}
use simulation_core.Broker.Shard.Calls.{Call, publishes, dispatches, requeues, steps}
use simulation_core.Broker.Shard.Conserved.{accounted, total, finished, published, steps-accounted}
use simulation_core.Broker.Shard.Bounded.{IsBounded}
use simulation_core.Broker.Shard.Expiry.{
  AllOld, HasYoungFront, offsets_of, expire_queued_by_retention-front,
}
use simulation_core.Broker.Registry.{
  BrokerQueues, QueueBehavior, new_queue_shard, new_broker_queues, next_topic_partition_offset,
  get_or_create_shard, get_shard,
}
use simulation_core.Broker.Registry.Partitions.{
  Partition, assign_in, next_topic_partition_offset-count,
}
use simulation_core.Broker.Registry.Laws.{get_or_create_shard-again, new_queue_shard-IsBounded}

abbrev message : ℕ → ℕ → QueuedMessage ℕ
message time offset = record {
  enqueue_time = time;
  redeliveries = 0;
  topic_offset = offset;
  payload = 3;
}

abbrev behavior : QueueBehavior
behavior = record {
  queue_capacity = pos 1;
  consumer_concurrency = pos 1;
  retries = pos 3;
  policy = "drop_oldest";
  dlq = "";
  consumer = "worker:/run";
}

abbrev shard : Shard ℕ ℕ
shard = new_queue_shard "mq" "/jobs" behavior

abbrev same_text : String → String
same_text s = s

abbrev calls : List (Call ℕ)
calls = publishes (message 1 0) ∷ publishes (message 2 1) ∷ dispatches ∷ requeues (message 2 1) ∷ []

steps-accounted_example :
    accounted (steps same_text shard calls) + total finished calls
    ≡ accounted shard + total published calls
unfolding enqueue try_pop_for_dispatch
steps-accounted_example = steps-accounted same_text calls shard (tt, (tt, (tt, (omega arith, tt))))

new_queue_shard-IsBounded_example : IsBounded (steps same_text shard calls)
unfolding enqueue try_pop_for_dispatch
new_queue_shard-IsBounded_example =
    new_queue_shard-IsBounded same_text "mq" "/jobs" behavior calls
      (tt, (tt, (tt, (omega arith, tt))))

-- The last message is behind a younger one, and stays.
abbrev filled : Shard ℕ ℕ
filled = record shard { messages = message 1000000 4 ∷ message 9000000 5 ∷ message 1000000 6 ∷ [] }

expire_queued_by_retention-front_example :
    (gone kept : List (QueuedMessage ℕ)) × (message 1000000 4
        ∷ message 9000000 5
        ∷ message 1000000 6
        ∷ []
      ≡ gone ++ kept)
    × AllOld 6000000 5 gone
    × HasYoungFront 6000000 5 kept
    × (expire_queued_by_retention filled 6000000 (pos 5) ≡ (
      offsets_of gone,
      record filled { messages = kept; drop_count = 0 + length (offsets_of gone) },
    ))
expire_queued_by_retention-front_example =
    expire_queued_by_retention-front filled 6000000 5 (omega arith)

record_all-frontier_example :
    (1 < (record_all (1 ∷ 3 ∷ 0 ∷ [])).0) ↔ ((j : ℕ) → j ≤ 1 → contains j (1 ∷ 3 ∷ 0 ∷ []) ≡ true)
record_all-frontier_example = record_all-frontier (1 ∷ 3 ∷ 0 ∷ []) 1

abbrev registry : BrokerQueues ℕ ℕ
registry = new_broker_queues

-- Partition numbers in unary, which are printed differently.
abbrev unary : ℕ → String
unary zero = String.[]
unary (suc n) = String.◌∷◌ "1" (unary n)

abbrev rest_of : String → String
rest_of String.[] = String.[]
rest_of (String.◌∷◌ c s) = s

abbrev is_blank : String → Bool
is_blank String.[] = true
is_blank (String.◌∷◌ c s) = false

unary-injective : (m n : ℕ) → unary m ≡ unary n → m ≡ n
unary-injective zero zero e = refl
unary-injective zero (suc n) e = absurd (let differ = ap is_blank e in cc)
unary-injective (suc m) zero e = absurd (let differ = ap is_blank e in cc)
unary-injective (suc m) (suc n) e = ap suc (unary-injective m n (ap rest_of e))

abbrev part : String → ℕ → Partition
part path number = record { broker = "mq"; path = path; number = number }

next_topic_partition_offset-count_example :
    (next_topic_partition_offset unary
      (assign_in unary registry (part "/a" 0 ∷ part "/a" 1 ∷ part "/b" 0 ∷ part "/a" 0 ∷ []))
      "mq"
      "/a"
      0).0
    ≡ 2
next_topic_partition_offset-count_example =
    next_topic_partition_offset-count unary unary-injective registry (part "/a" 0)
      (part "/a" 0 ∷ part "/a" 1 ∷ part "/b" 0 ∷ part "/a" 0 ∷ []) refl
      ((refl, (refl, tt)), (refl, (refl, tt)))
      (
        ((refl, (refl, tt)), (refl, (refl, tt))),
        (
          ((refl, (refl, tt)), (refl, (refl, tt))),
          (
            ((refl, (refl, tt)), (refl, (refl, tt))),
            (((refl, (refl, tt)), (refl, (refl, tt))), tt),
          ),
        ),
      )

get_or_create_shard-again_example :
    (get_shard (get_or_create_shard registry "mq" "/jobs" (some behavior)).1 "mq" "/jobs"
      ≡ some (get_or_create_shard registry "mq" "/jobs" (some behavior)).0)
    × (get_or_create_shard
          (get_or_create_shard registry "mq" "/jobs" (some behavior)).1
          "mq"
          "/jobs"
          none
        ≡ get_or_create_shard registry "mq" "/jobs" (some behavior))
get_or_create_shard-again_example =
    get_or_create_shard-again registry "mq" "/jobs" (some behavior) none
