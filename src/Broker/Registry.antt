-- ===== src/Broker/Registry.antt =====
-- BrokerQueues of internal/resource/broker_queue.go: the shards by their keys and the next offset of
-- each topic partition. The order in which Go ranges over a map is unspecified; here it is the order
-- of insertion. `itoa` stands for `strconv.Itoa`, `trim` for `strings.TrimSpace`.
pub mod Laws
pub mod Partitions
use Prim.Native.String.{◌++◌ as str_append}
use simulation_core.Base.{
  ℕ, suc, ◌+◌, Bool, String, List, [], ◌∷◌, ◌++◌, Option, none, some, ◌=ₛ◌, if◌then◌else◌, map,
}
use simulation_core.Base.Int.{ℤ, pos, pos_part, leb_ℤ}
use simulation_core.Base.Dict.{Dict, lookup, insert}
use simulation_core.Broker.Shard.{Shard, Snapshot, snapshot, topic_consumer_lag_messages}

-- The fields of QueueBehavior and of TopicSubscriber that a shard is made from.
pub record QueueBehavior : Type 0 where
  pub queue_capacity : ℤ
  pub consumer_concurrency : ℤ
  pub retries : ℤ
  pub policy : String
  pub dlq : String
  pub consumer : String

pub record TopicSubscriber (Float : Type 0) : Type 0 where
  pub name : String
  pub target : String
  pub concurrency : ℤ
  pub ack_timeout : Option Float
  pub redelivery_limit : ℤ
  pub dead_letters : String
  pub drops : String

pub record BrokerQueues (Payload Float : Type 0) : Type 0 where
  pub queue_shards : Dict (Shard Payload Float)
  pub topic_shards : Dict (Shard Payload Float)
  pub topic_partition_hw : Dict ℕ

abbrev pub broker_queue_key : String → String → String
broker_queue_key broker topic = str_append broker (str_append ":" topic)

abbrev pub or_zero : Option ℕ → ℕ
or_zero none = 0
or_zero (some n) = n

-- `if maxC <= 0 { maxC = 1 }`
abbrev pub at_least_one : ℤ → ℕ
at_least_one n = if leb_ℤ n (pos 0) then 1 else pos_part n

abbrev pub or_block : String → String
or_block text = if text =ₛ "" then "block" else text

-- DefaultQueueBehavior of pkg/config/queue_behavior.go.
abbrev pub default_queue_behavior : QueueBehavior
default_queue_behavior = record {
  queue_capacity = pos 10000;
  consumer_concurrency = pos 1;
  retries = pos 3;
  policy = "block";
  dlq = "";
  consumer = "";
}

-- The capacity of DefaultTopicBehavior of pkg/config/topic_behavior.go.
abbrev pub default_topic_capacity : ℤ
default_topic_capacity = pos 10000

abbrev pub or_default {ℓ} : {A : Type ℓ} → A → Option A → A
or_default default none = default
or_default default (some a) = a

abbrev pub no_subscriber : {Float : Type 0} → TopicSubscriber Float
no_subscriber = record {
  name = "";
  target = "";
  concurrency = pos 0;
  ack_timeout = none;
  redelivery_limit = pos 0;
  dead_letters = "";
  drops = "";
}

module _ (itoa : ℕ → String) where
  abbrev pub topic_subscriber_partition_shard_key : String → String → ℕ → String → String
  topic_subscriber_partition_shard_key broker path partition group = str_append broker (
      str_append "\u{1e}" (
        str_append path
          (str_append "\u{1e}" (str_append (itoa partition) (str_append "\u{1e}" group)))))

  abbrev pub topic_partition_log_key : String → String → ℕ → String
  topic_partition_log_key broker path partition =
      str_append broker
        (str_append "\u{1f}" (str_append path (str_append "\u{1f}" (itoa partition))))

module _ {Payload Float : Type 0} where
  abbrev pub new_broker_queues : BrokerQueues Payload Float
  new_broker_queues = record { queue_shards = []; topic_shards = []; topic_partition_hw = [] }

  -- NextTopicPartitionOffset and HighWatermarkExclusive, by TopicPartitionLogKey.
  abbrev pub high_watermark_of : BrokerQueues Payload Float → String → ℕ
  high_watermark_of b key = or_zero (lookup key b.topic_partition_hw)

  unfoldable pub next_offset_of :
      BrokerQueues Payload Float → String → ℕ × BrokerQueues Payload Float
  next_offset_of b key =
      let offset = high_watermark_of b key in
      (offset, record b { topic_partition_hw = insert key (suc offset) b.topic_partition_hw })

  abbrev pub new_queue_shard : String → String → QueueBehavior → Shard Payload Float
  new_queue_shard broker topic eff = record {
    broker_id = broker;
    topic = topic;
    partition = 0;
    capacity = pos_part eff.queue_capacity;
    max_concurrency = at_least_one eff.consumer_concurrency;
    max_redeliveries = eff.retries;
    drop_policy = eff.policy;
    dlq_target = eff.dlq;
    consumer_target = eff.consumer;
    ack_timeout_ms = none;
    consumer_group = "";
    subscriber_name = "";
    in_flight = 0;
    messages = [];
    drop_count = 0;
    redelivery_count = 0;
    dlq_count = 0;
    next_commit_exclusive = 0;
    pending_commit = [];
    retention_next_fire = none;
  }

  abbrev pub queue_shard_or :
      BrokerQueues Payload Float
      → String
      → Shard Payload Float
      → Option (Shard Payload Float)
      → Shard Payload Float × BrokerQueues Payload Float
  queue_shard_or b key fresh none =
      (fresh, record b { queue_shards = insert key fresh b.queue_shards })
  queue_shard_or b key fresh (some found) = (found, b)

  unfoldable pub get_or_create_shard :
      BrokerQueues Payload Float
      → String
      → String
      → Option QueueBehavior
      → Shard Payload Float × BrokerQueues Payload Float
  get_or_create_shard b broker topic eff =
      let key = broker_queue_key broker topic in
      queue_shard_or b key (new_queue_shard broker topic (or_default default_queue_behavior eff))
        (lookup key b.queue_shards)

  abbrev pub get_shard : BrokerQueues Payload Float → String → String → Option (Shard Payload Float)
  get_shard b broker topic = lookup (broker_queue_key broker topic) b.queue_shards

  abbrev pub topic_shard_or :
      BrokerQueues Payload Float
      → String
      → Shard Payload Float
      → Option (Shard Payload Float)
      → Shard Payload Float × BrokerQueues Payload Float
  topic_shard_or b key fresh none =
      (fresh, record b { topic_shards = insert key fresh b.topic_shards })
  topic_shard_or b key fresh (some found) = (found, b)

  abbrev pub get_topic_shard_by_key :
      BrokerQueues Payload Float → String → Option (Shard Payload Float)
  get_topic_shard_by_key b key = lookup key b.topic_shards

  abbrev pub all_shards : BrokerQueues Payload Float → List (Shard Payload Float)
  all_shards b = map (λ entry. entry.1) b.queue_shards ++ map (λ entry. entry.1) b.topic_shards

  abbrev pub queue_health_snapshots :
      BrokerQueues Payload Float → ℕ → List (String × (String × Snapshot))
  queue_health_snapshots b now =
      map
        (λ (entry : String × Shard Payload Float).
          (entry.1.broker_id, (entry.1.topic, snapshot entry.1 now)))
        b.queue_shards

module _ {Payload Float : Type 0} (itoa : ℕ → String) where
  abbrev pub next_topic_partition_offset :
      BrokerQueues Payload Float → String → String → ℕ → ℕ × BrokerQueues Payload Float
  next_topic_partition_offset b broker path partition =
      next_offset_of b (topic_partition_log_key itoa broker path partition)

  abbrev pub high_watermark_exclusive : BrokerQueues Payload Float → String → String → ℕ → ℕ
  high_watermark_exclusive b broker path partition =
      high_watermark_of b (topic_partition_log_key itoa broker path partition)

  abbrev pub get_topic_subscriber_partition_shard :
      BrokerQueues Payload Float → String → String → ℕ → String → Option (Shard Payload Float)
  get_topic_subscriber_partition_shard b broker path partition group =
      get_topic_shard_by_key b
        (topic_subscriber_partition_shard_key itoa broker path partition group)

  -- The lag that TopicHealthSnapshots reports, beside the shard's snapshot.
  abbrev pub topic_health_snapshot :
      BrokerQueues Payload Float → ℕ → Shard Payload Float → (ℕ × (ℕ × ℕ)) × Snapshot
  topic_health_snapshot b now s =
      let hw = high_watermark_exclusive b s.broker_id s.topic s.partition in
      (
        (hw, (s.next_commit_exclusive, topic_consumer_lag_messages hw s.next_commit_exclusive)),
        snapshot s now,
      )

  abbrev pub topic_health_snapshots :
      BrokerQueues Payload Float → ℕ → List ((ℕ × (ℕ × ℕ)) × Snapshot)
  topic_health_snapshots b now = map (λ entry. topic_health_snapshot b now entry.1) b.topic_shards

  module _ (trim : String → String) where
    abbrev pub new_topic_shard :
        String → String → ℕ → String → ℤ → TopicSubscriber Float → Shard Payload Float
    new_topic_shard broker path partition group capacity sub = record {
      broker_id = broker;
      topic = path;
      partition = partition;
      capacity = pos_part capacity;
      max_concurrency = at_least_one sub.concurrency;
      max_redeliveries = sub.redelivery_limit;
      drop_policy = or_block (trim sub.drops);
      dlq_target = trim sub.dead_letters;
      consumer_target = trim sub.target;
      ack_timeout_ms = sub.ack_timeout;
      consumer_group = trim group;
      subscriber_name = trim sub.name;
      in_flight = 0;
      messages = [];
      drop_count = 0;
      redelivery_count = 0;
      dlq_count = 0;
      next_commit_exclusive = 0;
      pending_commit = [];
      retention_next_fire = none;
    }

    -- `topic_capacity` is the capacity of the topic's configuration, if there is one.
    unfoldable pub get_or_create_topic_subscriber_partition_shard :
        BrokerQueues Payload Float
        → String
        → String
        → ℕ
        → String
        → (topic_capacity : Option ℤ) → Option (TopicSubscriber Float)
        → Shard Payload Float × BrokerQueues Payload Float
    get_or_create_topic_subscriber_partition_shard b broker path partition group capacity sub =
        let key = topic_subscriber_partition_shard_key itoa broker path partition group in
        topic_shard_or b key
          (new_topic_shard broker path partition group (or_default default_topic_capacity capacity)
            (or_default no_subscriber sub))
          (lookup key b.topic_shards)
