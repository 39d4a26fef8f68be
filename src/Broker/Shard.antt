-- ===== src/Broker/Shard.antt =====
-- BrokerQueueShard of internal/resource/broker_queue.go: one backlog. Each method holds the shard's
-- lock, so each is one step. Times are nanoseconds, counters do not overflow, and the queue holds no
-- nil message. `Payload` stands for the ids and the metadata of a message, `Float` for float64.
pub mod Calls
pub mod Conserved
pub mod Bounded
pub mod Expiry
use simulation_core.Base.{
  ℕ, suc, ◌+◌, ◌-◌, ◌*◌, ◌/◌, Bool, true, false, String, List, [], ◌∷◌, ◌++◌, Option, none, some,
  ◌&&◌, ◌=ₛ◌, if◌then◌else◌, ltb, leb, length,
}
use simulation_core.Base.Int.{ℤ, pos, pos_part, ◌-ℤ◌, leb_ℤ, ltb_ℤ}
use simulation_core.Broker.Commit.{record_processed}

pub record QueuedMessage (Payload : Type 0) : Type 0 where
  pub enqueue_time : ℕ
  pub redeliveries : ℕ
  pub topic_offset : ℕ
  pub payload : Payload

-- `capacity` and `max_concurrency` are as the constructors set them, not negative. No retention event
-- is scheduled where `retention_next_fire` is none, Go's zero time.
pub record Shard (Payload Float : Type 0) : Type 0 where
  pub broker_id : String
  pub topic : String
  pub partition : ℕ
  pub capacity : ℕ
  pub max_concurrency : ℕ
  pub max_redeliveries : ℤ
  pub drop_policy : String
  pub dlq_target : String
  pub consumer_target : String
  pub ack_timeout_ms : Option Float
  pub consumer_group : String
  pub subscriber_name : String
  pub in_flight : ℕ
  pub messages : List (QueuedMessage Payload)
  pub drop_count : ℕ
  pub redelivery_count : ℕ
  pub dlq_count : ℕ
  pub next_commit_exclusive : ℕ
  pub pending_commit : List ℕ
  pub retention_next_fire : Option ℕ

pub record EnqueueResult : Type 0 where
  pub accepted : Bool
  pub drop_reason : String
  pub dropped_oldest : Bool
  pub evicted_topic_offset : ℕ

pub record Snapshot : Type 0 where
  pub depth : ℕ
  pub in_flight_now : ℕ
  pub concurrency : ℕ
  pub target : String
  pub oldest_age_ms : ℕ
  pub drops : ℕ
  pub redelivered : ℕ
  pub dead_lettered : ℕ

pub data DropPolicy : Type 0 where
  reject drop_newest drop_oldest block other : DropPolicy

-- The cases of the switch over the normalised policy; the empty text is block.
abbrev pub policy_of : String → DropPolicy
policy_of text =
    if text =ₛ ""
    then block
    else if text =ₛ "reject"
    then reject
    else if text =ₛ "drop_newest"
    then drop_newest
    else if text =ₛ "drop_oldest"
    then drop_oldest
    else if text =ₛ "block"
    then block
    else other

abbrev pub taken_in : EnqueueResult
taken_in = record {
  accepted = true;
  drop_reason = "";
  dropped_oldest = false;
  evicted_topic_offset = 0;
}

abbrev pub refused : String → EnqueueResult
refused reason = record {
  accepted = false;
  drop_reason = reason;
  dropped_oldest = false;
  evicted_topic_offset = 0;
}

abbrev pub is_earlier : ℕ → Option ℕ → Bool
is_earlier candidate none = true
is_earlier candidate (some at) = ltb candidate at

abbrev pub age_ms : ℕ → Option ℕ → ℕ
age_ms now none = 0
age_ms now (some since) = (now - since) / 1000000

module _ {Payload : Type 0} where
  -- The loop of ExpireQueuedByRetention: the offsets it removes and the messages it leaves.
  unfoldable pub expire_loop :
      ℤ → List (QueuedMessage Payload) → List ℕ × List (QueuedMessage Payload)
  expire_loop threshold [] = ([], [])
  expire_loop threshold (m ∷ rest) =
      let later = expire_loop threshold rest in
      if ltb_ℤ threshold (pos m.enqueue_time)
      then ([], m ∷ rest)
      else (m.topic_offset ∷ later.0, later.1)

  abbrev pub oldest_of : List (QueuedMessage Payload) → Option ℕ
  oldest_of [] = none
  oldest_of (m ∷ rest) = some m.enqueue_time

module _ {Payload Float : Type 0} where
  abbrev pub capacity_reached : Shard Payload Float → Bool
  capacity_reached s = ltb 0 s.capacity && leb s.capacity (length s.messages)

  -- `s.dropCount++` and a refusal.
  abbrev pub drop : Shard Payload Float → String → EnqueueResult × Shard Payload Float
  drop s reason = (refused reason, record s { drop_count = suc s.drop_count })

  -- The drop_oldest case of a queue that is full.
  abbrev pub replace_oldest :
      Shard Payload Float
      → List (QueuedMessage Payload)
      → QueuedMessage Payload
      → EnqueueResult × Shard Payload Float
  replace_oldest s [] m = (taken_in, record s { messages = m ∷ [] })
  replace_oldest s (oldest ∷ rest) m = (
    record {
      accepted = true;
      drop_reason = "drop_oldest";
      dropped_oldest = true;
      evicted_topic_offset = oldest.topic_offset;
    },
    record s { drop_count = suc s.drop_count; messages = rest ++ m ∷ [] },
  )

  abbrev pub enqueue_full :
      DropPolicy → Shard Payload Float → QueuedMessage Payload → EnqueueResult × Shard Payload Float
  enqueue_full reject s m = drop s "reject"
  enqueue_full drop_newest s m = drop s "drop_newest"
  enqueue_full drop_oldest s m = replace_oldest s s.messages m
  enqueue_full block s m = drop s "block_full"
  enqueue_full other s m = drop s "reject"

  -- `normalise` stands for `strings.ToLower(strings.TrimSpace(_))`.
  unfoldable pub enqueue :
      (String → String)
      → Shard Payload Float
      → QueuedMessage Payload
      → EnqueueResult × Shard Payload Float
  enqueue normalise s m =
      if capacity_reached s
      then enqueue_full (policy_of (normalise s.drop_policy)) s m
      else (taken_in, record s { messages = s.messages ++ m ∷ [] })

  abbrev pub depth_of : Shard Payload Float → ℕ
  depth_of s = length s.messages

  abbrev pub pop_from :
      Shard Payload Float
      → List (QueuedMessage Payload)
      → Option (QueuedMessage Payload) × Shard Payload Float
  pop_from s [] = (none, s)
  pop_from s (m ∷ rest) = (some m, record s { messages = rest; in_flight = suc s.in_flight })

  unfoldable pub try_pop_for_dispatch :
      Shard Payload Float → Option (QueuedMessage Payload) × Shard Payload Float
  try_pop_for_dispatch s =
      if ltb 0 s.max_concurrency && leb s.max_concurrency s.in_flight
      then (none, s)
      else pop_from s s.messages

  -- `if s.inFlight > 0 { s.inFlight-- }`
  unfoldable pub consumer_finished : Shard Payload Float → Shard Payload Float
  consumer_finished s = record s { in_flight = s.in_flight - 1 }

  unfoldable pub requeue_front : Shard Payload Float → QueuedMessage Payload → Shard Payload Float
  requeue_front s m = record s { in_flight = s.in_flight - 1; messages = m ∷ s.messages }

  abbrev pub expire_after : Shard Payload Float → ℤ → List ℕ × Shard Payload Float
  expire_after s threshold =
      let result = expire_loop threshold s.messages in
      (result.0, record s { messages = result.1; drop_count = s.drop_count + length result.0 })

  unfoldable pub expire_queued_by_retention :
      Shard Payload Float → ℕ → ℤ → List ℕ × Shard Payload Float
  expire_queued_by_retention s now retention_ms =
      if leb_ℤ retention_ms (pos 0)
      then ([], s)
      else expire_after s (pos now -ℤ pos (pos_part retention_ms * 1000000))

  abbrev pub record_topic_offset_processed : Shard Payload Float → ℕ → Shard Payload Float
  record_topic_offset_processed s o =
      let result = record_processed s.next_commit_exclusive s.pending_commit o in
      record s { next_commit_exclusive = result.0; pending_commit = result.1 }

  abbrev pub should_schedule_retention_at : Shard Payload Float → ℕ → Bool
  should_schedule_retention_at s candidate = is_earlier candidate s.retention_next_fire

  abbrev pub note_retention_scheduled : Shard Payload Float → ℕ → Shard Payload Float
  note_retention_scheduled s at = record s { retention_next_fire = some at }

  abbrev pub clear_retention_schedule : Shard Payload Float → Shard Payload Float
  clear_retention_schedule s = record s { retention_next_fire = none }

  abbrev pub oldest_queued_enqueue_time : Shard Payload Float → Option ℕ
  oldest_queued_enqueue_time s = oldest_of s.messages

  abbrev pub note_dlq : Shard Payload Float → Shard Payload Float
  note_dlq s = record s { dlq_count = suc s.dlq_count }

  abbrev pub note_redelivery : Shard Payload Float → Shard Payload Float
  note_redelivery s = record s { redelivery_count = suc s.redelivery_count }

  abbrev pub snapshot : Shard Payload Float → ℕ → Snapshot
  snapshot s now = record {
    depth = length s.messages;
    in_flight_now = s.in_flight;
    concurrency = s.max_concurrency;
    target = s.consumer_target;
    oldest_age_ms = age_ms now (oldest_of s.messages);
    drops = s.drop_count;
    redelivered = s.redelivery_count;
    dead_lettered = s.dlq_count;
  }

-- TopicConsumerLagMessages: the difference, or 0 where it would be negative.
abbrev pub topic_consumer_lag_messages : ℕ → ℕ → ℕ
topic_consumer_lag_messages high_watermark committed = high_watermark - committed
