-- ===== src/Engine/Event.antt =====
-- The events of internal/engine/event.go and their order.
use simulation_core.Base.{ℕ, ◌+◌, Bool, true, false, String, not, ltb, ◌==◌, if◌then◌else◌}
use simulation_core.Base.Int.{ℤ, pos_part, neg_part, ltb_ℤ}

-- The constants of type EventType, without the prefix of their Go names.
pub data EventType : Type 0 where
  request_arrival request_start request_complete downstream_call scale_up scale_down : EventType
  simulation_end workload_generate drain_sweep downstream_timeout downstream_retry : EventType
  downstream_caller_overhead_start downstream_caller_overhead_end : EventType
  queue_enqueue queue_dequeue queue_ack_timeout queue_redelivery queue_dlq : EventType
  async_parent_finalize : EventType
  topic_publish topic_dequeue topic_ack_timeout topic_dlq topic_retention_expire : EventType

-- `payload` stands for the request and the data map, which the engine only passes on.
pub record Event (Payload : Type 0) : Type 0 where
  pub id : String
  pub type : EventType
  pub time : ℕ
  pub priority : ℤ
  pub sequence : ℕ
  pub service_id : String
  pub payload : Payload

abbrev pub same_ℤ : ℤ → ℤ → Bool
same_ℤ a b = pos_part a + neg_part b == pos_part b + neg_part a

module _ {Payload : Type 0} where
  -- Less on two events: by time, then priority, then sequence.
  unfoldable pub less : Event Payload → Event Payload → Bool
  less a b =
      if ltb a.time b.time
      then true
      else if ltb b.time a.time
      then false
      else if not (same_ℤ a.priority b.priority)
      then ltb_ℤ a.priority b.priority
      else ltb a.sequence b.sequence
