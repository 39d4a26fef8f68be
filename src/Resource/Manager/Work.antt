-- ===== src/Resource/Manager/Work.antt =====
-- What internal/resource/manager.go passes on to instances, with the accounting of their hosts. A call
-- that drops the manager's lock before it reaches the instance is one step here.
use simulation_core.Base.{ℕ, Bool, String, Option, none, some, ◌&&◌, if◌then◌else◌}
use simulation_core.Base.Int.{ℤ, pos, ltb_ℤ}
use simulation_core.Base.Dict.{lookup, insert}
use simulation_core.Resource.Instance.{
  Instance, DbWork, reserve_cpu_work, reserve_db_work, release_db_connection,
  rollback_cpu_tail_reservation, allocate_cpu, release_cpu, allocate_memory, release_memory,
  enqueue_request, dequeue_request, queue_length,
}
use simulation_core.Resource.Host.{
  Host, HostOps, update_cpu_utilization_at, update_memory_utilization,
}
use simulation_core.Resource.Manager.{
  Manager, instance_not_found, host_not_found, host_memory_capacity, Answer, ok, err,
  collect_instances_for_host,
}

module _ {F R : Type 0} where
  abbrev pub put_instance : Manager F R → String → Instance F → Manager F R
  put_instance m id inst = record m { instances = insert id inst m.instances }

  -- A call on an instance by its id, an error without it.
  abbrev pub on_found :
      {A : Type 0}
      → Manager F R
      → String
      → (Instance F → A × Instance F)
      → Option (Instance F)
      → Answer A × Manager F R
  on_found m id call none = (err (instance_not_found id), m)
  on_found m id call (some inst) = (ok (call inst).0, put_instance m id (call inst).1)

  abbrev pub on_instance :
      {A : Type 0} → Manager F R → String → (Instance F → A × Instance F) → Answer A × Manager F R
  on_instance m id call = on_found m id call (lookup id m.instances)

  -- A call that does nothing where there is no such instance.
  abbrev pub quietly :
      Manager F R → String → (Instance F → Instance F) → Option (Instance F) → Manager F R
  quietly m id call none = m
  quietly m id call (some inst) = put_instance m id (call inst)

  abbrev pub manager_reserve_cpu_work :
      Manager F R → String → (arrival dur : ℕ) → Answer (ℕ × ℕ) × Manager F R
  manager_reserve_cpu_work m id arrival dur =
      on_instance m id (λ inst. reserve_cpu_work inst arrival dur)

  abbrev pub manager_reserve_db_work :
      Manager F R → String → (arrival dur : ℕ) → ℤ → Answer DbWork × Manager F R
  manager_reserve_db_work m id arrival dur max_slots =
      on_instance m id (λ inst. reserve_db_work inst arrival dur max_slots)

  abbrev pub manager_release_db_connection : Manager F R → String → Manager F R
  manager_release_db_connection m id =
      quietly m id (λ inst. release_db_connection inst) (lookup id m.instances)

  abbrev pub manager_rollback : Manager F R → String → (start finish : ℕ) → Manager F R
  manager_rollback m id start finish =
      quietly m id (λ inst. rollback_cpu_tail_reservation inst start finish) (lookup id m.instances)

  abbrev pub manager_enqueue_request :
      Manager F R → String → String → Answer (Unit {0}) × Manager F R
  manager_enqueue_request m id request =
      on_instance m id (λ inst. (tt, enqueue_request inst request))

  abbrev pub dequeue_found :
      Manager F R → String → Option (Instance F) → Option String × Manager F R
  dequeue_found m id none = (none, m)
  dequeue_found m id (some inst) =
      ((dequeue_request inst).0, put_instance m id (dequeue_request inst).1)

  abbrev pub manager_dequeue_request : Manager F R → String → Option String × Manager F R
  manager_dequeue_request m id = dequeue_found m id (lookup id m.instances)

  abbrev pub get_queue_length : Manager F R → String → ℕ
  get_queue_length m id = elim (lookup id m.instances) [ none ↦ 0 | some inst ↦ queue_length inst ]

  abbrev pub get_host_utilization : Manager F R → String → Option (F × F)
  get_host_utilization m id = elim (lookup id m.hosts) [
    | none ↦ none
    | some h ↦ some (h.cpu_utilization, h.memory_utilization)
  ]

module _ {F : Type 0} (ops : HostOps F) where
  -- A host without memory configured has no limit.
  abbrev pub memory_exceeded : Host F → F → Bool
  memory_exceeded h memory =
      ltb_ℤ (pos 0) h.memory_gb
      && ops.base.less ops.base.one (
          ops.base.plus h.memory_utilization
            (ops.base.divide (ops.base.divide memory ops.kilo) (ops.of_int h.memory_gb)))

module _ {F R : Type 0} (ops : HostOps F) where
  -- The utilization of a host, taken anew from its instances.
  abbrev pub account_cpu : Manager F R → String → Host F → ℕ → Manager F R
  account_cpu m id h now = record m {
    hosts =
        insert id (update_cpu_utilization_at ops h now (collect_instances_for_host m id)) m.hosts;
  }

  abbrev pub account_memory : Manager F R → String → Host F → Manager F R
  account_memory m id h = record m {
    hosts = insert id (update_memory_utilization ops h (collect_instances_for_host m id)) m.hosts;
  }

  -- An instance and its host, or the error for the one that is missing.
  abbrev pub with_host : Manager F R → Instance F → Option (Host F) → Answer (Instance F × Host F)
  with_host m inst none = err (host_not_found inst.host_id)
  with_host m inst (some h) = ok (inst, h)

  abbrev pub placed : Manager F R → String → Option (Instance F) → Answer (Instance F × Host F)
  placed m id none = err (instance_not_found id)
  placed m id (some inst) = with_host m inst (lookup inst.host_id m.hosts)

  abbrev pub placed_at : Manager F R → String → Answer (Instance F × Host F)
  placed_at m id = placed m id (lookup id m.instances)

  abbrev pub manager_allocate_cpu : Manager F R → String → F → ℕ → Answer (Unit {0}) × Manager F R
  manager_allocate_cpu m id cpu_time now = elim (placed_at m id) [
    | ok (inst, h) ↦ (
      ok tt,
      account_cpu (put_instance m id (allocate_cpu ops.base inst cpu_time now)) inst.host_id h now,
    )
    | err e ↦ (err e, m)
    | Answer.panics ↦ (Answer.panics, m)
  ]

  abbrev pub manager_release_cpu : Manager F R → String → ℕ → Manager F R
  manager_release_cpu m id now = elim (placed_at m id) [
    | ok (inst, h) ↦
        account_cpu (put_instance m id (release_cpu ops.base inst now)) inst.host_id h now
    | err e ↦ m
    | Answer.panics ↦ m
  ]

  abbrev pub manager_allocate_memory : Manager F R → String → F → Answer (Unit {0}) × Manager F R
  manager_allocate_memory m id memory = elim (placed_at m id) [
    | ok (inst, h) ↦ if memory_exceeded ops h memory then (err host_memory_capacity, m) else (
      ok tt,
      account_memory (put_instance m id (allocate_memory ops.base inst memory)) inst.host_id h,
    )
    | err e ↦ (err e, m)
    | Answer.panics ↦ (Answer.panics, m)
  ]

  abbrev pub manager_release_memory : Manager F R → String → F → Manager F R
  manager_release_memory m id memory = elim (placed_at m id) [
    | ok (inst, h) ↦
        account_memory (put_instance m id (release_memory ops.base inst memory)) inst.host_id h
    | err e ↦ m
    | Answer.panics ↦ m
  ]
