-- ===== src/Resource/Examples.antt =====
-- The theorems about service instances at concrete inputs.
use simulation_core.Base.{ℕ, ◌≡◌, List, [], ◌∷◌, none, some, arith, min}
use simulation_core.Base.Int.{pos}
use simulation_core.Resource.Instance.{
  Instance, active, grow, reserve_cpu_work, reserve_db_work, rollback_cpu_tail_reservation,
}
use simulation_core.Resource.Instance.Cpu.{
  Job, fifo, reserve_all, reserve_all-fifo, reserve_cpu_work-rollback,
}
use simulation_core.Resource.Instance.Slots.{IsServed, reserve_db_work-IsServed}

abbrev busy : Instance ℕ
busy = record {
  id = "web-1";
  service_name = "web";
  host_id = "host-1";
  lifecycle = active;
  drain_deadline = none;
  cpu_cores = 2;
  memory_mb = 512;
  cpu_usage_window = 1000000000;
  cpu_usage_in_window = 0;
  window_start = 0;
  active_memory_mb = 0;
  active_requests = 1;
  request_queue = [];
  cpu_next_free = some 7;
  db_slot_free = some 9 ∷ some 4 ∷ [];
  db_active_connections = 2;
  last_update = 0;
}

abbrev jobs : List Job
jobs = record { arrival = 3; duration = 5 } ∷ record { arrival = 20; duration = 1 } ∷ []

reserve_all-fifo_example : reserve_all busy jobs ≡ fifo 7 jobs
reserve_all-fifo_example = reserve_all-fifo jobs busy

reserve_cpu_work-rollback_example :
    (reserve_cpu_work
      (rollback_cpu_tail_reservation
        (reserve_cpu_work busy 3 5).1
        (reserve_cpu_work busy 3 5).0.0
        (reserve_cpu_work busy 3 5).0.1)
      4
      6).0
    ≡ (reserve_cpu_work busy 4 6).0
reserve_cpu_work-rollback_example = reserve_cpu_work-rollback busy 3 5 4 6 (omega arith)

reserve_db_work-IsServed_example :
    IsServed 2 5 (min 3 64) (grow (min 3 64) busy.db_slot_free) (reserve_db_work busy 2 5 (pos 3))
reserve_db_work-IsServed_example = reserve_db_work-IsServed busy 2 5 3 (omega arith)
