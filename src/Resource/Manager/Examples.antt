-- ===== src/Resource/Manager/Examples.antt =====
-- The resource manager at concrete inputs, with whole numbers for float64.
use mathlib.Core.List.{Perm}
use mathlib.Core.List.Perm
use simulation_core.Base.{
  ℕ, ◌<◌, length, ◌≡◌, refl, Bool, false, String, List, [], ◌∷◌, none, arith,
}
use simulation_core.Base.Int.{pos}
use simulation_core.Base.Dict.{lookup, insert}
use simulation_core.Resource.Instance.{Instance, active, draining, Lifecycle}
use simulation_core.Resource.Host.{Host}
use simulation_core.Resource.Manager.{
  Manager, ok, select_instance_for_service, sort_all, reset_all, group_routable,
  rebuild_sorted_instance_cache,
}
use simulation_core.Resource.Manager.Rotation.{select_many, turns}
use simulation_core.Resource.Manager.Cache.{rebuild_sorted_instance_cache-active}
use simulation_core.Resource.Manager.Hosts.{scale_in_hosts}
use simulation_core.Resource.Manager.Hosts.Spared.{scale_in_hosts-used}

abbrev instance_of : String → Lifecycle → Instance ℕ
instance_of id lifecycle = record {
  id = id;
  service_name = "web";
  host_id = "host-1";
  lifecycle = lifecycle;
  drain_deadline = none;
  cpu_cores = 1;
  memory_mb = 512;
  cpu_usage_window = 1000000000;
  cpu_usage_in_window = 0;
  window_start = 0;
  active_memory_mb = 0;
  active_requests = 0;
  request_queue = [];
  cpu_next_free = none;
  db_slot_free = [];
  db_active_connections = 0;
  last_update = 0;
}

abbrev host_of : String → List String → Host ℕ
host_of id placed = record {
  id = id;
  cpu_cores = pos 4;
  memory_gb = pos 8;
  zone = "";
  labels = [];
  cpu_utilization = 0;
  memory_utilization = 0;
  service_instances = placed;
}

-- Three instances, one of them draining, and an index that a larger cache left behind.
abbrev manager : Manager ℕ ℕ
manager = record {
  hosts =
      ("host-1", host_of "host-1" ("a" ∷ "b" ∷ "c" ∷ [])) ∷ ("host-2", host_of "host-2" []) ∷ [];
  instances =
      ("a", instance_of "a" active)
      ∷ ("b", instance_of "b" draining)
      ∷ ("c", instance_of "c" active)
      ∷ [];
  host_to_instances = ("host-1", "a" ∷ "b" ∷ "c" ∷ []) ∷ [];
  round_robin_idx = ("web", 2) ∷ [];
  weighted_round_robin_idx = [];
  sorted_service_inst_map = [];
  service_routing = [];
  endpoint_routing = [];
  routing_rand = 0;
  next_instance_id = 3;
  drain_timeout = 0;
  last_sim_time = none;
}

abbrev unsorted : List String → List String
unsorted ids = ids

abbrev not_auto : String → Bool
not_auto id = false

-- The selections of a service with the active instances "a" and "c", from the first on.
selected_example :
    (select_many (rebuild_sorted_instance_cache unsorted manager) "web" 3).0
    ≡ ok "a" ∷ ok "c" ∷ ok "a" ∷ []
unfolding rebuild_sorted_instance_cache sort_all reset_all group_routable lookup insert select_many
    select_instance_for_service
selected_example = refl

rebuild_sorted_instance_cache-active_example :
    (ids : List String) × (start : ℕ) × Perm ids ("a" ∷ "c" ∷ [])
    × (start < length ids)
    × ((select_many (rebuild_sorted_instance_cache unsorted manager) "web" 5).0 ≡ turns ids start 5)
rebuild_sorted_instance_cache-active_example =
    rebuild_sorted_instance_cache-active unsorted (λ ids. Perm.refl ids) manager "web" 5
      (omega arith)

scale_in_hosts-used_example :
    (lookup "host-1" (scale_in_hosts not_auto unsorted manager (pos 1)).1.hosts
      ≡ lookup "host-1" manager.hosts)
    × (lookup "host-1" (scale_in_hosts not_auto unsorted manager (pos 1)).1.host_to_instances
        ≡ lookup "host-1" manager.host_to_instances)
unfolding lookup
scale_in_hosts-used_example =
    scale_in_hosts-used not_auto unsorted (λ ids. Perm.refl ids) manager (pos 1) "host-1"
      (omega arith)
