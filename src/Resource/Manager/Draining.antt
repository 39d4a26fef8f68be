-- ===== src/Resource/Manager/Draining.antt =====
-- ProcessDrainingInstances and removeInstanceLocked of internal/resource/manager.go.
use simulation_core.Base.{
  ℕ, ◌+◌, Bool, true, false, String, List, [], ◌∷◌, ◌++◌, Option, none, some, ◌&&◌, not, ◌=ₛ◌, ◌==◌,
  if◌then◌else◌, leb, length,
}
use simulation_core.Base.Dict.{Dict, lookup, insert, delete}
use simulation_core.Resource.Instance.{Instance, evict_resource_state, queue_length}
use simulation_core.Resource.Host.{
  Host, HostOps, remove_service, update_cpu_utilization_at, update_memory_utilization,
}
use simulation_core.Resource.Manager.{
  Manager, collect_instances_for_host, rebuild_sorted_instance_cache, note_sim_time,
}
use simulation_core.Resource.Manager.Scaling.{is_draining}

abbrev pub without : String → List String → List String
without id [] = []
without id (x ∷ xs) = let rest = without id xs in if x =ₛ id then rest else x ∷ rest

abbrev pub remove_listed :
    String → String → Option (List String) → Dict (List String) → Dict (List String)
remove_listed host id none listed = listed
remove_listed host id (some ids) listed = insert host (without id ids) listed

abbrev pub timed_out : Option ℕ → ℕ → Bool
timed_out none now = false
timed_out (some deadline) now = leb deadline now

module _ {F : Type 0} where
  abbrev pub is_idle : Instance F → Bool
  is_idle inst = inst.active_requests == 0 && queue_length inst == 0

  -- The ids that a sweep removes because they are idle, and those that it evicts.
  abbrev pub idle_ids : Dict (Instance F) → List String
  idle_ids [] = []
  idle_ids ((id, inst) ∷ rest) =
      let later = idle_ids rest in if is_draining inst && is_idle inst then id ∷ later else later

  abbrev pub late_ids : ℕ → Dict (Instance F) → List String
  late_ids now [] = []
  late_ids now ((id, inst) ∷ rest) =
      let later = late_ids now rest in
      if is_draining inst && not (is_idle inst) && timed_out inst.drain_deadline now
      then id ∷ later
      else later

  abbrev pub off_host : String → Option (Host F) → String → Dict (Host F) → Dict (Host F)
  off_host host none id hosts = hosts
  off_host host (some h) id hosts = insert host (remove_service h id) hosts

module _ {F : Type 0} (ops : HostOps F) {R : Type 0} where
  abbrev pub account_host : Manager F R → String → ℕ → Option (Host F) → Manager F R
  account_host m id now none = m
  account_host m id now (some h) =
      let on_host = collect_instances_for_host m id in
      record m {
        hosts =
            insert id
              (update_memory_utilization ops (update_cpu_utilization_at ops h now on_host) on_host)
              m.hosts;
      }

  -- The accounting of an eviction: the instance is emptied, and its host's utilization taken anew.
  abbrev pub evict_accounting : Manager F R → Instance F → String → ℕ → List String × Manager F R
  evict_accounting m inst id now =
      let evicted = evict_resource_state ops.base inst now in
      let emptied : Manager F R = record m { instances = insert id evicted.1 m.instances } in
      (evicted.0, account_host emptied inst.host_id now (lookup inst.host_id m.hosts))

  abbrev pub forget : Manager F R → String → String → Manager F R
  forget m host id = record m {
    instances = delete id m.instances;
    host_to_instances = remove_listed host id (lookup host m.host_to_instances) m.host_to_instances;
    hosts = off_host host (lookup host m.hosts) id m.hosts;
  }

  abbrev pub remove_found :
      Manager F R → String → ℕ → Bool → Option (Instance F) → List String × Manager F R
  remove_found m id now evicts none = ([], m)
  remove_found m id now evicts (some inst) =
      let accounted = evict_accounting m inst id now in
      if evicts
      then (accounted.0, forget accounted.1 inst.host_id id)
      else ([], forget m inst.host_id id)

  unfoldable pub remove_instance : Manager F R → String → ℕ → Bool → List String × Manager F R
  remove_instance m id now evicts = remove_found m id now evicts (lookup id m.instances)

  abbrev pub remove_all : Manager F R → List String → ℕ → Bool → List String × Manager F R
  remove_all m [] now evicts = ([], m)
  remove_all m (id ∷ ids) now evicts =
      let first = remove_instance m id now evicts in
      let rest = remove_all first.1 ids now evicts in (first.0 ++ rest.0, rest.1)

  unfoldable pub process_draining_instances :
      (List String → List String) → Manager F R → ℕ → List String × Manager F R
  process_draining_instances sort_ids m now =
      let noted = note_sim_time m now in
      let evicted = remove_all noted (late_ids now m.instances) now true in
      let removed = remove_all evicted.1 (idle_ids m.instances) now false in
      if length (idle_ids m.instances) + length (late_ids now m.instances) == 0
      then (evicted.0, removed.1)
      else (evicted.0, rebuild_sorted_instance_cache sort_ids removed.1)
