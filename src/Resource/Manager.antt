-- ===== src/Resource/Manager.antt =====
-- Manager of internal/resource/manager.go: its state, the lookups, and the round-robin selection over
-- the cache of routable instances. Go maps are dictionaries, in any order; a cached pointer is the id of
-- its instance. `sort_ids` stands for sort.Strings, and for sort.Slice by id.
pub mod Rotation
pub mod Cache
pub mod Scaling
pub mod Draining
pub mod Hosts
pub mod Work
pub mod Routing
pub mod Start
pub mod Resizing
mod Examples
use simulation_core.Base.{
  ℕ, zero, suc, ◌+◌, ◌*◌, ◌%◌, Bool, true, false, String, List, [], ◌∷◌, ◌++◌, Option, none, some,
  ◌&&◌, ◌=ₛ◌, if◌then◌else◌, ltb, leb, length,
}
use simulation_core.Base.Dict.{Dict, lookup, insert}
use simulation_core.Resource.Instance.{Instance, Lifecycle, is_routable_in}
use simulation_core.Resource.Host.{Host}

-- RoutingPolicy of pkg/config.
pub record RoutingPolicy (F : Type 0) : Type 0 where
  pub strategy : String
  pub sticky_key_from : String
  pub locality_zone_from : String
  pub weights : Dict F

-- `R` is the state of math/rand. No time is Go's zero time.
pub record Manager (F R : Type 0) : Type 0 where
  pub hosts : Dict (Host F)
  pub instances : Dict (Instance F)
  pub host_to_instances : Dict (List String)
  pub round_robin_idx : Dict ℕ
  pub weighted_round_robin_idx : Dict ℕ
  pub sorted_service_inst_map : Dict (List String)
  pub service_routing : Dict (RoutingPolicy F)
  pub endpoint_routing : Dict (RoutingPolicy F)
  pub routing_rand : R
  pub next_instance_id : ℕ
  pub drain_timeout : ℕ
  pub last_sim_time : Option ℕ

pub data ResourceError : Type 0 where
  no_instances : String → ResourceError
  unsupported_strategy : String → String → ResourceError
  too_few_replicas : ResourceError
  service_not_found : String → ResourceError
  instance_not_found : String → ResourceError
  host_not_found : String → ResourceError
  no_hosts : ResourceError
  no_capacity : ResourceError
  too_few_empty_hosts : ℕ → ResourceError
  capacity_in_use : String → ResourceError
  instance_busy : String → ResourceError
  host_memory_capacity : ResourceError
  negative_resources : ResourceError

-- What a method returns; `panics` where Go would panic with an index out of range.
pub data Answer (A : Type 0) : Type 0 where
  ok : A → Answer A
  err : ResourceError → Answer A
  panics : Answer A

module _ {A : Type 0} where
  abbrev pub nth : ℕ → List A → Option A
  nth n [] = none
  nth zero (x ∷ xs) = some x
  nth (suc n) (x ∷ xs) = nth n xs

  abbrev pub at_index : ℕ → List A → Answer A
  at_index n xs = elim (nth n xs) [ none ↦ panics | some x ↦ ok x ]

  abbrev pub or_empty : Option (List A) → List A
  or_empty none = []
  or_empty (some xs) = xs

-- A Go map of integers, or of slices, at a key.
abbrev pub index_of : Option ℕ → ℕ
index_of none = 0
index_of (some n) = n

abbrev pub index_at : String → Dict ℕ → ℕ
index_at key dict = index_of (lookup key dict)

abbrev pub ids_at : String → Dict (List String) → List String
ids_at key dict = or_empty (lookup key dict)

-- `for sn, instances := range next` of rebuildSortedInstanceCache.
unfoldable pub sort_all : (List String → List String) → Dict (List String) → Dict (List String)
sort_all sort_ids [] = []
sort_all sort_ids ((service, ids) ∷ rest) = (service, sort_ids ids) ∷ sort_all sort_ids rest

unfoldable pub reset_all : Dict (List String) → Dict ℕ → Dict ℕ
reset_all [] idx = idx
reset_all ((service, ids) ∷ rest) idx =
    let later = reset_all rest idx in
    if ltb 0 (length ids) && leb (length ids) (index_at service idx)
    then insert service 0 later
    else later

abbrev pub later_time : Option ℕ → ℕ → Option ℕ
later_time none t = some t
later_time (some last) t = if ltb last t then some t else some last

module _ {F : Type 0} where
  abbrev pub is_routable : Instance F → Bool
  is_routable inst = is_routable_in inst.lifecycle

  unfoldable pub group_routable : Dict (Instance F) → Dict (List String) → Dict (List String)
  group_routable [] groups = groups
  group_routable ((id, inst) ∷ rest) groups =
      if is_routable inst
      then group_routable rest
          (insert inst.service_name (ids_at inst.service_name groups ++ inst.id ∷ []) groups)
      else group_routable rest groups

  abbrev pub instances_of : String → Dict (Instance F) → List (Instance F)
  instances_of service [] = []
  instances_of service ((id, inst) ∷ rest) =
      let later = instances_of service rest in
      if inst.service_name =ₛ service then inst ∷ later else later

  abbrev pub found_instances : Dict (Instance F) → List String → List (Instance F)
  found_instances instances [] = []
  found_instances instances (id ∷ ids) = elim (lookup id instances) [
    | none ↦ found_instances instances ids
    | some inst ↦ inst ∷ found_instances instances ids
  ]

module _ {F R : Type 0} where
  unfoldable pub rebuild_sorted_instance_cache :
      (List String → List String) → Manager F R → Manager F R
  rebuild_sorted_instance_cache sort_ids m =
      let next = sort_all sort_ids (group_routable m.instances []) in
      record m {
        sorted_service_inst_map = next;
        round_robin_idx = reset_all next m.round_robin_idx;
      }

  abbrev pub rotate_from : Manager F R → String → List String → Answer String × Manager F R
  rotate_from m service [] = (err (no_instances service), m)
  rotate_from m service (id ∷ ids) =
      let idx = index_at service m.round_robin_idx in
      (
        at_index idx (id ∷ ids),
        record m {
          round_robin_idx = insert service (suc idx % length (id ∷ ids)) m.round_robin_idx;
        },
      )

  unfoldable pub select_instance_for_service : Manager F R → String → Answer String × Manager F R
  select_instance_for_service m service =
      rotate_from m service (ids_at service m.sorted_service_inst_map)

  abbrev pub get_service_instance : Manager F R → String → Option (Instance F)
  get_service_instance m id = lookup id m.instances

  abbrev pub get_host : Manager F R → String → Option (Host F)
  get_host m id = lookup id m.hosts

  abbrev pub get_instances_for_service : Manager F R → String → List (Instance F)
  get_instances_for_service m service = instances_of service m.instances

  abbrev pub active_replicas : Manager F R → String → ℕ
  active_replicas m service = length (ids_at service m.sorted_service_inst_map)

  abbrev pub collect_instances_for_host : Manager F R → String → List (Instance F)
  collect_instances_for_host m host = found_instances m.instances (ids_at host m.host_to_instances)

  abbrev pub note_sim_time : Manager F R → ℕ → Manager F R
  note_sim_time m t = record m { last_sim_time = later_time m.last_sim_time t }

  abbrev pub set_scale_down_drain_timeout : Manager F R → ℕ → Manager F R
  set_scale_down_drain_timeout m d = if ltb 0 d then record m { drain_timeout = d } else m

  abbrev pub set_routing_seed : Manager F R → R → Manager F R
  set_routing_seed m rand = record m { routing_rand = rand }
