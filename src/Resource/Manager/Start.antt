-- ===== src/Resource/Manager/Start.antt =====
-- InitializeFromScenario of internal/resource/manager.go: the hosts, and the first instances on them.
-- `name_of` is the id that fmt.Sprintf makes of a service and a number, `equal_fold` strings.EqualFold.
use simulation_core.Base.{
  ℕ, zero, suc, ◌%◌, Bool, true, false, String, List, [], ◌∷◌, ◌++◌, Option, none, some, ◌&&◌, ◌||◌,
  not, if◌then◌else◌, length,
}
use simulation_core.Base.Int.{ℤ, pos, pos_part, leb_ℤ}
use simulation_core.Base.Key.{endpoint_key}
use simulation_core.Base.Dict.{Dict, lookup, insert}
use simulation_core.Resource.Instance.{Instance, new_service_instance}
use simulation_core.Resource.Host.{Host, HostOps, new_host, set_zone, set_labels}
use simulation_core.Resource.Manager.{
  RoutingPolicy, Manager, no_hosts, no_capacity, Answer, ok, err, panics, ids_at,
  collect_instances_for_host, rebuild_sorted_instance_cache,
}
use simulation_core.Resource.Manager.Scaling.{
  keys, rotated, add_to_host, is_within, host_memory_capacity_mb,
}

pub record HostConfig : Type 0 where
  pub id : String
  pub cores : ℤ
  pub memory_gb : ℤ
  pub zone : String
  pub labels : Dict String

pub record PlacementPolicy : Type 0 where
  pub required_zones : List String
  pub anti_affinity_services : List String

-- Of a service and its endpoints, what the manager reads.
pub record ServiceConfig (F : Type 0) : Type 0 where
  pub id : String
  pub replicas : ℤ
  pub cpu_cores : F
  pub memory_mb : F
  pub routing : Option (RoutingPolicy F)
  pub placement : Option PlacementPolicy
  pub endpoint_routing : List (String × Option (RoutingPolicy F))

abbrev pub required_zones_of : Option PlacementPolicy → List String
required_zones_of none = []
required_zones_of (some p) = p.required_zones

abbrev pub blocked_services_of : Option PlacementPolicy → List String
blocked_services_of none = []
blocked_services_of (some p) = p.anti_affinity_services

module _ (trim : String → String) (equal_fold : String → String → Bool) where
  abbrev pub among : List String → String → Bool
  among [] name = false
  among (first ∷ rest) name = equal_fold (trim name) (trim first) || among rest name

  abbrev pub zone_ok : List String → String → Bool
  zone_ok [] zone = true
  zone_ok (first ∷ rest) zone = among (first ∷ rest) zone

module _ {F R : Type 0} where
  abbrev pub route_service : Option (RoutingPolicy F) → String → Manager F R → Manager F R
  route_service none id m = m
  route_service (some pol) id m = record m { service_routing = insert id pol m.service_routing }

  abbrev pub route_endpoints :
      String → List (String × Option (RoutingPolicy F)) → Manager F R → Manager F R
  route_endpoints id [] m = m
  route_endpoints id ((path, none) ∷ rest) m = route_endpoints id rest m
  route_endpoints id ((path, some pol) ∷ rest) m =
      route_endpoints id rest
        (record m { endpoint_routing = insert (endpoint_key id path) pol m.endpoint_routing })

-- What is reserved on each host, its cores and its memory.
abbrev pub Load : Type 0 → Type 0
Load F = Dict (F × F)

module _ {F : Type 0} (ops : HostOps F) where
  abbrev pub load_of : Option (F × F) → F × F
  load_of none = (ops.base.nought, ops.base.nought)
  load_of (some l) = l

  abbrev pub or_default : F → F → F
  or_default default x = if ops.base.equal x ops.base.nought then default else x

  abbrev pub host_from : HostConfig → Host F
  host_from c =
      let gb = if leb_ℤ c.memory_gb (pos 0) then pos 16 else c.memory_gb in
      set_labels (set_zone (new_host ops c.id c.cores gb) c.zone) c.labels

  abbrev pub add_configured : List HostConfig → Dict (Host F) → Dict (Host F)
  add_configured [] hosts = hosts
  add_configured (c ∷ rest) hosts = add_configured rest (insert c.id (host_from c) hosts)

  abbrev pub has_room : Host F → F × F → (cores memory : F) → Bool
  has_room h l cores memory =
      is_within ops (ops.base.plus l.0 cores) (ops.of_int h.cpu_cores) ops.cpu_slack
      && is_within ops (ops.base.plus l.1 memory) (host_memory_capacity_mb ops h) ops.memory_slack

  abbrev pub reserve : Load F → String → (cores memory : F) → Load F
  reserve load host cores memory =
      let l = load_of (lookup host load) in
      insert host (ops.base.plus l.0 cores, ops.base.plus l.1 memory) load

module _ {F : Type 0} (trim : String → String) (equal_fold : String → String → Bool) where
  abbrev pub has_blocked : List String → List (Instance F) → Bool
  has_blocked blocked [] = false
  has_blocked blocked (inst ∷ rest) =
      among trim equal_fold blocked inst.service_name || has_blocked blocked rest

module _ {F R : Type 0} (ops : HostOps F) (trim : String → String)
    (equal_fold : String → String → Bool) (name_of : String → ℕ → String)
    (sort_ids : List String → List String) (now : ℕ) (default_cores default_memory : F) where
  abbrev pub accepts :
      Manager F R → Load F → ServiceConfig F → (cores memory : F) → String → Host F → Bool
  accepts m load svc cores memory id h =
      zone_ok trim equal_fold (required_zones_of svc.placement) h.zone
      && not (
          has_blocked trim equal_fold (blocked_services_of svc.placement)
            (collect_instances_for_host m id))
      && has_room ops h (load_of ops (lookup id load)) cores memory

  abbrev pub accepts_at :
      Manager F R → Load F → ServiceConfig F → (cores memory : F) → String → Bool
  accepts_at m load svc cores memory id = elim (lookup id m.hosts) [
    | none ↦ false
    | some h ↦ accepts m load svc cores memory id h
  ]

  abbrev pub first_accepting :
      Manager F R → Load F → ServiceConfig F → (cores memory : F) → List String → Option String
  first_accepting m load svc cores memory [] = none
  first_accepting m load svc cores memory (id ∷ ids) =
      let later = first_accepting m load svc cores memory ids in
      if accepts_at m load svc cores memory id then some id else later

  abbrev pub put_on : Manager F R → ServiceConfig F → (cores memory : F) → String → Manager F R
  put_on m svc cores memory host =
      let id = name_of svc.id m.next_instance_id in
      record m {
        next_instance_id = suc m.next_instance_id;
        instances =
            insert id (new_service_instance ops.base id svc.id host cores memory now) m.instances;
        hosts = add_to_host host (lookup host m.hosts) id m.hosts;
        host_to_instances =
            insert host (ids_at host m.host_to_instances ++ id ∷ []) m.host_to_instances;
      }

  -- The loop over the replicas: `left` are to be placed, `replica` is the number of the next.
  unfoldable pub place_replicas :
      (left replica : ℕ)
      → List String
      → ServiceConfig F
      → (cores memory : F) → Manager F R × Load F
      → Answer (Unit {0}) × Manager F R × Load F
  place_replicas zero replica ids svc cores memory (m, load) = (ok tt, m, load)
  place_replicas (suc left) replica ids svc cores memory (m, load) =
      elim (first_accepting m load svc cores memory (rotated (replica % length ids) ids)) [
        | none ↦ (err no_capacity, m, load)
        | some host ↦
            place_replicas left (suc replica) ids svc cores memory
              (put_on m svc cores memory host, reserve ops load host cores memory)
      ]

  unfoldable pub place_services :
      List String
      → List (ServiceConfig F)
      → Manager F R × Load F
      → Answer (Unit {0}) × Manager F R × Load F
  place_services ids [] (m, load) = (ok tt, m, load)
  place_services ids (svc ∷ rest) (m, load) =
      let routed =
        route_endpoints svc.id svc.endpoint_routing (route_service svc.routing svc.id m) in
      let placed =
        place_replicas (pos_part svc.replicas) 0 ids svc
          (or_default ops default_cores svc.cpu_cores) (or_default ops default_memory svc.memory_mb)
          (routed, load) in
      elim placed.0 [
        | ok done ↦ place_services ids rest (placed.1, placed.2)
        | err e ↦ (err e, placed.1, placed.2)
        | panics ↦ (panics, placed.1, placed.2)
      ]

  -- Only a start that succeeds sets the number of the next instance.
  abbrev pub rebuilt : ℕ → Answer (Unit {0}) → Manager F R → Answer (Unit {0}) × Manager F R
  rebuilt old (ok done) m = (ok tt, rebuild_sorted_instance_cache sort_ids m)
  rebuilt old (err e) m = (err e, record m { next_instance_id = old })
  rebuilt old panics m = (panics, record m { next_instance_id = old })

  abbrev pub start_on :
      Manager F R → List (ServiceConfig F) → List String → Answer (Unit {0}) × Manager F R
  start_on m services [] = (err no_hosts, m)
  start_on m services (id ∷ ids) =
      let placed = place_services (id ∷ ids) services (record m { next_instance_id = 0 }, []) in
      rebuilt m.next_instance_id placed.0 placed.1

  -- The instances are numbered from zero.
  unfoldable pub initialize_from_scenario :
      Manager F R → List HostConfig → List (ServiceConfig F) → Answer (Unit {0}) × Manager F R
  initialize_from_scenario m host_configs services =
      let ready : Manager F R = record m { hosts = add_configured ops host_configs m.hosts } in
      start_on ready services (sort_ids (keys ready.hosts))
