-- ===== src/Resource/Manager/Scaling.antt =====
-- Scaling of a service in internal/resource/manager.go: the placement of new instances, draining, and
-- the removal of drained instances. `name_of` is the id that fmt.Sprintf makes of a service and a number.
use simulation_core.Base.{
  ℕ, zero, suc, ◌+◌, ◌-◌, ◌%◌, Bool, false, String, List, [], ◌∷◌, ◌++◌, Option, none, some, ◌&&◌,
  not, ◌==◌, if◌then◌else◌, ltb, length,
}
use simulation_core.Base.Int.{ℤ, pos, pos_part, ltb_ℤ}
use simulation_core.Base.Dict.{Dict, lookup, insert}
use simulation_core.Resource.Instance.{Instance, is_routable_in, set_draining, new_service_instance}
use simulation_core.Resource.Host.{Host, HostOps, add_service}
use simulation_core.Resource.Manager.{
  Manager, too_few_replicas, service_not_found, no_hosts, no_capacity, Answer, ok, err, panics,
  ids_at, collect_instances_for_host, get_instances_for_service, rebuild_sorted_instance_cache,
}

module _ {A : Type 0} where
  abbrev pub take : ℕ → List A → List A
  take zero xs = []
  take (suc n) [] = []
  take (suc n) (x ∷ xs) = x ∷ take n xs

  abbrev pub drop : ℕ → List A → List A
  drop zero xs = xs
  drop (suc n) [] = []
  drop (suc n) (x ∷ xs) = drop n xs

  abbrev pub keys : Dict A → List String
  keys [] = []
  keys ((key, value) ∷ rest) = key ∷ keys rest

-- The ids from a position on, and then those before it.
abbrev pub rotated : ℕ → List String → List String
rotated start ids = drop start ids ++ take start ids

-- `opts.DrainTimeout`, the manager's, or the default of one hour, in nanoseconds.
abbrev pub effective_drain_timeout : ℤ → ℕ → ℕ
effective_drain_timeout asked own =
    if ltb_ℤ (pos 0) asked then pos_part asked else if ltb 0 own then own else 3600000000000

module _ {F : Type 0} where
  abbrev pub add_to_host : String → Option (Host F) → String → Dict (Host F) → Dict (Host F)
  add_to_host host none id hosts = hosts
  add_to_host host (some h) id hosts = insert host (add_service h id) hosts

  abbrev pub is_draining : Instance F → Bool
  is_draining inst = not (is_routable_in inst.lifecycle)

  abbrev pub active_of : List (Instance F) → List (Instance F)
  active_of [] = []
  active_of (inst ∷ rest) =
      let later = active_of rest in if is_draining inst then later else inst ∷ later

  abbrev pub drain_all : List (Instance F) → ℕ → Dict (Instance F) → Dict (Instance F)
  drain_all [] deadline instances = instances
  drain_all (inst ∷ rest) deadline instances =
      drain_all rest deadline (insert inst.id (set_draining inst deadline) instances)

module _ {F : Type 0} (ops : HostOps F) where
  abbrev pub host_memory_capacity_mb : Host F → F
  host_memory_capacity_mb h =
      ops.times (ops.of_int (if ltb_ℤ h.memory_gb (pos 1) then pos 1 else h.memory_gb)) ops.kilo

  abbrev pub cpu_sum : List (Instance F) → F → F
  cpu_sum [] sum = sum
  cpu_sum (inst ∷ rest) sum = cpu_sum rest (ops.base.plus sum inst.cpu_cores)

  abbrev pub memory_sum : List (Instance F) → F → F
  memory_sum [] sum = sum
  memory_sum (inst ∷ rest) sum = memory_sum rest (ops.base.plus sum inst.memory_mb)

  -- `x <= capacity + slack`
  abbrev pub is_within : F → F → F → Bool
  is_within x capacity slack = not (ops.base.less (ops.base.plus capacity slack) x)

  abbrev pub fits : Host F → List (Instance F) → (cores memory : F) → Bool
  fits h placed cores memory =
      is_within (ops.base.plus (cpu_sum placed ops.base.nought) cores) (ops.of_int h.cpu_cores)
        ops.cpu_slack
      && is_within (ops.base.plus (memory_sum placed ops.base.nought) memory)
          (host_memory_capacity_mb h) ops.memory_slack

  module _ {R : Type 0} where
    abbrev pub fits_at : Manager F R → String → (cores memory : F) → Bool
    fits_at m id cores memory = elim (lookup id m.hosts) [
      | none ↦ false
      | some h ↦ fits h (collect_instances_for_host m id) cores memory
    ]

    abbrev pub first_fitting : Manager F R → (cores memory : F) → List String → Answer String
    first_fitting m cores memory [] = err no_capacity
    first_fitting m cores memory (id ∷ ids) =
        let later = first_fitting m cores memory ids in
        if fits_at m id cores memory then ok id else later

    abbrev pub pick_from : Manager F R → (cores memory : F) → ℕ → List String → Answer String
    pick_from m cores memory existing [] = err no_hosts
    pick_from m cores memory existing (id ∷ ids) =
        first_fitting m cores memory (rotated (existing % length (id ∷ ids)) (id ∷ ids))

    abbrev pub pick_host_for_new_instance :
        (List String → List String) → Manager F R → String → (cores memory : F) → Answer String
    pick_host_for_new_instance sort_ids m service cores memory =
        pick_from m cores memory (length (get_instances_for_service m service))
          (sort_ids (keys m.hosts))

    module _ (name_of : String → ℕ → String) (sort_ids : List String → List String) where
      abbrev pub place_on : Manager F R → String → (cores memory : F) → ℕ → String → Manager F R
      place_on m service cores memory now host =
          let id = name_of service m.next_instance_id in
          record m {
            next_instance_id = suc m.next_instance_id;
            instances =
                insert id (new_service_instance ops.base id service host cores memory now)
                  m.instances;
            hosts = add_to_host host (lookup host m.hosts) id m.hosts;
            host_to_instances =
                insert host (ids_at host m.host_to_instances ++ id ∷ []) m.host_to_instances;
          }

      -- The loop that adds instances: an error leaves those that are there already, and the cache as it was.
      unfoldable pub add_instances :
          ℕ → Manager F R → String → (cores memory : F) → ℕ → Answer (Unit {0}) × Manager F R
      add_instances zero m service cores memory now =
          (ok tt, rebuild_sorted_instance_cache sort_ids m)
      add_instances (suc n) m service cores memory now =
          elim (pick_host_for_new_instance sort_ids m service cores memory) [
            | ok host ↦
                add_instances n (place_on m service cores memory now host) service cores memory now
            | err e ↦ (err e, m)
            | panics ↦ (panics, m)
          ]

      -- `activeInst[0]` is the template; without an active instance the access panics.
      abbrev pub scale_up :
          Manager F R → String → ℕ → ℕ → List (Instance F) → Answer (Unit {0}) × Manager F R
      scale_up m service more now [] = (panics, m)
      scale_up m service more now (template ∷ rest) =
          add_instances more m service template.cpu_cores template.memory_mb now

      abbrev pub scale_from :
          Manager F R
          → String
          → ℕ
          → (now deadline : ℕ) → List (Instance F)
          → Answer (Unit {0}) × Manager F R
      scale_from m service replicas now deadline running =
          if ltb (length running) replicas
          then (if length m.hosts == 0
              then (err no_hosts, m)
              else scale_up m service (replicas - length running) now running)
          else if ltb replicas (length running)
          then (
            ok tt,
            rebuild_sorted_instance_cache sort_ids
                (record m { instances = drain_all (drop replicas running) deadline m.instances }),
          )
          else (ok tt, m)

      abbrev pub scale_found :
          Manager F R
          → String
          → ℕ
          → (now deadline : ℕ) → List (Instance F)
          → Answer (Unit {0}) × Manager F R
      scale_found m service replicas now deadline [] = (err (service_not_found service), m)
      scale_found m service replicas now deadline (inst ∷ rest) =
          scale_from m service replicas now deadline (active_of (inst ∷ rest))

      -- `sort_instances` stands for sort.Slice of instances by id.
      unfoldable pub scale_service_with_options :
          (List (Instance F) → List (Instance F))
          → Manager F R
          → String
          → (replicas : ℤ) → (now : ℕ) → (drain : ℤ) → Answer (Unit {0}) × Manager F R
      scale_service_with_options sort_instances m service replicas now drain =
          if ltb_ℤ replicas (pos 1)
          then (err too_few_replicas, m)
          else scale_found m service (pos_part replicas) now
              (now + effective_drain_timeout drain m.drain_timeout)
              (sort_instances (get_instances_for_service m service))
