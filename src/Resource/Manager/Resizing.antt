-- ===== src/Resource/Manager/Resizing.antt =====
-- UpdateServiceResourcesWithHeadroom of internal/resource/manager.go. The tolerance is
-- `cpu_slack`, 1e-9, and `default_headroom` the slack of 16 MB; a number that is not positive leaves its field unchanged.
use simulation_core.Base.{
  Bool, String, List, [], ◌∷◌, Option, none, some, ◌&&◌, ◌||◌, not, ◌=ₛ◌, ◌==◌, if◌then◌else◌,
  length,
}
use simulation_core.Base.Int.{pos, ltb_ℤ}
use simulation_core.Base.Dict.{Dict}
use simulation_core.Resource.Instance.{Instance, queue_length, set_cpu_cores, set_memory_mb}
use simulation_core.Resource.Host.{Host, HostOps}
use simulation_core.Resource.Manager.{
  Manager, service_not_found, negative_resources, instance_busy, capacity_in_use, Answer, ok, err,
  collect_instances_for_host, get_instances_for_service,
}
use simulation_core.Resource.Manager.Scaling.{is_within}

module _ {F : Type 0} (ops : HostOps F) where
  abbrev pub is_positive : F → Bool
  is_positive x = ops.base.less ops.base.nought x

  -- `proposed > 0 && proposed+1e-9 < current`
  abbrev pub is_smaller : F → F → Bool
  is_smaller proposed current =
      is_positive proposed && ops.base.less (ops.base.plus proposed ops.cpu_slack) current

  abbrev pub is_working : Instance F → Bool
  is_working inst = not (inst.active_requests == 0 && queue_length inst == 0)

  abbrev pub keeps_memory : Instance F → (memory headroom : F) → Bool
  keeps_memory inst memory headroom = not (
      ops.base.less (ops.base.plus memory ops.cpu_slack)
        (ops.base.plus inst.active_memory_mb headroom))

  -- The first instance that cannot be made smaller now.
  abbrev pub first_in_use : (cores memory headroom : F) → List (Instance F) → Option String
  first_in_use cores memory headroom [] = none
  first_in_use cores memory headroom (inst ∷ rest) =
      let later = first_in_use cores memory headroom rest in
      if is_smaller cores inst.cpu_cores && is_working inst
      then some inst.id
      else if is_smaller memory inst.memory_mb && not (keeps_memory inst memory headroom)
      then some inst.id
      else later

  abbrev pub chosen : F → F → F
  chosen proposed current = if is_positive proposed then proposed else current

  abbrev pub proposed_cpu : String → F → List (Instance F) → F → F
  proposed_cpu service cores [] sum = sum
  proposed_cpu service cores (inst ∷ rest) sum =
      let own =
        if inst.service_name =ₛ service then chosen cores inst.cpu_cores else inst.cpu_cores in
      proposed_cpu service cores rest (ops.base.plus sum own)

  abbrev pub proposed_memory : String → F → List (Instance F) → F → F
  proposed_memory service memory [] sum = sum
  proposed_memory service memory (inst ∷ rest) sum =
      let own =
        if inst.service_name =ₛ service then chosen memory inst.memory_mb else inst.memory_mb in
      proposed_memory service memory rest (ops.base.plus sum own)

  -- A host without cores or memory configured has no limit of that kind.
  abbrev pub host_fits : Host F → String → (cores memory : F) → List (Instance F) → Bool
  host_fits h service cores memory placed =
      (not (ltb_ℤ (pos 0) h.cpu_cores)
        || is_within ops (proposed_cpu service cores placed ops.base.nought)
            (ops.of_int h.cpu_cores) ops.cpu_slack)
      && (not (ltb_ℤ (pos 0) h.memory_gb)
          || is_within ops (proposed_memory service memory placed ops.base.nought)
              (ops.times (ops.of_int h.memory_gb) ops.kilo) ops.memory_slack)

  abbrev pub resized : (cores memory : F) → Instance F → Instance F
  resized cores memory inst =
      let first = if is_positive cores then set_cpu_cores ops.base inst cores else inst in
      if is_positive memory then set_memory_mb ops.base first memory else first

  abbrev pub resize_all : String → (cores memory : F) → Dict (Instance F) → Dict (Instance F)
  resize_all service cores memory [] = []
  resize_all service cores memory ((id, inst) ∷ rest) =
      let later = resize_all service cores memory rest in
      if inst.service_name =ₛ service
      then (id, resized cores memory inst) ∷ later
      else (id, inst) ∷ later

module _ {F R : Type 0} (ops : HostOps F) (default_headroom : F) where
  abbrev pub first_exceeded :
      Manager F R → String → (cores memory : F) → Dict (Host F) → Option String
  first_exceeded m service cores memory [] = none
  first_exceeded m service cores memory ((id, h) ∷ rest) =
      let placed = collect_instances_for_host m id in
      let later = first_exceeded m service cores memory rest in
      if length placed == 0 || host_fits ops h service cores memory placed then later else some id

  abbrev pub resize_checked :
      Manager F R → String → (cores memory : F) → Option String → Answer (Unit {0}) × Manager F R
  resize_checked m service cores memory (some id) = (err (capacity_in_use id), m)
  resize_checked m service cores memory none =
      (ok tt, record m { instances = resize_all ops service cores memory m.instances })

  abbrev pub resize_idle :
      Manager F R → String → (cores memory : F) → Option String → Answer (Unit {0}) × Manager F R
  resize_idle m service cores memory (some id) = (err (instance_busy id), m)
  resize_idle m service cores memory none =
      resize_checked m service cores memory (first_exceeded m service cores memory m.hosts)

  abbrev pub resize_found :
      Manager F R
      → String
      → (cores memory headroom : F) → List (Instance F)
      → Answer (Unit {0}) × Manager F R
  resize_found m service cores memory headroom [] = (err (service_not_found service), m)
  resize_found m service cores memory headroom (inst ∷ rest) =
      let slack = if is_positive ops headroom then headroom else default_headroom in
      resize_idle m service cores memory (first_in_use ops cores memory slack (inst ∷ rest))

  unfoldable pub update_service_resources_with_headroom :
      Manager F R → String → (cores memory headroom : F) → Answer (Unit {0}) × Manager F R
  update_service_resources_with_headroom m service cores memory headroom =
      if ops.base.less cores ops.base.nought || ops.base.less memory ops.base.nought
      then (err negative_resources, m)
      else resize_found m service cores memory headroom (get_instances_for_service m service)

  abbrev pub update_service_resources :
      Manager F R → String → (cores memory : F) → Answer (Unit {0}) × Manager F R
  update_service_resources m service cores memory =
      update_service_resources_with_headroom m service cores memory ops.base.nought
