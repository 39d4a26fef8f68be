-- ===== src/Resource/Host.antt =====
-- Host of internal/resource/host.go. `F` is float64, without NaN.
use simulation_core.Base.{ℕ, Bool, String, List, [], ◌∷◌, ◌++◌, ◌&&◌, ◌=ₛ◌, if◌then◌else◌}
use simulation_core.Base.Int.{ℤ, pos, ltb_ℤ}
use simulation_core.Base.Dict.{Dict}
use simulation_core.Resource.Instance.{FloatOps, Instance}

pub record Host (F : Type 0) : Type 0 where
  pub id : String
  pub cpu_cores : ℤ
  pub memory_gb : ℤ
  pub zone : String
  pub labels : Dict String
  pub cpu_utilization : F
  pub memory_utilization : F
  pub service_instances : List String

-- More of float64: the conversion of an integer, a product, the tolerances 1e-9 and 1e-6 of the
-- capacity checks, 1024, and the CPU utilization of an instance at a time.
pub record HostOps (F : Type 0) : Type 0 where
  pub base : FloatOps F
  pub of_int : ℤ → F
  pub times : F → F → F
  pub cpu_slack : F
  pub memory_slack : F
  pub kilo : F
  pub cpu_utilization_at : Instance F → ℕ → F

abbrev pub at_least_one : ℤ → ℤ
at_least_one n = if ltb_ℤ n (pos 1) then pos 1 else n

abbrev pub remove_first : String → List String → List String
remove_first id [] = []
remove_first id (first ∷ rest) =
    let later = remove_first id rest in if first =ₛ id then rest else first ∷ later

module _ {F : Type 0} where
  abbrev pub set_zone : Host F → String → Host F
  set_zone h zone = record h { zone = zone }

  abbrev pub set_labels : Host F → Dict String → Host F
  set_labels h labels = record h { labels = labels }

  abbrev pub set_cpu_cores : Host F → ℤ → Host F
  set_cpu_cores h cores = record h { cpu_cores = at_least_one cores }

  abbrev pub set_memory_gb : Host F → ℤ → Host F
  set_memory_gb h gb = record h { memory_gb = at_least_one gb }

  abbrev pub add_service : Host F → String → Host F
  add_service h id = record h { service_instances = h.service_instances ++ id ∷ [] }

  abbrev pub remove_service : Host F → String → Host F
  remove_service h id = record h { service_instances = remove_first id h.service_instances }

module _ {F : Type 0} (ops : HostOps F) where
  abbrev pub new_host : String → ℤ → ℤ → Host F
  new_host id cores gb = record {
    id = id;
    cpu_cores = cores;
    memory_gb = gb;
    zone = "";
    labels = [];
    cpu_utilization = ops.base.nought;
    memory_utilization = ops.base.nought;
    service_instances = [];
  }

  -- At most 1 and at least 0.
  abbrev pub clamp_utilization : F → F
  clamp_utilization util =
      let raised = if ops.base.less util ops.base.nought then ops.base.nought else util in
      if ops.base.less ops.base.one raised then ops.base.one else raised

  -- The same bounds, as the aggregation tests them before.
  abbrev pub clamp_aggregate : F → F
  clamp_aggregate util =
      let lowered = if ops.base.less ops.base.one util then ops.base.one else util in
      if ops.base.less lowered ops.base.nought then ops.base.nought else lowered

  abbrev pub set_cpu_utilization : Host F → F → Host F
  set_cpu_utilization h util = record h { cpu_utilization = clamp_utilization util }

  abbrev pub set_memory_utilization : Host F → F → Host F
  set_memory_utilization h util = record h { memory_utilization = clamp_utilization util }

  abbrev pub cpu_used : List (Instance F) → ℕ → F → F
  cpu_used [] now sum = sum
  cpu_used (inst ∷ rest) now sum =
      cpu_used rest now
        (ops.base.plus sum (ops.times (ops.cpu_utilization_at inst now) inst.cpu_cores))

  abbrev pub memory_used : List (Instance F) → F → F
  memory_used [] sum = sum
  memory_used (inst ∷ rest) sum = memory_used rest (ops.base.plus sum inst.active_memory_mb)

  abbrev pub update_cpu_utilization_at : Host F → ℕ → List (Instance F) → Host F
  update_cpu_utilization_at h now [] = set_cpu_utilization h ops.base.nought
  update_cpu_utilization_at h now (inst ∷ rest) =
      let used = cpu_used (inst ∷ rest) now ops.base.nought in
      if ltb_ℤ (pos 0) h.cpu_cores
      then set_cpu_utilization h (clamp_aggregate (ops.base.divide used (ops.of_int h.cpu_cores)))
      else h

  abbrev pub update_memory_utilization : Host F → List (Instance F) → Host F
  update_memory_utilization h [] = set_memory_utilization h ops.base.nought
  update_memory_utilization h (inst ∷ rest) =
      let used = memory_used (inst ∷ rest) ops.base.nought in
      if ltb_ℤ (pos 0) h.memory_gb
      then set_memory_utilization h (
          clamp_aggregate
            (ops.base.divide (ops.base.divide used ops.kilo) (ops.of_int h.memory_gb)))
      else h

  abbrev pub has_capacity : Host F → Bool
  has_capacity h =
      ops.base.less h.cpu_utilization ops.base.one
      && ops.base.less h.memory_utilization ops.base.one
