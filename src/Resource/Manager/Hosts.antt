-- ===== src/Resource/Manager/Hosts.antt =====
-- Scaling of the hosts in internal/resource/manager.go. `auto_name` is the id that fmt.Sprintf makes
-- of a number, `is_auto` strings.HasPrefix with `host-auto-`, and `sort_auto` sort.Slice by falling
-- number. Go's first host of a map is the first entry.
pub mod Spared
use simulation_core.Base.{
  ℕ, zero, suc, ◌+◌, ◌-◌, Bool, true, false, String, List, [], ◌∷◌, ◌++◌, Option, none, some, ◌&&◌,
  ◌||◌, not, ◌==◌, if◌then◌else◌, ltb, leb, length,
}
use simulation_core.Base.Int.{ℤ, pos, pos_part, ltb_ℤ, leb_ℤ, ◌+ℤ◌}
use simulation_core.Base.Dict.{Dict, lookup, insert, delete}
use simulation_core.Resource.Host.{
  Host, HostOps, new_host, set_cpu_cores, set_memory_gb, at_least_one,
}
use simulation_core.Resource.Manager.{
  Manager, ResourceError, no_hosts, too_few_empty_hosts, capacity_in_use, Answer, ok, err, ids_at,
  collect_instances_for_host,
}
use simulation_core.Resource.Manager.Scaling.{take, cpu_sum, memory_sum, is_within}

abbrev pub delete_all {ℓ} : {V : Type ℓ} → List String → Dict V → Dict V
delete_all [] dict = dict
delete_all (id ∷ ids) dict = delete_all ids (delete id dict)

-- Capacity that a delta changes only where it is positive, or only where it is negative.
abbrev pub grown : ℤ → ℤ → ℤ
grown old delta = if ltb_ℤ (pos 0) delta then at_least_one (old +ℤ delta) else old

abbrev pub shrunk : ℤ → ℤ → ℤ
shrunk old delta = if ltb_ℤ delta (pos 0) then at_least_one (old +ℤ delta) else old

module _ {F : Type 0} where
  -- The ids of hosts without instances, automatic ones or others.
  abbrev pub empty_hosts : (String → Bool) → Dict (List String) → Dict (Host F) → List String
  empty_hosts asked listed [] = []
  empty_hosts asked listed ((id, h) ∷ rest) =
      let later = empty_hosts asked listed rest in
      if length (ids_at id listed) == 0 && asked id then id ∷ later else later

  abbrev pub grow_hosts : (cpu memory : ℤ) → Dict (Host F) → Dict (Host F)
  grow_hosts cpu memory [] = []
  grow_hosts cpu memory ((id, h) ∷ rest) =
      (id, record h { cpu_cores = grown h.cpu_cores cpu; memory_gb = grown h.memory_gb memory })
      ∷ grow_hosts cpu memory rest

  abbrev pub shrink_hosts : (cpu memory : ℤ) → Dict (Host F) → Dict (Host F)
  shrink_hosts cpu memory [] = []
  shrink_hosts cpu memory ((id, h) ∷ rest) =
      (id, record h { cpu_cores = shrunk h.cpu_cores cpu; memory_gb = shrunk h.memory_gb memory })
      ∷ shrink_hosts cpu memory rest

module _ {F R : Type 0} where
  abbrev pub increase_host_capacity : Manager F R → (cpu memory : ℤ) → Manager F R
  increase_host_capacity m cpu memory =
      if leb_ℤ cpu (pos 0) && leb_ℤ memory (pos 0)
      then m
      else record m { hosts = grow_hosts cpu memory m.hosts }

  module _ (is_auto : String → Bool) (sort_auto : List String → List String) where
    abbrev pub candidates : Manager F R → List String
    candidates m =
        sort_auto (empty_hosts is_auto m.host_to_instances m.hosts)
        ++ empty_hosts (λ id. not (is_auto id)) m.host_to_instances m.hosts

    abbrev pub remove_hosts : Manager F R → ℕ → Answer (Unit {0}) × Manager F R
    remove_hosts m target =
        let current = length m.hosts in
        let gone = take (current - target) (candidates m) in
        if ltb (length (candidates m)) (current - target)
        then (err (too_few_empty_hosts (length (candidates m))), m)
        else (
          ok tt,
          record m {
            hosts = delete_all gone m.hosts;
            host_to_instances = delete_all gone m.host_to_instances;
          },
        )

    unfoldable pub scale_in_hosts : Manager F R → ℤ → Answer (Unit {0}) × Manager F R
    scale_in_hosts m target =
        let current = length m.hosts in
        if leb_ℤ (pos current) target || leb current 1
        then (ok tt, m)
        else remove_hosts m (pos_part (at_least_one target))

module _ {F : Type 0} (ops : HostOps F) where
  -- The loop of ScaleOutHosts on fuel; an id that is taken is skipped.
  unfoldable pub add_hosts :
      ℕ → (auto_name : ℕ → String) → Host F → (target next : ℕ) → Dict (Host F) → Dict (Host F)
  add_hosts zero auto_name template target next hosts = hosts
  add_hosts (suc fuel) auto_name template target next hosts =
      let id = auto_name next in
      let skipped = add_hosts fuel auto_name template target (suc next) hosts in
      let added =
        add_hosts fuel auto_name template target (suc next)
          (insert id (new_host ops id template.cpu_cores template.memory_gb) hosts) in
      if ltb (length hosts) target
      then elim (lookup id hosts) [ none ↦ added | some h ↦ skipped ]
      else hosts

module _ {F R : Type 0} (ops : HostOps F) where
  abbrev pub scale_out_from :
      Manager F R → (auto_name : ℕ → String) → ℕ → Dict (Host F) → Answer (Unit {0}) × Manager F R
  scale_out_from m auto_name target [] = (err no_hosts, m)
  scale_out_from m auto_name target ((id, template) ∷ rest) = (
    ok tt,
    record m {
      hosts = add_hosts ops target auto_name template target (suc (length m.hosts)) m.hosts;
    },
  )

  -- Fuel: as many turns as hosts are asked for, since a turn adds a host or meets one that is there.
  unfoldable pub scale_out_hosts :
      Manager F R → (auto_name : ℕ → String) → ℤ → Answer (Unit {0}) × Manager F R
  scale_out_hosts m auto_name target =
      if leb_ℤ target (pos (length m.hosts))
      then (ok tt, m)
      else scale_out_from m auto_name (pos_part target) m.hosts

  -- The first host whose instances would not fit any more.
  abbrev pub first_overfull : Manager F R → (cpu memory : ℤ) → Dict (Host F) → Option String
  first_overfull m cpu memory [] = none
  first_overfull m cpu memory ((id, h) ∷ rest) =
      let placed = collect_instances_for_host m id in
      let cores = ops.of_int (at_least_one (h.cpu_cores +ℤ cpu)) in
      let capacity = ops.times (ops.of_int (at_least_one (h.memory_gb +ℤ memory))) ops.kilo in
      let later = first_overfull m cpu memory rest in
      if is_within ops (cpu_sum ops placed ops.base.nought) cores ops.cpu_slack
        && is_within ops (memory_sum ops placed ops.base.nought) capacity ops.memory_slack
      then later
      else some id

  abbrev pub decrease_checked :
      Manager F R → (cpu memory : ℤ) → Option String → Answer (Unit {0}) × Manager F R
  decrease_checked m cpu memory (some id) = (err (capacity_in_use id), m)
  decrease_checked m cpu memory none = (ok tt, record m { hosts = shrink_hosts cpu memory m.hosts })

  unfoldable pub decrease_host_capacity :
      Manager F R → (cpu memory : ℤ) → Answer (Unit {0}) × Manager F R
  decrease_host_capacity m cpu memory =
      if leb_ℤ (pos 0) cpu && leb_ℤ (pos 0) memory
      then (ok tt, m)
      else decrease_checked m cpu memory (first_overfull m cpu memory m.hosts)
