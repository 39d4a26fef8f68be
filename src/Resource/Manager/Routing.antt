-- ===== src/Resource/Manager/Routing.antt =====
-- internal/resource/routing.go: the instance that a request is sent to. `normalise` stands for
-- strings.ToLower and TrimSpace, `equal_fold` for strings.EqualFold, `print` for fmt.Sprint, `hash` for
-- the FNV hash of a printed value, and `intn` for Intn of math/rand.
use simulation_core.Base.{
  ℕ, suc, ◌+◌, ◌%◌, Bool, false, String, List, [], ◌∷◌, Option, none, some, ◌=ₛ◌, ◌==◌,
  if◌then◌else◌, ltb, leb, length,
}
use simulation_core.Base.Int.{ℤ, pos, pos_part, ltb_ℤ}
use simulation_core.Base.Key.{endpoint_key}
use simulation_core.Base.Dict.{Dict, lookup, insert}
use simulation_core.Resource.Instance.{Instance, queue_length}
use simulation_core.Resource.Host.{HostOps}
use simulation_core.Resource.Manager.{
  RoutingPolicy, Manager, no_instances, unsupported_strategy, Answer, ok, err, at_index, index_at,
  ids_at, found_instances,
}

-- What routing reads of a request.
pub record RoutedRequest (V : Type 0) : Type 0 where
  pub endpoint : String
  pub metadata : Dict V

-- What stands for calls of other packages; `wheel` is `int(w*1000 + 0.5)`.
pub record RouteOps (F V R : Type 0) : Type 0 where
  pub host : HostOps F
  pub trim : String → String
  pub normalise : String → String
  pub equal_fold : String → String → Bool
  pub print : V → String
  pub hash : V → ℕ
  pub intn : R → ℕ → ℕ × R
  pub wheel : F → ℤ

abbrev pub normalize_routing_strategy : (String → String) → String → String
normalize_routing_strategy normalise s = let n = normalise s in if n =ₛ "" then "round_robin" else n

module _ {A B : Type 0} where
  -- The first element whose value is the least.
  abbrev pub least_from : (B → B → Bool) → (A → B) → A → List A → A
  least_from less value best [] = best
  least_from less value best (a ∷ rest) =
      least_from less value (if less (value a) (value best) then a else best) rest

module _ {F V R : Type 0} (ops : RouteOps F V R) where
  abbrev pub policy_or :
      Option (RoutingPolicy F) → Option (RoutingPolicy F) → Option (RoutingPolicy F)
  policy_or none service = service
  policy_or (some endpoint) service = some endpoint

  abbrev pub routing_policy_for_request :
      Manager F R → String → Option (RoutedRequest V) → Option (RoutingPolicy F)
  routing_policy_for_request m service none = lookup service m.service_routing
  routing_policy_for_request m service (some req) =
      policy_or (lookup (endpoint_key service req.endpoint) m.endpoint_routing)
        (lookup service m.service_routing)

  abbrev pub is_in_zone : Manager F R → String → Instance F → Bool
  is_in_zone m zone inst = elim (lookup inst.host_id m.hosts) [
    | none ↦ false
    | some h ↦ ops.equal_fold (ops.trim h.zone) zone
  ]

  abbrev pub in_zone : Manager F R → String → List (Instance F) → List (Instance F)
  in_zone m zone [] = []
  in_zone m zone (inst ∷ rest) =
      let later = in_zone m zone rest in if is_in_zone m zone inst then inst ∷ later else later

  abbrev pub preferred_or : List (Instance F) → List (Instance F) → List (Instance F)
  preferred_or [] all = all
  preferred_or (inst ∷ rest) all = inst ∷ rest

  abbrev pub in_zone_of : Manager F R → Option V → List (Instance F) → List (Instance F)
  in_zone_of m none all = all
  in_zone_of m (some v) all =
      let zone = ops.trim (ops.print v) in
      if zone =ₛ "" then all else preferred_or (in_zone m zone all) all

  abbrev pub apply_locality_preference :
      Manager F R
      → Option (RoutingPolicy F)
      → Option (RoutedRequest V)
      → List (Instance F)
      → List (Instance F)
  apply_locality_preference m none req all = all
  apply_locality_preference m (some pol) none all = all
  apply_locality_preference m (some pol) (some req) all =
      let key = ops.trim pol.locality_zone_from in
      if key =ₛ "" then all else in_zone_of m (lookup key req.metadata) all

  abbrev pub weighted_wheel_slots : F → ℕ
  weighted_wheel_slots w =
      let slots = ops.wheel w in
      if ops.host.base.less ops.host.base.nought w
      then (if ltb_ℤ slots (pos 1) then 1 else pos_part slots)
      else 0

  abbrev pub weight_or_one : Option F → F
  weight_or_one none = ops.host.base.one
  weight_or_one (some w) = w

  abbrev pub weight_of : Option (RoutingPolicy F) → Instance F → F
  weight_of none inst = ops.host.base.one
  weight_of (some pol) inst = weight_or_one (lookup inst.id pol.weights)

  abbrev pub total_slots : Option (RoutingPolicy F) → List (Instance F) → ℕ
  total_slots pol [] = 0
  total_slots pol (inst ∷ rest) = weighted_wheel_slots (weight_of pol inst) + total_slots pol rest

  -- The instance on whose slots of the wheel the cursor stands, and else the last one.
  abbrev pub on_wheel :
      Option (RoutingPolicy F) → (cursor before : ℕ) → Instance F → List (Instance F) → Instance F
  on_wheel pol cursor before inst [] = inst
  on_wheel pol cursor before inst (next ∷ rest) =
      let sum = before + weighted_wheel_slots (weight_of pol inst) in
      if ltb cursor sum then inst else on_wheel pol cursor sum next rest

  -- selectRoundRobinLocked, which starts again where the index is past the end.
  unfoldable pub select_round_robin :
      Manager F R → String → List (Instance F) → Answer (Instance F) × Manager F R
  select_round_robin m service instances =
      let stored = index_at service m.round_robin_idx in
      let idx = if leb (length instances) stored then 0 else stored in
      (
        at_index idx instances,
        record m {
          round_robin_idx = insert service (suc idx % length instances) m.round_robin_idx;
        },
      )

  abbrev pub with_strategy :
      String → Answer (Instance F) × Manager F R → Answer (Instance F) × String × Manager F R
  with_strategy strategy selected = (selected.0, strategy, selected.1)

  abbrev pub route_weighted :
      Manager F R
      → String
      → Option (RoutingPolicy F)
      → Instance F
      → List (Instance F)
      → Answer (Instance F) × String × Manager F R
  route_weighted m service pol inst rest =
      let total = total_slots pol (inst ∷ rest) in
      let cursor = index_at service m.weighted_round_robin_idx % total in
      if total == 0
      then with_strategy "round_robin" (select_round_robin m service (inst ∷ rest))
      else (
        ok (on_wheel pol cursor 0 inst rest),
        "weighted_round_robin",
        record m {
          weighted_round_robin_idx = insert service (suc cursor % total) m.weighted_round_robin_idx;
        },
      )

  abbrev pub route_sticky_by :
      Manager F R
      → String
      → List (Instance F)
      → Option V
      → Answer (Instance F) × String × Manager F R
  route_sticky_by m service instances none =
      with_strategy "round_robin" (select_round_robin m service instances)
  route_sticky_by m service instances (some v) =
      (at_index (ops.hash v % length instances) instances, "sticky", m)

  abbrev pub route_sticky :
      Manager F R
      → String
      → Option (RoutingPolicy F)
      → Option (RoutedRequest V)
      → List (Instance F)
      → Answer (Instance F) × String × Manager F R
  route_sticky m service none req instances =
      with_strategy "round_robin" (select_round_robin m service instances)
  route_sticky m service (some pol) none instances =
      with_strategy "round_robin" (select_round_robin m service instances)
  route_sticky m service (some pol) (some req) instances =
      let key = ops.trim pol.sticky_key_from in
      if key =ₛ ""
      then with_strategy "round_robin" (select_round_robin m service instances)
      else route_sticky_by m service instances (lookup key req.metadata)

  abbrev pub route_random :
      Manager F R → List (Instance F) → Answer (Instance F) × String × Manager F R
  route_random m instances =
      let drawn = ops.intn m.routing_rand (length instances) in
      (at_index drawn.0 instances, "random", record m { routing_rand = drawn.1 })

  abbrev pub route_by :
      Manager F R
      → String
      → Option (RoutingPolicy F)
      → Option (RoutedRequest V)
      → ℕ
      → String
      → Instance F
      → List (Instance F)
      → Answer (Instance F) × String × Manager F R
  route_by m service pol req now strategy inst rest =
      if strategy =ₛ "round_robin"
      then with_strategy strategy (select_round_robin m service (inst ∷ rest))
      else if strategy =ₛ "random"
      then route_random m (inst ∷ rest)
      else if strategy =ₛ "least_connections"
      then (ok (least_from ltb (λ (i : Instance F). i.active_requests) inst rest), strategy, m)
      else if strategy =ₛ "least_queue"
      then (ok (least_from ltb (λ (i : Instance F). queue_length i) inst rest), strategy, m)
      else if strategy =ₛ "least_cpu"
      then (
        ok (least_from ops.host.base.less (λ i. ops.host.cpu_utilization_at i now) inst rest),
        strategy,
        m,
      )
      else if strategy =ₛ "weighted_round_robin"
      then route_weighted m service pol inst rest
      else if strategy =ₛ "sticky"
      then route_sticky m service pol req (inst ∷ rest)
      else (err (unsupported_strategy strategy service), strategy, m)

  abbrev pub strategy_of : Option (RoutingPolicy F) → String
  strategy_of none = "round_robin"
  strategy_of (some pol) = normalize_routing_strategy ops.normalise pol.strategy

  abbrev pub route_among :
      Manager F R
      → String
      → Option (RoutingPolicy F)
      → Option (RoutedRequest V)
      → ℕ
      → List (Instance F)
      → Answer (Instance F) × String × Manager F R
  route_among m service pol req now [] = (err (no_instances service), "", m)
  route_among m service pol req now (inst ∷ rest) =
      route_by m service pol req now (strategy_of pol) inst rest

  unfoldable pub select_instance_for_request :
      Manager F R
      → String
      → Option (RoutedRequest V)
      → ℕ
      → Answer (Instance F) × String × Manager F R
  select_instance_for_request m service req now =
      let pol = routing_policy_for_request m service req in
      route_among m service pol req now (
        apply_locality_preference m pol req
          (found_instances m.instances (ids_at service m.sorted_service_inst_map)))
