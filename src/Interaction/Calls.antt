-- ===== src/Interaction/Calls.antt =====
-- The calls that a finished request makes: ResolveDownstreamCalls and ValidateDownstreamTarget of
-- internal/interaction/resolver.go, internal/interaction/branching.go, internal/interaction/manager.go
-- and internal/interaction/call_semantics.go. `R` is the state of math/rand and `draw` its Float64.
pub mod Bounds
use simulation_core.Base.{
  ℕ, zero, suc, ◌+◌, ◌*◌, Bool, true, false, String, List, [], ◌∷◌, ◌++◌, Option, none, some, ◌&&◌,
  ◌||◌, not, ◌=ₛ◌, if◌then◌else◌,
}
use simulation_core.Base.Int.{ℤ, pos, sub_ℕ}
use simulation_core.Base.Key.{endpoint_key}
use simulation_core.Base.Dict.{Dict, lookup, insert}
use simulation_core.Interaction.Target.{
  TargetError, Parsed, target, malformed, parse_downstream_target,
}
use simulation_core.Interaction.Graph.{
  DownstreamCall, Edge, Service, Graph, GraphError, invalid_target, unknown_service, Outcome, ok,
  err, and_then, get_service, get_endpoint, get_downstream_edges, new_graph,
}

pub record ResolvedCall (F : Type 0) : Type 0 where
  pub service_id : String
  pub path : String
  pub call : DownstreamCall F

-- The float64 operations that branching uses; `floor` is `int(math.Floor(_))`, which is not negative
-- where branching calls it.
pub record BranchOps (F : Type 0) : Type 0 where
  pub zero : F
  pub one : F
  pub leb : F → F → Bool
  pub ltb : F → F → Bool
  pub min : F → F → F
  pub floor : F → ℕ
  pub sub_int : F → ℕ → F

module _ {A : Type 0} where
  abbrev pub times : ℕ → A → List A
  times zero a = []
  times (suc n) a = a ∷ times n a

module _ {F : Type 0} where
  abbrev pub resolve_edge : Edge F → Option (Service F) → List (ResolvedCall F)
  resolve_edge edge none = []
  resolve_edge edge (some svc) =
      (record { service_id = edge.to_service; path = edge.to_path; call = edge.call }) ∷ []

  abbrev pub resolve_edges : Graph F → List (Edge F) → List (ResolvedCall F)
  resolve_edges g [] = []
  resolve_edges g (edge ∷ edges) =
      resolve_edge edge (get_service g edge.to_service) ++ resolve_edges g edges

  unfoldable pub resolve_downstream_calls : Graph F → String → String → List (ResolvedCall F)
  resolve_downstream_calls g id path = resolve_edges g (get_downstream_edges g id path)

  abbrev pub check_service : String → Option (Service F) → Option GraphError
  check_service id none = some (unknown_service id)
  check_service id (some svc) = none

  abbrev pub check_target : Graph F → String → Parsed → Option GraphError
  check_target g given (malformed e) = some (invalid_target given e)
  check_target g given (target id path) = check_service id (get_service g id)

  abbrev pub validate_downstream_target : (String → String) → Graph F → String → Option GraphError
  validate_downstream_target trim g given =
      check_target g given (parse_downstream_target trim given)

  abbrev pub validate_service : Graph F → String → Option GraphError
  validate_service g id = check_service id (get_service g id)

  abbrev pub validate_endpoint : Graph F → String → String → Bool
  validate_endpoint g id path = elim (get_endpoint g id path) [ none ↦ false | some ep ↦ true ]

  module _ {R : Type 0} (ops : BranchOps F) (draw : R → F × R) where
    -- A number that is not positive is 1.
    abbrev pub or_one : F → F
    or_one x = if ops.leb x ops.zero then ops.one else x

    abbrev pub probability_of : DownstreamCall F → F
    probability_of call =
        let prob = or_one call.probability in if ops.ltb ops.one prob then ops.one else prob

    -- How often a call is made: the whole part of the mean, and one more with the rest as chance.
    abbrev pub call_count : F → R → ℕ × R
    call_count mean rng =
        let base = ops.floor mean in
        let frac = ops.sub_int mean base in
        let drawn = draw rng in
        if ops.ltb ops.zero frac
        then (if ops.ltb drawn.0 frac then (suc base, drawn.1) else (base, drawn.1))
        else (base, rng)

    abbrev pub make_call : ResolvedCall F → R → List (ResolvedCall F) × R
    make_call call rng =
        let counted = call_count (or_one call.call.call_count_mean) rng in
        (times counted.0 call, counted.1)

    abbrev pub choose_call : ResolvedCall F → R → List (ResolvedCall F) × R
    choose_call call rng =
        let prob = probability_of call.call in
        let drawn = draw rng in
        if ops.ltb prob ops.one
        then (if ops.leb prob drawn.0 then ([], drawn.1) else make_call call drawn.1)
        else make_call call rng

    -- SelectCalls of DefaultBranchingStrategy.
    unfoldable pub select_calls : List (ResolvedCall F) → R → List (ResolvedCall F) × R
    select_calls [] rng = ([], rng)
    select_calls (call ∷ calls) rng =
        let chosen = choose_call call rng in
        let rest = select_calls calls chosen.1 in (chosen.0 ++ rest.0, rest.1)

    abbrev pub probability_at : Dict F → ResolvedCall F → F
    probability_at probabilities call =
        elim (lookup (endpoint_key call.service_id call.path) probabilities) [
          | none ↦ ops.min (or_one call.call.call_count_mean) ops.one
          | some prob ↦ prob
        ]

    -- SelectCalls of ProbabilisticBranchingStrategy.
    unfoldable pub select_by_probability :
        Dict F → List (ResolvedCall F) → R → List (ResolvedCall F) × R
    select_by_probability probabilities [] rng = ([], rng)
    select_by_probability probabilities (call ∷ calls) rng =
        let drawn = draw rng in
        let rest = select_by_probability probabilities calls drawn.1 in
        if ops.ltb drawn.0 (probability_at probabilities call)
        then (call ∷ rest.0, rest.1)
        else rest

-- A Manager is its graph, its strategy and its random numbers.
pub record Manager (F R : Type 0) : Type 0 where
  pub graph : Graph F
  pub select : List (ResolvedCall F) → R → List (ResolvedCall F) × R
  pub rng : R

-- Of a request, what the manager reads and sets; `V` is what its metadata holds.
pub record Request (V : Type 0) : Type 0 where
  pub id : String
  pub trace_id : String
  pub parent_id : String
  pub service_name : String
  pub endpoint : String
  pub metadata : Dict V

pub data CallMode : Type 0 where
  sync async : CallMode

pub record CallContext (V F : Type 0) : Type 0 where
  pub parent_request : Request V
  pub downstream_call : ResolvedCall F
  pub call_time : ℕ
  pub mode : CallMode
  pub completion_time : Option ℕ
  pub blocking : Bool

abbrev pub is_sync : CallMode → Bool
is_sync sync = true
is_sync async = false

abbrev pub is_async_mode : CallMode → Bool
is_async_mode sync = false
is_async_mode async = true

module _ {F R : Type 0} where
  abbrev pub manager_of :
      (List (ResolvedCall F) → R → List (ResolvedCall F) × R) → R → Graph F → Outcome (Manager F R)
  manager_of select rng g = ok (record { graph = g; select = select; rng = rng })

  -- NewManagerWithSeed; `rng` is the source made from the seed.
  abbrev pub new_manager_with_seed :
      (trim lower : String → String)
      → (List (ResolvedCall F) → R → List (ResolvedCall F) × R)
      → R
      → List (Service F)
      → Outcome (Manager F R)
  new_manager_with_seed trim lower select rng scenario =
      and_then (new_graph trim lower scenario) (manager_of select rng)

  abbrev pub with_branching_strategy :
      (List (ResolvedCall F) → R → List (ResolvedCall F) × R) → Manager F R → Manager F R
  with_branching_strategy select m = record m { select = select }

  abbrev pub select_some : Manager F R → List (ResolvedCall F) → List (ResolvedCall F) × Manager F R
  select_some m [] = ([], m)
  select_some m (call ∷ calls) =
      let selected = m.select (call ∷ calls) m.rng in (selected.0, record m { rng = selected.1 })

  abbrev pub get_downstream_calls :
      Manager F R → String → String → List (ResolvedCall F) × Manager F R
  get_downstream_calls m id path = select_some m (resolve_downstream_calls m.graph id path)

module _ {V : Type 0} (as_string : V → Option String) (of_string : String → V) where
  abbrev pub with_parent_instance : Option String → Dict V
  with_parent_instance none = []
  with_parent_instance (some id) = insert "parent_instance_id" (of_string id) []

  -- The type assertion `Metadata["instance_id"].(string)`.
  abbrev pub instance_id_of : Option V → Option String
  instance_id_of none = none
  instance_id_of (some v) = as_string v

module _ {V F : Type 0} (as_string : V → Option String) (of_string : String → V) where
  abbrev pub downstream_request : String → Request V → ResolvedCall F → Request V
  downstream_request new_id parent call = record {
    id = new_id;
    trace_id = parent.trace_id;
    parent_id = parent.id;
    service_name = call.service_id;
    endpoint = call.path;
    metadata =
        with_parent_instance as_string of_string
          (instance_id_of as_string of_string (lookup "instance_id" parent.metadata));
  }

module _ {V F R : Type 0} (as_string : V → Option String) (of_string : String → V) where
  -- `new_id` is the id that GenerateRequestID returns.
  abbrev pub create_downstream_request :
      Manager F R → String → Request V → ResolvedCall F → Outcome (Request V)
  create_downstream_request m new_id parent call = elim (validate_service m.graph call.service_id) [
    | none ↦ ok (downstream_request as_string of_string new_id parent call)
    | some e ↦ err e
  ]

module _ {V F : Type 0} where
  abbrev pub new_call_context : Request V → ResolvedCall F → ℕ → CallMode → CallContext V F
  new_call_context parent call time mode = record {
    parent_request = parent;
    downstream_call = call;
    call_time = time;
    mode = mode;
    completion_time = none;
    blocking = is_sync mode;
  }

  abbrev pub set_completion_time : ℕ → CallContext V F → CallContext V F
  set_completion_time time c = record c { completion_time = some time }

  abbrev pub duration : CallContext V F → ℤ
  duration c = elim c.completion_time [ none ↦ pos 0 | some time ↦ sub_ℕ time c.call_time ]
