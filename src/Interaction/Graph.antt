-- ===== src/Interaction/Graph.antt =====
-- Graph of internal/interaction/graph.go, and the calls that internal/interaction/resolver.go reads
-- off it. A map from keys to marks is a function whose default is false. The order in which Go ranges
-- over the endpoints is the order of the dictionary, any order. `trim` stands for strings.TrimSpace
-- and `lower` for strings.ToLower.
pub mod Acyclic
pub mod Enough
pub mod Cycle
use simulation_core.Base.{
  ℕ, zero, suc, ◌+◌, Bool, true, false, String, List, [], ◌∷◌, ◌++◌, Option, none, some, ◌||◌, ◌=ₛ◌,
  if◌then◌else◌, length,
}
use simulation_core.Base.Key.{endpoint_key}
use simulation_core.Base.Dict.{Dict, lookup, insert}
use simulation_core.Interaction.Target.{
  TargetError, Parsed, target, malformed, parse_downstream_target,
}

-- DownstreamCall of pkg/config. `F` is float64.
pub record DownstreamCall (F : Type 0) : Type 0 where
  pub to : String
  pub mode : String
  pub kind : String
  pub probability : F
  pub call_count_mean : F
  pub latency_mean : F
  pub latency_sigma : F
  pub timeout_ms : F
  pub failure_rate : F
  pub retryable : Option Bool
  pub downstream_fraction_cpu : F
  pub partition_key : String
  pub partition_key_from : String

-- Of an endpoint and a service, what the graph reads.
pub record Endpoint (F : Type 0) : Type 0 where
  pub path : String
  pub downstream : List (DownstreamCall F)

pub record Service (F : Type 0) : Type 0 where
  pub id : String
  pub endpoints : List (Endpoint F)

pub record Edge (F : Type 0) : Type 0 where
  pub from_service : String
  pub from_path : String
  pub to_service : String
  pub to_path : String
  pub call : DownstreamCall F

pub record Graph (F : Type 0) : Type 0 where
  pub services : Dict (Service F)
  pub endpoints : Dict (Endpoint F)
  pub edges : Dict (List (Edge F))

pub data GraphError : Type 0 where
  invalid_target : String → TargetError → GraphError
  unknown_service : String → GraphError
  cycle_detected : (key to_key : String) → GraphError

-- What a function returns; `out_of_fuel` where the fuel of the search did not last.
pub data Outcome (A : Type 0) : Type 0 where
  ok : A → Outcome A
  err : GraphError → Outcome A
  out_of_fuel : Outcome A

module _ {A B : Type 0} where
  abbrev pub and_then : Outcome A → (A → Outcome B) → Outcome B
  and_then (ok a) next = next a
  and_then (err e) next = err e
  and_then out_of_fuel next = out_of_fuel

-- The maps `visited` and `recStack`.
pub record Marks : Type 0 where
  pub visited : String → Bool
  pub rec_stack : String → Bool

abbrev pub no_marks : Marks
no_marks = record { visited = λ key. false; rec_stack = λ key. false }

abbrev pub mark : String → Bool → (String → Bool) → String → Bool
mark key value marks query = if key =ₛ query then value else marks query

abbrev pub enter : String → Marks → Marks
enter key m = record { visited = mark key true m.visited; rec_stack = mark key true m.rec_stack }

abbrev pub leave : String → Marks → Marks
leave key m = record m { rec_stack = mark key false m.rec_stack }

module _ {F : Type 0} where
  abbrev pub edges_of : Option (List (Edge F)) → List (Edge F)
  edges_of none = []
  edges_of (some edges) = edges

  -- `g.edges[key]`
  abbrev pub edges_at : Graph F → String → List (Edge F)
  edges_at g key = edges_of (lookup key g.edges)

  abbrev pub to_key : Edge F → String
  to_key edge = endpoint_key edge.to_service edge.to_path

  abbrev pub get_service : Graph F → String → Option (Service F)
  get_service g id = lookup id g.services

  abbrev pub get_endpoint : Graph F → String → String → Option (Endpoint F)
  get_endpoint g id path = lookup (endpoint_key id path) g.endpoints

  abbrev pub get_downstream_edges : Graph F → String → String → List (Edge F)
  get_downstream_edges g id path = edges_at g (endpoint_key id path)

  -- The first pass of NewGraph.
  abbrev pub register_endpoints : String → List (Endpoint F) → Dict (Endpoint F) → Dict (Endpoint F)
  register_endpoints id [] endpoints = endpoints
  register_endpoints id (ep ∷ eps) endpoints =
      register_endpoints id eps (insert (endpoint_key id ep.path) ep endpoints)

  abbrev pub register : List (Service F) → Graph F → Graph F
  register [] g = g
  register (svc ∷ rest) g = register rest (record g {
    services = insert svc.id svc g.services;
    endpoints = register_endpoints svc.id svc.endpoints g.endpoints;
  })

  abbrev pub add_edge : Graph F → String → Edge F → Graph F
  add_edge g key edge = record g { edges = insert key (edges_at g key ++ edge ∷ []) g.edges }

  -- Fuel: the number of keys that a search can meet.
  abbrev pub edge_keys : List (Edge F) → List String
  edge_keys [] = []
  edge_keys (edge ∷ edges) = to_key edge ∷ edge_keys edges

  abbrev pub all_edge_keys : Dict (List (Edge F)) → List String
  all_edge_keys [] = []
  all_edge_keys ((key, edges) ∷ rest) = edge_keys edges ++ all_edge_keys rest

  abbrev pub endpoint_keys : Dict (Endpoint F) → List String
  endpoint_keys [] = []
  endpoint_keys ((key, ep) ∷ rest) = key ∷ endpoint_keys rest

  abbrev pub all_keys : Graph F → List String
  all_keys g = endpoint_keys g.endpoints ++ all_edge_keys g.edges

  abbrev pub empty_graph : Graph F
  empty_graph = record { services = []; endpoints = []; edges = [] }

  module _ (trim lower : String → String) where
    abbrev pub is_async : DownstreamCall F → Bool
    is_async call = let mode = lower (trim call.mode) in mode =ₛ "async" || mode =ₛ "event"

    abbrev pub edge_to :
        (from path service to_path : String)
        → DownstreamCall F
        → Option (Service F)
        → Outcome (Edge F)
    edge_to from path service to_path call none = err (unknown_service service)
    edge_to from path service to_path call (some svc) = ok (record {
      from_service = from;
      from_path = path;
      to_service = service;
      to_path = to_path;
      call = call;
    })

    abbrev pub edge_parsed :
        Graph F → (from path : String) → DownstreamCall F → Parsed → Outcome (Edge F)
    edge_parsed g from path call (malformed e) = err (invalid_target call.to e)
    edge_parsed g from path call (target service to_path) =
        edge_to from path service to_path call (get_service g service)

    abbrev pub create_edge : Graph F → (from path : String) → DownstreamCall F → Outcome (Edge F)
    create_edge g from path call =
        edge_parsed g from path call (parse_downstream_target trim call.to)

    -- The second pass of NewGraph, from its innermost loop outwards.
    unfoldable pub add_calls :
        (from path : String) → List (DownstreamCall F) → Graph F → Outcome (Graph F)
    add_calls from path [] g = ok g
    add_calls from path (call ∷ calls) g =
        and_then (create_edge g from path call)
          (λ edge. add_calls from path calls (add_edge g (endpoint_key from path) edge))

    unfoldable pub add_endpoints : String → List (Endpoint F) → Graph F → Outcome (Graph F)
    add_endpoints from [] g = ok g
    add_endpoints from (ep ∷ eps) g =
        and_then (add_calls from ep.path ep.downstream g) (add_endpoints from eps)

    unfoldable pub add_services : List (Service F) → Graph F → Outcome (Graph F)
    add_services [] g = ok g
    add_services (svc ∷ rest) g =
        and_then (add_endpoints svc.id svc.endpoints g) (add_services rest)

    -- The loop of `dfs` over the edges of a key; `visit` is the recursive call.
    unfoldable pub walk :
        (String → Marks → Outcome Marks) → String → List (Edge F) → Marks → Outcome Marks
    walk visit key [] m = ok m
    walk visit key (edge ∷ edges) m =
        let rest = walk visit key edges m in
        if is_async edge.call
        then rest
        else if m.visited (to_key edge)
        then (if m.rec_stack (to_key edge) then err (cycle_detected key (to_key edge)) else rest)
        else and_then (visit (to_key edge) m) (walk visit key edges)

    unfoldable pub dfs : ℕ → Graph F → String → Marks → Outcome Marks
    dfs zero g key m = out_of_fuel
    dfs (suc fuel) g key m =
        and_then (walk (dfs fuel g) key (edges_at g key) (enter key m))
          (λ after. ok (leave key after))

    unfoldable pub search_from : ℕ → Graph F → Dict (Endpoint F) → Marks → Outcome Marks
    search_from fuel g [] m = ok m
    search_from fuel g ((key, ep) ∷ rest) m =
        let later = search_from fuel g rest m in
        if m.visited key then later else and_then (dfs fuel g key m) (search_from fuel g rest)

    unfoldable pub validate_sync_acyclic : Graph F → Outcome Marks
    validate_sync_acyclic g = search_from (length (all_keys g)) g g.endpoints no_marks

    abbrev pub validated : Graph F → Outcome (Graph F)
    validated g = and_then (validate_sync_acyclic g) (λ m. ok g)

    unfoldable pub new_graph : List (Service F) → Outcome (Graph F)
    new_graph scenario = and_then (add_services scenario (register scenario empty_graph)) validated
