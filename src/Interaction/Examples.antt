-- ===== src/Interaction/Examples.antt =====
-- The theorems about the graph of services at concrete inputs.
use simulation_core.Base.{ℕ, ◌+◌, ◌≡◌, ◌≢◌, refl, String, List, [], ◌∷◌, none, leb, ltb, min, ◌-◌}
use simulation_core.Base.Key.{endpoint_key}
use simulation_core.Base.Dict.{lookup, insert}
use simulation_core.Interaction.Target.{
  target, split_at_colon, parse_downstream_target, parse_downstream_target-endpoint_key,
}
use simulation_core.Interaction.Graph.{
  DownstreamCall, Service, Graph, cycle_detected, Outcome, ok, out_of_fuel, new_graph, register,
  empty_graph, add_calls, add_endpoints, add_services, walk, dfs, search_from,
  validate_sync_acyclic,
}
use simulation_core.Interaction.Graph.Acyclic.{SyncPath}
use simulation_core.Interaction.Graph.Acyclic.Made.{new_graph-acyclic}
use simulation_core.Interaction.Graph.Enough.{validate_sync_acyclic-ends}
use simulation_core.Interaction.Graph.Cycle.{validate_sync_acyclic-cyclic}
use simulation_core.Interaction.Calls.{ResolvedCall, BranchOps}

abbrev same : String → String
same s = s

abbrev call_to : String → String → ℕ → DownstreamCall ℕ
call_to to mode mean = record {
  to = to;
  mode = mode;
  kind = "rest";
  probability = 0;
  call_count_mean = mean;
  latency_mean = 0;
  latency_sigma = 0;
  timeout_ms = 0;
  failure_rate = 0;
  retryable = none;
  downstream_fraction_cpu = 0;
  partition_key = "";
  partition_key_from = "";
}

abbrev service_of : String → List (DownstreamCall ℕ) → Service ℕ
service_of id calls = record {
  id = id;
  endpoints = (record { path = "/"; downstream = calls }) ∷ [];
}

-- The web calls the store, which answers by an event.
abbrev shop : List (Service ℕ)
shop =
    service_of "web" (call_to "store:/" "" 2 ∷ [])
    ∷ service_of "store" (call_to "web" "event" 1 ∷ [])
    ∷ []

abbrev shop_graph : Outcome (Graph ℕ)
shop_graph = new_graph same same shop

abbrev or_empty : Outcome (Graph ℕ) → Graph ℕ
or_empty (ok g) = g
or_empty _ = empty_graph

parse_downstream_target-endpoint_key_example :
    parse_downstream_target same (endpoint_key "store" "/items") ≡ target "store" "/items"
parse_downstream_target-endpoint_key_example =
    parse_downstream_target-endpoint_key same "store" "/items"
      (refl, (refl, (refl, (refl, (refl, tt))))) refl refl refl refl refl

new_graph-acyclic_example : ¬ SyncPath same same (or_empty shop_graph) "web:/" "web:/"
unfolding new_graph add_services add_endpoints add_calls validate_sync_acyclic search_from dfs walk
    lookup insert parse_downstream_target split_at_colon
new_graph-acyclic_example = new_graph-acyclic same same shop (or_empty shop_graph) "web:/" refl

-- Two services that call each other.
abbrev loop : List (Service ℕ)
loop = service_of "a" (call_to "b" "" 1 ∷ []) ∷ service_of "b" (call_to "a" "sync" 1 ∷ []) ∷ []

abbrev loop_graph : Graph ℕ
loop_graph = or_empty (add_services same same loop (register loop empty_graph))

validate_sync_acyclic-ends_example : validate_sync_acyclic same same loop_graph ≢ out_of_fuel
validate_sync_acyclic-ends_example = validate_sync_acyclic-ends same same loop_graph

validate_sync_acyclic-cyclic_example : (x : String) × SyncPath same same loop_graph x x
unfolding add_services add_endpoints add_calls validate_sync_acyclic search_from dfs walk lookup
    insert parse_downstream_target split_at_colon
validate_sync_acyclic-cyclic_example =
    validate_sync_acyclic-cyclic same same loop_graph (cycle_detected "b:/" "a:/") refl

-- Whole numbers for float64, and 7 for every draw.
abbrev whole : BranchOps ℕ
whole = record {
  zero = 0;
  one = 1;
  leb = leb;
  ltb = ltb;
  min = min;
  floor = λ n. n;
  sub_int = λ n m. n - m;
}

abbrev draw_seven : ℕ → ℕ × ℕ
draw_seven n = (7, n + 1)

abbrev two_calls : List (ResolvedCall ℕ)
two_calls =
    (record { service_id = "store"; path = "/"; call = call_to "store:/" "" 2 })
    ∷ (record { service_id = "mail"; path = "/"; call = call_to "mail" "event" 0 })
    ∷ []
