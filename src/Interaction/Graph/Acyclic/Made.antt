-- ===== src/Interaction/Graph/Acyclic/Made.antt =====
-- NewGraph of internal/interaction/graph.go: the graphs that it makes.
use simulation_core.Base.{
  ◌≡◌, refl, sym, subst, ap, ◌∙◌, false, String, List, [], ◌∷◌, none, some, inl, inr, ◌=ₛ◌,
  Bool-cases, Option-cases, arith, eq_iff,
}
use simulation_core.Base.Key.{endpoint_key}
use simulation_core.Base.Dict.{Dict, lookup, insert, lookup-insert}
use simulation_core.Interaction.Graph.{
  DownstreamCall, Edge, Endpoint, Service, Graph, Outcome, ok, edges_of, edges_at, create_edge,
  add_edge, add_calls, add_endpoints, add_services, register, register_endpoints, empty_graph,
  validate_sync_acyclic, validated, new_graph,
}
use simulation_core.Interaction.Graph.Acyclic.{
  SyncTo, SyncPath, one, more, and_then-ok, Ends-acyclic, validate_sync_acyclic-Ends,
}

module _ {V : Type 0} where
  abbrev Has : Dict V → String → Type 0
  Has dict key = lookup key dict ≡ none → ⊥

  insert-Has : (key : String) (new : V) (dict : Dict V) → Has (insert key new dict) key
  insert-Has key new dict h = ground (arith, lookup-insert key key new dict, eq_iff key key)

  Has-insert :
      (key query : String) (new : V) (dict : Dict V)
      → Has dict query
      → Has (insert key new dict) query
  Has-insert key query new dict has h = has (ground (arith, lookup-insert key query new dict))

  insert_other :
      (key query : String) (new : V) (dict : Dict V)
      → key =ₛ query ≡ false
      → lookup query dict ≡ none
      → lookup query (insert key new dict) ≡ none
  insert_other key query new dict other h = ground (arith, lookup-insert key query new dict)

ok_inj : {A : Type 0} (a b : A) → ◌≡◌ {A = Outcome A} (ok a) (ok b) → a ≡ b
ok_inj a b h = cc

module _ {F : Type 0} where
  -- Only endpoints have edges.
  abbrev Owned : Graph F → Type 0
  Owned g = (key : String) → lookup key g.endpoints ≡ none → lookup key g.edges ≡ none

  add_edge-Owned :
      (g : Graph F) (key : String) (edge : Edge F)
      → Has g.endpoints key
      → Owned g
      → Owned (add_edge g key edge)
  add_edge-Owned g key edge has owned query h = elim (Bool-cases (key =ₛ query)) [
    | inl same ↦
        let e : query ≡ key = ground (arith, eq_iff key query) in
        absurd (has (subst (λ k. lookup k g.endpoints ≡ none) e h))
    | inr other ↦ insert_other key query _ g.edges other (owned query h)
  ]

  -- The endpoints of a service, and those of all services, are registered.
  abbrev AllHave : Dict (Endpoint F) → String → List (Endpoint F) → Type 0
  AllHave endpoints id [] = Unit {0}
  AllHave endpoints id (ep ∷ eps) =
      Has endpoints (endpoint_key id ep.path) × AllHave endpoints id eps

  abbrev AllRegistered : Dict (Endpoint F) → List (Service F) → Type 0
  AllRegistered endpoints [] = Unit {0}
  AllRegistered endpoints (svc ∷ rest) =
      AllHave endpoints svc.id svc.endpoints × AllRegistered endpoints rest

  Has-register_endpoints :
      (id : String) (eps : List (Endpoint F)) (endpoints : Dict (Endpoint F)) (key : String)
      → Has endpoints key
      → Has (register_endpoints id eps endpoints) key
  Has-register_endpoints id [] endpoints key has = has
  Has-register_endpoints id (ep ∷ eps) endpoints key has =
      Has-register_endpoints id eps _ key
        (Has-insert (endpoint_key id ep.path) key ep endpoints has)

  Has-register :
      (scenario : List (Service F)) (g : Graph F) (key : String)
      → Has g.endpoints key
      → Has (register scenario g).endpoints key
  Has-register [] g key has = has
  Has-register (svc ∷ rest) g key has =
      Has-register rest _ key (Has-register_endpoints svc.id svc.endpoints g.endpoints key has)

  AllHave-later :
      (a b : Dict (Endpoint F))
      → ((key : String) → Has a key → Has b key)
      → (id : String) (eps : List (Endpoint F)) → AllHave a id eps
      → AllHave b id eps
  AllHave-later a b later id [] all = tt
  AllHave-later a b later id (ep ∷ eps) all =
      (later (endpoint_key id ep.path) all.0, AllHave-later a b later id eps all.1)

  register_endpoints-AllHave :
      (id : String) (eps : List (Endpoint F)) (endpoints : Dict (Endpoint F))
      → AllHave (register_endpoints id eps endpoints) id eps
  register_endpoints-AllHave id [] endpoints = tt
  register_endpoints-AllHave id (ep ∷ eps) endpoints =
      let key = endpoint_key id ep.path in
      (
        Has-register_endpoints id eps (insert key ep endpoints) key (insert-Has key ep endpoints),
        register_endpoints-AllHave id eps (insert key ep endpoints),
      )

  register-AllRegistered :
      (scenario : List (Service F)) (g : Graph F)
      → AllRegistered (register scenario g).endpoints scenario
  register-AllRegistered [] g = tt
  register-AllRegistered (svc ∷ rest) g =
      let next : Graph F = record g {
        services = insert svc.id svc g.services;
        endpoints = register_endpoints svc.id svc.endpoints g.endpoints;
      } in
      (
        AllHave-later next.endpoints (register rest next).endpoints (Has-register rest next) svc.id
            svc.endpoints (register_endpoints-AllHave svc.id svc.endpoints g.endpoints),
        register-AllRegistered rest next,
      )

  register-edges :
      (scenario : List (Service F)) (g : Graph F) → (register scenario g).edges ≡ g.edges
  register-edges [] g = refl
  register-edges (svc ∷ rest) g = register-edges rest _

  module _ (trim lower : String → String) where
    -- What the second pass keeps: the endpoints, and that only they have edges.
    abbrev Kept : Graph F → Graph F → Type 0
    Kept g made = (made.endpoints ≡ g.endpoints) × Owned made

    add_calls-Kept :
        (from path : String) (calls : List (DownstreamCall F)) (g made : Graph F)
        → Has g.endpoints (endpoint_key from path)
        → Owned g
        → add_calls trim lower from path calls g ≡ ok made
        → Kept g made
    unfolding add_calls
    add_calls-Kept from path [] g made has owned h =
        let same : g ≡ made = cc in subst (Kept g) same (refl, owned)
    add_calls-Kept from path (call ∷ calls) g made has owned h =
        let key = endpoint_key from path in
        let made_edge =
          and_then-ok (create_edge trim lower g from path call)
            (λ edge. add_calls trim lower from path calls (add_edge g key edge)) made h in
        add_calls-Kept from path calls (add_edge g key made_edge.0) made has
          (add_edge-Owned g key made_edge.0 has owned) made_edge.2

    add_endpoints-Kept :
        (from : String) (eps : List (Endpoint F)) (g made : Graph F)
        → AllHave g.endpoints from eps
        → Owned g
        → add_endpoints trim lower from eps g ≡ ok made
        → Kept g made
    unfolding add_endpoints
    add_endpoints-Kept from [] g made all owned h =
        let same : g ≡ made = cc in subst (Kept g) same (refl, owned)
    add_endpoints-Kept from (ep ∷ eps) g made all owned h =
        let added =
          and_then-ok (add_calls trim lower from ep.path ep.downstream g)
            (add_endpoints trim lower from eps) made h in
        let first = add_calls-Kept from ep.path ep.downstream g added.0 all.0 owned added.1 in
        let rest =
          add_endpoints-Kept from eps added.0 made
            (subst (λ d. AllHave d from eps) (sym first.0) all.1) first.1 added.2 in
        (rest.0 ∙ first.0, rest.1)

    add_services-Kept :
        (scenario : List (Service F)) (g made : Graph F)
        → AllRegistered g.endpoints scenario
        → Owned g
        → add_services trim lower scenario g ≡ ok made
        → Kept g made
    unfolding add_services
    add_services-Kept [] g made all owned h =
        let same : g ≡ made = cc in subst (Kept g) same (refl, owned)
    add_services-Kept (svc ∷ rest) g made all owned h =
        let added =
          and_then-ok (add_endpoints trim lower svc.id svc.endpoints g)
            (add_services trim lower rest) made h in
        let first = add_endpoints-Kept svc.id svc.endpoints g added.0 all.0 owned added.1 in
        let later =
          add_services-Kept rest added.0 made
            (subst (λ d. AllRegistered d rest) (sym first.0) all.1) first.1 added.2 in
        (later.0 ∙ first.0, later.1)

    Owned-first :
        (g : Graph F) (x y : String)
        → Owned g
        → SyncTo trim lower (edges_at g x) y
        → (ep : Endpoint F) × (lookup x g.endpoints ≡ some ep)
    Owned-first g x y owned c = elim (Option-cases (lookup x g.endpoints)) [
      | inl missing ↦
          let empty : edges_at g x ≡ [] = ap edges_of (owned x missing) in
          absurd (subst (λ edges. SyncTo trim lower edges y) empty c)
      | inr found ↦ found
    ]

    first_call :
        (g : Graph F) (x z : String)
        → SyncPath trim lower g x z
        → (y : String) × SyncTo trim lower (edges_at g x) y
    first_call g x z (one {x = _} {y} c) = (y, c)
    first_call g x z (more {x = _} {y} c p) = (y, c)

    validated-acyclic :
        (made g : Graph F) (key : String)
        → Owned made
        → validated trim lower made ≡ ok g
        → SyncPath trim lower g key key
        → ⊥
    validated-acyclic made g key owned h p =
        let checked = and_then-ok (validate_sync_acyclic trim lower made) (λ m. ok made) g h in
        let same : made ≡ g = ok_inj made g checked.2 in
        let q : SyncPath trim lower made key key =
          subst (λ k. SyncPath trim lower k key key) (sym same) p in
        let first = first_call made key key q in
        let owner = Owned-first made key first.0 owned first.1 in
        Ends-acyclic
          (validate_sync_acyclic-Ends trim lower made checked.0 key owner.0 checked.1 owner.1) q

    -- No graph that NewGraph returns has a cycle of synchronous calls.
    pub new_graph-acyclic :
        (scenario : List (Service F)) (g : Graph F) (key : String)
        → new_graph trim lower scenario ≡ ok g
        → ¬ SyncPath trim lower g key key
    unfolding new_graph lookup
    new_graph-acyclic scenario g key h p =
        let start = register scenario empty_graph in
        let added =
          and_then-ok (add_services trim lower scenario start) (validated trim lower) g h in
        let kept =
          add_services-Kept scenario start added.0 (register-AllRegistered scenario empty_graph)
            (λ query _. ap (lookup query) (register-edges scenario empty_graph) ∙ refl) added.1 in
        validated-acyclic added.0 g key kept.1 added.2 p
