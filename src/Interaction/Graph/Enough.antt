-- ===== src/Interaction/Graph/Enough.antt =====
-- The fuel of the search of internal/interaction/graph.go.
use simulation_core.Base.{
  ℕ, zero, suc, ◌≤◌, ◌<◌, ◌≡◌, ◌≢◌, refl, subst, ap, ◌∙◌, Bool, true, false, String, List, [], ◌∷◌,
  ◌++◌, Option, ◌⊎◌, inl, inr, ◌=ₛ◌, if◌then◌else◌, if_elim, arith, length,
}
use simulation_core.Base.Dict.{Dict, lookup}
use simulation_core.Interaction.Graph.{
  Edge, Graph, Endpoint, Outcome, ok, err, out_of_fuel, and_then, Marks, no_marks, mark, enter,
  leave, edges_of, edges_at, to_key, is_async, walk, dfs, search_from, edge_keys, all_edge_keys,
  endpoint_keys, all_keys, validate_sync_acyclic,
}
use simulation_core.Interaction.Graph.Acyclic.{and_then-ok, mark_keeps, mark_same}

abbrev In : String → List String → Type 0
In key [] = ⊥
In key (k ∷ keys) = (k ≡ key) ⊎ In key keys

In-append_left : (key : String) (ks ls : List String) → In key ks → In key (ks ++ ls)
In-append_left key [] ls i = absurd i
In-append_left key (k ∷ ks) ls (inl same) = inl same
In-append_left key (k ∷ ks) ls (inr later) = inr (In-append_left key ks ls later)

In-append_right : (key : String) (ks ls : List String) → In key ls → In key (ks ++ ls)
In-append_right key [] ls i = i
In-append_right key (k ∷ ks) ls i = inr (In-append_right key ks ls i)

-- How many of some keys are not visited.
unfoldable unvisited : List String → (String → Bool) → ℕ
unvisited [] visited = 0
unvisited (key ∷ keys) visited =
    let rest = unvisited keys visited in if visited key then rest else suc rest

abbrev Grows : (String → Bool) → (String → Bool) → Type 0
Grows before after = (x : String) → before x ≡ true → after x ≡ true

unvisited-length :
    (keys : List String) (visited : String → Bool) → unvisited keys visited ≤ length keys
unfolding unvisited
unvisited-length [] visited = omega arith
unvisited-length (key ∷ keys) visited = ground (arith, unvisited-length keys visited)

count_mono :
    (p q : Bool) (m n : ℕ)
    → (p ≡ true → q ≡ true)
    → n ≤ m
    → (if q then n else suc n) ≤ (if p then m else suc m)
count_mono true q m n h le = rw (h refl) le
count_mono false q m n h le = ground arith

unvisited-Grows :
    (keys : List String) (before after : String → Bool)
    → Grows before after
    → unvisited keys after ≤ unvisited keys before
unfolding unvisited
unvisited-Grows [] before after grows = omega arith
unvisited-Grows (key ∷ keys) before after grows =
    count_mono (before key) (after key) _ _ (grows key) (unvisited-Grows keys before after grows)

count_first :
    (p q : Bool) (m n : ℕ)
    → p ≡ false
    → q ≡ true
    → n ≤ m
    → (if q then n else suc n) < (if p then m else suc m)
count_first p q m n h g le = ground arith

count_later :
    (p q : Bool) (m n : ℕ)
    → (p ≡ true → q ≡ true)
    → n < m
    → (if q then n else suc n) < (if p then m else suc m)
count_later true q m n h le = rw (h refl) le
count_later false q m n h le = ground arith

unvisited-mark :
    (keys : List String) (key : String) (visited : String → Bool)
    → In key keys
    → visited key ≡ false
    → unvisited keys (mark key true visited) < unvisited keys visited
unfolding unvisited
unvisited-mark [] key visited i fresh = absurd i
unvisited-mark (k ∷ keys) key visited (inl same) fresh =
    count_first (visited k) (mark key true visited k) _ _ (ap visited same ∙ fresh)
      (ap (mark key true visited) same ∙ mark_same key true visited)
      (unvisited-Grows keys visited (mark key true visited) (mark_keeps key true visited))
unvisited-mark (k ∷ keys) key visited (inr later) fresh =
    count_later (visited k) (mark key true visited k) _ _ (mark_keeps key true visited k)
      (unvisited-mark keys key visited later fresh)

module _ {A B : Type 0} where
  and_then-Some :
      (o : Outcome A) (next : A → Outcome B)
      → o ≢ out_of_fuel
      → ((a : A) → o ≡ ok a → next a ≢ out_of_fuel)
      → and_then o next ≢ out_of_fuel
  and_then-Some (ok a) next first later = later a refl
  and_then-Some (err e) next first later = λ h. cc
  and_then-Some out_of_fuel next first later = absurd (first refl)

module _ {F : Type 0} (trim lower : String → String) (g : Graph F) where
  abbrev IsGrowing : (String → Marks → Outcome Marks) → Type 0
  IsGrowing visit =
      (key : String) (m after : Marks) → visit key m ≡ ok after → Grows m.visited after.visited

  walk-Grows :
      (visit : String → Marks → Outcome Marks) (key : String)
      → IsGrowing visit
      → (edges : List (Edge F)) (m after : Marks) → walk trim lower visit key edges m ≡ ok after
      → Grows m.visited after.visited
  unfolding walk
  walk-Grows visit key growing [] m after h =
      let same : m ≡ after = cc in subst (λ (a : Marks). Grows m.visited a.visited) same (λ x h. h)
  walk-Grows visit key growing (edge ∷ edges) m after h =
      let more = Grows m.visited after.visited in
      let rest : walk trim lower visit key edges m ≡ ok after → more =
        walk-Grows visit key growing edges m after in
      if_elim (λ o. o ≡ ok after → more) (is_async trim lower edge.call) (λ _. rest)
        (λ _.
          if_elim (λ o. o ≡ ok after → more) (m.visited (to_key edge))
            (λ _.
              if_elim (λ o. o ≡ ok after → more) (m.rec_stack (to_key edge)) (λ _ h. absurd (cc))
                (λ _. rest))
            (λ _ h.
              let first =
                and_then-ok (visit (to_key edge) m) (walk trim lower visit key edges) after h in
              λ x seen.
                walk-Grows visit key growing edges first.0 after first.2 x
                  (growing (to_key edge) m first.0 first.1 x seen)))
        h

  dfs-Grows : (fuel : ℕ) → IsGrowing (dfs trim lower fuel g)
  unfolding dfs
  dfs-Grows zero key m after h = absurd (cc)
  dfs-Grows (suc fuel) key m after h =
      let walked =
        and_then-ok (walk trim lower (dfs trim lower fuel g) key (edges_at g key) (enter key m))
          (λ after. ok (leave key after)) after h in
      let same : leave key walked.0 ≡ after = cc in
      subst (λ (a : Marks). Grows m.visited a.visited) same
        λ x seen.
          walk-Grows (dfs trim lower fuel g) key (dfs-Grows fuel) (edges_at g key) (enter key m)
            walked.0 walked.1 x (mark_keeps key true m.visited x seen)

  module _ (keys : List String) where
    abbrev IsEnough : ℕ → (String → Marks → Outcome Marks) → Type 0
    IsEnough fuel visit =
        (key : String) (m : Marks)
        → In key keys
        → m.visited key ≡ false
        → unvisited keys m.visited ≤ fuel
        → visit key m ≢ out_of_fuel

    walk-IsEnough :
        (fuel : ℕ) (visit : String → Marks → Outcome Marks) (key : String)
        → IsGrowing visit
        → IsEnough fuel visit
        → (edges : List (Edge F)) (m : Marks) → ((y : String) → In y (edge_keys edges) → In y keys)
        → unvisited keys m.visited ≤ fuel
        → walk trim lower visit key edges m ≢ out_of_fuel
    unfolding walk
    walk-IsEnough fuel visit key growing enough [] m known few = λ h. cc
    walk-IsEnough fuel visit key growing enough (edge ∷ edges) m known few =
        let rest =
          walk-IsEnough fuel visit key growing enough edges m (λ y i. known y (inr i)) few in
        if_elim (λ o. o ≢ out_of_fuel) (is_async trim lower edge.call) (λ _. rest)
          (λ _.
            if_elim (λ o. o ≢ out_of_fuel) (m.visited (to_key edge))
              (λ _.
                if_elim (λ o. o ≢ out_of_fuel) (m.rec_stack (to_key edge)) (λ _ h. cc) (λ _. rest))
              (λ fresh.
                and_then-Some (visit (to_key edge) m) (walk trim lower visit key edges)
                  (enough (to_key edge) m (known (to_key edge) (inl refl)) fresh few)
                  λ middle h.
                    walk-IsEnough fuel visit key growing enough edges middle
                      (λ y i. known y (inr i))
                      (omega (
                        arith,
                        few,
                        unvisited-Grows keys m.visited middle.visited
                            (growing (to_key edge) m middle h),
                      ))))

    module _ (known : (key y : String) → In y (edge_keys (edges_at g key)) → In y keys) where
      dfs-IsEnough : (fuel : ℕ) → IsEnough fuel (dfs trim lower fuel g)
      unfolding dfs
      dfs-IsEnough zero key m i fresh few =
          absurd (omega (arith, few, unvisited-mark keys key m.visited i fresh))
      dfs-IsEnough (suc fuel) key m i fresh few =
          and_then-Some (walk trim lower (dfs trim lower fuel g) key (edges_at g key) (enter key m))
            (λ after. ok (leave key after))
            (walk-IsEnough fuel (dfs trim lower fuel g) key (dfs-Grows fuel) (dfs-IsEnough fuel)
              (edges_at g key) (enter key m) (known key)
              (omega (arith, few, unvisited-mark keys key m.visited i fresh)))
            (λ after _ h. cc)

      search_from-enough :
          (fuel : ℕ) (endpoints : Dict (Endpoint F)) (m : Marks)
          → ((y : String) → In y (endpoint_keys endpoints) → In y keys)
          → unvisited keys m.visited ≤ fuel
          → search_from trim lower fuel g endpoints m ≢ out_of_fuel
      unfolding search_from
      search_from-enough fuel [] m here few = λ h. cc
      search_from-enough fuel ((key, ep) ∷ endpoints) m here few =
          if_elim (λ o. o ≢ out_of_fuel) (m.visited key)
            (λ _. search_from-enough fuel endpoints m (λ y i. here y (inr i)) few)
            (λ fresh.
              and_then-Some (dfs trim lower fuel g key m) (search_from trim lower fuel g endpoints)
                (dfs-IsEnough fuel key m (here key (inl refl)) fresh few)
                λ middle h.
                  search_from-enough fuel endpoints middle (λ y i. here y (inr i))
                    (omega (
                      arith,
                      few,
                      unvisited-Grows keys m.visited middle.visited (dfs-Grows fuel key m middle h),
                    )))

module _ {F : Type 0} where
  edge_keys_known :
      (key y : String) (edges : Dict (List (Edge F)))
      → In y (edge_keys (edges_of (lookup key edges)))
      → In y (all_edge_keys edges)
  unfolding lookup
  edge_keys_known key y [] i = absurd i
  edge_keys_known key y ((stored, es) ∷ edges) i =
      if_elim
        (λ (o : Option (List (Edge F))).
          In y (edge_keys (edges_of o)) → In y (edge_keys es ++ all_edge_keys edges))
        (key =ₛ stored) (λ _. In-append_left y (edge_keys es) (all_edge_keys edges))
        (λ _ i.
          In-append_right y (edge_keys es) (all_edge_keys edges) (edge_keys_known key y edges i))
        i

  -- The search for synchronous cycles ends with an answer: its fuel, the number of keys that it can
  -- meet, always lasts.
  pub validate_sync_acyclic-ends :
      (trim lower : String → String) (g : Graph F)
      → validate_sync_acyclic trim lower g ≢ out_of_fuel
  unfolding validate_sync_acyclic
  validate_sync_acyclic-ends trim lower g =
      search_from-enough trim lower g (all_keys g)
        (λ key y i.
          In-append_right y (endpoint_keys g.endpoints) (all_edge_keys g.edges)
            (edge_keys_known key y g.edges i))
        (length (all_keys g)) g.endpoints no_marks
        (λ y i. In-append_left y (endpoint_keys g.endpoints) (all_edge_keys g.edges) i)
        (unvisited-length (all_keys g) no_marks.visited)
