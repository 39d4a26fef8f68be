-- ===== src/Interaction/Graph/Cycle.antt =====
-- The cycles that the search of internal/interaction/graph.go reports.
use simulation_core.Base.{
  ℕ, zero, suc, ◌≡◌, refl, sym, subst, ap, ◌∙◌, Bool, true, false, String, List, [], ◌∷◌, ◌⊎◌, inl,
  inr, ◌=ₛ◌, if_elim, Bool-cases, arith, eq_iff, length,
}
use simulation_core.Base.Dict.{Dict}
use simulation_core.Interaction.Graph.{
  Edge, Graph, Endpoint, GraphError, Outcome, ok, err, out_of_fuel, and_then, Marks, no_marks, mark,
  enter, leave, edges_at, to_key, is_async, walk, dfs, search_from, validate_sync_acyclic, all_keys,
}
use simulation_core.Interaction.Graph.Acyclic.{SyncTo, SyncPath, one, snoc, and_then-ok, mark_other}

module _ {A B : Type 0} where
  and_then-err :
      (o : Outcome A) (next : A → Outcome B) (e : GraphError)
      → and_then o next ≡ err e
      → (o ≡ err e) ⊎ ((a : A) × (o ≡ ok a) × (next a ≡ err e))
  and_then-err (ok a) next e h = inr (a, refl, h)
  and_then-err (err d) next e h = let same : d ≡ e = cc in inl (ap err same)
  and_then-err out_of_fuel next e h = absurd (cc)

still_on :
    (key x : String) (marks : String → Bool) → key =ₛ x ≡ true → mark key false marks x ≡ true → ⊥
still_on key x marks same on = ground arith

module _ {F : Type 0} (trim lower : String → String) (g : Graph F) where
  abbrev Cyclic : Type 0
  Cyclic = (x : String) × SyncPath trim lower g x x

  -- The keys on the stack lead to a key.
  abbrev Lead : Marks → String → Type 0
  Lead m key = (x : String) → m.rec_stack x ≡ true → (x ≡ key) ⊎ SyncPath trim lower g x key

  -- Nothing is added to the stack.
  abbrev IsLeaving : (String → Marks → Outcome Marks) → Type 0
  IsLeaving visit =
      (key : String) (m after : Marks)
      → visit key m ≡ ok after
      → (x : String) → after.rec_stack x ≡ true
      → m.rec_stack x ≡ true

  abbrev Finds : (String → Marks → Outcome Marks) → Type 0
  Finds visit =
      (key : String) (m : Marks) (e : GraphError)
      → ((x : String) → m.rec_stack x ≡ true → SyncPath trim lower g x key)
      → visit key m ≡ err e
      → Cyclic

  walk-leaving :
      (visit : String → Marks → Outcome Marks) (key : String)
      → IsLeaving visit
      → (edges : List (Edge F)) (m after : Marks) → walk trim lower visit key edges m ≡ ok after
      → (x : String) → after.rec_stack x ≡ true
      → m.rec_stack x ≡ true
  unfolding walk
  walk-leaving visit key leaving [] m after h x on =
      let same : m ≡ after = cc in ap (λ (a : Marks). a.rec_stack x) same ∙ on
  walk-leaving visit key leaving (edge ∷ edges) m after h x on =
      let was : Type 0 = m.rec_stack x ≡ true in
      let rest : walk trim lower visit key edges m ≡ ok after → was =
        λ h. walk-leaving visit key leaving edges m after h x on in
      if_elim (λ o. o ≡ ok after → was) (is_async trim lower edge.call) (λ _. rest)
        (λ _.
          if_elim (λ o. o ≡ ok after → was) (m.visited (to_key edge))
            (λ _.
              if_elim (λ o. o ≡ ok after → was) (m.rec_stack (to_key edge)) (λ _ h. absurd (cc))
                (λ _. rest))
            (λ _ h.
              let first =
                and_then-ok (visit (to_key edge) m) (walk trim lower visit key edges) after h in
              leaving (to_key edge) m first.0 first.1 x
                (walk-leaving visit key leaving edges first.0 after first.2 x on)))
        h

  onward :
      (key x y : String)
      → SyncTo trim lower (edges_at g key) y
      → (x ≡ key) ⊎ SyncPath trim lower g x key
      → SyncPath trim lower g x y
  onward key x y call (inl same) = subst (λ k. SyncPath trim lower g k y) (sym same) (one call)
  onward key x y call (inr path) = snoc path call

  dfs-IsLeaving : (fuel : ℕ) → IsLeaving (dfs trim lower fuel g)
  unfolding dfs
  dfs-IsLeaving zero key m after h x on = absurd (cc)
  dfs-IsLeaving (suc fuel) key m after h x on =
      let walked =
        and_then-ok (walk trim lower (dfs trim lower fuel g) key (edges_at g key) (enter key m))
          (λ after. ok (leave key after)) after h in
      let same : leave key walked.0 ≡ after = cc in
      let left : (leave key walked.0).rec_stack x ≡ true =
        ap (λ (a : Marks). a.rec_stack x) same ∙ on in
      elim (Bool-cases (key =ₛ x)) [
        | inl here ↦ absurd (still_on key x walked.0.rec_stack here left)
        | inr other ↦
            sym (mark_other key true m.rec_stack x other)
            ∙ walk-leaving (dfs trim lower fuel g) key (dfs-IsLeaving fuel) (edges_at g key)
                (enter key m) walked.0 walked.1 x
                (sym (mark_other key false walked.0.rec_stack x other) ∙ left)
      ]

  walk-Finds :
      (visit : String → Marks → Outcome Marks) (key : String)
      → IsLeaving visit
      → Finds visit
      → (edges : List (Edge F)) (m : Marks) (e : GraphError)
      → ((y : String) → SyncTo trim lower edges y → SyncTo trim lower (edges_at g key) y)
      → Lead m key
      → walk trim lower visit key edges m ≡ err e
      → Cyclic
  unfolding walk
  walk-Finds visit key leaving finds [] m e known lead h = absurd (cc)
  walk-Finds visit key leaving finds (edge ∷ edges) m e known lead h =
      let rest = walk-Finds visit key leaving finds edges m e (λ y c. known y (inr c)) lead in
      if_elim (λ o. o ≡ err e → Cyclic) (is_async trim lower edge.call) (λ _. rest)
        (λ synchronous.
          let call : SyncTo trim lower (edges_at g key) (to_key edge) =
            known (to_key edge) (inl (synchronous, refl)) in
          if_elim (λ o. o ≡ err e → Cyclic) (m.visited (to_key edge))
            (λ _.
              if_elim (λ o. o ≡ err e → Cyclic) (m.rec_stack (to_key edge))
                (λ on _. (
                  to_key edge,
                  onward key (to_key edge) (to_key edge) call (lead (to_key edge) on),
                ))
                (λ _. rest))
            (λ _ h.
              elim (and_then-err (visit (to_key edge) m) (walk trim lower visit key edges) e h) [
                | inl failed ↦
                    finds (to_key edge) m e (λ x on. onward key x (to_key edge) call (lead x on))
                      failed
                | inr passed ↦
                    walk-Finds visit key leaving finds edges passed.0 e (λ y c. known y (inr c))
                      (λ x on. lead x (leaving (to_key edge) m passed.0 passed.1 x on)) passed.2
              ]))
        h

  entered-Lead :
      (key : String) (m : Marks)
      → ((x : String) → m.rec_stack x ≡ true → SyncPath trim lower g x key)
      → Lead (enter key m) key
  entered-Lead key m lead x on = elim (Bool-cases (key =ₛ x)) [
    | inl same ↦ inl (ground (arith, eq_iff key x))
    | inr other ↦ inr (lead x (sym (mark_other key true m.rec_stack x other) ∙ on))
  ]

  dfs-Finds : (fuel : ℕ) → Finds (dfs trim lower fuel g)
  unfolding dfs
  dfs-Finds zero key m e lead h = absurd (cc)
  dfs-Finds (suc fuel) key m e lead h =
      elim (and_then-err
        (walk trim lower (dfs trim lower fuel g) key (edges_at g key) (enter key m))
        (λ after. ok (leave key after)) e h) [
          | inl failed ↦
              walk-Finds (dfs trim lower fuel g) key (dfs-IsLeaving fuel) (dfs-Finds fuel)
                (edges_at g key) (enter key m) e (λ y c. c) (entered-Lead key m lead) failed
          | inr passed ↦ absurd (let h = passed.2 in cc)
        ]

  search_from-Finds :
      (fuel : ℕ) (endpoints : Dict (Endpoint F)) (m : Marks) (e : GraphError)
      → ((x : String) → m.rec_stack x ≡ true → ⊥)
      → search_from trim lower fuel g endpoints m ≡ err e
      → Cyclic
  unfolding search_from
  search_from-Finds fuel [] m e quiet h = absurd (cc)
  search_from-Finds fuel ((key, ep) ∷ endpoints) m e quiet h =
      if_elim (λ o. o ≡ err e → Cyclic) (m.visited key)
        (λ _. search_from-Finds fuel endpoints m e quiet)
        (λ _ h.
          elim (and_then-err (dfs trim lower fuel g key m) (search_from trim lower fuel g endpoints)
            e h) [
              | inl failed ↦ dfs-Finds fuel key m e (λ x on. absurd (quiet x on)) failed
              | inr passed ↦
                  search_from-Finds fuel endpoints passed.0 e
                    (λ x on. quiet x (dfs-IsLeaving fuel key m passed.0 passed.1 x on)) passed.2
            ])
        h

  -- Where the check of a graph fails, some key of it reaches itself by synchronous calls.
  pub validate_sync_acyclic-cyclic :
      (e : GraphError)
      → validate_sync_acyclic trim lower g ≡ err e
      → (x : String) × SyncPath trim lower g x x
  unfolding validate_sync_acyclic
  validate_sync_acyclic-cyclic e h =
      search_from-Finds (length (all_keys g)) g.endpoints no_marks e (λ x on. cc) h
