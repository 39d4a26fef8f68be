-- ===== src/Interaction/Graph/Acyclic.antt =====
-- What the search for synchronous cycles of internal/interaction/graph.go rules out.
pub mod Made
use simulation_core.Base.{
  ℕ, zero, suc, ◌≡◌, refl, sym, subst, ap, ◌∙◌, Bool, true, false, String, List, [], ◌∷◌, Option,
  none, some, ◌⊎◌, inl, inr, ◌=ₛ◌, if◌then◌else◌, if_elim, Bool-cases, arith, eq_iff, length,
}
use simulation_core.Base.Dict.{Dict, lookup, head_found, tail_found}
use simulation_core.Interaction.Graph.{
  Edge, Graph, Endpoint, Outcome, ok, err, out_of_fuel, and_then, Marks, no_marks, mark, enter,
  leave, edges_at, to_key, is_async, walk, dfs, search_from, validate_sync_acyclic, all_keys,
}

module _ {F : Type 0} (trim lower : String → String) where
  -- A synchronous edge to a key stands in a list of edges.
  abbrev pub SyncTo : List (Edge F) → String → Type 0
  SyncTo [] key = ⊥
  SyncTo (edge ∷ edges) key =
      ((is_async trim lower edge.call ≡ false) × (to_key edge ≡ key)) ⊎ SyncTo edges key

-- A path of one or more synchronous calls.
pub data SyncPath {F : Type 0} (trim lower : String → String) (g : Graph F)
    : String → String → Type 0 where
  one : {x y : String} → SyncTo trim lower (edges_at g x) y → SyncPath trim lower g x y
  more :
      {x y z : String}
      → SyncTo trim lower (edges_at g x) y
      → SyncPath trim lower g y z
      → SyncPath trim lower g x z

-- Every path of synchronous calls from a key ends.
pub data Ends {F : Type 0} (trim lower : String → String) (g : Graph F) : String → Type 0 where
  ends :
      {x : String}
      → ((y : String) → SyncTo trim lower (edges_at g x) y → Ends trim lower g y)
      → Ends trim lower g x

module _ {A B : Type 0} where
  pub and_then-ok :
      (o : Outcome A) (next : A → Outcome B) (b : B)
      → and_then o next ≡ ok b
      → (a : A) × (o ≡ ok a) × (next a ≡ ok b)
  and_then-ok (ok a) next b h = (a, refl, h)
  and_then-ok (err e) next b h = absurd (cc)
  and_then-ok out_of_fuel next b h = absurd (cc)

pub mark_same :
    (key : String) (value : Bool) (marks : String → Bool) → mark key value marks key ≡ value
mark_same key value marks = ground (arith, eq_iff key key)

pub mark_keeps :
    (key : String) (value : Bool) (marks : String → Bool) (query : String)
    → marks query ≡ value
    → mark key value marks query ≡ value
mark_keeps key value marks query h = ground arith

pub mark_other :
    (key : String) (value : Bool) (marks : String → Bool) (query : String)
    → key =ₛ query ≡ false
    → mark key value marks query ≡ marks query
mark_other key value marks query h = rw h refl

-- A mark that was not just made is old.
pub mark_old :
    (key : String) (marks : String → Bool) (query : String)
    → mark key true marks query ≡ false
    → (key =ₛ query ≡ false) × (marks query ≡ false)
mark_old key marks query h = ground arith

module _ {F : Type 0} {trim lower : String → String} {g : Graph F} where
  pub snoc :
      {x y z : String}
      → SyncPath trim lower g x y
      → SyncTo trim lower (edges_at g y) z
      → SyncPath trim lower g x z
  snoc (one c) d = more c (one d)
  snoc (more c p) d = more c (snoc p d)

  pub Ends-acyclic : {x : String} → Ends trim lower g x → SyncPath trim lower g x x → ⊥
  Ends-acyclic (ends below) (one {x} {y} c) = Ends-acyclic (below x c) (one c)
  Ends-acyclic (ends below) (more {x} {y} {z} c p) = Ends-acyclic (below y c) (snoc p c)

module _ {F : Type 0} (trim lower : String → String) (g : Graph F) where
  -- What is visited and left is settled.
  abbrev Settled : Marks → Type 0
  Settled m = (x : String) → m.visited x ≡ true → m.rec_stack x ≡ false → Ends trim lower g x

  -- What a part of the search leaves behind.
  abbrev Good : Marks → Marks → Type 0
  Good m after =
      Settled after
      × ((x : String) → m.rec_stack x ≡ false → after.rec_stack x ≡ false)
      × ((x : String) → m.visited x ≡ true → after.visited x ≡ true)

  abbrev IsSearch : (String → Marks → Outcome Marks) → Type 0
  IsSearch visit =
      (key : String) (m after : Marks)
      → Settled m
      → visit key m ≡ ok after
      → Good m after × Ends trim lower g key

  Good-trans : (m middle after : Marks) → Good m middle → Good middle after → Good m after
  Good-trans m middle after a b = (b.0, (λ x h. b.1 x (a.1 x h)), (λ x h. b.2 x (a.2 x h)))

  to_all :
      (edge : Edge F) (edges : List (Edge F))
      → Ends trim lower g (to_key edge)
      → ((y : String) → SyncTo trim lower edges y → Ends trim lower g y)
      → (y : String) → SyncTo trim lower (edge ∷ edges) y
      → Ends trim lower g y
  to_all edge edges first rest y (inl (synchronous, e)) = subst (Ends trim lower g) e first
  to_all edge edges first rest y (inr later) = rest y later

  left_again :
      (key : String) (m last : Marks)
      → ((x : String) → (enter key m).rec_stack x ≡ false → last.rec_stack x ≡ false)
      → (x : String) → m.rec_stack x ≡ false
      → (leave key last).rec_stack x ≡ false
  left_again key m last walked x h = elim (Bool-cases (key =ₛ x)) [
    | inl same ↦ rw same refl
    | inr other ↦
        mark_keeps key false last.rec_stack x
          (walked x (mark_other key true m.rec_stack x other ∙ h))
  ]

  walk-Good :
      (visit : String → Marks → Outcome Marks) (key : String)
      → IsSearch visit
      → (edges : List (Edge F)) (m after : Marks) → Settled m
      → walk trim lower visit key edges m ≡ ok after
      → Good m after × ((y : String) → SyncTo trim lower edges y → Ends trim lower g y)
  unfolding walk
  walk-Good visit key spec [] m after s h =
      let same : m ≡ after = cc in
      subst (λ a. Good m a × ((y : String) → ⊥ → Ends trim lower g y)) same
        ((s, (λ x h. h), (λ x h. h)), (λ y none. absurd none))
  walk-Good visit key spec (edge ∷ edges) m after s h =
      let Met : Type 0 =
        Good m after × ((y : String) → SyncTo trim lower (edge ∷ edges) y → Ends trim lower g y) in
      if_elim (λ o. o ≡ ok after → Met) (is_async trim lower edge.call)
        (λ asynchronous h.
          let rest = walk-Good visit key spec edges m after s h in
          (
            rest.0,
            (λ y c. elim c [ inl (synchronous, e) ↦ absurd (cc) | inr later ↦ rest.1 y later ]),
          ))
        (λ synchronous.
          if_elim (λ o. o ≡ ok after → Met) (m.visited (to_key edge))
            (λ seen.
              if_elim (λ o. o ≡ ok after → Met) (m.rec_stack (to_key edge)) (λ _ h. absurd (cc))
                (λ left h.
                  let rest = walk-Good visit key spec edges m after s h in
                  (rest.0, to_all edge edges (s (to_key edge) seen left) rest.1)))
            (λ _ h.
              let visit_first =
                and_then-ok (visit (to_key edge) m) (walk trim lower visit key edges) after h in
              let middle = visit_first.0 in
              let first = spec (to_key edge) m middle s visit_first.1 in
              let rest = walk-Good visit key spec edges middle after first.0.0 visit_first.2 in
              (Good-trans m middle after first.0 rest.0, to_all edge edges first.1 rest.1)))
        h

  enter-Settled : (key : String) (m : Marks) → Settled m → Settled (enter key m)
  enter-Settled key m s x seen left =
      let old = mark_old key m.rec_stack x left in
      s x (sym (mark_other key true m.visited x old.0) ∙ seen) old.1

  leave-Settled :
      (key : String) (m : Marks) → Settled m → Ends trim lower g key → Settled (leave key m)
  leave-Settled key m s done x seen left = elim (Bool-cases (key =ₛ x)) [
    | inl same ↦
        let here : key ≡ x = ground (arith, eq_iff key x) in subst (Ends trim lower g) here done
    | inr other ↦ s x seen (sym (mark_other key false m.rec_stack x other) ∙ left)
  ]

  dfs-Good : (fuel : ℕ) → IsSearch (dfs trim lower fuel g)
  unfolding dfs
  dfs-Good zero key m after s h = absurd (cc)
  dfs-Good (suc fuel) key m after s h =
      let walked =
        and_then-ok (walk trim lower (dfs trim lower fuel g) key (edges_at g key) (enter key m))
          (λ after. ok (leave key after)) after h in
      let last = walked.0 in
      let inner =
        walk-Good (dfs trim lower fuel g) key (dfs-Good fuel) (edges_at g key) (enter key m) last
          (enter-Settled key m s) walked.1 in
      let done : Ends trim lower g key = ends inner.1 in
      let same : leave key last ≡ after = cc in
      subst (λ a. Good m a × Ends trim lower g key) same
        (
          (
            leave-Settled key last inner.0.0 done,
            left_again key m last inner.0.1,
            (λ x seen. inner.0.2 x (mark_keeps key true m.visited x seen)),
          ),
          done,
        )

  either_key :
      (key stored : String)
      → Ends trim lower g stored
      → (key =ₛ stored ≡ false → Ends trim lower g key)
      → Ends trim lower g key
  either_key key stored here other = elim (Bool-cases (key =ₛ stored)) [
    | inl same ↦
        let e : stored ≡ key = ground (arith, eq_iff key stored) in subst (Ends trim lower g) e here
    | inr apart ↦ other apart
  ]

  search_from-Good :
      (fuel : ℕ) (endpoints : Dict (Endpoint F)) (m after : Marks)
      → Settled m
      → ((x : String) → m.rec_stack x ≡ false)
      → search_from trim lower fuel g endpoints m ≡ ok after
      → (key : String) (ep : Endpoint F) → lookup key endpoints ≡ some ep
      → Ends trim lower g key
  unfolding search_from lookup
  search_from-Good fuel [] m after s quiet h key ep found = absurd (cc)
  search_from-Good fuel ((stored, value) ∷ endpoints) m after s quiet h key ep found =
      let meet : Ends trim lower g stored
          → (key =ₛ stored ≡ false → Ends trim lower g key)
          → Ends trim lower g key =
        either_key key stored in
      if_elim (λ o. o ≡ ok after → Ends trim lower g key) (m.visited stored)
        (λ seen h. meet (s stored seen (quiet stored)) λ other.
          search_from-Good fuel endpoints m after s quiet h key ep
            (tail_found key stored value ep endpoints found other))
        (λ _ h.
          let searched =
            and_then-ok (dfs trim lower fuel g stored m) (search_from trim lower fuel g endpoints)
              after h in
          let middle = searched.0 in
          let first = dfs-Good fuel stored m middle s searched.1 in
          meet first.1 λ other.
            search_from-Good fuel endpoints middle after first.0.0 (λ x. first.0.1 x (quiet x))
              searched.2 key ep (tail_found key stored value ep endpoints found other))
        h

  -- From an endpoint of a graph that passes the check, every path of synchronous calls ends.
  pub validate_sync_acyclic-Ends :
      (after : Marks) (key : String) (ep : Endpoint F)
      → validate_sync_acyclic trim lower g ≡ ok after
      → lookup key g.endpoints ≡ some ep
      → Ends trim lower g key
  unfolding validate_sync_acyclic
  validate_sync_acyclic-Ends after key ep h found =
      search_from-Good (length (all_keys g)) g.endpoints no_marks after (λ x seen. absurd (cc))
        (λ x. refl) h key ep found
