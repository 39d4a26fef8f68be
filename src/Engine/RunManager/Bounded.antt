-- ===== src/Engine/RunManager/Bounded.antt =====
-- How much the RunManager of internal/engine/run.go keeps.
use simulation_core.Base.{
  ℕ, suc, ◌≤◌, ◌≡◌, sym, ap, ◌∙◌, true, false, String, List, [], ◌∷◌, ◌++◌, some, ◌⊎◌, inl, inr,
  ◌=ₛ◌, if_elim, ltb, length, arith, Bool-cases, eq_iff,
}
use simulation_core.Base.Int.{pos}
use simulation_core.Base.Dict.{Dict, lookup, insert, delete, delete_found, lookup-insert}
use simulation_core.Engine.RunManager.{
  LatencyOps, Request, RunManager, Report, evict, limit_reached, should_sample, add_request,
  count_finished, retain, finalize_request,
}

abbrev pub In : String → List String → Type 0
In id [] = ⊥
In id (k ∷ ks) = (id =ₛ k ≡ true) ⊎ In id ks

In-append_left : (id : String) (ks ls : List String) → In id ks → In id (ks ++ ls)
In-append_left id [] ls i = absurd i
In-append_left id (k ∷ ks) ls (inl same) = inl same
In-append_left id (k ∷ ks) ls (inr later) = inr (In-append_left id ks ls later)

In-append_right : (id : String) (ks ls : List String) → In id ls → In id (ks ++ ls)
In-append_right id [] ls i = i
In-append_right id (k ∷ ks) ls i = inr (In-append_right id ks ls i)

-- Every request that is kept has its id in the order.
abbrev pub Listed : List String → Dict Request → Type 0
Listed ids kept = (id : String) (r : Request) → lookup id kept ≡ some r → In id ids

not_head :
    (id first : String) (ids : List String) → first =ₛ id ≡ false → In id (first ∷ ids) → In id ids
not_head id first ids other (inl same) = absurd (ground (arith, eq_iff id first, eq_iff first id))
not_head id first ids other (inr later) = later

abbrev Kept : ℕ → List String × Dict Request → Type 0
Kept keep after = (length after.0 ≤ keep) × Listed after.0 after.1

evict-Kept :
    (keep : ℕ) (ids : List String) (kept : Dict Request)
    → Listed ids kept
    → Kept keep (evict keep ids kept)
unfolding evict
evict-Kept keep [] kept listed = (omega arith, listed)
evict-Kept keep (id ∷ ids) kept listed =
    if_elim (Kept keep) (ltb keep (length (id ∷ ids)))
      (λ _. evict-Kept keep ids (delete id kept) λ q r h.
        let still = delete_found id q r kept h in not_head q id ids still.0 (listed q r still.1))
      (λ fits. (ground arith, listed))

module _ {V : Type 0} where
  length-insert :
      (key : String) (v : V) (dict : Dict V) → length (insert key v dict) ≤ suc (length dict)
  unfolding insert
  length-insert key v [] = omega arith
  length-insert key v ((stored, value) ∷ rest) = ground (arith, length-insert key v rest)

  length-delete : (key : String) (dict : Dict V) → length (delete key dict) ≤ length dict
  unfolding delete
  length-delete key [] = omega arith
  length-delete key ((stored, value) ∷ rest) = ground (arith, length-delete key rest)

  old :
      (key query : String) (new found : V) (dict : Dict V)
      → key =ₛ query ≡ false
      → lookup query (insert key new dict) ≡ some found
      → lookup query dict ≡ some found
  old key query new found dict other h = ground (arith, lookup-insert key query new dict)

insert-Listed :
    (ids : List String) (kept : Dict Request) (r : Request)
    → Listed ids kept
    → Listed (ids ++ r.id ∷ []) (insert r.id r kept)
insert-Listed ids kept r listed id found h = elim (Bool-cases (r.id =ₛ id)) [
  | inl same ↦
      In-append_right id ids (r.id ∷ []) (inl (ground (arith, eq_iff id r.id, eq_iff r.id id)))
  | inr other ↦
      In-append_left id ids (r.id ∷ []) (listed id found (old r.id id r found kept other h))
]

below_limit : (m n : ℕ) → 1 ≤ m → limit_reached (pos m) n ≡ false → suc n ≤ m
below_limit m n positive h = ground arith

-- The calls that change what is kept of requests.
pub data Call : Type 0 where
  adds : Request → Call
  finishes : Request → Call

module _ {F T M V : Type 0} (ops : LatencyOps F) (hashed : String → F) where
  abbrev pub step : RunManager F T M V → Call → RunManager F T M V
  step rm (adds r) = (add_request rm r).0
  step rm (finishes r) = finalize_request ops hashed rm r

  abbrev pub run_calls : RunManager F T M V → List Call → RunManager F T M V
  run_calls rm [] = rm
  run_calls rm (c ∷ calls) = run_calls (step rm c) calls

  -- At most `a` requests are active, where that is the limit, and those kept after they finished are
  -- listed in an order of at most as many ids as the manager is to keep.
  abbrev pub IsBounded : ℕ → RunManager F T M V → Type 0
  IsBounded a rm =
      (rm.max_active_requests ≡ pos a)
      × (length rm.requests ≤ a)
      × (length rm.completed_order ≤ rm.max_completed_keep)
      × Listed rm.completed_order rm.completed_requests

  retain-IsBounded :
      (a : ℕ) (rm : RunManager F T M V) (r : Request) → IsBounded a rm → IsBounded a (retain rm r)
  retain-IsBounded a rm r b =
      let kept =
        evict-Kept rm.max_completed_keep (rm.completed_order ++ r.id ∷ [])
          (insert r.id r rm.completed_requests)
          (insert-Listed rm.completed_order rm.completed_requests r b.3) in
      (b.0, b.1, kept.0, kept.1)

  step-IsBounded :
      (a : ℕ) (rm : RunManager F T M V) (c : Call)
      → 1 ≤ a
      → IsBounded a rm
      → IsBounded a (step rm c)
  unfolding add_request finalize_request
  step-IsBounded a rm (adds r) positive b =
      let good : RunManager F T M V × Report → Type 0 = λ made. IsBounded a made.0 in
      if_elim good (limit_reached rm.max_total_requests rm.total_requests) (λ _. b)
        (λ _.
          if_elim good (limit_reached rm.max_active_requests (length rm.requests)) (λ _. b)
            (λ free.
              let room =
                below_limit a (length rm.requests) positive
                  (ap (λ max. limit_reached max (length rm.requests)) (sym b.0) ∙ free) in
              (b.0, omega (arith, room, length-insert r.id r rm.requests), b.2, b.3)))
  step-IsBounded a rm (finishes r) positive b =
      let counted : IsBounded a (count_finished rm r) =
        (b.0, omega (arith, b.1, length-delete r.id rm.requests), b.2, b.3) in
      if_elim (IsBounded a) (should_sample ops hashed rm.trace_sampling_rate r.id)
        (λ _. retain-IsBounded a (count_finished rm r) r counted) (λ _. counted)

  -- With a limit m > 0 on active requests, any sequence of requests that arrive and finish keeps at most
  -- m active requests, and finished ones only under the ids of an order that is no longer than the
  -- number to keep.
  pub run_calls-IsBounded :
      (m : ℕ) (calls : List Call) (rm : RunManager F T M V)
      → 1 ≤ m
      → IsBounded m rm
      → IsBounded m (run_calls rm calls)
  run_calls-IsBounded m [] rm positive b = b
  run_calls-IsBounded m (c ∷ calls) rm positive b =
      run_calls-IsBounded m calls (step rm c) positive (step-IsBounded m rm c positive b)
