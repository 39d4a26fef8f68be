-- ===== src/Resource/Manager/Rotation.antt =====
-- The round-robin selection of internal/resource/manager.go, from a rebuilt cache on.
use native.Mathlib.Nat.{mod-lt, mod-eq_of_lt, mod-mod, suc-mod}
use simulation_core.Base.{
  ℕ, zero, suc, ◌%◌, ◌≤◌, ◌<◌, ◌≡◌, refl, sym, subst, ap, ◌∙◌, Bool, true, false, String, List, [],
  ◌∷◌, Option, none, some, ◌⊎◌, inl, inr, ◌&&◌, ◌=ₛ◌, if◌then◌else◌, if_elim, ltb, leb, length,
  arith, eq_iff, Bool-cases,
}
use simulation_core.Base.Dict.{Dict, lookup, insert, lookup-insert, head_found, tail_found}
use simulation_core.Resource.Manager.{
  Manager, Answer, ok, nth, at_index, or_empty, index_of, index_at, ids_at, sort_all, reset_all,
  group_routable, rebuild_sorted_instance_cache, rotate_from, select_instance_for_service,
}

index_if :
    (b : Bool) (n : ℕ) (o : Option ℕ)
    → index_of (if b then some n else o) ≡ (if b then n else index_of o)
index_if true n o = refl
index_if false n o = refl

index_at-insert :
    (key query : String) (n : ℕ) (idx : Dict ℕ)
    → index_at query (insert key n idx) ≡ (if key =ₛ query then n else index_at query idx)
index_at-insert key query n idx =
    ap index_of (lookup-insert key query n idx) ∙ index_if (key =ₛ query) n (lookup query idx)

-- An index after a reset: 0, or as before.
abbrev Reset : Dict ℕ → String → Dict ℕ → Type 0
Reset idx query after = (index_at query after ≡ 0) ⊎ (index_at query after ≡ index_at query idx)

insert-Reset :
    (key query : String) (idx later : Dict ℕ)
    → Reset idx query later
    → Reset idx query (insert key 0 later)
insert-Reset key query idx later r = elim (Bool-cases (key =ₛ query)) [
  | inl same ↦ inl (index_at-insert key query 0 later ∙ rw same refl)
  | inr other ↦
      let kept : index_at query (insert key 0 later) ≡ index_at query later =
        index_at-insert key query 0 later ∙ rw other refl in
      elim r [ inl z ↦ inl (kept ∙ z) | inr e ↦ inr (kept ∙ e) ]
]

reset_all-Reset :
    (next : Dict (List String)) (idx : Dict ℕ) (query : String)
    → Reset idx query (reset_all next idx)
unfolding reset_all
reset_all-Reset [] idx query = inr refl
reset_all-Reset ((service, ids) ∷ rest) idx query =
    let later = reset_all-Reset rest idx query in
    if_elim (Reset idx query) (ltb 0 (length ids) && leb (length ids) (index_at service idx))
      (λ _. insert-Reset service query idx (reset_all rest idx) later) (λ _. later)

-- An index that is in range where instances are cached.
abbrev InRange : String → Dict (List String) → Dict ℕ → Type 0
InRange service next idx =
    (ids : List String)
    → lookup service next ≡ some ids
    → 1 ≤ length ids
    → index_at service idx < length ids

still_small : (i before n : ℕ) → (i ≡ 0) ⊎ (i ≡ before) → 1 ≤ n → before < n → i < n
still_small i before n (inl z) some_id small = omega (arith, z, some_id)
still_small i before n (inr e) some_id small = omega (arith, e, small)

small_before : (n i : ℕ) → 1 ≤ n → (ltb 0 n && leb n i) ≡ false → i < n
small_before n i some_id h = ground arith

at_key :
    (stored service : String)
    → stored ≡ service
    → (n : ℕ) → (if stored =ₛ service then 0 else n) ≡ 0
at_key stored service same n = ground (arith, eq_iff stored service)

not_key :
    (stored service : String)
    → service =ₛ stored ≡ false
    → (n : ℕ) → (if stored =ₛ service then 0 else n) ≡ n
not_key stored service other n = ground (arith, eq_iff stored service, eq_iff service stored)

pub reset_all-InRange :
    (next : Dict (List String)) (idx : Dict ℕ) (service : String)
    → InRange service next (reset_all next idx)
unfolding reset_all lookup
reset_all-InRange [] idx service ids h some_id = absurd (cc)
reset_all-InRange ((stored, found) ∷ rest) idx service ids h some_id =
    let later = reset_all rest idx in
    let small : Dict ℕ → Type 0 = λ d. index_at service d < length ids in
    elim (Bool-cases (service =ₛ stored)) [
      | inl same ↦
          let here : found ≡ ids = head_found service stored found ids rest h same in
          let key : stored ≡ service = ground (arith, eq_iff service stored) in
          if_elim small (ltb 0 (length found) && leb (length found) (index_at stored idx))
            (λ _.
              let zeroed : index_at service (insert stored 0 later) ≡ 0 =
                index_at-insert stored service 0 later
                ∙ at_key stored service key (index_at service later) in
              omega (arith, zeroed, some_id))
            (λ fits.
              let before : index_at service idx < length ids =
                subst (λ (l : List String). index_at service idx < length l) here
                  (subst (λ k. index_at k idx < length found) key
                    (small_before (length found) (index_at stored idx)
                      (subst (λ (l : List String). 1 ≤ length l) (sym here) some_id) fits)) in
              still_small _ _ (length ids) (reset_all-Reset rest idx service) some_id before)
      | inr other ↦
          let inner =
            reset_all-InRange rest idx service ids
              (tail_found service stored found ids rest h other) some_id in
          if_elim small (ltb 0 (length found) && leb (length found) (index_at stored idx))
            (λ _.
              let same : index_at service (insert stored 0 later) ≡ index_at service later =
                index_at-insert stored service 0 later
                ∙ not_key stored service other (index_at service later) in
              omega (arith, same, inner))
            (λ _. inner)
    ]

module _ {F R : Type 0} where
  -- Selections in a row, and what they select.
  unfoldable pub select_many : Manager F R → String → ℕ → List (Answer String) × Manager F R
  select_many m service zero = ([], m)
  select_many m service (suc n) =
      let first = select_instance_for_service m service in
      let rest = select_many first.1 service n in (first.0 ∷ rest.0, rest.1)

-- Taking turns, from a position on: one instance after the other, and the first again after the last.
abbrev pub turn : List String → ℕ → String
turn ids i = elim (nth (i % length ids) ids) [ none ↦ "" | some id ↦ id ]

unfoldable pub turns : List String → ℕ → ℕ → List (Answer String)
turns ids i zero = []
turns ids i (suc n) = ok (turn ids i) ∷ turns ids (suc i) n

key_same : (service : String) (n k : ℕ) → (if service =ₛ service then n else k) ≡ n
key_same service n k = ground (arith, eq_iff service service)

cons_equal :
    {A : Type 0} {x y : A} {xs ys : List A} → x ≡ y → xs ≡ ys → ◌≡◌ {A = List A} (x ∷ xs) (y ∷ ys)
cons_equal e f = cc

within :
    (ids : List String) (i : ℕ)
    → i < length ids
    → at_index i ids ≡ ok (elim (nth i ids) [ none ↦ "" | some id ↦ id ])
within [] i h = absurd (omega (arith, h))
within (id ∷ ids) zero h = refl
within (id ∷ ids) (suc i) h = within ids i (omega (arith, h))

turn-mod : (ids : List String) (i : ℕ) → turn ids (i % length ids) ≡ turn ids i
turn-mod ids i = ap (λ k. elim (nth k ids) [ none ↦ "" | some id ↦ id ]) (mod-mod i (length ids))

turns-mod : (ids : List String) (n i : ℕ) → turns ids (i % length ids) n ≡ turns ids i n
unfolding turns
turns-mod ids zero i = refl
turns-mod ids (suc n) i =
    let next : turns ids (suc (i % length ids)) n ≡ turns ids (suc i) n =
      sym (turns-mod ids n (suc (i % length ids)))
      ∙ ap (λ k. turns ids k n) (sym (suc-mod i (length ids)))
      ∙ turns-mod ids n (suc i) in
    let first = turn-mod ids i in cc

module _ {F R : Type 0} where
  rotate_first :
      (m : Manager F R) (service : String) (ids : List String) (i : ℕ)
      → index_at service m.round_robin_idx ≡ i
      → i < length ids
      → (rotate_from m service ids).0 ≡ ok (turn ids i)
  rotate_first m service [] i at small = absurd (omega (arith, small))
  rotate_first m service (id ∷ ids) i at small =
      ap (λ k. at_index k (id ∷ ids)) at
      ∙ within (id ∷ ids) i small
      ∙ ap (λ k. ok (elim (nth k (id ∷ ids)) [ none ↦ "" | some id ↦ id ]))
          (sym (mod-eq_of_lt small))

  rotate_cache :
      (m : Manager F R) (service : String) (ids : List String)
      → ids_at service (rotate_from m service ids).1.sorted_service_inst_map
        ≡ ids_at service m.sorted_service_inst_map
  rotate_cache m service [] = refl
  rotate_cache m service (id ∷ ids) = refl

  rotate_index :
      (m : Manager F R) (service : String) (ids : List String) (i : ℕ)
      → index_at service m.round_robin_idx ≡ i
      → i < length ids
      → index_at service (rotate_from m service ids).1.round_robin_idx ≡ suc i % length ids
  rotate_index m service [] i at small = absurd (omega (arith, small))
  rotate_index m service (id ∷ ids) i at small =
      index_at-insert service service _ m.round_robin_idx
      ∙ key_same service _ (index_at service m.round_robin_idx)
      ∙ ap (λ k. suc k % length (id ∷ ids)) at

  select_many-turns :
      (n i : ℕ) (m : Manager F R) (service : String) (ids : List String)
      → ids_at service m.sorted_service_inst_map ≡ ids
      → index_at service m.round_robin_idx ≡ i
      → i < length ids
      → (select_many m service n).0 ≡ turns ids i n
  unfolding select_many turns select_instance_for_service
  select_many-turns zero i m service ids cached at small = refl
  select_many-turns (suc n) i m service ids cached at small =
      let after = (select_instance_for_service m service).1 in
      let rotated = (rotate_from m service ids).1 in
      let same : after ≡ rotated = ap (λ l. (rotate_from m service l).1) cached in
      let first : (select_instance_for_service m service).0 ≡ ok (turn ids i) =
        ap (λ l. (rotate_from m service l).0) cached ∙ rotate_first m service ids i at small in
      let cached_still : ids_at service after.sorted_service_inst_map ≡ ids =
        ap (λ (a : Manager F R). ids_at service a.sorted_service_inst_map) same
        ∙ (rotate_cache m service ids ∙ cached) in
      let at_next : index_at service after.round_robin_idx ≡ suc i % length ids =
        ap (λ (a : Manager F R). index_at service a.round_robin_idx) same
        ∙ rotate_index m service ids i at small in
      let rest =
        select_many-turns n (suc i % length ids) after service ids cached_still at_next
          (mod-lt (suc i) (omega (arith, small)))
        ∙ turns-mod ids n (suc i) in
      cons_equal first rest

  -- After the cache is rebuilt, selections in a row take turns over the ids that are cached for the
  -- service, where there are some.
  pub rebuild_sorted_instance_cache-turns :
      (sort_ids : List String → List String) (m : Manager F R) (service : String)
      (ids : List String) (n : ℕ)
      → lookup service (rebuild_sorted_instance_cache sort_ids m).sorted_service_inst_map ≡ some ids
      → 1 ≤ length ids
      → (select_many (rebuild_sorted_instance_cache sort_ids m) service n).0
        ≡ turns ids (index_at service (rebuild_sorted_instance_cache sort_ids m).round_robin_idx) n
  unfolding rebuild_sorted_instance_cache
  rebuild_sorted_instance_cache-turns sort_ids m service ids n cached some_id =
      let next = sort_all sort_ids (group_routable m.instances []) in
      select_many-turns n _ (rebuild_sorted_instance_cache sort_ids m) service ids
        (ap or_empty cached) refl
        (reset_all-InRange next m.round_robin_idx service ids cached some_id)
