-- ===== src/Resource/Manager/Cache.antt =====
-- rebuildSortedInstanceCache of internal/resource/manager.go: what the cache holds for a service.
use mathlib.Core.List.{Perm}
use simulation_core.Base.{
  ℕ, ◌≤◌, ◌<◌, ◌⊎◌, ◌≡◌, refl, sym, subst, ap, ◌∙◌, String, List, [], ◌∷◌, ◌++◌, some, inl, inr,
  ◌=ₛ◌, if◌then◌else◌, if_elim, length, arith, eq_iff, Bool-cases, Option-cases,
}
use simulation_core.Base.Dict.{Dict, lookup, insert, lookup-insert}
use simulation_core.Base.Perms.{length-Perm}
use simulation_core.Resource.Instance.{Instance, Lifecycle, active, draining}
use simulation_core.Resource.Manager.{
  Manager, index_at, ids_at, or_empty, sort_all, group_routable, rebuild_sorted_instance_cache,
}
use simulation_core.Resource.Manager.Rotation.{
  select_many, turns, rebuild_sorted_instance_cache-turns, reset_all-InRange,
}

append-nil : {A : Type 0} (xs : List A) → xs ++ [] ≡ xs
append-nil [] = refl
append-nil (x ∷ xs) = ap (λ l. x ∷ l) (append-nil xs)

append_assoc : {A : Type 0} (xs ys zs : List A) → (xs ++ ys) ++ zs ≡ xs ++ (ys ++ zs)
append_assoc [] ys zs = refl
append_assoc (x ∷ xs) ys zs = ap (λ l. x ∷ l) (append_assoc xs ys zs)

ids_at-insert :
    (key query : String) (ids : List String) (groups : Dict (List String))
    → ids_at query (insert key ids groups) ≡ (if key =ₛ query then ids else ids_at query groups)
ids_at-insert key query ids groups =
    ap or_empty (lookup-insert key query ids groups)
    ∙ elim (Bool-cases (key =ₛ query)) [ inl same ↦ rw same refl | inr other ↦ rw other refl ]

ids_at-sort_all :
    (sort_ids : List String → List String) (service : String) (groups : Dict (List String))
    → sort_ids [] ≡ []
    → ids_at service (sort_all sort_ids groups) ≡ sort_ids (ids_at service groups)
unfolding sort_all lookup
ids_at-sort_all sort_ids service [] none_left = sym none_left
ids_at-sort_all sort_ids service ((stored, ids) ∷ rest) none_left =
    elim (Bool-cases (service =ₛ stored)) [
      | inl same ↦ rw same refl
      | inr other ↦ rw other (ids_at-sort_all sort_ids service rest none_left)
    ]

-- An id that counts where the instance is active.
abbrev pub put_active : Lifecycle → String → List String → List String
put_active active id ids = id ∷ ids
put_active draining id ids = ids

lifecycle-cases : (life : Lifecycle) → (life ≡ active) ⊎ (life ≡ draining)
lifecycle-cases active = inl refl
lifecycle-cases draining = inr refl

module _ {F : Type 0} where
  -- The ids of the instances of a service that are active, in the order of the instances.
  abbrev pub active_ids : String → Dict (Instance F) → List String
  active_ids service [] = []
  active_ids service ((id, inst) ∷ rest) =
      let later = active_ids service rest in
      if inst.service_name =ₛ service then put_active inst.lifecycle inst.id later else later

  grouped :
      (service : String) (instances : Dict (Instance F)) (groups : Dict (List String))
      → ids_at service (group_routable instances groups)
        ≡ ids_at service groups ++ active_ids service instances
  unfolding group_routable
  grouped service [] groups = sym (append-nil (ids_at service groups))
  grouped service ((id, inst) ∷ rest) groups =
      let name = inst.service_name in
      let next = insert name (ids_at name groups ++ inst.id ∷ []) groups in
      elim (lifecycle-cases inst.lifecycle) [
        | inl routed ↦
            let added = ids_at-insert name service (ids_at name groups ++ inst.id ∷ []) groups in
            rw routed (
              grouped service rest next ∙ elim (Bool-cases (name =ₛ service)) [
                | inl same ↦
                    let key : name ≡ service = ground (arith, eq_iff name service) in
                    rw (added, same, key)
                      (append_assoc (ids_at service groups) (inst.id ∷ [])
                        (active_ids service rest))
                | inr other ↦ rw (added, other) refl
              ])
        | inr drained ↦ rw drained (
            grouped service rest groups
            ∙ if_elim
                (λ l. ids_at service groups ++ active_ids service rest ≡ ids_at service groups ++ l)
                (name =ₛ service) (λ _. refl) (λ _. refl))
      ]

none_sorted :
    (sort_ids : List String → List String)
    → ((ids : List String) → Perm (sort_ids ids) ids)
    → sort_ids [] ≡ []
none_sorted sort_ids permutes = empty (sort_ids []) (length-Perm (permutes []))
  where
    empty : (ids : List String) → length ids ≡ 0 → ids ≡ []
    empty [] h = refl
    empty (id ∷ ids) h = absurd (omega (arith, h))

found_at :
    (service : String) (cache : Dict (List String))
    → 1 ≤ length (ids_at service cache)
    → lookup service cache ≡ some (ids_at service cache)
found_at service cache some_id = elim (Option-cases (lookup service cache)) [
  | inl missing ↦
      let nobody = ap (λ o. length (or_empty o)) missing in absurd (omega (arith, nobody, some_id))
  | inr (ids, found) ↦ rw found refl
]

module _ {F R : Type 0} (sort_ids : List String → List String)
    (permutes : (ids : List String) → Perm (sort_ids ids) ids) where
  cached-active :
      (m : Manager F R) (service : String)
      → ids_at service (rebuild_sorted_instance_cache sort_ids m).sorted_service_inst_map
        ≡ sort_ids (active_ids service m.instances)
  unfolding rebuild_sorted_instance_cache lookup
  cached-active m service =
      ids_at-sort_all sort_ids service (group_routable m.instances [])
        (none_sorted sort_ids permutes)
      ∙ ap sort_ids (grouped service m.instances [])

  -- After the cache is rebuilt, selections in a row for a service with an active instance take turns
  -- over its active instances, draining ones left out: there is an order of all of them and a position
  -- in it such that each selection gives the instance at the next position, and the first again after
  -- the last; none of the selections panics or fails.
  pub rebuild_sorted_instance_cache-active :
      (m : Manager F R) (service : String) (n : ℕ)
      → 1 ≤ length (active_ids service m.instances)
      → (ids : List String) × (start : ℕ) × Perm ids (active_ids service m.instances)
        × (start < length ids)
        × ((select_many (rebuild_sorted_instance_cache sort_ids m) service n).0 ≡ turns ids start n)
  unfolding rebuild_sorted_instance_cache
  rebuild_sorted_instance_cache-active m service n some_active =
      let after = rebuild_sorted_instance_cache sort_ids m in
      let cache = after.sorted_service_inst_map in
      let ids = ids_at service cache in
      let same : Perm ids (active_ids service m.instances) =
        subst (λ l. Perm l (active_ids service m.instances)) (sym (cached-active m service))
          (permutes (active_ids service m.instances)) in
      let some_id : 1 ≤ length ids = omega (arith, length-Perm same, some_active) in
      let found = found_at service cache some_id in
      (
        ids,
        index_at service after.round_robin_idx,
        same,
        reset_all-InRange cache m.round_robin_idx service ids found some_id,
        rebuild_sorted_instance_cache-turns sort_ids m service ids n found some_id,
      )
