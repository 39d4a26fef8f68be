-- ===== src/Resource/Manager/Hosts/Spared.antt =====
-- The hosts that ScaleInHosts of internal/resource/manager.go spares.
use mathlib.Core.List.{Perm, Permᴰ}
use mathlib.Core.Logic.{∥∥₁_elim}
use mathlib.Core.Bool.{Bool-set}
use simulation_core.Base.{
  ℕ, zero, suc, ◌-◌, ◌≤◌, ◌≡◌, refl, ap, ◌∙◌, Bool, true, false, String, List, [], ◌∷◌, ◌++◌,
  Option, none, ◌&&◌, ◌||◌, not, ◌=ₛ◌, ◌==◌, if◌then◌else◌, if_elim, ltb, leb, length, arith,
  Bool-cases, eq_iff, inl, inr,
}
use simulation_core.Base.Int.{ℤ, pos, pos_part, leb_ℤ}
use simulation_core.Base.Dict.{Dict, lookup, delete, lookup-delete}
use simulation_core.Resource.Host.{Host, at_least_one}
use simulation_core.Resource.Manager.{Manager, Answer, ids_at}
use simulation_core.Resource.Manager.Scaling.{take}
use simulation_core.Resource.Manager.Hosts.{delete_all, empty_hosts, candidates, scale_in_hosts}

abbrev contains : String → List String → Bool
contains id [] = false
contains id (x ∷ xs) = id =ₛ x || contains id xs

or_first : (p q : Bool) → (p || q) ≡ false → p ≡ false
or_first p q h = ground arith

or_second : (p q : Bool) → (p || q) ≡ false → q ≡ false
or_second p q h = ground arith

or_none : (p q : Bool) → p ≡ false → q ≡ false → (p || q) ≡ false
or_none p q h g = ground arith

or_swap : (p q r : Bool) → (p || (q || r)) ≡ (q || (p || r))
or_swap p q r = ground arith

other_key :
    {V : Type 0} (key id : String)
    → id =ₛ key ≡ false
    → (o : Option V) → (if key =ₛ id then none else o) ≡ o
other_key key id other o =
    let e : key =ₛ id ≡ false = ground (arith, eq_iff key id, eq_iff id key) in rw e refl

no_use : (n : ℕ) (b : Bool) → (n == 0 && b) ≡ true → n ≡ 0
no_use n b h = ground arith

apart :
    (listed : Dict (List String)) (id key : String)
    → 1 ≤ length (ids_at id listed)
    → (asked : Bool) → (length (ids_at key listed) == 0 && asked) ≡ true
    → id =ₛ key ≡ false
apart listed id key used asked empty = elim (Bool-cases (id =ₛ key)) [
  | inl same ↦
      let e : id ≡ key = ground (arith, eq_iff id key) in
      let none_used : length (ids_at id listed) ≡ 0 =
        ap (λ k. length (ids_at k listed)) e ∙ no_use (length (ids_at key listed)) asked empty in
      absurd (omega (arith, used, none_used))
  | inr other ↦ other
]

contains-append :
    (id : String) (xs ys : List String)
    → contains id xs ≡ false
    → contains id ys ≡ false
    → contains id (xs ++ ys) ≡ false
contains-append id [] ys h g = g
contains-append id (x ∷ xs) ys h g =
    let rest = contains-append id xs ys (or_second (id =ₛ x) _ h) g in
    or_none (id =ₛ x) _ (or_first (id =ₛ x) _ h) rest

contains-take :
    (id : String) (n : ℕ) (xs : List String)
    → contains id xs ≡ false
    → contains id (take n xs) ≡ false
contains-take id zero xs h = refl
contains-take id (suc n) [] h = refl
contains-take id (suc n) (x ∷ xs) h =
    or_none (id =ₛ x) _ (or_first (id =ₛ x) _ h) (contains-take id n xs (or_second (id =ₛ x) _ h))

Permᴰ-contains : {xs ys : List String} (id : String) → Permᴰ xs ys → contains id xs ≡ contains id ys
Permᴰ-contains id Permᴰ.nil = refl
Permᴰ-contains id (Permᴰ.cons e p) = let rest = Permᴰ-contains id p in cc
Permᴰ-contains id (Permᴰ.swap {a} {b} {a'} {b'} {l} e f) =
    let turned = or_swap (id =ₛ a) (id =ₛ b) (contains id l) in cc
Permᴰ-contains id (Permᴰ.trans p q) = Permᴰ-contains id p ∙ Permᴰ-contains id q

Perm-contains : {xs ys : List String} (id : String) → Perm xs ys → contains id xs ≡ contains id ys
Perm-contains id p = ∥∥₁_elim p (Bool-set _ _) (Permᴰ-contains id)

module _ {V : Type 0} where
  delete_all-other :
      (ids : List String) (id : String) (dict : Dict V)
      → contains id ids ≡ false
      → lookup id (delete_all ids dict) ≡ lookup id dict
  delete_all-other [] id dict h = refl
  delete_all-other (x ∷ xs) id dict h =
      delete_all-other xs id (delete x dict) (or_second (id =ₛ x) _ h)
      ∙ lookup-delete x id dict
      ∙ other_key x id (or_first (id =ₛ x) _ h) (lookup id dict)

module _ {F : Type 0} where
  empty_hosts-used :
      (asked : String → Bool) (listed : Dict (List String)) (hosts : Dict (Host F)) (id : String)
      → 1 ≤ length (ids_at id listed)
      → contains id (empty_hosts asked listed hosts) ≡ false
  empty_hosts-used asked listed [] id used = refl
  empty_hosts-used asked listed ((key, h) ∷ rest) id used =
      let later = empty_hosts-used asked listed rest id used in
      if_elim (λ l. contains id l ≡ false) (length (ids_at key listed) == 0 && asked key)
        (λ empty. or_none (id =ₛ key) _ (apart listed id key used (asked key) empty) later)
        (λ _. later)

module _ {F R : Type 0} (is_auto : String → Bool) (sort_auto : List String → List String)
    (permutes : (ids : List String) → Perm (sort_auto ids) ids) where
  candidates-used :
      (m : Manager F R) (id : String)
      → 1 ≤ length (ids_at id m.host_to_instances)
      → contains id (candidates is_auto sort_auto m) ≡ false
  candidates-used m id used =
      let auto = empty_hosts is_auto m.host_to_instances m.hosts in
      contains-append id (sort_auto auto)
        (empty_hosts (λ id. not (is_auto id)) m.host_to_instances m.hosts)
        (Perm-contains id (permutes auto)
          ∙ empty_hosts-used is_auto m.host_to_instances m.hosts id used)
        (empty_hosts-used (λ id. not (is_auto id)) m.host_to_instances m.hosts id used)

  -- A host on which instances are placed is left as it is, with the list of its instances, whatever
  -- number of hosts is asked for.
  pub scale_in_hosts-used :
      (m : Manager F R) (target : ℤ) (id : String)
      → 1 ≤ length (ids_at id m.host_to_instances)
      → (lookup id (scale_in_hosts is_auto sort_auto m target).1.hosts ≡ lookup id m.hosts)
        × (lookup id (scale_in_hosts is_auto sort_auto m target).1.host_to_instances
            ≡ lookup id m.host_to_instances)
  unfolding scale_in_hosts
  scale_in_hosts-used m target id used =
      let spared : Answer (Unit {0}) × Manager F R → Type 0 = λ made.
        (lookup id made.1.hosts ≡ lookup id m.hosts)
        × (lookup id made.1.host_to_instances ≡ lookup id m.host_to_instances) in
      let current = length m.hosts in
      let wanted = pos_part (at_least_one target) in
      let gone = take (current - wanted) (candidates is_auto sort_auto m) in
      let kept : contains id gone ≡ false =
        contains-take id (current - wanted) (candidates is_auto sort_auto m)
          (candidates-used m id used) in
      if_elim spared (leb_ℤ (pos current) target || leb current 1) (λ _. (refl, refl))
        (λ _.
          if_elim spared (ltb (length (candidates is_auto sort_auto m)) (current - wanted))
            (λ _. (refl, refl))
            (λ _. (
              delete_all-other gone id m.hosts kept,
              delete_all-other gone id m.host_to_instances kept,
            )))
