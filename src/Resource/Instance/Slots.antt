-- ===== src/Resource/Instance/Slots.antt =====
-- The slots of the database pool of a service instance.
use simulation_core.Base.{
  ℕ, zero, suc, ◌+◌, ◌≤◌, ◌<◌, ◌≡◌, ◌⊎◌, inl, inr, refl, sym, ap, subst, ◌∙◌, List, [], ◌∷◌, Option,
  none, some, ltb, if_elim, arith, length, min,
}
use simulation_core.Base.Int.{pos, leb_ℤ}
use simulation_core.Resource.Instance.{
  Instance, DbWork, start_at, take_slots, grow, set_slot, pick, reserve_slot, reserve_db_work,
}

-- When a slot is free; a slot that no work has used yet is free from the start.
abbrev pub nth : ℕ → List (Option ℕ) → Option ℕ
nth n [] = none
nth zero (slot ∷ slots) = slot
nth (suc n) (slot ∷ slots) = nth n slots

-- The start of every slot is at or after some time.
abbrev pub AtOrAfter : (arrival start n : ℕ) → List (Option ℕ) → Type 0
AtOrAfter arrival start n slots = (l : ℕ) → l < n → start ≤ start_at arrival (nth l slots)

AtOrAfter-cons :
    (arrival start : ℕ) (slot : Option ℕ) (slots : List (Option ℕ))
    → start ≤ start_at arrival slot
    → AtOrAfter arrival start (length slots) slots
    → AtOrAfter arrival start (suc (length slots)) (slot ∷ slots)
AtOrAfter-cons arrival start slot slots first rest zero h = first
AtOrAfter-cons arrival start slot slots first rest (suc l) h = rest l (omega (arith, h))

-- The start is that of a slot among some, counted from k.
abbrev IsOf : (arrival k index start : ℕ) → List (Option ℕ) → Type 0
IsOf arrival k index start slots =
    (l : ℕ) × (l < length slots) × (index ≡ k + l) × (start ≡ start_at arrival (nth l slots))

IsOf-cons :
    (arrival k index start : ℕ) (slot : Option ℕ) (slots : List (Option ℕ))
    → IsOf arrival (suc k) index start slots
    → IsOf arrival k index start (slot ∷ slots)
IsOf-cons arrival k index start slot slots (l, within, at, begin) =
    (suc l, omega (arith, within), omega (arith, at), begin)

-- What the search over some slots, counted from k, makes of the best one so far, j with start b.
record Picked (arrival k j b : ℕ) (slots : List (Option ℕ)) (r : Option (ℕ × ℕ)) : Type 0 where
  index : ℕ
  start : ℕ
  found : r ≡ some (index, start)
  below : start ≤ b
  least : AtOrAfter arrival start (length slots) slots
  origin : ((index ≡ j) × (start ≡ b)) ⊎ IsOf arrival k index start slots

pick-Picked :
    (slots : List (Option ℕ)) (arrival k j b : ℕ)
    → Picked arrival k j b slots (pick arrival k (some (j, b)) slots)
unfolding pick
pick-Picked [] arrival k j b = record {
  index = j;
  start = b;
  found = refl;
  below = omega arith;
  least = λ l h. absurd (omega (arith, h));
  origin = inl (refl, refl);
}
pick-Picked (slot ∷ slots) arrival k j b =
    let begin = start_at arrival slot in
    if_elim
      (λ (acc : Option (ℕ × ℕ)).
        Picked arrival k j b (slot ∷ slots) (pick arrival (suc k) acc slots))
      (ltb begin b)
      (λ earlier.
        let p = pick-Picked slots arrival (suc k) k begin in
        let below = p.below in
        record {
          index = p.index;
          start = p.start;
          found = p.found;
          below = ground arith;
          least = AtOrAfter-cons arrival p.start slot slots below p.least;
          origin = elim p.origin [
            | inl (at, same) ↦ inr (zero, omega arith, omega (arith, at), same)
            | inr of ↦ inr (IsOf-cons arrival k p.index p.start slot slots of)
          ];
        })
      (λ later.
        let p = pick-Picked slots arrival (suc k) j b in
        let below = p.below in
        record {
          index = p.index;
          start = p.start;
          found = p.found;
          below = p.below;
          least = AtOrAfter-cons arrival p.start slot slots (ground arith) p.least;
          origin = elim p.origin [
            | inl same ↦ inl same
            | inr of ↦ inr (IsOf-cons arrival k p.index p.start slot slots of)
          ];
        })

take_slots-length :
    (n : ℕ) (slots : List (Option ℕ)) → n ≤ length slots → length (take_slots n slots) ≡ n
take_slots-length zero slots h = refl
take_slots-length (suc n) [] h = absurd (omega (arith, h))
take_slots-length (suc n) (slot ∷ slots) h =
    omega (arith, take_slots-length n slots (omega (arith, h)))

nth-take_slots :
    (n : ℕ) (slots : List (Option ℕ)) (l : ℕ) → l < n → nth l (take_slots n slots) ≡ nth l slots
nth-take_slots zero slots l h = absurd (omega (arith, h))
nth-take_slots (suc n) [] l h = refl
nth-take_slots (suc n) (slot ∷ slots) zero h = refl
nth-take_slots (suc n) (slot ∷ slots) (suc l) h = nth-take_slots n slots l (omega (arith, h))

grow-length : (n : ℕ) (slots : List (Option ℕ)) → n ≤ length (grow n slots)
grow-length zero slots = omega arith
grow-length (suc n) [] = omega (arith, grow-length n [])
grow-length (suc n) (slot ∷ slots) = omega (arith, grow-length n slots)

-- The slot that is free the earliest among the first n, and its start.
pub record Earliest (arrival n : ℕ) (slots : List (Option ℕ)) (r : Option (ℕ × ℕ)) : Type 0 where
  pub index : ℕ
  pub start : ℕ
  pub found : r ≡ some (index, start)
  pub within : index < n
  pub begins : start ≡ start_at arrival (nth index slots)
  pub least : AtOrAfter arrival start n slots

pick-Earliest :
    (arrival : ℕ) (slots : List (Option ℕ))
    → 1 ≤ length slots
    → Earliest arrival (length slots) slots (pick arrival 0 none slots)
unfolding pick
pick-Earliest arrival [] h = absurd (omega (arith, h))
pick-Earliest arrival (slot ∷ slots) h =
    let p = pick-Picked slots arrival 1 0 (start_at arrival slot) in
    let begins_at : ℕ → ℕ = λ i. start_at arrival (nth i (slot ∷ slots)) in
    elim p.origin [
      | inl (at, same) ↦ record {
        index = p.index;
        start = p.start;
        found = p.found;
        within = omega (arith, at);
        begins = same ∙ ap begins_at (sym at);
        least = AtOrAfter-cons arrival p.start slot slots p.below p.least;
      }
      | inr (l, inside, at, same) ↦
          let next : p.index ≡ suc l = omega (arith, at) in
          record {
            index = p.index;
            start = p.start;
            found = p.found;
            within = omega (arith, at, inside);
            begins = same ∙ ap begins_at (sym next);
            least = AtOrAfter-cons arrival p.start slot slots p.below p.least;
          }
    ]

module _ {Float : Type 0} where
  -- Work that a pool serves: on one of its slots, which then is taken until the work ends, and as early
  -- as any of the slots could start it.
  pub record IsServed (arrival dur n : ℕ) (slots : List (Option ℕ)) (w : DbWork × Instance Float)
      : Type 0 where
    pub index : ℕ
    pub within : index < n
    pub slot : w.0.slot ≡ some index
    pub begins : w.0.start ≡ start_at arrival (nth index slots)
    pub least : AtOrAfter arrival w.0.start n slots
    pub finish : w.0.finish ≡ w.0.start + dur
    pub taken : w.1.db_slot_free ≡ set_slot index w.0.finish slots

  reserve_slot-IsServed :
      (s : Instance Float) (arrival dur n : ℕ) (slots : List (Option ℕ))
      → 1 ≤ n
      → n ≤ length slots
      → IsServed arrival dur n slots
          (reserve_slot s arrival dur slots (pick arrival 0 none (take_slots n slots)))
  reserve_slot-IsServed s arrival dur n slots positive long =
      let l = take_slots-length n slots long in
      let e = pick-Earliest arrival (take_slots n slots) (omega (arith, l, positive)) in
      let inside = e.within in
      let small : e.index < n = omega (arith, l, inside) in
      subst (λ r. IsServed arrival dur n slots (reserve_slot s arrival dur slots r)) (sym e.found)
        (record {
          index = e.index;
          within = small;
          slot = refl;
          begins = e.begins ∙ ap (start_at arrival) (nth-take_slots n slots e.index small);
          least = λ k h.
              subst (λ slot. e.start ≤ start_at arrival slot) (nth-take_slots n slots k h)
                (e.least k (omega (arith, l, h)));
          finish = refl;
          taken = refl;
        })

  -- With a pool of m > 0 slots, of which at most 64 are used, database work runs on one of the slots,
  -- starts when it has arrived and the slot is free, as early as any of the slots could start it, and
  -- takes its slot, and no other, until it ends.
  pub reserve_db_work-IsServed :
      (s : Instance Float) (arrival dur m : ℕ)
      → 1 ≤ m
      → IsServed arrival dur
          (min m 64)
          (grow (min m 64) s.db_slot_free)
          (reserve_db_work s arrival dur (pos m))
  unfolding reserve_db_work
  reserve_db_work-IsServed s arrival dur m positive =
      if_elim (IsServed arrival dur (min m 64) (grow (min m 64) s.db_slot_free))
        (leb_ℤ (pos m) (pos 0)) (λ none_at_all. absurd (ground arith))
        (λ _.
          reserve_slot-IsServed s arrival dur (min m 64) (grow (min m 64) s.db_slot_free)
            (omega (arith, positive)) (grow-length (min m 64) s.db_slot_free))
