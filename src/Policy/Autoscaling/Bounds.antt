-- ===== src/Policy/Autoscaling/Bounds.antt =====
-- Where the decisions of internal/policy/autoscaling.go lead.
use simulation_core.Base.{
  ℕ, ◌+◌, ◌≡◌, refl, true, false, ◌⊎◌, inl, inr, if◌then◌else◌, if_elim, ltb→lt, arith,
}
use simulation_core.Base.Int.{ℤ, pos, pos_part, neg_part, sub_ℕ, ltb_ℤ, ◌+ℤ◌, ◌-ℤ◌, ◌≤ℤ◌, ◌<ℤ◌}
use simulation_core.Policy.Autoscaling.{
  ScaleOps, AutoscalingPolicy, should_scale_up, should_scale_down, clamp_replicas,
  get_target_replicas,
}

sub_ℕ-parts : (m n : ℕ) → pos_part (sub_ℕ m n) + n ≡ neg_part (sub_ℕ m n) + m
sub_ℕ-parts m n = ground arith

add_grows : (a b : ℤ) → pos 1 ≤ℤ b → a <ℤ (a +ℤ b)
add_grows a b h = omega (arith, h, sub_ℕ-parts (pos_part a + pos_part b) (neg_part a + neg_part b))

sub_shrinks : (a b : ℤ) → pos 1 ≤ℤ b → (a -ℤ b) <ℤ a
sub_shrinks a b h =
    omega (arith, h, sub_ℕ-parts (pos_part a + neg_part b) (neg_part a + pos_part b))

clamp_up :
    (min max target current : ℤ)
    → current <ℤ max
    → current <ℤ target
    → (current <ℤ clamp_replicas min max target) × (clamp_replicas min max target ≤ℤ max)
clamp_up min max target current below up =
    let raised = if ltb_ℤ target min then min else target in
    let higher : current <ℤ raised =
      if_elim (λ r. current <ℤ r) (ltb_ℤ target min) (λ low. ground arith) (λ _. up) in
    if_elim (λ r. (current <ℤ r) × (r ≤ℤ max)) (ltb_ℤ max raised) (λ _. (below, omega arith))
      (λ fits. (higher, ground arith))

clamp_down :
    (min max target current : ℤ)
    → min ≤ℤ max
    → min <ℤ current
    → target <ℤ current
    → (min ≤ℤ clamp_replicas min max target) × (clamp_replicas min max target <ℤ current)
clamp_down min max target current h above down =
    let raised = if ltb_ℤ target min then min else target in
    let within : (min ≤ℤ raised) × (raised <ℤ current) =
      if_elim (λ r. (min ≤ℤ r) × (r <ℤ current)) (ltb_ℤ target min) (λ _. (omega arith, above))
        (λ fits. (ground arith, down)) in
    if_elim (λ r. (min ≤ℤ r) × (r <ℤ current)) (ltb_ℤ max raised)
      (λ over. (h, omega (arith, ltb→lt _ _ over, within.1))) (λ _. within)

module _ {F : Type 0} (ops : ScaleOps F) where
  -- Up to the maximum, down to the minimum, or no change, as the policy decides.
  abbrev pub Moves : AutoscalingPolicy F → ℤ → F → ℤ → Type 0
  Moves p current util target =
      ((should_scale_up ops p current util ≡ true)
        × (current <ℤ target)
        × (target ≤ℤ p.max_replicas))
      ⊎ (((should_scale_down ops p current util ≡ true)
            × (p.min_replicas ≤ℤ target)
            × (target <ℤ current))
          ⊎ ((should_scale_up ops p current util ≡ false)
              × (should_scale_down ops p current util ≡ false)
              × (target ≡ current)))

  allowed_up :
      (p : AutoscalingPolicy F) (current : ℤ) (util : F)
      → should_scale_up ops p current util ≡ true
      → current <ℤ p.max_replicas
  unfolding should_scale_up
  allowed_up p current util h = ground arith

  allowed_down :
      (p : AutoscalingPolicy F) (current : ℤ) (util : F)
      → should_scale_down ops p current util ≡ true
      → p.min_replicas <ℤ current
  unfolding should_scale_down
  allowed_down p current util h = ground arith

  off_up :
      (p : AutoscalingPolicy F) (current : ℤ) (util : F)
      → p.enabled ≡ false
      → should_scale_up ops p current util ≡ false
  unfolding should_scale_up
  off_up p current util off = simp (off)

  off_down :
      (p : AutoscalingPolicy F) (current : ℤ) (util : F)
      → p.enabled ≡ false
      → should_scale_down ops p current util ≡ false
  unfolding should_scale_down
  off_down p current util off = simp (off)

  -- With a step of at least one and a minimum that is no more than the maximum, the target is above
  -- the current number and at most the maximum where the policy scales up, below the current number
  -- and at least the minimum where it scales down, and else the current number.
  pub get_target_replicas-Moves :
      (p : AutoscalingPolicy F) (current : ℤ) (util : F)
      → p.min_replicas ≤ℤ p.max_replicas
      → pos 1 ≤ℤ p.scale_step
      → Moves p current util (get_target_replicas ops p current util)
  unfolding get_target_replicas
  get_target_replicas-Moves p current util order step =
      let moves : ℤ → Type 0 = Moves p current util in
      if_elim moves p.enabled
        (λ _.
          if_elim moves (should_scale_up ops p current util)
            (λ up.
              let room = allowed_up p current util up in
              let placed =
                clamp_up p.min_replicas p.max_replicas (current +ℤ p.scale_step) current room
                  (add_grows current p.scale_step step) in
              inl (up, placed.0, placed.1))
            (λ level.
              if_elim moves (should_scale_down ops p current util)
                (λ down.
                  let room = allowed_down p current util down in
                  let placed =
                    clamp_down p.min_replicas p.max_replicas (current -ℤ p.scale_step) current order
                      room (sub_shrinks current p.scale_step step) in
                  inr (inl (down, placed.0, placed.1)))
                (λ steady. inr (inr (level, steady, refl)))))
        (λ off. inr (inr (off_up p current util off, off_down p current util off, refl)))
