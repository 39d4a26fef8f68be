-- ===== src/Broker/Shard/Expiry.antt =====
-- Which messages the retention sweep removes.
use simulation_core.Base.{
  ℕ, ◌+◌, ◌*◌, ◌≤◌, ◌<◌, ◌++◌, ◌≡◌, refl, ap, Bool-cases, inl, inr, false, not, List, [], ◌∷◌,
  arith, leb, length, All,
}
use simulation_core.Base.Int.{pos, leb_ℤ, ltb_ℤ, ◌-ℤ◌}
use simulation_core.Broker.Shard.{Shard, QueuedMessage, expire_loop, expire_queued_by_retention}

threshold_lem :
    (now r t : ℕ) → ltb_ℤ (pos now -ℤ pos (r * 1000000)) (pos t) ≡ not (leb (t + r * 1000000) now)
threshold_lem now r t = ground arith

module _ {Payload : Type 0} where
  -- The first message, if there is one, was queued less than the retention ago.
  abbrev pub HasYoungFront : ℕ → ℕ → List (QueuedMessage Payload) → Type 0
  HasYoungFront now r [] = Unit {0}
  HasYoungFront now r (m ∷ rest) = now < m.enqueue_time + r * 1000000

  abbrev pub offsets_of : List (QueuedMessage Payload) → List ℕ
  offsets_of [] = []
  offsets_of (m ∷ rest) = m.topic_offset ∷ offsets_of rest

  -- Each message was queued at least the retention ago.
  abbrev pub AllOld : ℕ → ℕ → List (QueuedMessage Payload) → Type 0
  AllOld now r = All (λ (m : QueuedMessage Payload). m.enqueue_time + r * 1000000 ≤ now)

  expire_loop-front :
      (now r : ℕ) (messages : List (QueuedMessage Payload))
      → (gone kept : List (QueuedMessage Payload)) × (messages ≡ gone ++ kept)
        × AllOld now r gone
        × HasYoungFront now r kept
        × (expire_loop (pos now -ℤ pos (r * 1000000)) messages ≡ (offsets_of gone, kept))
  unfolding expire_loop
  expire_loop-front now r [] = ([], [], refl, tt, tt, refl)
  expire_loop-front now r (m ∷ rest) =
      elim (Bool-cases (ltb_ℤ (pos now -ℤ pos (r * 1000000)) (pos m.enqueue_time))) [
        | inl young ↦ (
          [],
          m ∷ rest,
          refl,
          tt,
          ground (arith, threshold_lem now r m.enqueue_time),
          rw young refl,
        )
        | inr old ↦
            let is_old : m.enqueue_time + r * 1000000 ≤ now =
              ground (arith, threshold_lem now r m.enqueue_time) in
            let (gone, kept, split, olds, front, result) = expire_loop-front now r rest in
            (m ∷ gone, kept, ap (λ l. m ∷ l) split, (is_old, olds), front, rw (old, result) refl)
      ]

module _ {Payload Float : Type 0} where
  -- With a positive retention, and in whatever order the messages stand, the sweep takes messages from
  -- the front that were queued at least the retention ago, up to the first that was not, reports their
  -- offsets in order, keeps the rest as it is, and counts each one that it takes as dropped.
  pub expire_queued_by_retention-front :
      (s : Shard Payload Float) (now r : ℕ)
      → 1 ≤ r
      → (gone kept : List (QueuedMessage Payload)) × (s.messages ≡ gone ++ kept)
        × AllOld now r gone
        × HasYoungFront now r kept
        × (expire_queued_by_retention s now (pos r) ≡ (
          offsets_of gone,
          record s { messages = kept; drop_count = s.drop_count + length (offsets_of gone) },
        ))
  unfolding expire_queued_by_retention
  expire_queued_by_retention-front s now r positive =
      let is_on : leb_ℤ (pos r) (pos 0) ≡ false = ground arith in
      let (gone, kept, split, olds, front, result) = expire_loop-front now r s.messages in
      (gone, kept, split, olds, front, rw (is_on, result) refl)
