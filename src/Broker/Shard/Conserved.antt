-- ===== src/Broker/Shard/Conserved.antt =====
-- The messages of a shard of internal/resource/broker_queue.go over its calls, counted.
use simulation_core.Base.{
  ℕ, suc, ◌+◌, ◌*◌, ◌≡◌, refl, ap, String, List, [], ◌∷◌, Option, ◌&&◌, arith, if_elim, ltb, leb,
  length, length-append,
}
use simulation_core.Base.Int.{ℤ, pos, leb_ℤ, ltb_ℤ, ◌-ℤ◌, pos_part}
use simulation_core.Broker.Shard.{
  Shard, QueuedMessage, EnqueueResult, DropPolicy, reject, drop_newest, drop_oldest, block, other,
  policy_of, capacity_reached, enqueue, enqueue_full, replace_oldest, try_pop_for_dispatch,
  pop_from, consumer_finished, requeue_front, expire_loop, expire_queued_by_retention,
}
use simulation_core.Broker.Shard.Calls.{
  Call, publishes, dispatches, finishes, requeues, expires, step, Allowed, steps, AllAllowed,
}

module _ {Payload : Type 0} where
  abbrev pub published : Call Payload → ℕ
  published (publishes m) = 1
  published _ = 0

  abbrev pub finished : Call Payload → ℕ
  finished finishes = 1
  finished _ = 0

  abbrev pub total : (Call Payload → ℕ) → List (Call Payload) → ℕ
  total count [] = 0
  total count (c ∷ rest) = count c + total count rest

  pub expire_loop-length :
      (threshold : ℤ) (messages : List (QueuedMessage Payload))
      → length (expire_loop threshold messages).0 + length (expire_loop threshold messages).1
        ≡ length messages
  unfolding expire_loop
  expire_loop-length threshold [] = refl
  expire_loop-length threshold (m ∷ rest) =
      if_elim
        (λ (r : List ℕ × List (QueuedMessage Payload)). length r.0 + length r.1 ≡ length (m ∷ rest))
        (ltb_ℤ threshold (pos m.enqueue_time)) (λ _. omega arith)
        (λ _. omega (arith, expire_loop-length threshold rest))

module _ {Payload Float : Type 0} where
  -- The messages that a shard holds, has handed out or has dropped.
  abbrev pub accounted : Shard Payload Float → ℕ
  accounted s = length s.messages + s.in_flight + s.drop_count

  abbrev One : (s t : Shard Payload Float) → Type 0
  One s t = accounted t ≡ suc (accounted s)

module _ {Payload Float : Type 0} (normalise : String → String) where
  replace_oldest-accounted :
      (s : Shard Payload Float) (messages : List (QueuedMessage Payload))
      (m : QueuedMessage Payload)
      → s.messages ≡ messages
      → One s (replace_oldest s messages m).1
  replace_oldest-accounted s [] m h = let l = ap length h in omega (arith, l)
  replace_oldest-accounted s (oldest ∷ rest) m h =
      let l = ap length h in omega (arith, l, length-append rest (m ∷ []))

  enqueue_full-accounted :
      (policy : DropPolicy) (s : Shard Payload Float) (m : QueuedMessage Payload)
      → One s (enqueue_full policy s m).1
  enqueue_full-accounted reject s m = omega arith
  enqueue_full-accounted drop_newest s m = omega arith
  enqueue_full-accounted drop_oldest s m = replace_oldest-accounted s s.messages m refl
  enqueue_full-accounted block s m = omega arith
  enqueue_full-accounted other s m = omega arith

  enqueue-accounted :
      (s : Shard Payload Float) (m : QueuedMessage Payload) → One s (enqueue normalise s m).1
  unfolding enqueue
  enqueue-accounted s m =
      if_elim (λ (r : EnqueueResult × Shard Payload Float). One s r.1) (capacity_reached s)
        (λ _. enqueue_full-accounted (policy_of (normalise s.drop_policy)) s m)
        (λ _. omega (arith, length-append s.messages (m ∷ [])))

  pop_from-accounted :
      (s : Shard Payload Float) (messages : List (QueuedMessage Payload))
      → s.messages ≡ messages
      → accounted (pop_from s messages).1 ≡ accounted s
  pop_from-accounted s [] h = refl
  pop_from-accounted s (m ∷ rest) h = let l = ap length h in omega (arith, l)

  pop-accounted : (s : Shard Payload Float) → accounted (try_pop_for_dispatch s).1 ≡ accounted s
  unfolding try_pop_for_dispatch
  pop-accounted s =
      if_elim
        (λ (r : Option (QueuedMessage Payload) × Shard Payload Float). accounted r.1 ≡ accounted s)
        (ltb 0 s.max_concurrency && leb s.max_concurrency s.in_flight) (λ _. refl)
        (λ _. pop_from-accounted s s.messages refl)

  expire-accounted :
      (s : Shard Payload Float) (now : ℕ) (retention_ms : ℤ)
      → accounted (expire_queued_by_retention s now retention_ms).1 ≡ accounted s
  unfolding expire_queued_by_retention
  expire-accounted s now retention_ms =
      if_elim (λ (r : List ℕ × Shard Payload Float). accounted r.1 ≡ accounted s)
        (leb_ℤ retention_ms (pos 0)) (λ _. refl)
        (λ _.
          omega (
            arith,
            expire_loop-length (pos now -ℤ pos (pos_part retention_ms * 1000000)) s.messages,
          ))

  step-accounted :
      (s : Shard Payload Float) (c : Call Payload)
      → Allowed normalise s c
      → accounted (step normalise s c) + finished c ≡ accounted s + published c
  unfolding consumer_finished requeue_front
  step-accounted s (publishes m) a = omega (arith, enqueue-accounted s m)
  step-accounted s dispatches a = omega (arith, pop-accounted s)
  step-accounted s finishes a = omega (arith, a)
  step-accounted s (requeues m) a = omega (arith, a)
  step-accounted s (expires now retention_ms) a = omega (arith, expire-accounted s now retention_ms)

  -- Every message that was published is queued, in flight, dropped or finished, and counts once: over
  -- any calls in which consumers finish and messages are put back only while in flight, the messages
  -- queued, in flight and dropped grow by those published less those finished.
  pub steps-accounted :
      (calls : List (Call Payload)) (s : Shard Payload Float)
      → AllAllowed normalise s calls
      → accounted (steps normalise s calls) + total finished calls
        ≡ accounted s + total published calls
  steps-accounted [] s a = omega arith
  steps-accounted (c ∷ rest) s a =
      let first = step-accounted s c a.0 in
      let later = steps-accounted rest (step normalise s c) a.1 in omega (arith, first, later)
