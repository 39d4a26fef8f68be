-- ===== src/Broker/Commit.antt =====
-- RecordTopicOffsetProcessed of internal/resource/broker_queue.go: the commit frontier of a consumer
-- group and the offsets recorded beyond it, Go's pendingCommit as a list without repetitions.
use simulation_core.Base.{
  ℕ, zero, suc, ◌≤◌, ◌<◌, ◌≡◌, ◌≢◌, inl, inr, ◌↔◌, refl, ap, sym, ◌∙◌, Bool, true, false, List, [],
  ◌∷◌, ◌==◌, if◌then◌else◌, if_elim, ltb, ltb→lt, length, arith, Bool-cases, ◌||◌,
}

abbrev pub contains : ℕ → List ℕ → Bool
contains n [] = false
contains n (x ∷ xs) = n == x || contains n xs

abbrev pub add : ℕ → List ℕ → List ℕ
add n xs = if contains n xs then xs else n ∷ xs

-- Go's `delete`.
abbrev pub remove : ℕ → List ℕ → List ℕ
remove n [] = []
remove n (x ∷ xs) = let kept = remove n xs in if n == x then kept else x ∷ kept

-- The loop that moves the frontier, on fuel.
unfoldable pub advance : ℕ → ℕ → List ℕ → ℕ × List ℕ
advance zero next pending = (next, pending)
advance (suc fuel) next pending =
    let further = advance fuel (suc next) (remove next pending) in
    if contains next pending then further else (next, pending)

-- The offsets below the frontier are ignored; each turn of the loop takes one offset out of the
-- pending ones, so their number is fuel enough.
unfoldable pub record_processed : ℕ → List ℕ → ℕ → ℕ × List ℕ
record_processed next pending o =
    let added = add o pending in
    if ltb o next then (next, pending) else advance (suc (length added)) next added

contains-same : (k n : ℕ) (xs : List ℕ) → k == n ≡ true → contains k xs ≡ contains n xs
contains-same k n xs h = let same : k ≡ n = ground arith in ap (λ x. contains x xs) same

contains-add : (k n : ℕ) (xs : List ℕ) → contains k (add n xs) ≡ (k == n || contains k xs)
contains-add k n xs =
    if_elim (λ l. contains k l ≡ (k == n || contains k xs)) (contains n xs)
      (λ already. elim (Bool-cases (k == n)) [
        | inl same ↦ ground (arith, contains-same k n xs same)
        | inr other ↦ ground arith
      ])
      (λ _. refl)

contains-remove : (k n : ℕ) (xs : List ℕ) → k ≢ n → contains k (remove n xs) ≡ contains k xs
contains-remove k n [] h = refl
contains-remove k n (x ∷ xs) h = grind (arith, contains-remove k n xs h)

contains-remove_self : (n : ℕ) (xs : List ℕ) → contains n (remove n xs) ≡ false
contains-remove_self n [] = refl
contains-remove_self n (x ∷ xs) = ground (arith, contains-remove_self n xs)

length-remove : (n : ℕ) (xs : List ℕ) → length (remove n xs) ≤ length xs
length-remove n [] = omega arith
length-remove n (x ∷ xs) = ground (arith, length-remove n xs)

length-remove_found :
    (n : ℕ) (xs : List ℕ) → contains n xs ≡ true → length (remove n xs) < length xs
length-remove_found n [] h = absurd (ground arith)
length-remove_found n (x ∷ xs) h = ground (arith, length-remove n xs, length-remove_found n xs)

-- The fuel is enough: where the loop stops, the frontier is not pending.
advance-stops :
    (fuel next : ℕ) (pending : List ℕ)
    → length pending < fuel
    → contains (advance fuel next pending).0 (advance fuel next pending).1 ≡ false
unfolding advance
advance-stops zero next pending h = absurd (omega arith)
advance-stops (suc fuel) next pending h =
    if_elim (λ (r : ℕ × List ℕ). contains r.0 r.1 ≡ false) (contains next pending)
      (λ found.
        let shorter = length-remove_found next pending found in
        advance-stops fuel (suc next) (remove next pending) (omega (arith, h, shorter)))
      (λ missing. missing)

-- What a state of the frontier knows of the offsets that were recorded: all below it were, and of
-- those at or after it exactly the pending ones.
record Knows (done : List ℕ) (next : ℕ) (pending : List ℕ) : Type 0 where
  below : (k : ℕ) → k < next → contains k done ≡ true
  kept : (k : ℕ) → contains k done ≡ true → next ≤ k → contains k pending ≡ true
  after : (k : ℕ) → contains k pending ≡ true → (next ≤ k) × (contains k done ≡ true)

-- The frontier has come as far as it can.
pub record Tracks (done : List ℕ) (next : ℕ) (pending : List ℕ) : Type 0 where
  knows : Knows done next pending
  stopped : contains next pending ≡ false

distinct : (j n : ℕ) → n < j → j ≢ n
distinct j n h same = absurd (omega (arith, h, same))

-- The step that takes the frontier's own offset out of the pending ones.
forward-Knows :
    (next : ℕ) (pending done : List ℕ)
    → Knows done next pending
    → contains next pending ≡ true
    → Knows done (suc next) (remove next pending)
forward-Knows next pending done k found = record {
  below = λ j h. elim (Bool-cases (j == next)) [
    | inl same ↦ contains-same j next done same ∙ (k.after next found).1
    | inr other ↦ k.below j (ground arith)
  ];
  kept =
      λ j h l. contains-remove j next pending (distinct j next l) ∙ k.kept j h (omega (arith, l));
  after = λ j h. elim (Bool-cases (j == next)) [
    | inl same ↦
        let gone =
          contains-same j next (remove next pending) same ∙ contains-remove_self next pending in
        absurd (cc)
    | inr other ↦
        let queued = sym (contains-remove j next pending (ground arith)) ∙ h in
        let known = k.after j queued in (ground arith, known.1)
  ];
}

advance-Knows :
    (fuel next : ℕ) (pending done : List ℕ)
    → Knows done next pending
    → Knows done (advance fuel next pending).0 (advance fuel next pending).1
unfolding advance
advance-Knows zero next pending done k = k
advance-Knows (suc fuel) next pending done k =
    if_elim (λ (r : ℕ × List ℕ). Knows done r.0 r.1) (contains next pending)
      (λ found.
        advance-Knows fuel (suc next) (remove next pending) done
          (forward-Knows next pending done k found))
      (λ _. k)

add-Knows :
    (done : List ℕ) (next : ℕ) (pending : List ℕ) (o : ℕ)
    → Knows done next pending
    → next ≤ o
    → Knows (o ∷ done) next (add o pending)
add-Knows done next pending o k later = record {
  below = λ j h. ground (arith, k.below j h);
  kept = λ j h l. ground (arith, contains-add j o pending, k.kept j);
  after = λ j h. ground (arith, contains-add j o pending, k.after j);
}

early-Knows :
    (done : List ℕ) (next : ℕ) (pending : List ℕ) (o : ℕ)
    → Knows done next pending
    → o < next
    → Knows (o ∷ done) next pending
early-Knows done next pending o k early = record {
  below = λ j h. ground (arith, k.below j h);
  kept = λ j h l. ground (arith, k.kept j);
  after = λ j h. ground (arith, k.after j);
}

-- Recording an offset keeps track of it.
pub record_processed-Tracks :
    (done : List ℕ) (next : ℕ) (pending : List ℕ) (o : ℕ)
    → Tracks done next pending
    → Tracks (o ∷ done) (record_processed next pending o).0 (record_processed next pending o).1
unfolding record_processed
record_processed-Tracks done next pending o t =
    if_elim (λ (r : ℕ × List ℕ). Tracks (o ∷ done) r.0 r.1) (ltb o next)
      (λ before. record {
        knows = early-Knows done next pending o t.knows (ltb→lt _ _ before);
        stopped = t.stopped;
      })
      (λ later. record {
        knows =
            advance-Knows _ next (add o pending) (o ∷ done)
              (add-Knows done next pending o t.knows (ground arith));
        stopped = advance-stops _ next (add o pending) (omega arith);
      })

abbrev pub record_all : List ℕ → ℕ × List ℕ
record_all [] = (0, [])
record_all (o ∷ done) = let before = record_all done in record_processed before.0 before.1 o

record_all-Tracks : (done : List ℕ) → Tracks done (record_all done).0 (record_all done).1
record_all-Tracks [] = record {
  knows = record {
    below = λ j h. absurd (omega (arith, h));
    kept = λ j h l. absurd (ground arith);
    after = λ j h. absurd (ground arith);
  };
  stopped = refl;
}
record_all-Tracks (o ∷ done) =
    record_processed-Tracks done (record_all done).0 (record_all done).1 o (record_all-Tracks done)

-- The frontier after a fresh consumer group has recorded some offsets, in any order and with
-- repetitions: an offset is below it exactly when it and all the offsets before it were recorded.
pub record_all-frontier :
    (done : List ℕ) (k : ℕ) → (k < (record_all done).0) ↔ ((j : ℕ) → j ≤ k → contains j done ≡ true)
record_all-frontier done k =
    let t = record_all-Tracks done in
    let next = (record_all done).0 in
    (
      λ h j l. t.knows.below j (omega (arith, h, l)),
      λ every. elim (Bool-cases (ltb k next)) [
        | inl before ↦ ltb→lt _ _ before
        | inr late ↦
            let pending = t.knows.kept next (every next (ground arith)) (omega arith) in
            let stops = t.stopped in absurd cc
      ],
    )
