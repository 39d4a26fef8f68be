-- ===== src/RunStore/Retention/Live.antt =====
-- The runs that a cleanup of the store leaves alone, and those that it does not leave.
use simulation_core.Base.{
  ℕ, suc, ◌+◌, ◌*◌, ◌/◌, ◌≤◌, ◌<◌, ◌⊎◌, ◌≡◌, refl, subst, ap, ◌∙◌, Bool, true, false, String, List,
  [], ◌∷◌, none, some, inl, inr, ◌||◌, ◌=ₛ◌, ◌==◌, if_elim, ltb, leb, length, arith, Bool-cases,
  eq_iff,
}
use simulation_core.Base.Dict.{
  head_found, tail_found, delete_found, Dict, lookup, delete, lookup-delete,
}
use simulation_core.RunStore.Record.{Kinds, is_terminal_status, Run, RunRecord, LifecycleConfig}
use simulation_core.RunStore.{RunStore, finalize_run_storage}
use simulation_core.RunStore.Frame.{finalize_run_storage-run}
use simulation_core.RunStore.Retention.{
  TerminalRun, contains, is_expired, sweep, terminal_runs, evict, cleanup_now,
}
use simulation_core.RunStore.Retention.Kept.{is_terminal, ids, Perm-contains}
use mathlib.Core.List.{Perm}

-- No key stands twice.
module _ {V : Type 0} where
  abbrev pub IsUnique : Dict V → Type 0
  IsUnique [] = Unit {0}
  IsUnique ((key, value) ∷ rest) = (lookup key rest ≡ none) × IsUnique rest

not_or : (p q : Bool) → (p ≡ true → ⊥) → q ≡ false → (p || q) ≡ false
not_or p q never h = elim (Bool-cases p) [
  | inl holds ↦ absurd (never holds)
  | inr pf ↦ ground arith
]

or_false : (p q : Bool) → (p || q) ≡ false → q ≡ false
or_false p q h = ground arith

not_same : (id first : String) (later : Bool) → (id =ₛ first || later) ≡ false → first =ₛ id ≡ false
not_same id first later h = ground (arith, eq_iff id first, eq_iff first id)

module _ {V : Type 0} where
  found_here :
      (id stored : String) (value found : V) (rest : Dict V)
      → id =ₛ stored ≡ true
      → value ≡ found
      → lookup id ((stored, value) ∷ rest) ≡ some found
  unfolding lookup
  found_here id stored value found rest same e = rw same (ap some e)

  found_later :
      (id stored : String) (value found : V) (rest : Dict V)
      → id =ₛ stored ≡ false
      → lookup id rest ≡ some found
      → lookup id ((stored, value) ∷ rest) ≡ some found
  unfolding lookup
  found_later id stored value found rest other h = rw other h

  missing_here :
      (id stored : String) (value : V) (rest : Dict V)
      → lookup id ((stored, value) ∷ rest) ≡ none
      → id =ₛ stored ≡ true
      → ⊥
  unfolding lookup
  missing_here id stored value rest h same = ground arith

  missing_later :
      (id stored : String) (value : V) (rest : Dict V)
      → lookup id ((stored, value) ∷ rest) ≡ none
      → lookup id rest ≡ none
  unfolding lookup
  missing_later id stored value rest h = ground arith

  kept_by_delete :
      (key id : String) (dict : Dict V)
      → key =ₛ id ≡ false
      → lookup id (delete key dict) ≡ lookup id dict
  kept_by_delete key id dict other = lookup-delete key id dict ∙ rw other refl

module _ {k : Kinds} where
  -- What holds of every run that is left.
  abbrev Settled : LifecycleConfig → ℕ → Dict (RunRecord k) → Type 0
  Settled cfg now runs =
      (id : String) (rec : RunRecord k)
      → lookup id runs ≡ some rec
      → is_terminal rec ≡ true
      → is_expired cfg now rec.run ≡ false

  cons-Settled :
      (cfg : LifecycleConfig) (now : ℕ) (stored : String) (value : RunRecord k)
      (runs : Dict (RunRecord k))
      → (is_terminal value ≡ true → is_expired cfg now value.run ≡ false)
      → Settled cfg now runs
      → Settled cfg now ((stored, value) ∷ runs)
  cons-Settled cfg now stored value runs first later id rec h t = elim (Bool-cases (id =ₛ stored)) [
    | inl same ↦
        let here : value ≡ rec = head_found id stored value rec runs h same in
        subst (λ r. is_expired cfg now r.run ≡ false) here
          (first (ap (λ r. is_terminal r) here ∙ t))
    | inr other ↦ later id rec (tail_found id stored value rec runs h other) t
  ]

  sweep-Settled :
      (cfg : LifecycleConfig) (now : ℕ) (runs : Dict (RunRecord k))
      → Settled cfg now (sweep cfg now runs)
  unfolding sweep lookup
  sweep-Settled cfg now [] = λ id rec h t. absurd (cc)
  sweep-Settled cfg now ((stored, value) ∷ runs) =
      let later = sweep-Settled cfg now runs in
      if_elim (Settled cfg now) (is_terminal value)
        (λ ended.
          if_elim (Settled cfg now) (is_expired cfg now value.run) (λ _. later)
            (λ fresh.
              cons-Settled cfg now stored (finalize_run_storage cfg value) _
                (λ _. ap (is_expired cfg now) (finalize_run_storage-run cfg value) ∙ fresh) later))
        (λ live. cons-Settled cfg now stored value _ (λ t. absurd (cc)) later)

  evict-Settled :
      (cfg : LifecycleConfig) (now max : ℕ) (terminal : List TerminalRun)
      (runs : Dict (RunRecord k))
      → Settled cfg now runs
      → Settled cfg now (evict max terminal runs)
  unfolding evict
  evict-Settled cfg now max [] runs a = a
  evict-Settled cfg now max (first ∷ terminal) runs a =
      if_elim (Settled cfg now) (ltb max (length (first ∷ terminal)))
        (λ _.
          evict-Settled cfg now max terminal (delete first.id runs)
            λ id rec h t. a id rec (delete_found first.id id rec runs h).1 t)
        (λ _. a)

  left-Settled :
      (sort_evictable : List TerminalRun → List TerminalRun) (s : RunStore k) (now : ℕ)
      → Settled s.lifecycle now (cleanup_now sort_evictable s now).runs
  unfolding cleanup_now
  left-Settled sort_evictable s now =
      let runs = sweep s.lifecycle now s.runs in
      let terminal = terminal_runs runs in
      let max = s.lifecycle.max_terminal_runs in
      let all = sweep-Settled s.lifecycle now s.runs in
      if_elim (Settled s.lifecycle now) (max == 0 || leb (length terminal) max) (λ _. all)
        (λ _. evict-Settled s.lifecycle now max (sort_evictable terminal) runs all)

  -- With a time to live of `ttl` whole milliseconds, a run that has not expired ended less than `ttl`
  -- milliseconds ago, or was created less than `ttl` milliseconds ago and has no time of its end.
  not_expired :
      (cfg : LifecycleConfig) (now ttl : ℕ) (run : Run k)
      → 1 ≤ cfg.ttl
      → ttl * 1000000 ≤ cfg.ttl
      → cfg.ttl < suc ttl * 1000000
      → is_expired cfg now run ≡ false
      → ((1 ≤ run.ended_at) × (now < run.ended_at + ttl))
        ⊎ ((run.ended_at ≡ 0) × (now < run.created_at + ttl))
  not_expired cfg now ttl run on low high fresh =
      let whole : cfg.ttl / 1000000 ≡ ttl = omega (arith, low, high) in
      elim (Bool-cases (run.ended_at == 0)) [
        | inl unended ↦ inr (ground (arith, whole), ground (arith, whole))
        | inr ended ↦ inl (ground (arith, whole), ground (arith, whole))
      ]

  -- With a time to live that is on, of `ttl` whole milliseconds, every terminal run that a cleanup
  -- leaves ended less than `ttl` milliseconds ago, or was created less than `ttl` milliseconds ago and has
  -- no time of its end.
  pub cleanup_now-Settled :
      (sort_evictable : List TerminalRun → List TerminalRun) (s : RunStore k) (now ttl : ℕ)
      (id : String) (rec : RunRecord k)
      → 1 ≤ s.lifecycle.ttl
      → ttl * 1000000 ≤ s.lifecycle.ttl
      → s.lifecycle.ttl < suc ttl * 1000000
      → lookup id (cleanup_now sort_evictable s now).runs ≡ some rec
      → is_terminal rec ≡ true
      → ((1 ≤ rec.run.ended_at) × (now < rec.run.ended_at + ttl))
        ⊎ ((rec.run.ended_at ≡ 0) × (now < rec.run.created_at + ttl))
  cleanup_now-Settled sort_evictable s now ttl id rec on low high h ended =
      not_expired s.lifecycle now ttl rec.run on low high
        (left-Settled sort_evictable s now id rec h ended)

  -- A run that is not terminal stays, with all that the store has of it.
  sweep-live :
      (cfg : LifecycleConfig) (now : ℕ) (runs : Dict (RunRecord k)) (id : String)
      (rec : RunRecord k)
      → is_terminal rec ≡ false
      → lookup id runs ≡ some rec
      → lookup id (sweep cfg now runs) ≡ some rec
  unfolding sweep lookup
  sweep-live cfg now [] id rec live h = absurd (cc)
  sweep-live cfg now ((stored, value) ∷ runs) id rec live h =
      let found : Dict (RunRecord k) → Type 0 = λ d. lookup id d ≡ some rec in
      elim (Bool-cases (id =ₛ stored)) [
        | inl same ↦
            let here : value ≡ rec = head_found id stored value rec runs h same in
            if_elim found (is_terminal value)
              (λ ended. let also = ap (λ r. is_terminal r) here in absurd (cc))
              (λ _. found_here id stored value rec _ same here)
        | inr other ↦
            let later =
              sweep-live cfg now runs id rec live (tail_found id stored value rec runs h other) in
            if_elim found (is_terminal value)
              (λ _.
                if_elim found (is_expired cfg now value.run) (λ _. later)
                  (λ _. found_later id stored _ rec _ other later))
              (λ _. found_later id stored value rec _ other later)
      ]

  -- No run with the id is terminal.
  abbrev LiveAt : String → Dict (RunRecord k) → Type 0
  LiveAt id [] = Unit {0}
  LiveAt id ((stored, value) ∷ runs) =
      (id =ₛ stored ≡ true → is_terminal value ≡ false) × LiveAt id runs

  missing-LiveAt :
      (id : String) (runs : Dict (RunRecord k)) → lookup id runs ≡ none → LiveAt id runs
  unfolding lookup
  missing-LiveAt id [] h = tt
  missing-LiveAt id ((stored, value) ∷ runs) h = (
    (λ same. absurd (missing_here id stored value runs h same)),
    missing-LiveAt id runs (missing_later id stored value runs h),
  )

  unique-LiveAt :
      (id : String) (rec : RunRecord k) (runs : Dict (RunRecord k))
      → IsUnique runs
      → lookup id runs ≡ some rec
      → is_terminal rec ≡ false
      → LiveAt id runs
  unfolding lookup
  unique-LiveAt id rec [] u h live = tt
  unique-LiveAt id rec ((stored, value) ∷ runs) u h live = elim (Bool-cases (id =ₛ stored)) [
    | inl same ↦
        let here : value ≡ rec = head_found id stored value rec runs h same in
        let key : stored ≡ id = ground (arith, eq_iff id stored) in
        (
          (λ _. ap (λ r. is_terminal r) here ∙ live),
          missing-LiveAt id runs (subst (λ key. lookup key runs ≡ none) key u.0),
        )
    | inr other ↦ (
      (λ same. absurd (cc)),
      unique-LiveAt id rec runs u.1 (tail_found id stored value rec runs h other) live,
    )
  ]

  sweep-LiveAt :
      (cfg : LifecycleConfig) (now : ℕ) (id : String) (runs : Dict (RunRecord k))
      → LiveAt id runs
      → LiveAt id (sweep cfg now runs)
  unfolding sweep
  sweep-LiveAt cfg now id [] l = tt
  sweep-LiveAt cfg now id ((stored, value) ∷ runs) l =
      let later = sweep-LiveAt cfg now id runs l.1 in
      if_elim (LiveAt id) (is_terminal value)
        (λ _.
          if_elim (LiveAt id) (is_expired cfg now value.run) (λ _. later)
            (λ _. (
              (λ same.
                  ap (λ r. is_terminal_status r.status) (finalize_run_storage-run cfg value)
                  ∙ l.0 same),
              later,
            )))
        (λ _. (l.0, later))

  LiveAt-terminal_runs :
      (id : String) (runs : Dict (RunRecord k))
      → LiveAt id runs
      → contains id (ids (terminal_runs runs)) ≡ false
  unfolding terminal_runs
  LiveAt-terminal_runs id [] l = refl
  LiveAt-terminal_runs id ((stored, value) ∷ runs) l =
      let later = LiveAt-terminal_runs id runs l.1 in
      if_elim (λ (ts : List TerminalRun). contains id (ids ts) ≡ false) (is_terminal value)
        (λ ended. not_or (id =ₛ stored) _ (λ same. let live = l.0 same in absurd (cc)) later)
        (λ _. later)

  evict-live :
      (max : ℕ) (terminal : List TerminalRun) (runs : Dict (RunRecord k)) (id : String)
      → contains id (ids terminal) ≡ false
      → lookup id (evict max terminal runs) ≡ lookup id runs
  unfolding evict
  evict-live max [] runs id h = refl
  evict-live max (first ∷ terminal) runs id h =
      if_elim (λ (d : Dict (RunRecord k)). lookup id d ≡ lookup id runs)
        (ltb max (length (first ∷ terminal)))
        (λ _.
          evict-live max terminal (delete first.id runs) id (or_false (id =ₛ first.id) _ h)
          ∙ kept_by_delete first.id id runs (not_same id first.id _ h))
        (λ _. refl)

  module _ (sort_evictable : List TerminalRun → List TerminalRun)
      (permutes : (ts : List TerminalRun) → Perm (sort_evictable ts) ts) where
    -- A run that is not terminal is left by a cleanup with all that the store has of it, where no id
    -- stands twice in the store.
    pub cleanup_now-live :
        (s : RunStore k) (now : ℕ) (id : String) (rec : RunRecord k)
        → IsUnique s.runs
        → is_terminal rec ≡ false
        → lookup id s.runs ≡ some rec
        → lookup id (cleanup_now sort_evictable s now).runs ≡ some rec
    unfolding cleanup_now
    cleanup_now-live s now id rec unique live h =
        let runs = sweep s.lifecycle now s.runs in
        let terminal = terminal_runs runs in
        let max = s.lifecycle.max_terminal_runs in
        let swept : lookup id runs ≡ some rec = sweep-live s.lifecycle now s.runs id rec live h in
        let absent : contains id (ids terminal) ≡ false =
          LiveAt-terminal_runs id runs
            (sweep-LiveAt s.lifecycle now id s.runs (unique-LiveAt id rec s.runs unique h live)) in
        if_elim (λ (d : Dict (RunRecord k)). lookup id d ≡ some rec)
          (max == 0 || leb (length terminal) max) (λ _. swept)
          (λ _.
            evict-live max (sort_evictable terminal) runs id
              (Perm-contains id (permutes terminal) ∙ absent)
            ∙ swept)
