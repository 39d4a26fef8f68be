-- ===== src/RunStore/Retention/Kept.antt =====
-- What a cleanup of the store keeps.
use mathlib.Core.List.{Perm, Permᴰ}
use mathlib.Core.Logic.{∥∥₁_elim}
use mathlib.Core.Bool.{Bool-set}
use simulation_core.Base.{
  ℕ, suc, ◌≤◌, ◌≡◌, refl, ap, ◌∙◌, Bool, true, false, String, List, [], ◌∷◌, some, inl, inr, ◌||◌,
  ◌=ₛ◌, ◌==◌, if_elim, ltb, leb, length, arith, Bool-cases, eq_iff,
}
use simulation_core.Base.Dict.{head_found, tail_found, delete_found, Dict, lookup, delete}
use simulation_core.RunStore.Record.{Kinds, is_terminal_status, RunRecord}
use simulation_core.RunStore.{RunStore}
use simulation_core.RunStore.Retention.{
  TerminalRun, contains, sweep, terminal_runs, evict, cleanup_now,
}

abbrev pub ids : List TerminalRun → List String
ids [] = []
ids (t ∷ ts) = t.id ∷ ids ts

or_swap : (p q r : Bool) → (p || (q || r)) ≡ (q || (p || r))
or_swap p q r = ground arith

or_left : (p q : Bool) → p ≡ true → (p || q) ≡ true
or_left p q h = ground arith

or_right : (p q : Bool) → q ≡ true → (p || q) ≡ true
or_right p q h = ground arith

Permᴰ-contains :
    {xs ys : List TerminalRun} (id : String)
    → Permᴰ xs ys
    → contains id (ids xs) ≡ contains id (ids ys)
Permᴰ-contains id Permᴰ.nil = refl
Permᴰ-contains id (Permᴰ.cons e p) = let rest = Permᴰ-contains id p in cc
Permᴰ-contains id (Permᴰ.swap {a} {b} {a'} {b'} {l} e f) =
    let ea = ap (λ (t : TerminalRun). t.id) e in
    let eb = ap (λ (t : TerminalRun). t.id) f in
    let turned = or_swap (id =ₛ a.id) (id =ₛ b.id) (contains id (ids l)) in cc
Permᴰ-contains id (Permᴰ.trans p q) = Permᴰ-contains id p ∙ Permᴰ-contains id q

pub Perm-contains :
    {xs ys : List TerminalRun} (id : String)
    → Perm xs ys
    → contains id (ids xs) ≡ contains id (ids ys)
Perm-contains id p = ∥∥₁_elim p (Bool-set _ _) (Permᴰ-contains id)

not_first :
    (id first : String) (later : Bool)
    → first =ₛ id ≡ false
    → (id =ₛ first || later) ≡ true
    → later ≡ true
not_first id first later other h = ground (arith, eq_iff id first, eq_iff first id)

few_left : (max m n l : ℕ) → l ≡ n → max ≡ m → 1 ≤ m → (max == 0 || leb n max) ≡ true → l ≤ m
few_left max m n l same q positive few = ground arith

length-ids : (ts : List TerminalRun) → length (ids ts) ≡ length ts
length-ids [] = refl
length-ids (t ∷ ts) = ap suc (length-ids ts)

module _ {k : Kinds} where
  abbrev pub is_terminal : RunRecord k → Bool
  is_terminal rec = is_terminal_status rec.run.status

  -- Every terminal run of the store is among some ids.
  abbrev pub Among : List String → Dict (RunRecord k) → Type 0
  Among kept runs =
      (id : String) (rec : RunRecord k)
      → lookup id runs ≡ some rec
      → is_terminal rec ≡ true
      → contains id kept ≡ true

  terminal_runs-Among : (runs : Dict (RunRecord k)) → Among (ids (terminal_runs runs)) runs
  unfolding terminal_runs lookup
  terminal_runs-Among [] id rec h t = absurd (cc)
  terminal_runs-Among ((stored, value) ∷ runs) id rec h t =
      let listed : List TerminalRun → Type 0 = λ l. contains id (ids l) ≡ true in
      elim (Bool-cases (id =ₛ stored)) [
        | inl same ↦
            let here : value ≡ rec = head_found id stored value rec runs h same in
            if_elim listed (is_terminal value) (λ _. or_left (id =ₛ stored) _ same)
              (λ live. let also = ap (λ r. is_terminal r) here in absurd (cc))
        | inr other ↦
            let later =
              terminal_runs-Among runs id rec (tail_found id stored value rec runs h other) t in
            if_elim listed (is_terminal value) (λ _. or_right (id =ₛ stored) _ later) (λ _. later)
      ]

  evict-Among :
      (max : ℕ) (terminal : List TerminalRun) (runs : Dict (RunRecord k))
      → Among (ids terminal) runs
      → (kept : List String) × (length kept ≤ max) × Among kept (evict max terminal runs)
  unfolding evict
  evict-Among max [] runs a = ([], omega arith, a)
  evict-Among max (first ∷ terminal) runs a =
      elim (Bool-cases (ltb max (length (first ∷ terminal)))) [
        | inl over ↦
            let left : Among (ids terminal) (delete first.id runs) = λ id rec h t.
              let still = delete_found first.id id rec runs h in
              not_first id first.id (contains id (ids terminal)) still.0 (a id rec still.1 t) in
            rw over (evict-Among max terminal (delete first.id runs) left)
        | inr fits ↦
            let few : length (first ∷ terminal) ≤ max = ground arith in
            rw fits (ids (first ∷ terminal), omega (arith, few, length-ids terminal), a)
      ]

  module _ (sort_evictable : List TerminalRun → List TerminalRun)
      (permutes : (ts : List TerminalRun) → Perm (sort_evictable ts) ts) where
    -- After a cleanup with a limit m > 0 on terminal runs, all terminal runs of the store are among at
    -- most m ids.
    pub cleanup_now-Among :
        (s : RunStore k) (now m : ℕ)
        → s.lifecycle.max_terminal_runs ≡ m
        → 1 ≤ m
        → (kept : List String) × (length kept ≤ m)
          × Among kept (cleanup_now sort_evictable s now).runs
    unfolding cleanup_now
    cleanup_now-Among s now m q positive =
        let runs = sweep s.lifecycle now s.runs in
        let terminal = terminal_runs runs in
        let max = s.lifecycle.max_terminal_runs in
        let all = terminal_runs-Among runs in
        if_elim
          (λ (d : Dict (RunRecord k)). (kept : List String) × (length kept ≤ m) × Among kept d)
          (max == 0 || leb (length terminal) max)
          (λ few. (
            ids terminal,
            few_left max m (length terminal) _ (length-ids terminal) q positive few,
            all,
          ))
          (λ _.
            let sorted : Among (ids (sort_evictable terminal)) runs =
              λ id rec h t. Perm-contains id (permutes terminal) ∙ all id rec h t in
            let left = evict-Among max (sort_evictable terminal) runs sorted in
            (left.0, omega (arith, left.1, q), left.2))
