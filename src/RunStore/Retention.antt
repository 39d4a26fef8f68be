-- ===== src/RunStore/Retention.antt =====
-- CleanupNow, TrimOptimizationCandidates and SetOptimizationResult of internal/simd/runstore.go.
-- Deleting from a map while ranging over it is leaving the entry out. `sort_evictable` stands for
-- sort.Slice with the children first and then the runs that ended first.
pub mod Kept
pub mod Live
use simulation_core.Base.{
  ℕ, zero, suc, ◌+◌, ◌/◌, Bool, true, false, String, List, [], ◌∷◌, ◌++◌, Option, none, some, ◌&&◌,
  ◌||◌, not, ◌=ₛ◌, ◌==◌, if◌then◌else◌, ltb, leb, length,
}
use simulation_core.Base.Int.{ℤ}
use simulation_core.Base.Dict.{Dict, lookup, insert, delete}
use simulation_core.RunStore.Record.{Kinds, is_terminal_status, Run, RunRecord, LifecycleConfig}
use simulation_core.RunStore.{RunStore, Result, change, finalize_run_storage}
use simulation_core.RunStore.Listing.{take}

-- A terminal run that a cleanup may evict.
pub record TerminalRun : Type 0 where
  pub id : String
  pub ended : ℕ
  pub child : Bool

abbrev pub capped : ℕ → List String → List String
capped max ids = if ltb 0 max && ltb max (length ids) then take max ids else ids

abbrev pub capped_or_none : ℕ → Option (List String) → List String
capped_or_none max none = []
capped_or_none max (some ids) = capped max ids

-- Go's set `keep`: the best run and the candidates up to the limit, without empty ids.
abbrev pub without_empty : List String → List String
without_empty [] = []
without_empty (id ∷ ids) = let rest = without_empty ids in if id =ₛ "" then rest else id ∷ rest

abbrev pub first_candidates : ℕ → List String → List String
first_candidates max ids = without_empty (if ltb 0 max then take max ids else ids)

abbrev pub contains : String → List String → Bool
contains id [] = false
contains id (kept ∷ ids) = id =ₛ kept || contains id ids

module _ {k : Kinds} where
  abbrev pub ended_of : Run k → ℕ
  ended_of run = if run.ended_at == 0 then run.created_at else run.ended_at

  -- A duration in nanoseconds is compared in whole milliseconds.
  abbrev pub is_expired : LifecycleConfig → ℕ → Run k → Bool
  is_expired cfg now run = ltb 0 cfg.ttl && leb (ended_of run + cfg.ttl / 1000000) now

  -- The first loop: terminal runs are finalized, or left out where their time is over.
  unfoldable pub sweep : LifecycleConfig → ℕ → Dict (RunRecord k) → Dict (RunRecord k)
  sweep cfg now [] = []
  sweep cfg now ((id, rec) ∷ runs) =
      let rest = sweep cfg now runs in
      if is_terminal_status rec.run.status
      then (if is_expired cfg now rec.run then rest else (id, finalize_run_storage cfg rec) ∷ rest)
      else (id, rec) ∷ rest

  unfoldable pub terminal_runs : Dict (RunRecord k) → List TerminalRun
  terminal_runs [] = []
  terminal_runs ((id, rec) ∷ runs) =
      let rest = terminal_runs runs in
      if is_terminal_status rec.run.status
      then (record { id = id; ended = ended_of rec.run; child = rec.is_optimization_child }) ∷ rest
      else rest

  -- The second loop: the first in order go until no more than the limit are left.
  unfoldable pub evict : ℕ → List TerminalRun → Dict (RunRecord k) → Dict (RunRecord k)
  evict max [] runs = runs
  evict max (first ∷ terminal) runs =
      let fewer = evict max terminal (delete first.id runs) in
      if ltb max (length (first ∷ terminal)) then fewer else runs

  abbrev pub evict_over :
      (List TerminalRun → List TerminalRun) → ℕ → Dict (RunRecord k) → Dict (RunRecord k)
  evict_over sort_evictable max runs =
      let terminal = terminal_runs runs in
      if max == 0 || leb (length terminal) max
      then runs
      else evict max (sort_evictable terminal) runs

  unfoldable pub cleanup_now : (List TerminalRun → List TerminalRun) → RunStore k → ℕ → RunStore k
  cleanup_now sort_evictable s now = record s {
    runs = evict_over sort_evictable s.lifecycle.max_terminal_runs (sweep s.lifecycle now s.runs);
  }

  unfoldable pub set_optimization_result :
      RunStore k
      → String
      → String
      → k.Score
      → ℤ
      → Option (List String)
      → Result (RunRecord k) × RunStore k
  set_optimization_result s id best score iterations candidates = change s id (λ rec. record rec {
    run = record rec.run {
      best_run_id = best;
      best_score = some score;
      iterations = iterations;
      candidate_run_ids = capped_or_none s.lifecycle.max_optimization_candidates candidates;
    };
  })

  abbrev pub kept_ids : ℕ → String → Run k → List String
  kept_ids max best parent =
      without_empty (best ∷ []) ++ first_candidates max parent.candidate_run_ids

  -- The loop over all runs: finished children are finalized where they are kept, and left out else.
  unfoldable pub trim : LifecycleConfig → List String → Dict (RunRecord k) → Dict (RunRecord k)
  trim cfg keep [] = []
  trim cfg keep ((id, rec) ∷ runs) =
      let rest = trim cfg keep runs in
      if not rec.is_optimization_child || not (is_terminal_status rec.run.status)
      then (id, rec) ∷ rest
      else if contains id keep
      then (id, finalize_run_storage cfg rec) ∷ rest
      else rest

  abbrev pub trim_by : RunStore k → String → Option (RunRecord k) → RunStore k
  trim_by s best none = s
  trim_by s best (some parent) =
      let keep = kept_ids s.lifecycle.max_optimization_candidates best parent.run in
      record s { runs = trim s.lifecycle keep s.runs }

  unfoldable pub trim_optimization_candidates : RunStore k → String → String → RunStore k
  trim_optimization_candidates s parent best = trim_by s best (lookup parent s.runs)
