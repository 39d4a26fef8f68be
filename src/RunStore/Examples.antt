-- ===== src/RunStore/Examples.antt =====
-- The theorems about the run store at concrete inputs.
use simulation_core.Base.{
  ℕ, ◌+◌, ◌≤◌, ◌<◌, ◌⊎◌, ◌≡◌, refl, Bool, true, false, String, List, [], ◌∷◌, none, some, inl,
  length, arith,
}
use simulation_core.Base.Dict.{lookup}
use simulation_core.Base.Dict.Count.{count_values}
use simulation_core.RunStore.Record.{
  Kinds, RunStatus, running, completed, pending, RunRecord, LifecycleConfig,
}
use simulation_core.RunStore.{RunStore, StoreDeps, finalize_run_storage}
use simulation_core.RunStore.Start.{new_record, count_running_online}
use simulation_core.RunStore.Start.Limit.{starts, step, step-count}
use simulation_core.RunStore.Retention.{TerminalRun, cleanup_now, terminal_runs, sweep}
use simulation_core.RunStore.Retention.Kept.{Among, cleanup_now-Among}
use simulation_core.RunStore.Retention.Live.{cleanup_now-Settled, cleanup_now-live}
use mathlib.Core.List.Perm

-- An input is whether the run is online.
abbrev kinds : Kinds
kinds = record { Input = Bool; Metrics = ℕ; Collector = ℕ; Step = ℕ; Config = ℕ; Score = ℕ }

abbrev deps : StoreDeps kinds
deps = record {
  is_online = λ online. online;
  validate_batch = λ input. none;
  prepare_online = λ input. inl input;
  has_separator = λ id. false;
  has_child_prefix = λ id. false;
}

abbrev config : LifecycleConfig
config = record {
  ttl = 5000000;
  cleanup_interval = 60000000000;
  max_terminal_runs = 1;
  max_optimization_candidates = 2;
  keep_collector_after_completion = false;
  keep_candidate_input_after_cleanup = false;
}

abbrev record_of : String → RunStatus → ℕ → RunRecord kinds
record_of id status ended =
    let rec : RunRecord kinds = new_record {k = kinds} id 1 false (some true) in
    record rec { run = record rec.run { status = status; ended_at = ended } }

abbrev store : RunStore kinds
store = record {
  runs =
      ("a", record_of "a" completed 2)
      ∷ ("b", record_of "b" running 0)
      ∷ ("c", record_of "c" completed 8)
      ∷ ("d", record_of "d" pending 0)
      ∷ [];
  max_concurrent_online_runs = 1;
  lifecycle = config;
}

abbrev unsorted : List TerminalRun → List TerminalRun
unsorted ts = ts

step-count_example : count_running_online deps (step deps store (starts "d" 9)) ≤ 1
unfolding count_values
step-count_example = step-count deps store (starts "d" 9) 1 refl (omega arith) (omega arith)

cleanup_now-Among_example :
    (kept : List String) × (length kept ≤ 1) × Among kept (cleanup_now unsorted store 9).runs
cleanup_now-Among_example =
    cleanup_now-Among unsorted (λ ts. Perm.refl ts) store 9 1 refl (omega arith)

cleanup_now-Settled_example : ((1 ≤ 8) × (9 < 8 + 5)) ⊎ ((◌≡◌ {A = ℕ} 8 0) × (9 < 1 + 5))
unfolding lookup cleanup_now terminal_runs sweep finalize_run_storage
cleanup_now-Settled_example =
    cleanup_now-Settled unsorted store 9 5 "c" (record_of "c" completed 8) (omega arith)
      (omega arith) (omega arith) refl refl

cleanup_now-live_example :
    lookup "b" (cleanup_now unsorted store 9).runs ≡ some (record_of "b" running 0)
unfolding lookup
cleanup_now-live_example =
    cleanup_now-live unsorted (λ ts. Perm.refl ts) store 9 "b" (record_of "b" running 0)
      (refl, (refl, (refl, (refl, tt)))) refl refl
