-- ===== src/RunStore/Start.antt =====
-- Create and SetStatusRunningWithOnlineConcurrencyGuard of internal/simd/runstore.go.
pub mod Limit
use simulation_core.Base.{
  ℕ, suc, ◌+◌, Bool, true, false, String, List, [], ◌∷◌, Option, none, some, ◌⊎◌, inl, inr, ◌&&◌,
  ◌=ₛ◌, if◌then◌else◌, ltb, leb,
}
use simulation_core.Base.Int.{pos}
use simulation_core.Base.Dict.{Dict, lookup, insert}
use simulation_core.Base.Dict.Count.{count_values}
use simulation_core.RunStore.Record.{
  Kinds, RunStatus, unspecified, pending, running, completed, failed, cancelled, stopped,
  is_running, Run, RunRecord,
}
use simulation_core.RunStore.{
  RunStore, StoreDeps, StoreError, run_not_found, run_terminal, online_run_concurrency_limit,
  run_exists, invalid_run_id, invalid_input, Result, ok, err, put, started,
}

module _ {k : Kinds} where
  -- The Run of a new record.
  abbrev pub new_run : String → ℕ → Run k
  new_run id now = record {
    id = id;
    status = pending;
    created_at = now;
    started_at = 0;
    ended_at = 0;
    error = "";
    online_completion_reason = "";
    best_run_id = "";
    best_score = none;
    iterations = pos 0;
    candidate_run_ids = [];
    batch_recommendation_feasible = false;
    batch_violation_score = none;
    batch_efficiency_score = none;
    batch_recommendation_summary = "";
  }

  abbrev pub new_record : String → ℕ → Bool → Option k.Input → RunRecord k
  new_record id now child input = record {
    run = new_run id now;
    input = input;
    metrics = none;
    collector = none;
    is_optimization_child = child;
    optimization_history = [];
    final_config = none;
  }

  module _ (deps : StoreDeps k) where
    abbrev pub prepared :
        RunStore k → String → ℕ → Option k.Input ⊎ String → Result (RunRecord k) × RunStore k
    prepared s id now (inl input) =
        let rec = new_record id now (deps.has_child_prefix id) input in (ok rec, put s id rec)
    prepared s id now (inr message) = (err (invalid_input message), s)

    abbrev pub create_new :
        RunStore k
        → String
        → Option k.Input
        → ℕ
        → Option (RunRecord k)
        → Result (RunRecord k) × RunStore k
    create_new s id input now (some old) = (err (run_exists id), s)
    create_new s id input now none = prepared s id now (deps.prepare_online input)

    abbrev pub create_valid :
        RunStore k → String → Option k.Input → ℕ → Option String → Result (RunRecord k) × RunStore k
    create_valid s id input now (some message) = (err (invalid_input message), s)
    create_valid s id input now none =
        if deps.has_separator id
        then (err (invalid_run_id id), s)
        else create_new s id input now (lookup id s.runs)

    -- `generated` is the id that GenerateRunID returns.
    unfoldable pub create :
        RunStore k
        → String
        → (generated : String) → Option k.Input
        → ℕ
        → Result (RunRecord k) × RunStore k
    create s id generated input now =
        create_valid s (if id =ₛ "" then generated else id) input now (deps.validate_batch input)

    abbrev pub online_input : Option k.Input → Bool
    online_input none = false
    online_input (some input) = deps.is_online input

    abbrev pub runs_online : RunRecord k → Bool
    runs_online rec = is_running rec.run.status && online_input rec.input

    abbrev pub count_running_online : RunStore k → ℕ
    count_running_online s = count_values runs_online s.runs

    -- The concurrency guard itself: for an online run, and where there is a limit.
    abbrev pub limit_reached : RunStore k → RunRecord k → Bool
    limit_reached s rec =
        online_input rec.input
        && ltb 0 s.max_concurrent_online_runs
        && leb s.max_concurrent_online_runs (count_values runs_online s.runs)

    abbrev pub start_pending :
        RunStore k → String → RunRecord k → ℕ → Result (RunRecord k) × RunStore k
    start_pending s id rec now =
        let begun : RunRecord k = record rec { run = started now rec.run } in
        if limit_reached s rec
        then (err (online_run_concurrency_limit s.max_concurrent_online_runs), s)
        else (ok begun, put s id begun)

    abbrev pub start_by :
        RunStore k → String → RunRecord k → ℕ → RunStatus → Result (RunRecord k) × RunStore k
    start_by s id rec now running = (ok rec, s)
    start_by s id rec now completed = (err (run_terminal id), s)
    start_by s id rec now failed = (err (run_terminal id), s)
    start_by s id rec now cancelled = (err (run_terminal id), s)
    start_by s id rec now stopped = (err (run_terminal id), s)
    start_by s id rec now pending = start_pending s id rec now
    start_by s id rec now unspecified = start_pending s id rec now

    abbrev pub start_found :
        RunStore k → String → ℕ → Option (RunRecord k) → Result (RunRecord k) × RunStore k
    start_found s id now none = (err (run_not_found id), s)
    start_found s id now (some rec) = start_by s id rec now rec.run.status

    unfoldable pub set_status_running_with_online_concurrency_guard :
        RunStore k → String → ℕ → Result (RunRecord k) × RunStore k
    set_status_running_with_online_concurrency_guard s id now =
        start_found s id now (lookup id s.runs)
