-- ===== src/RunStore.antt =====
-- RunStore of internal/simd/runstore.go. Each method holds the store's lock, so each is one step, and
-- what it returns is a copy, a value here. Go maps are association lists. The clock is an argument.
pub mod Record
pub mod Frame
pub mod Start
pub mod Listing
pub mod Retention
pub mod Online
mod Examples
use simulation_core.Base.{
  ℕ, suc, ◌+◌, ◌*◌, ◌/◌, Bool, true, false, String, List, [], ◌∷◌, ◌++◌, Option, none, some, ◌&&◌,
  ◌||◌, not, ◌=ₛ◌, ◌==◌, if◌then◌else◌, ltb, leb, length, ◌⊎◌,
}
use simulation_core.Base.Int.{ℤ, pos, pos_part, leb_ℤ, ltb_ℤ}
use simulation_core.Base.Dict.{Dict, lookup, insert, delete}
use simulation_core.RunStore.Record.{
  Kinds, RunStatus, unspecified, pending, running, completed, failed, cancelled, stopped,
  is_terminal_status, is_running, same_status, Run, RunRecord, LifecycleConfig,
}

-- `max_concurrent_online_runs` of the online limits; 0 sets no limit.
pub record RunStore (k : Kinds) : Type 0 where
  pub runs : Dict (RunRecord k)
  pub max_concurrent_online_runs : ℕ
  pub lifecycle : LifecycleConfig

pub data StoreError : Type 0 where
  run_not_found : String → StoreError
  run_terminal : String → StoreError
  online_run_concurrency_limit : ℕ → StoreError
  run_exists : String → StoreError
  invalid_run_id : String → StoreError
  invalid_input : String → StoreError

pub data Result (A : Type 0) : Type 0 where
  ok : A → Result A
  err : StoreError → Result A

-- What a store calls: config and batchspec for `validate_batch`, RunStore/Online, on the optimization of an
-- input, for `prepare_online`, and the tests of strings on ids.
pub record StoreDeps (k : Kinds) : Type 0 where
  pub is_online : k.Input → Bool
  pub validate_batch : Option k.Input → Option String
  pub prepare_online : Option k.Input → Option k.Input ⊎ String
  pub has_separator : String → Bool
  pub has_child_prefix : String → Bool

pub record Counts : Type 0 where
  pub active : ℕ
  pub completed_retained : ℕ
  pub failed_retained : ℕ
  pub cancelled_retained : ℕ
  pub optimization_candidates : ℕ

abbrev pub no_counts : Counts
no_counts = record {
  active = 0;
  completed_retained = 0;
  failed_retained = 0;
  cancelled_retained = 0;
  optimization_candidates = 0;
}

abbrev pub count_status : RunStatus → Counts → Counts
count_status running c = record c { active = suc c.active }
count_status pending c = record c { active = suc c.active }
count_status completed c = record c { completed_retained = suc c.completed_retained }
count_status failed c = record c { failed_retained = suc c.failed_retained }
count_status cancelled c = record c { cancelled_retained = suc c.cancelled_retained }
count_status stopped c = record c { cancelled_retained = suc c.cancelled_retained }
count_status unspecified c = c

abbrev pub count_child : Bool → Counts → Counts
count_child true c = record c { optimization_candidates = suc c.optimization_candidates }
count_child false c = c

module _ {k : Kinds} where
  abbrev pub new_run_store : ℕ → LifecycleConfig → RunStore k
  new_run_store online lifecycle = record {
    runs = [];
    max_concurrent_online_runs = online;
    lifecycle = lifecycle;
  }

  abbrev pub set_online_limits : RunStore k → ℕ → RunStore k
  set_online_limits s online = record s { max_concurrent_online_runs = online }

  abbrev pub counts_of : Dict (RunRecord k) → Counts
  counts_of [] = no_counts
  counts_of ((id, rec) ∷ runs) =
      count_child rec.is_optimization_child (count_status rec.run.status (counts_of runs))

  abbrev pub counts : RunStore k → Counts
  counts s = counts_of s.runs

  abbrev pub get : RunStore k → String → Option (RunRecord k)
  get s id = lookup id s.runs

  abbrev pub put : RunStore k → String → RunRecord k → RunStore k
  put s id rec = record s { runs = insert id rec s.runs }

  -- The shape of the methods that change one run: an error where there is none.
  abbrev pub change_found :
      RunStore k
      → String
      → (RunRecord k → RunRecord k)
      → Option (RunRecord k)
      → Result (RunRecord k) × RunStore k
  change_found s id change none = (err (run_not_found id), s)
  change_found s id change (some rec) = (ok (change rec), put s id (change rec))

  abbrev pub change :
      RunStore k → String → (RunRecord k → RunRecord k) → Result (RunRecord k) × RunStore k
  change s id f = change_found s id f (lookup id s.runs)

  -- The collector goes unless it is to be kept.
  abbrev pub without_collector : Bool → RunRecord k → RunRecord k
  without_collector true rec = rec
  without_collector false rec = record rec { collector = none }

  abbrev pub without_candidate_data : Bool → RunRecord k → RunRecord k
  without_candidate_data true rec = record rec {
    input = none;
    optimization_history = [];
    final_config = none;
  }
  without_candidate_data false rec = rec

  unfoldable pub finalize_run_storage : LifecycleConfig → RunRecord k → RunRecord k
  finalize_run_storage cfg rec =
      let rest = without_collector cfg.keep_collector_after_completion rec in
      without_candidate_data
        (rec.is_optimization_child && not cfg.keep_candidate_input_after_cleanup) rest

  abbrev pub started : ℕ → Run k → Run k
  started now run = record run {
    status = running;
    started_at = if run.started_at == 0 then now else run.started_at;
  }

  abbrev pub set_error : String → Run k → Run k
  set_error message run = record run { error = if message =ₛ "" then run.error else message }

  abbrev pub with_status : LifecycleConfig → ℕ → RunStatus → RunRecord k → RunRecord k
  with_status cfg now running rec = record rec { run = started now rec.run }
  with_status cfg now unspecified rec = record rec { run = record rec.run { status = unspecified } }
  with_status cfg now pending rec = record rec { run = record rec.run { status = pending } }
  with_status cfg now completed rec =
      finalize_run_storage cfg
        (record rec { run = record rec.run { status = completed; ended_at = now } })
  with_status cfg now failed rec =
      finalize_run_storage cfg
        (record rec { run = record rec.run { status = failed; ended_at = now } })
  with_status cfg now cancelled rec =
      finalize_run_storage cfg
        (record rec { run = record rec.run { status = cancelled; ended_at = now } })
  with_status cfg now stopped rec =
      finalize_run_storage cfg
        (record rec { run = record rec.run { status = stopped; ended_at = now } })

  unfoldable pub set_status :
      RunStore k → String → RunStatus → String → ℕ → Result (RunRecord k) × RunStore k
  set_status s id status message now =
      change s id
        (λ rec. with_status s.lifecycle now status (record rec { run = set_error message rec.run }))

  abbrev pub set_online_completion_reason :
      RunStore k → String → String → Result (RunRecord k) × RunStore k
  set_online_completion_reason s id reason =
      change s id (λ rec. record rec { run = record rec.run { online_completion_reason = reason } })

  abbrev pub set_metrics :
      RunStore k → String → Option k.Metrics → Result (RunRecord k) × RunStore k
  set_metrics s id metrics = change s id (λ rec. record rec { metrics = metrics })

  abbrev pub set_final_configuration :
      RunStore k → String → Option k.Config → Result (RunRecord k) × RunStore k
  set_final_configuration s id config = change s id (λ rec. record rec { final_config = config })

  abbrev pub set_batch_recommendation :
      RunStore k → String → Bool → k.Score → k.Score → String → Result (RunRecord k) × RunStore k
  set_batch_recommendation s id feasible violation efficiency summary = change s id (λ rec.
      record rec {
        run = record rec.run {
          batch_recommendation_feasible = feasible;
          batch_violation_score = some violation;
          batch_efficiency_score = some efficiency;
          batch_recommendation_summary = summary;
        };
      })

  abbrev pub set_optimization_progress :
      RunStore k → String → ℤ → k.Score → Result (RunRecord k) × RunStore k
  set_optimization_progress s id iteration score = change s id (λ rec. record rec {
    run = record rec.run { iterations = iteration; best_score = some score };
  })

  abbrev pub set_collector :
      RunStore k → String → Option k.Collector → Result (RunRecord k) × RunStore k
  set_collector s id collector = change s id (λ rec. record rec { collector = collector })

  abbrev pub collector_of : Option (RunRecord k) → Option k.Collector
  collector_of none = none
  collector_of (some rec) = rec.collector

  abbrev pub get_collector : RunStore k → String → Option k.Collector
  get_collector s id = collector_of (lookup id s.runs)

  abbrev pub append_optimization_step :
      RunStore k → String → k.Step → Result (RunRecord k) × RunStore k
  append_optimization_step s id step =
      change s id
        (λ rec. record rec { optimization_history = rec.optimization_history ++ step ∷ [] })

  abbrev pub history_count_of : Option (RunRecord k) → ℕ
  history_count_of none = 0
  history_count_of (some rec) = length rec.optimization_history

  abbrev pub optimization_history_count : RunStore k → String → ℕ
  optimization_history_count s id = history_count_of (lookup id s.runs)
