-- ===== src/RunStore/Record.antt =====
-- What internal/simd/runstore.go keeps of a run, and the settings of the store. The protobuf messages
-- of gen/go/simulation/v1 that the store only clones and passes on are types of `Kinds`; times are
-- milliseconds, 0 where the source has no time yet.
use simulation_core.Base.{ℕ, Bool, true, false, String, List, Option, none, some, if◌then◌else◌}
use simulation_core.Base.Int.{ℤ, pos, ltb_ℤ, pos_part}

pub record Kinds : Type 1 where
  pub Input : Type 0
  pub Metrics : Type 0
  pub Collector : Type 0
  pub Step : Type 0
  pub Config : Type 0
  pub Score : Type 0

-- RunStatus of the protocol.
pub data RunStatus : Type 0 where
  unspecified pending running completed failed cancelled stopped : RunStatus

abbrev pub is_terminal_status : RunStatus → Bool
is_terminal_status completed = true
is_terminal_status failed = true
is_terminal_status cancelled = true
is_terminal_status stopped = true
is_terminal_status _ = false

abbrev pub is_running : RunStatus → Bool
is_running running = true
is_running _ = false

abbrev pub same_status : RunStatus → RunStatus → Bool
same_status unspecified unspecified = true
same_status pending pending = true
same_status running running = true
same_status completed completed = true
same_status failed failed = true
same_status cancelled cancelled = true
same_status stopped stopped = true
same_status _ _ = false

pub record Run (k : Kinds) : Type 0 where
  pub id : String
  pub status : RunStatus
  pub created_at : ℕ
  pub started_at : ℕ
  pub ended_at : ℕ
  pub error : String
  pub online_completion_reason : String
  pub best_run_id : String
  pub best_score : Option k.Score
  pub iterations : ℤ
  pub candidate_run_ids : List String
  pub batch_recommendation_feasible : Bool
  pub batch_violation_score : Option k.Score
  pub batch_efficiency_score : Option k.Score
  pub batch_recommendation_summary : String

pub record RunRecord (k : Kinds) : Type 0 where
  pub run : Run k
  pub input : Option k.Input
  pub metrics : Option k.Metrics
  pub collector : Option k.Collector
  pub is_optimization_child : Bool
  pub optimization_history : List k.Step
  pub final_config : Option k.Config

-- Durations are nanoseconds; a number that is 0 sets no limit.
pub record LifecycleConfig : Type 0 where
  pub ttl : ℕ
  pub cleanup_interval : ℕ
  pub max_terminal_runs : ℕ
  pub max_optimization_candidates : ℕ
  pub keep_collector_after_completion : Bool
  pub keep_candidate_input_after_cleanup : Bool

abbrev pub default_lifecycle_config : LifecycleConfig
default_lifecycle_config = record {
  ttl = 1800000000000;
  cleanup_interval = 60000000000;
  max_terminal_runs = 500;
  max_optimization_candidates = 200;
  keep_collector_after_completion = false;
  keep_candidate_input_after_cleanup = false;
}

-- `if d, ok := …; ok && d > 0 { … }`
abbrev pub or_positive : ℕ → Option ℤ → ℕ
or_positive default none = default
or_positive default (some n) = if ltb_ℤ (pos 0) n then pos_part n else default

abbrev pub or_bool : Bool → Option Bool → Bool
or_bool default none = default
or_bool default (some b) = b

-- The arguments are what the environment variables parse to, none where they do not.
abbrev pub lifecycle_config_from_env :
    (durations ints : String → Option ℤ) → (bools : String → Option Bool) → LifecycleConfig
lifecycle_config_from_env durations ints bools =
    let d = default_lifecycle_config in
    record {
      ttl = or_positive d.ttl (durations "SIMD_RUNSTORE_TTL");
      cleanup_interval =
          or_positive d.cleanup_interval (durations "SIMD_RUNSTORE_CLEANUP_INTERVAL");
      max_terminal_runs = or_positive d.max_terminal_runs (ints "SIMD_RUNSTORE_MAX_TERMINAL_RUNS");
      max_optimization_candidates =
          or_positive
            (or_positive d.max_optimization_candidates
              (ints "SIMD_OPTIMIZATION_MAX_RETAINED_CANDIDATES"))
            (ints "SIMD_RUNSTORE_MAX_OPTIMIZATION_CANDIDATES");
      keep_collector_after_completion =
          or_bool d.keep_collector_after_completion
            (bools "SIMD_RUNSTORE_KEEP_COLLECTOR_AFTER_COMPLETION");
      keep_candidate_input_after_cleanup = d.keep_candidate_input_after_cleanup;
    }
