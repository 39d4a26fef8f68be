-- ===== src/Engine/RunManager.antt =====
-- RunManager of internal/engine/run.go: the requests, traces and settings of a run. `F` is float64; the
-- percentiles that a report computes from the latencies, and the reports themselves, are left out.
pub mod Bounded
mod Examples
use simulation_core.Base.{
  ℕ, zero, suc, ◌+◌, ◌-◌, ◌*◌, ◌%◌, Bool, true, false, String, List, [], ◌∷◌, ◌++◌, Option, none,
  some, ◌&&◌, ◌||◌, not, ◌=ₛ◌, ◌==◌, if◌then◌else◌, ltb, leb, length,
}
use simulation_core.Base.Int.{ℤ, pos, negsuc, pos_part, ltb_ℤ, leb_ℤ, wrap_64}
use simulation_core.Base.Dict.{Dict, lookup, insert, delete}
use simulation_core.Engine.State.{RunStatus, pending, running, completed, failed}

-- What the manager reads of a request.
pub data RequestStatus : Type 0 where
  waiting processing finished broken : RequestStatus

pub record Request : Type 0 where
  pub id : String
  pub status : RequestStatus
  pub error : String

-- The float64 operations; `infinity` and `minus_infinity` are math.Inf.
pub record LatencyOps (F : Type 0) : Type 0 where
  pub nought : F
  pub one : F
  pub infinity : F
  pub minus_infinity : F
  pub less : F → F → Bool
  pub at_most : F → F → Bool
  pub plus : F → F → F
  pub divide_count : F → ℕ → F

pub record LatencySummary (F : Type 0) : Type 0 where
  pub count : ℕ
  pub sum : F
  pub min : F
  pub max : F
  pub mean : F
  pub reservoir : List F
  pub max_res_size : ℕ
  pub seen_values : ℕ
  pub dirty : Bool

-- `T` is what a trace is, `M` the metrics of a service and `V` a configuration value.
pub record RunManager (F T M V : Type 0) : Type 0 where
  pub id : String
  pub status : RunStatus
  pub start_time : ℕ
  pub end_time : ℕ
  pub error : String
  pub config : Dict V
  pub metadata : Dict String
  pub traces : Dict T
  pub requests : Dict Request
  pub completed_requests : Dict Request
  pub completed_order : List String
  pub service_metrics : Dict M
  pub latency_summary : LatencySummary F
  pub total_requests : ℕ
  pub completed_count : ℕ
  pub failed_count : ℕ
  pub max_active_requests : ℤ
  pub max_total_requests : ℤ
  pub max_completed_keep : ℕ
  pub trace_sampling_rate : F
  pub cancelled : Bool

-- The callback that a refused request invokes, with its arguments.
pub data Report : Type 0 where
  quiet : Report
  total_limit : (count : ℕ) → (max : ℤ) → Report
  active_limit : (count : ℕ) → (max : ℤ) → Report

-- Go's `%` of an int64 and a positive int64.
abbrev pub remainder : ℤ → ℕ → ℤ
remainder (pos a) n = pos (a % n)
remainder (negsuc a) n = let r = suc a % n in if r == 0 then pos 0 else negsuc (r - 1)

module _ {A : Type 0} where
  abbrev pub set_at : ℕ → A → List A → List A
  set_at n a [] = []
  set_at zero a (x ∷ xs) = a ∷ xs
  set_at (suc n) a (x ∷ xs) = x ∷ set_at n a xs

  -- `if idx >= 0 && idx < len(s.reservoir)`
  abbrev pub set_within : ℤ → A → List A → List A
  set_within (pos n) a xs = if ltb n (length xs) then set_at n a xs else xs
  set_within (negsuc n) a xs = xs

-- The first ids go, and their requests, until no more than the limit are kept.
unfoldable pub evict : ℕ → List String → Dict Request → List String × Dict Request
evict keep [] kept = ([], kept)
evict keep (id ∷ ids) kept =
    let fewer = evict keep ids (delete id kept) in
    if ltb keep (length (id ∷ ids)) then fewer else (id ∷ ids, kept)

abbrev pub is_failed : Request → Bool
is_failed r = elim r.status [ broken ↦ true | _ ↦ not (r.error =ₛ "") ]

-- `rm.max > 0 && count >= rm.max`
abbrev pub limit_reached : ℤ → ℕ → Bool
limit_reached max count = ltb_ℤ (pos 0) max && leb_ℤ max (pos count)

module _ {F : Type 0} (ops : LatencyOps F) where
  abbrev pub new_latency_summary : ℤ → LatencySummary F
  new_latency_summary max_reservoir = record {
    count = 0;
    sum = ops.nought;
    min = ops.infinity;
    max = ops.minus_infinity;
    mean = ops.nought;
    reservoir = [];
    max_res_size = if leb_ℤ max_reservoir (pos 0) then 2048 else pos_part max_reservoir;
    seen_values = 0;
    dirty = false;
  }

  abbrev pub sample : ℕ → ℕ → F → List F → List F
  sample seen size value reservoir =
      if ltb (length reservoir) size
      then reservoir ++ value ∷ []
      else if ltb 0 size
      then set_within (remainder (wrap_64 (pos (seen * 1103515245))) size) value reservoir
      else reservoir

  unfoldable pub record_value : LatencySummary F → F → LatencySummary F
  record_value s value =
      let sum = ops.plus s.sum value in
      record s {
        count = suc s.count;
        sum = sum;
        min = if ops.less value s.min then value else s.min;
        max = if ops.less s.max value then value else s.max;
        mean = ops.divide_count sum (suc s.count);
        reservoir = sample (suc s.seen_values) s.max_res_size value s.reservoir;
        seen_values = suc s.seen_values;
        dirty = true;
      }

  -- `hashed` is the FNV hash of an id over its largest value.
  abbrev pub should_sample : (String → F) → F → String → Bool
  should_sample hashed rate id =
      if ops.at_most ops.one rate
      then true
      else if ops.at_most rate ops.nought
      then false
      else ops.less (hashed id) rate

pub record Snapshot : Type 0 where
  pub active_requests : ℕ
  pub total_requests : ℕ
  pub completed_requests : ℕ
  pub failed_requests : ℕ
  pub retained_completed_samples : ℕ

-- The entries of the order that are still there.
abbrev pub retained : Dict Request → List String → List Request
retained kept [] = []
retained kept (id ∷ ids) = elim (lookup id kept) [
  | none ↦ retained kept ids
  | some r ↦ r ∷ retained kept ids
]

abbrev pub requests_of : Dict Request → List Request
requests_of [] = []
requests_of ((id, r) ∷ rest) = r ∷ requests_of rest

module _ {F T M V : Type 0} where
  -- `keep`, `rate` and `reservoir` are what the environment sets, or the defaults 1000, 1 and 2048.
  abbrev pub new_run_manager :
      LatencyOps F → String → (now keep : ℕ) → (rate : F) → (reservoir : ℤ) → RunManager F T M V
  new_run_manager ops id now keep rate reservoir = record {
    id = id;
    status = pending;
    start_time = now;
    end_time = 0;
    error = "";
    config = [];
    metadata = [];
    traces = [];
    requests = [];
    completed_requests = [];
    completed_order = [];
    service_metrics = [];
    latency_summary = new_latency_summary ops reservoir;
    total_requests = 0;
    completed_count = 0;
    failed_count = 0;
    max_active_requests = pos 0;
    max_total_requests = pos 0;
    max_completed_keep = keep;
    trace_sampling_rate = rate;
    cancelled = false;
  }

  abbrev pub start : RunManager F T M V → ℕ → RunManager F T M V
  start rm now = record rm { status = running; start_time = now }

  abbrev pub complete : RunManager F T M V → ℕ → RunManager F T M V
  complete rm now = record rm { status = completed; end_time = now }

  abbrev pub fail : RunManager F T M V → ℕ → String → RunManager F T M V
  fail rm now message = record rm { status = failed; end_time = now; error = message }

  abbrev pub cancel : RunManager F T M V → RunManager F T M V
  cancel rm = record rm { cancelled = true }

  abbrev pub add_trace : RunManager F T M V → String → T → RunManager F T M V
  add_trace rm id trace = record rm { traces = insert id trace rm.traces }

  abbrev pub get_trace : RunManager F T M V → String → Option T
  get_trace rm id = lookup id rm.traces

  abbrev pub set_max_requests_tracked : RunManager F T M V → ℤ → RunManager F T M V
  set_max_requests_tracked rm max = record rm { max_active_requests = max }

  abbrev pub set_max_total_requests : RunManager F T M V → ℤ → RunManager F T M V
  set_max_total_requests rm max = record rm { max_total_requests = max }

  unfoldable pub add_request : RunManager F T M V → Request → RunManager F T M V × Report
  add_request rm r =
      if limit_reached rm.max_total_requests rm.total_requests
      then (rm, total_limit (suc rm.total_requests) rm.max_total_requests)
      else if limit_reached rm.max_active_requests (length rm.requests)
      then (rm, active_limit (suc (length rm.requests)) rm.max_active_requests)
      else (
        record rm { requests = insert r.id r rm.requests; total_requests = suc rm.total_requests },
        quiet,
      )

  abbrev pub get_request : RunManager F T M V → String → Option Request
  get_request rm id = elim (lookup id rm.requests) [
    | none ↦ lookup id rm.completed_requests
    | some r ↦ some r
  ]

  abbrev pub list_requests : RunManager F T M V → List Request
  list_requests rm = requests_of rm.requests ++ retained rm.completed_requests rm.completed_order

  -- Count a finished request, which is active no longer.
  abbrev pub count_finished : RunManager F T M V → Request → RunManager F T M V
  count_finished rm r = record rm {
    requests = delete r.id rm.requests;
    completed_count = suc rm.completed_count;
    failed_count = if is_failed r then suc rm.failed_count else rm.failed_count;
  }

  abbrev pub retain : RunManager F T M V → Request → RunManager F T M V
  retain rm r =
      let kept =
        evict rm.max_completed_keep (rm.completed_order ++ r.id ∷ [])
          (insert r.id r rm.completed_requests) in
      record rm { completed_order = kept.0; completed_requests = kept.1 }

  unfoldable pub finalize_request :
      LatencyOps F → (String → F) → RunManager F T M V → Request → RunManager F T M V
  finalize_request ops hashed rm r =
      if should_sample ops hashed rm.trace_sampling_rate r.id
      then retain (count_finished rm r) r
      else count_finished rm r

  abbrev pub record_latency : LatencyOps F → RunManager F T M V → F → RunManager F T M V
  record_latency ops rm value = record rm {
    latency_summary = record_value ops rm.latency_summary value;
  }

  abbrev pub update_service_metrics : RunManager F T M V → String → M → RunManager F T M V
  update_service_metrics rm service metrics = record rm {
    service_metrics = insert service metrics rm.service_metrics;
  }

  abbrev pub get_service_metrics : RunManager F T M V → String → Option M
  get_service_metrics rm service = lookup service rm.service_metrics

  abbrev pub set_config : RunManager F T M V → String → V → RunManager F T M V
  set_config rm key value = record rm { config = insert key value rm.config }

  abbrev pub get_config : RunManager F T M V → String → Option V
  get_config rm key = lookup key rm.config

  abbrev pub set_metadata : RunManager F T M V → String → String → RunManager F T M V
  set_metadata rm key value = record rm { metadata = insert key value rm.metadata }

  abbrev pub get_metadata : RunManager F T M V → String → Option String
  get_metadata rm key = lookup key rm.metadata

  abbrev pub snapshot : RunManager F T M V → Snapshot
  snapshot rm = record {
    active_requests = length rm.requests;
    total_requests = rm.total_requests;
    completed_requests = rm.completed_count;
    failed_requests = rm.failed_count;
    retained_completed_samples = length rm.completed_requests;
  }
