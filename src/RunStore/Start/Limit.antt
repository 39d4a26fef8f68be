-- ===== src/RunStore/Start/Limit.antt =====
-- The limit on concurrent online runs over the calls that start and end runs.
use simulation_core.Base.{
  ℕ, ◌+◌, ◌≤◌, ◌≡◌, refl, ap, ◌∙◌, Bool, true, false, String, Option, none, some, inl, inr, ◌⊎◌,
  ◌&&◌, ◌=ₛ◌, if◌then◌else◌, if_elim, ltb, leb, arith,
}
use simulation_core.Base.Dict.{lookup}
use simulation_core.Base.Dict.Count.{count_values-insert, count_values-insert_new, weight}
use simulation_core.RunStore.Record.{
  Kinds, RunStatus, unspecified, pending, running, completed, failed, cancelled, stopped,
  is_running, Run, RunRecord, LifecycleConfig,
}
use simulation_core.RunStore.{
  RunStore, StoreDeps, Result, set_status, put, started, with_status, finalize_run_storage,
  change_found, set_error,
}
use simulation_core.RunStore.Frame.{finalize_run_storage-run}
use simulation_core.RunStore.Start.{
  count_running_online, runs_online, online_input, create, create_valid, create_new, prepared,
  new_record, start_by, start_found, start_pending, limit_reached,
  set_status_running_with_online_concurrency_guard,
}

-- A call that starts or ends a run, or adds one; ending is any change of status but to running.
pub data StartCall (k : Kinds) : Type 0 where
  creates : (id generated : String) → Option k.Input → ℕ → StartCall k
  starts : String → ℕ → StartCall k
  sets : String → (status : RunStatus) → is_running status ≡ false → String → ℕ → StartCall k

-- The guard lets an online run start only where there is room for it.
room :
    (online : Bool) (max count m w : ℕ)
    → max ≡ m
    → 1 ≤ m
    → count ≤ m
    → (online && ltb 0 max && leb max count) ≡ false
    → count + weight online ≤ m + w
room true max count m w q positive few free = ground arith
room false max count m w q positive few free = omega (arith, few)

module _ {k : Kinds} (deps : StoreDeps k) where
  -- How the online runs are counted where one record is replaced by another.
  put-count :
      (s : RunStore k) (id : String) (old new : RunRecord k) (m : ℕ)
      → lookup id s.runs ≡ some old
      → count_running_online deps s + weight (runs_online deps new)
        ≤ m + weight (runs_online deps old)
      → count_running_online deps (put s id new) ≤ m
  put-count s id old new m h small =
      let changed = count_values-insert (runs_online deps) id new old s.runs h in
      omega (arith, changed, small)

  start_pending-count :
      (s : RunStore k) (id : String) (rec : RunRecord k) (now m : ℕ)
      → s.max_concurrent_online_runs ≡ m
      → 1 ≤ m
      → lookup id s.runs ≡ some rec
      → count_running_online deps s ≤ m
      → count_running_online deps (start_pending deps s id rec now).1 ≤ m
  start_pending-count s id rec now m q positive h few =
      let begun : RunRecord k = record rec { run = started now rec.run } in
      if_elim (λ (r : Result (RunRecord k) × RunStore k). count_running_online deps r.1 ≤ m)
        (limit_reached deps s rec) (λ _. few)
        (λ free. put-count s id rec begun m h (
          room (online_input deps rec.input) s.max_concurrent_online_runs _ m _ q positive few
            free))

  start_by-count :
      (s : RunStore k) (id : String) (rec : RunRecord k) (now m : ℕ) (status : RunStatus)
      → s.max_concurrent_online_runs ≡ m
      → 1 ≤ m
      → lookup id s.runs ≡ some rec
      → count_running_online deps s ≤ m
      → count_running_online deps (start_by deps s id rec now status).1 ≤ m
  start_by-count s id rec now m running q positive h few = few
  start_by-count s id rec now m completed q positive h few = few
  start_by-count s id rec now m failed q positive h few = few
  start_by-count s id rec now m cancelled q positive h few = few
  start_by-count s id rec now m stopped q positive h few = few
  start_by-count s id rec now m pending q positive h few =
      start_pending-count s id rec now m q positive h few
  start_by-count s id rec now m unspecified q positive h few =
      start_pending-count s id rec now m q positive h few

  start_found-count :
      (s : RunStore k) (id : String) (now m : ℕ) (found : Option (RunRecord k))
      → lookup id s.runs ≡ found
      → s.max_concurrent_online_runs ≡ m
      → 1 ≤ m
      → count_running_online deps s ≤ m
      → count_running_online deps (start_found deps s id now found).1 ≤ m
  start_found-count s id now m none h q positive few = few
  start_found-count s id now m (some rec) h q positive few =
      start_by-count s id rec now m rec.run.status q positive h few

  ended-idle :
      (cfg : LifecycleConfig) (rec : RunRecord k)
      → is_running rec.run.status ≡ false
      → weight (runs_online deps (finalize_run_storage cfg rec)) ≡ 0
  ended-idle cfg rec h =
      let kept =
        ap (λ (run : Run k). is_running run.status) (finalize_run_storage-run cfg rec) ∙ h in
      ap (λ b. weight (b && online_input deps (finalize_run_storage cfg rec).input)) kept

  -- A record whose status is set to anything but running is not running online.
  with_status-idle :
      (cfg : LifecycleConfig) (now : ℕ) (status : RunStatus) (rec : RunRecord k)
      → is_running status ≡ false
      → weight (runs_online deps (with_status cfg now status rec)) ≡ 0
  with_status-idle cfg now running rec h = absurd (cc)
  with_status-idle cfg now unspecified rec h = refl
  with_status-idle cfg now pending rec h = refl
  with_status-idle cfg now completed rec h =
      ended-idle cfg (record rec { run = record rec.run { status = completed; ended_at = now } })
        refl
  with_status-idle cfg now failed rec h =
      ended-idle cfg (record rec { run = record rec.run { status = failed; ended_at = now } }) refl
  with_status-idle cfg now cancelled rec h =
      ended-idle cfg (record rec { run = record rec.run { status = cancelled; ended_at = now } })
        refl
  with_status-idle cfg now stopped rec h =
      ended-idle cfg (record rec { run = record rec.run { status = stopped; ended_at = now } }) refl

  set_status_found-count :
      (s : RunStore k) (id : String) (m : ℕ) (f : RunRecord k → RunRecord k)
      (found : Option (RunRecord k))
      → lookup id s.runs ≡ found
      → ((rec : RunRecord k) → weight (runs_online deps (f rec)) ≡ 0)
      → count_running_online deps s ≤ m
      → count_running_online deps (change_found s id f found).1 ≤ m
  set_status_found-count s id m f none h idle few = few
  set_status_found-count s id m f (some rec) h idle few =
      put-count s id rec (f rec) m h (let gone = idle rec in omega (arith, gone, few))

  prepared-count :
      (s : RunStore k) (id : String) (now m : ℕ) (input : Option k.Input ⊎ String)
      → lookup id s.runs ≡ none
      → count_running_online deps s ≤ m
      → count_running_online deps (prepared deps s id now input).1 ≤ m
  prepared-count s id now m (inl input) h few =
      let rec : RunRecord k = new_record id now (deps.has_child_prefix id) input in
      omega (arith, count_values-insert_new (runs_online deps) id rec s.runs h, few)
  prepared-count s id now m (inr message) h few = few

  create_new-count :
      (s : RunStore k) (id : String) (input : Option k.Input) (now m : ℕ)
      (found : Option (RunRecord k))
      → lookup id s.runs ≡ found
      → count_running_online deps s ≤ m
      → count_running_online deps (create_new deps s id input now found).1 ≤ m
  create_new-count s id input now m (some old) h few = few
  create_new-count s id input now m none h few =
      prepared-count s id now m (deps.prepare_online input) h few

  create_valid-count :
      (s : RunStore k) (id : String) (input : Option k.Input) (now m : ℕ) (o : Option String)
      → count_running_online deps s ≤ m
      → count_running_online deps (create_valid deps s id input now o).1 ≤ m
  create_valid-count s id input now m (some message) few = few
  create_valid-count s id input now m none few =
      if_elim (λ (r : Result (RunRecord k) × RunStore k). count_running_online deps r.1 ≤ m)
        (deps.has_separator id) (λ _. few)
        (λ _. create_new-count s id input now m (lookup id s.runs) refl few)

  abbrev pub step : RunStore k → StartCall k → RunStore k
  step s (creates id generated input now) = (create deps s id generated input now).1
  step s (starts id now) = (set_status_running_with_online_concurrency_guard deps s id now).1
  step s (sets id status quiet message now) = (set_status s id status message now).1

  -- With a limit m > 0, no call lets more than m online runs run at once: creating runs, starting them
  -- through the guard, and every change of status but to running keep the number at m or below.
  pub step-count :
      (s : RunStore k) (c : StartCall k) (m : ℕ)
      → s.max_concurrent_online_runs ≡ m
      → 1 ≤ m
      → count_running_online deps s ≤ m
      → count_running_online deps (step s c) ≤ m
  unfolding create set_status_running_with_online_concurrency_guard set_status
  step-count s (creates id generated input now) m q positive few =
      create_valid-count s (if id =ₛ "" then generated else id) input now m
        (deps.validate_batch input) few
  step-count s (starts id now) m q positive few =
      start_found-count s id now m (lookup id s.runs) refl q positive few
  step-count s (sets id status quiet message now) m q positive few =
      set_status_found-count s id m
        (λ rec. with_status s.lifecycle now status (record rec { run = set_error message rec.run }))
        (lookup id s.runs) refl (λ rec. with_status-idle s.lifecycle now status _ quiet) few
