-- ===== src/Resource/Instance.antt =====
-- ServiceInstance of internal/resource/service_instance.go. Times are nanoseconds and Go's zero time is
-- none. float64 is a type with the operations that the code uses, without NaN; the methods that read
-- the wall clock take its time as an argument. Each method holds the instance's lock, so each is one step.
pub mod Cpu
pub mod Slots
use simulation_core.Base.{
  ℕ, zero, suc, ◌+◌, ◌-◌, Bool, true, false, not, String, List, [], ◌∷◌, ◌++◌, Option, none, some,
  ◌=ₛ◌, if◌then◌else◌, ltb, leb, length, max, min,
}
use simulation_core.Base.Int.{ℤ, pos, leb_ℤ, pos_part}

pub record FloatOps (Float : Type 0) : Type 0 where
  pub nought : Float
  pub one : Float
  pub plus : Float → Float → Float
  pub minus : Float → Float → Float
  pub less : Float → Float → Bool
  pub equal : Float → Float → Bool
  pub divide : Float → Float → Float

pub data Lifecycle : Type 0 where
  active draining : Lifecycle

pub record Instance (Float : Type 0) : Type 0 where
  pub id : String
  pub service_name : String
  pub host_id : String
  pub lifecycle : Lifecycle
  pub drain_deadline : Option ℕ
  pub cpu_cores : Float
  pub memory_mb : Float
  pub cpu_usage_window : ℕ
  pub cpu_usage_in_window : Float
  pub window_start : ℕ
  pub active_memory_mb : Float
  pub active_requests : ℕ
  pub request_queue : List String
  pub cpu_next_free : Option ℕ
  pub db_slot_free : List (Option ℕ)
  pub db_active_connections : ℕ
  pub last_update : ℕ

abbrev pub max_db_slots_cap : ℕ
max_db_slots_cap = 64

-- The start of work that arrives at a server: at once, or when the server is free.
abbrev pub start_at : ℕ → Option ℕ → ℕ
start_at arrival none = arrival
start_at arrival (some free) = if ltb arrival free then free else arrival

-- Slices of slots: the first n, and one made n long by free slots.
abbrev pub take_slots : ℕ → List (Option ℕ) → List (Option ℕ)
take_slots zero slots = []
take_slots (suc n) [] = []
take_slots (suc n) (slot ∷ slots) = slot ∷ take_slots n slots

abbrev pub grow : ℕ → List (Option ℕ) → List (Option ℕ)
grow zero slots = slots
grow (suc n) [] = none ∷ grow n []
grow (suc n) (slot ∷ slots) = slot ∷ grow n slots

abbrev pub set_slot : ℕ → ℕ → List (Option ℕ) → List (Option ℕ)
set_slot n free [] = []
set_slot zero free (slot ∷ slots) = some free ∷ slots
set_slot (suc n) free (slot ∷ slots) = slot ∷ set_slot n free slots

-- The slot with the earliest start, the first of them on ties. The accumulator is none before the
-- first slot.
abbrev pub better : Option (ℕ × ℕ) → ℕ → ℕ → Option (ℕ × ℕ)
better none i start = some (i, start)
better (some (j, best)) i start = if ltb start best then some (i, start) else some (j, best)

unfoldable pub pick : ℕ → ℕ → Option (ℕ × ℕ) → List (Option ℕ) → Option (ℕ × ℕ)
pick arrival i best [] = best
pick arrival i best (slot ∷ slots) =
    pick arrival (suc i) (better best i (start_at arrival slot)) slots

-- What ReserveDBWork returns, the wait in nanoseconds; no slot without a pool.
pub record DbWork : Type 0 where
  pub start : ℕ
  pub finish : ℕ
  pub slot : Option ℕ
  pub wait : ℕ

abbrev pub without_empty : List String → List String
without_empty [] = []
without_empty (id ∷ ids) = let rest = without_empty ids in if id =ₛ "" then rest else id ∷ rest

abbrev pub is_routable_in : Lifecycle → Bool
is_routable_in active = true
is_routable_in draining = false

abbrev pub free_again : Option ℕ → (start finish : ℕ) → Option ℕ
free_again none start finish = none
free_again (some free) start finish =
    if ltb free finish then some free else if ltb finish free then some free else some start

module _ {Float : Type 0} where
  abbrev pub set_draining : Instance Float → ℕ → Instance Float
  set_draining s deadline = record s { lifecycle = draining; drain_deadline = some deadline }

  abbrev pub enqueue_request : Instance Float → String → Instance Float
  enqueue_request s id = record s { request_queue = s.request_queue ++ id ∷ [] }

  abbrev pub dequeue_from : Instance Float → List String → Option String × Instance Float
  dequeue_from s [] = (none, s)
  dequeue_from s (id ∷ rest) = (some id, record s { request_queue = rest })

  unfoldable pub dequeue_request : Instance Float → Option String × Instance Float
  dequeue_request s = dequeue_from s s.request_queue

  abbrev pub queue_length : Instance Float → ℕ
  queue_length s = length s.request_queue

  -- `dur` is `time.Duration(math.Round(durMs * 1e6))` for the demand over the cores, at least zero.
  unfoldable pub reserve_cpu_work : Instance Float → (arrival dur : ℕ) → (ℕ × ℕ) × Instance Float
  reserve_cpu_work s arrival dur =
      let start = start_at arrival s.cpu_next_free in
      ((start, start + dur), record s { cpu_next_free = some (start + dur) })

  unfoldable pub rollback_cpu_tail_reservation :
      Instance Float → (start finish : ℕ) → Instance Float
  rollback_cpu_tail_reservation s start finish = record s {
    cpu_next_free = free_again s.cpu_next_free start finish;
  }

  abbrev pub reserve_slot :
      Instance Float
      → (arrival dur : ℕ) → List (Option ℕ)
      → Option (ℕ × ℕ)
      → DbWork × Instance Float
  reserve_slot s arrival dur slots none =
      (record { start = arrival; finish = arrival + dur; slot = none; wait = 0 }, s)
  reserve_slot s arrival dur slots (some (i, start)) = (
    record { start = start; finish = start + dur; slot = some i; wait = start - arrival },
    record s {
      db_slot_free = set_slot i (start + dur) slots;
      db_active_connections = suc s.db_active_connections;
    },
  )

  -- A pool without slots is no pool. `dur` is as for reserve_cpu_work.
  unfoldable pub reserve_db_work :
      Instance Float → (arrival dur : ℕ) → (max_slots : ℤ) → DbWork × Instance Float
  reserve_db_work s arrival dur max_slots =
      let n = min (pos_part max_slots) max_db_slots_cap in
      let slots = grow n s.db_slot_free in
      if leb_ℤ max_slots (pos 0)
      then (record { start = arrival; finish = arrival + dur; slot = none; wait = 0 }, s)
      else reserve_slot s arrival dur slots (pick arrival 0 none (take_slots n slots))

  abbrev pub release_db_connection : Instance Float → Instance Float
  release_db_connection s = record s { db_active_connections = s.db_active_connections - 1 }

module _ {Float : Type 0} (ops : FloatOps Float) where
  abbrev pub new_service_instance : String → String → String → Float → Float → ℕ → Instance Float
  new_service_instance id service host cores memory now = record {
    id = id;
    service_name = service;
    host_id = host;
    lifecycle = active;
    drain_deadline = none;
    cpu_cores = cores;
    memory_mb = memory;
    cpu_usage_window = 1000000000;
    cpu_usage_in_window = ops.nought;
    window_start = now;
    active_memory_mb = ops.nought;
    active_requests = 0;
    request_queue = [];
    cpu_next_free = none;
    db_slot_free = [];
    db_active_connections = 0;
    last_update = now;
  }

  abbrev pub not_negative : Float → Float
  not_negative x = if ops.less x ops.nought then ops.nought else x

  abbrev pub set_cpu_cores : Instance Float → Float → Instance Float
  set_cpu_cores s cores = record s { cpu_cores = not_negative cores }

  abbrev pub set_memory_mb : Instance Float → Float → Instance Float
  set_memory_mb s memory = record s { memory_mb = not_negative memory }

  -- The window of one second is over: a new one begins, and the usage starts again.
  abbrev pub fresh_window : Instance Float → ℕ → Instance Float
  fresh_window s now =
      if leb (s.window_start + s.cpu_usage_window) now
      then record s { window_start = now; cpu_usage_in_window = ops.nought }
      else s

  abbrev pub allocate_cpu : Instance Float → Float → ℕ → Instance Float
  allocate_cpu s cpu_time now =
      let t = fresh_window s now in
      record t {
        cpu_usage_in_window = ops.plus t.cpu_usage_in_window cpu_time;
        active_requests = suc t.active_requests;
        last_update = now;
      }

  abbrev pub release_cpu : Instance Float → ℕ → Instance Float
  release_cpu s now = record s { active_requests = s.active_requests - 1; last_update = now }

  abbrev pub allocate_memory : Instance Float → Float → Instance Float
  allocate_memory s memory = record s { active_memory_mb = ops.plus s.active_memory_mb memory }

  abbrev pub release_memory : Instance Float → Float → Instance Float
  release_memory s memory =
      if ops.less s.active_memory_mb memory
      then s
      else record s { active_memory_mb = ops.minus s.active_memory_mb memory }

  abbrev pub memory_utilization : Instance Float → Float
  memory_utilization s =
      if ops.equal s.memory_mb ops.nought
      then ops.nought
      else ops.divide s.active_memory_mb s.memory_mb

  abbrev pub is_free_at : Option ℕ → ℕ → Bool
  is_free_at none now = true
  is_free_at (some free) now = leb free now

  abbrev pub has_capacity_at : Instance Float → ℕ → Bool
  has_capacity_at s now =
      if ops.less ops.nought s.cpu_cores then is_free_at s.cpu_next_free now else false

  unfoldable pub evict_resource_state : Instance Float → ℕ → List String × Instance Float
  evict_resource_state s now = (
    without_empty s.request_queue,
    record s {
      active_requests = 0;
      active_memory_mb = ops.nought;
      request_queue = [];
      cpu_usage_in_window = ops.nought;
      window_start = now;
      cpu_next_free = none;
      db_slot_free = [];
      db_active_connections = 0;
      last_update = now;
    },
  )
