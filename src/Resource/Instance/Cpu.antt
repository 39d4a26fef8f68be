-- ===== src/Resource/Instance/Cpu.antt =====
-- The CPU of a service instance as a queue of reserved intervals.
use simulation_core.Base.{
  ℕ, ◌+◌, ◌≤◌, ◌≡◌, refl, ap, ◌∙◌, List, [], ◌∷◌, Option, none, some, arith, max,
}
use simulation_core.Resource.Instance.{
  Instance, start_at, reserve_cpu_work, rollback_cpu_tail_reservation, free_again,
}

-- When the CPU is free: Go's zero time is before every other.
abbrev pub free_from : Option ℕ → ℕ
free_from none = 0
free_from (some free) = free

start_at-max :
    (arrival : ℕ) (free : Option ℕ) → start_at arrival free ≡ max arrival (free_from free)
start_at-max arrival none = omega arith
start_at-max arrival (some free) = ground arith

free_again_lem : (start finish : ℕ) → free_again (some finish) start finish ≡ some start
free_again_lem start finish = ground arith

-- Work with its arrival and its duration, and the interval that it was given.
pub record Job : Type 0 where
  pub arrival : ℕ
  pub duration : ℕ

-- The schedule of a server that does the work in its order, each as soon as it has arrived and the one
-- before it is done.
abbrev pub fifo : ℕ → List Job → List (ℕ × ℕ)
fifo free [] = []
fifo free (job ∷ jobs) =
    let start = max job.arrival free in
    (start, start + job.duration) ∷ fifo (start + job.duration) jobs

module _ {Float : Type 0} where
  abbrev pub reserve_all : Instance Float → List Job → List (ℕ × ℕ)
  reserve_all s [] = []
  reserve_all s (job ∷ jobs) =
      let r = reserve_cpu_work s job.arrival job.duration in r.0 ∷ reserve_all r.1 jobs

  -- The reservations of an instance are the schedule of one server in the order of the calls: each
  -- starts as soon as its work has arrived and the one before it has ended, so that no two overlap and
  -- the CPU is never idle while work waits.
  pub reserve_all-fifo :
      (jobs : List Job) (s : Instance Float)
      → reserve_all s jobs ≡ fifo (free_from s.cpu_next_free) jobs
  unfolding reserve_cpu_work
  reserve_all-fifo [] s = refl
  reserve_all-fifo (job ∷ jobs) s =
      let start = max job.arrival (free_from s.cpu_next_free) in
      rw (start_at-max job.arrival s.cpu_next_free) (
        ap (λ rest. (start, start + job.duration) ∷ rest)
          (reserve_all-fifo jobs (record s { cpu_next_free = some (start + job.duration) })))

  -- A reservation that is rolled back leaves no trace for work that arrives no earlier: every later
  -- reservation gets the interval that it would have got without it.
  pub reserve_cpu_work-rollback :
      (s : Instance Float) (arrival dur later more : ℕ)
      → arrival ≤ later
      → (reserve_cpu_work
          (rollback_cpu_tail_reservation
            (reserve_cpu_work s arrival dur).1
            (reserve_cpu_work s arrival dur).0.0
            (reserve_cpu_work s arrival dur).0.1)
          later
          more).0
        ≡ (reserve_cpu_work s later more).0
  unfolding reserve_cpu_work rollback_cpu_tail_reservation
  reserve_cpu_work-rollback s arrival dur later more h =
      let start = start_at arrival s.cpu_next_free in
      let at_first = start_at-max arrival s.cpu_next_free in
      let at_last = start_at-max later s.cpu_next_free in
      let same : start_at later (free_again (some (start + dur)) start (start + dur))
          ≡ start_at later s.cpu_next_free =
        ap (start_at later) (free_again_lem start (start + dur))
        ∙ (start_at-max later (some start) ∙ omega (arith, at_first, at_last, h)) in
      ap (λ begin. (begin, begin + more)) same
