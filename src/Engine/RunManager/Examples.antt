-- ===== src/Engine/RunManager/Examples.antt =====
-- The bounds of the run manager at a concrete run.
use simulation_core.Base.{ℕ, refl, String, List, [], ◌∷◌, arith, ltb, leb, ◌+◌, ◌/◌}
use simulation_core.Base.Int.{pos}
use simulation_core.Base.Dict.{lookup}
use simulation_core.Engine.RunManager.{
  LatencyOps, Request, finished, RunManager, new_run_manager, set_max_requests_tracked,
}
use simulation_core.Engine.RunManager.Bounded.{
  Call, adds, finishes, run_calls, IsBounded, run_calls-IsBounded,
}

abbrev whole : LatencyOps ℕ
whole = record {
  nought = 0;
  one = 1;
  infinity = 1000000;
  minus_infinity = 0;
  less = ltb;
  at_most = leb;
  plus = λ a b. a + b;
  divide_count = λ a n. a / n;
}

abbrev hashed : String → ℕ
hashed id = 0

abbrev request_of : String → Request
request_of id = record { id = id; status = finished; error = "" }

abbrev manager : RunManager ℕ ℕ ℕ ℕ
manager = set_max_requests_tracked (new_run_manager whole "run-1" 5 1 1 (pos 10)) (pos 2)

abbrev calls : List Call
calls =
    adds (request_of "a")
    ∷ adds (request_of "b")
    ∷ adds (request_of "c")
    ∷ finishes (request_of "a")
    ∷ finishes (request_of "b")
    ∷ []

run_calls-IsBounded_example : IsBounded whole hashed 2 (run_calls whole hashed manager calls)
unfolding lookup
run_calls-IsBounded_example =
    run_calls-IsBounded whole hashed 2 calls manager (omega arith)
      (refl, omega arith, omega arith, λ id r h. absurd (cc))
