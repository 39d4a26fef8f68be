-- ===== src/Policy/Autoscaling/Examples.antt =====
-- The decisions of autoscaling at a concrete load, with percentages for float64.
use simulation_core.Base.{ℕ, ◌*◌, ◌/◌, true, arith, ltb, leb}
use simulation_core.Base.Int.{pos}
use simulation_core.Policy.Autoscaling.{
  ScaleOps, AutoscalingPolicy, new_autoscaling_policy, get_target_replicas,
}
use simulation_core.Policy.Autoscaling.Bounds.{Moves, get_target_replicas-Moves}

abbrev percent : ScaleOps ℕ
percent = record {
  nought = 0;
  default_target = 70;
  hysteresis = 80;
  less = ltb;
  at_most = leb;
  times = λ a b. a * b / 100;
}

abbrev policy : AutoscalingPolicy ℕ
policy = new_autoscaling_policy percent true 60 (pos 2) (pos 1) (pos 8)

get_target_replicas-Moves_example :
    Moves percent policy (pos 7) 90 (get_target_replicas percent policy (pos 7) 90)
get_target_replicas-Moves_example =
    get_target_replicas-Moves percent policy (pos 7) 90 (omega arith) (omega arith)
