-- ===== src/Improvement/Convergence.antt =====
-- internal/improvement/convergence.go. A history is the list of its scores; `F` is float64, without NaN.
-- What a check answers is whether it converged, without the text of the reason. PlateauIterations is at
-- least 1: at 0 the source indexes an empty slice, and `plateau` is false.
use simulation_core.Base.{
  ℕ, zero, suc, ◌-◌, Bool, true, false, List, [], ◌∷◌, Option, none, some, ◌&&◌, ◌||◌, not,
  if◌then◌else◌, ltb, leb, length, min,
}

pub record ConvergenceConfig (F : Type 0) : Type 0 where
  pub no_improvement_iterations : ℕ
  pub improvement_threshold : F
  pub score_tolerance : F
  pub min_iterations : ℕ
  pub plateau_iterations : ℕ

pub record ScoreOps (F : Type 0) : Type 0 where
  pub nought : F
  pub max_float : F
  pub one_percent : F
  pub one_per_mille : F
  pub less : F → F → Bool
  pub plus : F → F → F
  pub minus : F → F → F
  pub times : F → F → F
  pub divide : F → F → F
  pub sqrt : F → F
  pub of_nat : ℕ → F

module _ {A : Type 0} where
  abbrev pub drop : ℕ → List A → List A
  drop zero xs = xs
  drop (suc n) [] = []
  drop (suc n) (x ∷ xs) = drop n xs

  -- `history[len(history)-n:]`
  abbrev pub last_of : ℕ → List A → List A
  last_of n xs = drop (length xs - n) xs

module _ {F : Type 0} (ops : ScoreOps F) where
  abbrev pub default_convergence_config : ConvergenceConfig F
  default_convergence_config = record {
    no_improvement_iterations = 5;
    improvement_threshold = ops.one_percent;
    score_tolerance = ops.one_per_mille;
    min_iterations = 3;
    plateau_iterations = 5;
  }

  -- The position of the first least score, none where no score is below the largest float.
  abbrev pub best_iteration : F → Option ℕ → ℕ → List F → Option ℕ
  best_iteration best found i [] = found
  best_iteration best found i (score ∷ rest) =
      let better = ops.less score best in
      best_iteration (if better then score else best) (if better then some i else found) (suc i)
        rest

  abbrev pub is_stale : ConvergenceConfig F → ℕ → Option ℕ → Bool
  is_stale cfg n none = false
  is_stale cfg n (some best) = leb cfg.no_improvement_iterations (n - 1 - best)

  -- CheckConvergence of NoImprovementStrategy.
  unfoldable pub no_improvement : ConvergenceConfig F → List F → Bool
  no_improvement cfg history =
      if ltb (length history) cfg.min_iterations
      then false
      else is_stale cfg (length history) (best_iteration ops.max_float none 0 history)

  abbrev pub least : F → List F → F
  least low [] = low
  least low (score ∷ rest) = least (if ops.less score low then score else low) rest

  abbrev pub greatest : F → List F → F
  greatest high [] = high
  greatest high (score ∷ rest) = greatest (if ops.less high score then score else high) rest

  abbrev pub has_small_range : ConvergenceConfig F → List F → Bool
  has_small_range cfg [] = false
  has_small_range cfg (first ∷ rest) = not (
      ops.less cfg.score_tolerance
        (ops.minus (greatest first (first ∷ rest)) (least first (first ∷ rest))))

  -- CheckConvergence of PlateauStrategy.
  unfoldable pub plateau : ConvergenceConfig F → List F → Bool
  plateau cfg history =
      if ltb (length history) cfg.min_iterations || ltb (length history) cfg.plateau_iterations
      then false
      else has_small_range cfg (last_of cfg.plateau_iterations history)

  -- The relative improvements between neighbours, after a positive score.
  abbrev pub improvements : F → List F → List F
  improvements before [] = []
  improvements before (score ∷ rest) =
      let later = improvements score rest in
      if ops.less ops.nought before
      then ops.divide (ops.minus before score) before ∷ later
      else later

  abbrev pub improvements_of : List F → List F
  improvements_of [] = []
  improvements_of (first ∷ rest) = improvements first rest

  abbrev pub all_below : F → List F → Bool
  all_below threshold [] = true
  all_below threshold (imp ∷ rest) = not (ops.less threshold imp) && all_below threshold rest

  -- CheckConvergence of ThresholdStrategy.
  unfoldable pub threshold : ConvergenceConfig F → List F → Bool
  threshold cfg history =
      let window = min cfg.no_improvement_iterations (length history) in
      let found = improvements_of (last_of window history) in
      if ltb (length history) (suc cfg.min_iterations) || ltb window 2
      then false
      else all_below cfg.improvement_threshold found && ltb 0 (length found)

  abbrev pub sum_of : F → List F → F
  sum_of sum [] = sum
  sum_of sum (score ∷ rest) = sum_of (ops.plus sum score) rest

  abbrev pub squares_of : F → F → List F → F
  squares_of mean sum [] = sum
  squares_of mean sum (score ∷ rest) =
      let diff = ops.minus score mean in squares_of mean (ops.plus sum (ops.times diff diff)) rest

  abbrev pub is_stable : ConvergenceConfig F → List F → Bool
  is_stable cfg recent =
      let n = ops.of_nat (length recent) in
      let mean = ops.divide (sum_of ops.nought recent) n in
      let variance = ops.divide (squares_of mean ops.nought recent) n in
      ops.less ops.nought mean
      && ops.less (ops.divide (ops.sqrt variance) mean) cfg.improvement_threshold

  -- CheckConvergence of VarianceStrategy.
  unfoldable pub variance : ConvergenceConfig F → List F → Bool
  variance cfg history =
      let recent = last_of (min cfg.plateau_iterations (length history)) history in
      if ltb (length history) cfg.min_iterations || ltb (length recent) 2
      then false
      else is_stable cfg recent

  -- CheckConvergence of CombinedStrategy over a list of strategies.
  abbrev pub any_converged : List (List F → Bool) → List F → Bool
  any_converged [] history = false
  any_converged (check ∷ rest) history = check history || any_converged rest history

  -- The strategies of NewCombinedStrategy, with those that AddStrategy adds.
  abbrev pub combined : ConvergenceConfig F → List (List F → Bool) → List F → Bool
  combined cfg added history =
      any_converged (no_improvement cfg ∷ plateau cfg ∷ threshold cfg ∷ added) history
