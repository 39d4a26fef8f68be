-- ===== src/Interaction/Calls/Bounds.antt =====
-- How many calls a finished request makes.
use simulation_core.Base.{ℕ, suc, ◌+◌, ◌≤◌, ◌≡◌, false, List, [], ◌∷◌}
use simulation_core.Interaction.Calls.{ResolvedCall, BranchOps, or_one, probability_of}

module _ {F R : Type 0} (ops : BranchOps F) (draw : R → F × R) where
  -- The whole parts of the means, and one more for each call.
  abbrev pub most : List (ResolvedCall F) → ℕ
  most [] = 0
  most (call ∷ calls) = suc (ops.floor (or_one ops draw call.call.call_count_mean)) + most calls

  -- The whole parts of the means.
  abbrev pub least : List (ResolvedCall F) → ℕ
  least [] = 0
  least (call ∷ calls) = ops.floor (or_one ops draw call.call.call_count_mean) + least calls

  abbrev Fits : ℕ → ℕ → ℕ → Type 0
  Fits low high n = (low ≤ n) × (n ≤ high)

  -- The call is made whatever is drawn.
  abbrev pub IsCertain : ResolvedCall F → Type 0
  IsCertain call = ops.ltb (probability_of ops draw call.call) ops.one ≡ false
