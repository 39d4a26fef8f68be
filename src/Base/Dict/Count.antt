-- ===== src/Base/Dict/Count.antt =====
-- The entries of a map that pass a test, counted.
use Prim.Native.Nat.{ℕ, ◌+◌}
use Prim.Native.String.{String}
use mathlib.Core.Path.{◌≡◌}
use mathlib.Core.Logic.{inl, inr}
use mathlib.Core.Bool.{Bool, true, false}
use mathlib.Core.List.{[], ◌∷◌}
use mathlib.Core.Option.{none, some}
use native.Mathlib.Omega.{arith}
use simulation_core.Base.Tests.{◌=ₛ◌, Bool-cases}
use simulation_core.Base.Dict.{Dict, lookup, insert}

abbrev pub weight : Bool → ℕ
weight true = 1
weight false = 0

module _ {ℓ} {V : Type ℓ} (p : V → Bool) where
  unfoldable pub count_values : Dict V → ℕ
  count_values [] = 0
  count_values ((key, value) ∷ rest) = weight (p value) + count_values rest

  -- A write over an old entry changes the count by these two entries.
  pub count_values-insert :
      (key : String) (new old : V) (dict : Dict V)
      → lookup key dict ≡ some old
      → count_values (insert key new dict) + weight (p old) ≡ count_values dict + weight (p new)
  unfolding count_values lookup insert
  count_values-insert key new old [] h = absurd (cc)
  count_values-insert key new old ((stored, value) ∷ rest) h = elim (Bool-cases (key =ₛ stored)) [
    | inl same ↦ let first : value ≡ old = ground (arith, h) in rw (same) (rw (first) (omega arith))
    | inr other ↦
        let later : lookup key rest ≡ some old = ground (arith, h) in
        rw (other) (omega (arith, count_values-insert key new old rest later))
  ]

  -- A write of a new key adds its entry.
  pub count_values-insert_new :
      (key : String) (new : V) (dict : Dict V)
      → lookup key dict ≡ none
      → count_values (insert key new dict) ≡ count_values dict + weight (p new)
  unfolding count_values lookup insert
  count_values-insert_new key new [] h = omega arith
  count_values-insert_new key new ((stored, value) ∷ rest) h = elim (Bool-cases (key =ₛ stored)) [
    | inl same ↦ absurd (ground (arith, h))
    | inr other ↦
        let later : lookup key rest ≡ none = ground (arith, h) in
        rw (other) (omega (arith, count_values-insert_new key new rest later))
  ]
