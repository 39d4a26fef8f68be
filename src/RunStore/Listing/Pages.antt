-- ===== src/RunStore/Listing/Pages.antt =====
-- The pages of a listing.
use mathlib.Core.List.{Perm}
use mathlib.Core.List.Perm
use simulation_core.Base.{
  ℕ, zero, suc, ◌≤◌, ◌≡◌, refl, ap, List, [], ◌∷◌, length, arith, All, String, Option, none, some,
  if◌then◌else◌,
}
use simulation_core.RunStore.Record.{Kinds, RunStatus, RunRecord}
use simulation_core.RunStore.{RunStore}
use simulation_core.RunStore.Listing.{take, drop, admits}
use simulation_core.Base.Dict.{Dict}

module _ {A : Type 0} where
  drop-nil : (n : ℕ) → drop {A = A} n [] ≡ []
  drop-nil zero = refl
  drop-nil (suc n) = refl

  take-long : (n : ℕ) (xs : List A) → length xs ≤ n → take n xs ≡ xs
  take-long zero [] h = refl
  take-long zero (x ∷ xs) h = absurd (omega (arith, h))
  take-long (suc n) [] h = refl
  take-long (suc n) (x ∷ xs) h = ap (λ l. x ∷ l) (take-long n xs (omega (arith, h)))

module _ {k : Kinds} where
  -- No run was created after one that stands before it.
  abbrev pub IsNewestFirst : List (RunRecord k) → Type 0
  IsNewestFirst [] = Unit {0}
  IsNewestFirst (rec ∷ rest) =
      All (λ (later : RunRecord k). later.run.created_at ≤ rec.run.created_at) rest
      × IsNewestFirst rest

  abbrev if_admitted : RunStatus → String × RunRecord k → Option (RunRecord k)
  if_admitted status (id, rec) = if admits status rec.run.status then some rec else none
