-- ===== src/Base/Perms.antt =====
-- The length of a permuted list, over the native numbers.
use mathlib.Core.List.{Perm, Permᴰ}
use mathlib.Core.Logic.{∥∥₁_elim}
use native.Mathlib.Nat.{ℕ_set}
use simulation_core.Base.{◌≡◌, arith, List, length}

module _ {A : Type 0} where
  Permᴰ-length : {xs ys : List A} → Permᴰ xs ys → length xs ≡ length ys
  Permᴰ-length Permᴰ.nil = omega arith
  Permᴰ-length (Permᴰ.cons e p) = omega (arith, Permᴰ-length p)
  Permᴰ-length (Permᴰ.swap e f) = omega arith
  Permᴰ-length (Permᴰ.trans p q) = omega (arith, Permᴰ-length p, Permᴰ-length q)

  pub length-Perm : {xs ys : List A} → Perm xs ys → length xs ≡ length ys
  length-Perm p = ∥∥₁_elim p (ℕ_set _ _) Permᴰ-length
