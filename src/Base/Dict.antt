-- ===== src/Base/Dict.antt =====
-- Go maps with string keys, as association lists in which a write replaces the old entry.
pub mod Count
use Prim.Native.String.{String}
use text.Mathlib.TextEquality.{eq_iff}
use mathlib.Core.Path.{◌≡◌}
use mathlib.Core.Bool.{true, false}
use mathlib.Core.List.{List, [], ◌∷◌}
use mathlib.Core.Option.{Option, none, some}
use native.Mathlib.Omega.{arith}
use simulation_core.Base.Tests.{◌=ₛ◌, if◌then◌else◌}

abbrev pub Dict {ℓ} : Type ℓ → Type ℓ
Dict V = List (String × V)

module _ {ℓ} {V : Type ℓ} where
  -- Go's `delete`, which drops the key wherever it stands.
  unfoldable pub delete : String → Dict V → Dict V
  delete key [] = []
  delete key ((stored, value) ∷ rest) =
      let kept = delete key rest in if key =ₛ stored then kept else (stored, value) ∷ kept

  unfoldable pub lookup : String → Dict V → Option V
  lookup key [] = none
  lookup key ((stored, value) ∷ rest) =
      let later = lookup key rest in if key =ₛ stored then some value else later

  unfoldable pub insert : String → V → Dict V → Dict V
  insert key new [] = (key, new) ∷ []
  insert key new ((stored, value) ∷ rest) =
      let later = insert key new rest in
      if key =ₛ stored then (stored, new) ∷ rest else (stored, value) ∷ later

  pub lookup-delete :
      (key query : String) (dict : Dict V)
      → lookup query (delete key dict) ≡ (if key =ₛ query then none else lookup query dict)
  unfolding lookup delete
  lookup-delete key query [] = ground arith
  lookup-delete key query ((stored, value) ∷ rest) = ground (
    arith,
    lookup-delete key query rest,
    eq_iff key query,
    eq_iff key stored,
    eq_iff query stored,
  )

  -- A read after a write, in the form that serves as a rewrite rule.
  pub lookup-insert :
      (key query : String) (new : V) (dict : Dict V)
      → lookup query (insert key new dict) ≡ (if key =ₛ query then some new else lookup query dict)
  unfolding lookup insert
  lookup-insert key query new [] = ground (arith, eq_iff key query, eq_iff query key)
  lookup-insert key query new ((stored, value) ∷ rest) = ground (
    arith,
    lookup-insert key query new rest,
    eq_iff key query,
    eq_iff query stored,
    eq_iff key stored,
  )

  pub head_found :
      (id stored : String) (value found : V) (rest : Dict V)
      → lookup id ((stored, value) ∷ rest) ≡ some found
      → id =ₛ stored ≡ true
      → value ≡ found
  unfolding lookup
  head_found id stored value found rest h same = ground arith

  pub tail_found :
      (id stored : String) (value found : V) (rest : Dict V)
      → lookup id ((stored, value) ∷ rest) ≡ some found
      → id =ₛ stored ≡ false
      → lookup id rest ≡ some found
  unfolding lookup
  tail_found id stored value found rest h other = ground arith

  pub delete_found :
      (key id : String) (found : V) (dict : Dict V)
      → lookup id (delete key dict) ≡ some found
      → (key =ₛ id ≡ false) × (lookup id dict ≡ some found)
  delete_found key id found dict h = ground (arith, lookup-delete key id dict)
