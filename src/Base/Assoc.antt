-- ===== src/Base/Assoc.antt =====
-- Go's map as an association list with at most one entry for a key. The order of the entries is the
-- order in which `range` visits them, which Go leaves open: no theorem fixes it.
use mathlib.Core.Path.{◌≡◌, refl}
use mathlib.Core.Bool.{Bool}
use mathlib.Core.Option.{Option, none, some}
use mathlib.Core.List.{List, [], ◌∷◌}
use native.Mathlib.Omega.{arith}
use open_xai_connect.Base.Tests.{Eq, ◌==◌, if◌then◌else◌}

abbrev pub Map {ℓ κ} : Type ℓ → Type κ → Type (ℓ ⊔ κ)
Map K V = List (K × V)

module _ {ℓ κ} {K : Type ℓ} {V : Type κ} ⦃e : Eq K⦄ where
  -- v, ok := m[k]
  unfoldable pub lookup : K → Map K V → Option V
  lookup key [] = none
  lookup key ((other, held) ∷ rest) = if other == key then some held else lookup key rest

  -- m[k] = v
  unfoldable pub insert : K → V → Map K V → Map K V
  insert key new [] = (key, new) ∷ []
  insert key new ((other, held) ∷ rest) =
      if other == key then (key, new) ∷ rest else (other, held) ∷ insert key new rest

  -- delete(m, k)
  unfoldable pub delete : K → Map K V → Map K V
  delete k [] = []
  delete k ((j, w) ∷ m) = let rest = delete k m in if j == k then rest else (j, w) ∷ rest

  -- delete from the map, while ranging over it, each entry that passes the test
  unfoldable pub delete_if : (V → Bool) → Map K V → Map K V
  delete_if p [] = []
  delete_if p ((j, w) ∷ m) = let rest = delete_if p m in if p w then rest else (j, w) ∷ rest

  pub lookup-insert :
      (key read : K) (new : V) (m : Map K V)
      → lookup read (insert key new m) ≡ (if key == read then some new else lookup read m)
  unfolding lookup insert
  lookup-insert key read new [] = refl
  lookup-insert key read new ((other, held) ∷ rest) = ground (
    arith,
    e.beq_iff other key,
    e.beq_iff other read,
    e.beq_iff key read,
    lookup-insert key read new rest,
  )

  pub lookup-delete :
      (k j : K) (m : Map K V) → lookup j (delete k m) ≡ (if k == j then none else lookup j m)
  unfolding lookup delete
  lookup-delete k j [] = ground arith
  lookup-delete k j ((i, w) ∷ m) =
      ground (arith, e.beq_iff k j, e.beq_iff i k, e.beq_iff i j, lookup-delete k j m)

pub ruleset map_laws = (lookup-insert, lookup-delete)
