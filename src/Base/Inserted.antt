-- ===== src/Base/Inserted.antt =====
-- What a lookup finds after an insertion.
use mathlib.Core.Path.{◌≡◌}
use mathlib.Core.Logic.{◌⊎◌, inl, inr}
use mathlib.Core.Bool.{false}
use mathlib.Core.Option.{some}
use native.Mathlib.Omega.{arith}
use open_xai_connect.Base.Tests.{Eq, ◌==◌, Bool-cases}
use open_xai_connect.Base.Assoc.{Map, lookup, insert, lookup-insert}

module _ {K V : Type 0} ⦃e : Eq K⦄ (key read : K) (new : V) (m : Map K V) where
  -- What is found after an insertion is the new value, or was there before.
  pub found-insert :
      (found : V)
      → lookup read (insert key new m) ≡ some found
      → ((key ≡ read) × (new ≡ found)) ⊎ (((key == read) ≡ false) × (lookup read m ≡ some found))
  found-insert found h = elim (Bool-cases (key == read)) [
    | inl x ↦
        let y : some new ≡ some found = ground (arith, lookup-insert key read new m) in
        inl ((e.beq_iff key read).0 x, cc y)
    | inr x ↦ inr (x, ground (arith, lookup-insert key read new m))
  ]

  pub insert-finds : key ≡ read → lookup read (insert key new m) ≡ some new
  insert-finds x = ground (arith, (e.beq_iff key read).1 x, lookup-insert key read new m)

  pub insert-keeps : (key == read) ≡ false → lookup read (insert key new m) ≡ lookup read m
  insert-keeps x = ground (arith, lookup-insert key read new m)
