-- ===== src/Base/Distinct.antt =====
-- A Go map has one entry for each key: the invariant of the association lists, and what a walk over
-- such a list sees.
use mathlib.Core.Path.{◌≡◌, refl}
use mathlib.Core.Bool.{Bool}
use mathlib.Core.Option.{Option, none, some}
use mathlib.Core.List.{[], ◌∷◌}
use native.Mathlib.Omega.{arith}
use open_xai_connect.Base.Tests.{Eq, if◌then◌else◌}
use open_xai_connect.Base.Assoc.{
  Map, lookup, insert, delete, delete_if, lookup-insert, lookup-delete,
}

abbrev pub kept {κ} : {V : Type κ} → (V → Bool) → Option V → Option V
kept p none = none
kept p (some v) = if p v then none else some v

module _ {ℓ κ} {K : Type ℓ} {V : Type κ} ⦃e : Eq K⦄ where
  abbrev pub IsDistinct : Map K V → Type κ
  IsDistinct [] = Unit
  IsDistinct ((k, v) ∷ m) = (lookup k m ≡ none) × IsDistinct m

  pub insert-IsDistinct : (k : K) (v : V) (m : Map K V) → IsDistinct m → IsDistinct (insert k v m)
  unfolding lookup insert
  insert-IsDistinct k v [] d = ground arith
  insert-IsDistinct k v ((j, w) ∷ m) d =
      ground
        (arith, e.beq_iff j k, e.beq_iff k j, lookup-insert k j v m, insert-IsDistinct k v m d.1)

  pub delete-IsDistinct : (k : K) (m : Map K V) → IsDistinct m → IsDistinct (delete k m)
  unfolding delete
  delete-IsDistinct k [] d = d
  delete-IsDistinct k ((j, w) ∷ m) d =
      ground (arith, e.beq_iff j k, e.beq_iff k j, lookup-delete k j m, delete-IsDistinct k m d.1)

  pub lookup-delete_if-none :
      (p : V → Bool) (k : K) (m : Map K V) → lookup k m ≡ none → lookup k (delete_if p m) ≡ none
  unfolding lookup delete_if
  lookup-delete_if-none p k [] h = refl
  lookup-delete_if-none p k ((j, w) ∷ m) h = ground (arith, lookup-delete_if-none p k m)

  pub delete_if-IsDistinct :
      (p : V → Bool) (m : Map K V) → IsDistinct m → IsDistinct (delete_if p m)
  unfolding delete_if
  delete_if-IsDistinct p [] d = d
  delete_if-IsDistinct p ((j, w) ∷ m) d =
      ground (arith, lookup-delete_if-none p j m d.0, delete_if-IsDistinct p m d.1)

  -- After a sweep a key is there exactly if it was and its value did not pass the test.
  pub lookup-delete_if :
      (p : V → Bool) (k : K) (m : Map K V)
      → IsDistinct m
      → lookup k (delete_if p m) ≡ kept p (lookup k m)
  unfolding lookup delete_if
  lookup-delete_if p k [] d = refl
  lookup-delete_if p k ((j, w) ∷ m) d =
      ground (arith, e.beq_iff j k, lookup-delete_if p k m d.1, lookup-delete_if-none p j m d.0)
