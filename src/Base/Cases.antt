-- ===== src/Base/Cases.antt =====
-- How a chain of actions ended: what a successful chain passed through, and a case for each way in
-- which a step may end.
use open_xai_connect.Base.Errors.{Error, Result, ok, err, refuse_if}
use open_xai_connect.Base.Exec.{Exec, lift, continue, renamed, ◌>>=◌, ◌>>◌}
use mathlib.Core.Path.{◌≡◌, refl}
use mathlib.Core.Bool.{Bool, true, false}

pub pair_eq : {A B : Type 0} (p : A × B) {a : A} {b : B} → p.0 ≡ a → p.1 ≡ b → p ≡ (a, b)
pair_eq (u, v) x y = cc (x, y)

pub renamed-passed :
    {A : Type 0} (f : Error → Error) (r : Result A) (a : A) → renamed f r ≡ ok a → r ≡ ok a
renamed-passed f (ok b) a h = h
renamed-passed f (err x) a h = cc h

pub refuse_if-false : (b : Bool) (e : Error) (u : Unit {0}) → refuse_if b e ≡ ok u → b ≡ false
refuse_if-false true e u h = cc h
refuse_if-false false e u h = refl

pub ok_inj : {A : Type 0} {a b : A} → ok a ≡ ok b → a ≡ b
ok_inj h = cc h

module _ {W A : Type 0} where
  pub guard-passed :
      (b : Bool) (e : Error) (m : Exec W A) (s t : W) (a : A)
      → (lift (refuse_if b e) >> m) s ≡ (ok a, t)
      → (b ≡ false) × (m s ≡ (ok a, t))
  unfolding ◌>>=◌
  guard-passed true e m s t a h = cc h
  guard-passed false e m s t a h = (refl, h)

  -- A statement about the end of a guarded action holds if it holds of the refusal and of the rest.
  pub guard-cases :
      (P : Result A × W → Type 0) (b : Bool) (e : Error) (m : Exec W A) (s : W)
      → (b ≡ true → P (err e, s))
      → (b ≡ false → P (m s))
      → P ((lift (refuse_if b e) >> m) s)
  unfolding ◌>>=◌
  guard-cases P true e m s h k = h refl
  guard-cases P false e m s h k = k refl

module _ {W A B : Type 0} where
  pub lift-passed :
      (r : Result B) (f : B → Exec W A) (s t : W) (a : A)
      → (lift r >>= f) s ≡ (ok a, t)
      → (b : B) × (r ≡ ok b) × (f b s ≡ (ok a, t))
  unfolding ◌>>=◌
  lift-passed (ok b) f s t a h = (b, refl, h)
  lift-passed (err e) f s t a h = cc h

  continue-cases :
      (P : Result A × W → Type 0) (r : Result B) (t : W) (f : B → Exec W A)
      → ((b : B) → r ≡ ok b → P (f b t))
      → ((e : Error) → r ≡ err e → P (err e, t))
      → P (continue r f t)
  continue-cases P (ok b) t f h k = h b refl
  continue-cases P (err e) t f h k = k e refl

  -- The same for an action whose first step may fail.
  pub bind-cases :
      (P : Result A × W → Type 0) (m : Exec W B) (f : B → Exec W A) (s : W)
      → ((b : B) (t : W) → m s ≡ (ok b, t) → P (f b t))
      → ((e : Error) (t : W) → m s ≡ (err e, t) → P (err e, t))
      → P ((m >>= f) s)
  unfolding ◌>>=◌
  bind-cases P m f s h k =
      continue-cases P (m s).0 (m s).1 f (λ b e. h b (m s).1 (pair_eq (m s) e refl))
        (λ x e. k x (m s).1 (pair_eq (m s) e refl))

module _ {W A B : Type 0} where
  pub lift-then :
      (P : Result A × W → Type 0) (s : W) (f : B → Exec W A) (r : Result B)
      → ((b : B) → r ≡ ok b → P (f b s))
      → ((e : Error) → r ≡ err e → P (err e, s))
      → P ((lift r >>= f) s)
  unfolding ◌>>=◌
  lift-then P s f (ok b) h k = h b refl
  lift-then P s f (err e) h k = k e refl

module _ {W A B : Type 0} where
  -- A chain that succeeded: what its first step returned, and the rest.
  pub bind-passed :
      (m : Exec W B) (f : B → Exec W A) (s t : W) (a : A)
      → (m >>= f) s ≡ (ok a, t)
      → (b : B) × (u : W) × (m s ≡ (ok b, u)) × (f b u ≡ (ok a, t))
  bind-passed m f s t a h =
      bind-cases (λ p. p ≡ (ok a, t) → (b : B) × (u : W) × (m s ≡ (ok b, u)) × (f b u ≡ (ok a, t)))
        m f s (λ b u e k. (b, u, e, k)) (λ x u e k. cc k) h
