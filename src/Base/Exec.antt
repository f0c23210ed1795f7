-- ===== src/Base/Exec.antt =====
-- Functions that change state and may fail. What was written before a failure stays written, so the
-- state comes back beside the error too.
use open_xai_connect.Base.Errors.{Error, Result, ok, err}

abbrev pub Exec {ℓ} : Type ℓ → Type ℓ → Type ℓ
Exec W A = W → Result A × W

abbrev pub renamed {ℓ} : {A : Type ℓ} → (Error → Error) → Result A → Result A
renamed f (ok a) = ok a
renamed f (err e) = err (f e)

module _ {ℓ} {W A : Type ℓ} where
  abbrev pub pure : A → Exec W A
  pure a w = (ok a, w)

  abbrev pub raise : Error → Exec W A
  raise e w = (err e, w)

  abbrev pub lift : Result A → Exec W A
  lift r w = (r, w)

  -- `if err != nil { handler; return err }`: the handler's own result is dropped
  unfoldable pub on_error : Exec W A → Exec W (Unit {ℓ}) → Exec W A
  on_error m handler w =
      let (r, w') = m w in elim r [ ok a ↦ (ok a, w') | err e ↦ (err e, (handler w').1) ]

  -- `if err != nil { return f(err) }`
  unfoldable pub failing_as : (Error → Error) → Exec W A → Exec W A
  failing_as f m w = let (r, w') = m w in (renamed f r, w')

module _ {ℓ} {W A B : Type ℓ} where
  abbrev pub continue : Result A → (A → Exec W B) → Exec W B
  continue (ok a) f w = f a w
  continue (err e) f w = (err e, w)

  infixl 5 ◌>>=◌ ◌>>◌
  unfoldable pub ◌>>=◌ : Exec W A → (A → Exec W B) → Exec W B
  ◌>>=◌ m f w = let (r, w') = m w in continue r f w'

  abbrev pub ◌>>◌ : Exec W A → Exec W B → Exec W B
  m >> n = m >>= λ _. n
