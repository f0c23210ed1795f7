-- ===== src/Base/Handler.antt =====
-- HTTP handlers: what they answer, and the state that they leave. The first failing step decides the
-- status that is answered.
use Prim.Native.Nat.{ℕ}
use mathlib.Core.Path.{◌≡◌, refl}
use open_xai_connect.Base.Errors.{Error, Result, Check, ok, err}
use open_xai_connect.Base.Exec.{Exec}

-- The status code and the error that the handler returns.
abbrev pub Handler : Type 0 → Type 0
Handler W = W → (ℕ × Check) × W

module _ {W : Type 0} where
  abbrev pub answer : ℕ → Handler W
  answer code w = ((code, ok tt), w)

  abbrev pub fail_with : ℕ → Error → Handler W
  fail_with code e w = ((code, err e), w)

  module _ {A : Type 0} where
    abbrev pub attempted : ℕ → Result A → (A → Handler W) → Handler W
    attempted code (ok a) f w = f a w
    attempted code (err e) f w = fail_with code e w

    -- `if err != nil { write the status; return err }`
    unfoldable pub attempt : ℕ → Exec W A → (A → Handler W) → Handler W
    attempt code m f w = let (r, w') = m w in attempted code r f w'

    -- A statement about how a handler ends holds if it holds of the failure and of the rest.
    pub attempt-cases :
        (P : (ℕ × Check) × W → Type 0) (code : ℕ) (m : Exec W A) (f : A → Handler W) (w : W)
        → ((a : A) (t : W) → m w ≡ (ok a, t) → P (f a t))
        → ((e : Error) (t : W) → m w ≡ (err e, t) → P (fail_with code e t))
        → P (attempt code m f w)
    unfolding attempt
    attempt-cases P code m f w h k = ended (m w).0 (m w).1 refl
      where
        ended : (r : Result A) (t : W) → m w ≡ (r, t) → P (attempted code r f t)
        ended (ok a) t e = h a t e
        ended (err x) t e = k x t e

    pub attempt_lift-cases :
        (P : (ℕ × Check) × W → Type 0) (code : ℕ) (r : Result A) (f : A → Handler W) (w : W)
        → ((a : A) → r ≡ ok a → P (f a w))
        → ((e : Error) → r ≡ err e → P (fail_with code e w))
        → P (attempt code (λ s. (r, s)) f w)
    unfolding attempt
    attempt_lift-cases P code (ok a) f w h k = h a refl
    attempt_lift-cases P code (err e) f w h k = k e refl
