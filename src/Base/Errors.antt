-- ===== src/Base/Errors.antt =====
-- What a Go function that returns `(T, error)` returns: a value or an error, never both. The sentinel
-- errors of each package are the constructors of a type of their own.
use Prim.Native.String.{String}
use mathlib.Core.List.{List, [], ◌∷◌}
use mathlib.Core.Path.{◌≡◌, refl}
use mathlib.Core.Logic.{◌⊎◌, inl, inr}
use mathlib.Core.Bool.{Bool, true, false}

pub data StoreError : Type 0 where
  not_found conflict : StoreError

pub data AppsError : Type 0 where
  not_eligible open_application_limit not_owner invalid_state not_deletable : AppsError
  invalid_input sensitive_confirmation : AppsError

pub data ReviewsError : Type 0 where
  not_reviewer self_review reason_required not_pending : ReviewsError

pub data OauthError : Type 0 where
  invalid_authorization login_denied consent_denied app_unavailable unauthorized : OauthError

pub data IdentityError : Type 0 where
  invalid_sso sso_state_expired sso_state_replay sso_identity_denied : IdentityError
  invalid_signature expired_request replay identity_mismatch : IdentityError

-- `message` is errors.New or a fmt.Errorf that wraps nothing, `wrapped` a fmt.Errorf that wraps.
pub data Error : Type 0 where
  store : StoreError → Error
  invalid_transition : Error
  session_not_found : Error
  apps : AppsError → Error
  reviews : ReviewsError → Error
  oauth : OauthError → Error
  identity : IdentityError → Error
  message : String → Error
  wrapped : Error → String → Error

-- errors.Is(err, store.ErrNotFound)
unfoldable pub is_not_found : Error → Bool
is_not_found (store StoreError.not_found) = true
is_not_found (wrapped e text) = is_not_found e
is_not_found _ = false

pub data Result {ℓ} (A : Type ℓ) : Type ℓ where
  ok : A → Result A
  err : Error → Result A

-- A Go function that returns only an error.
abbrev pub Check : Type 0
Check = Result (Unit {0})

infixl 5 ◌>>=◌ ◌>>◌
abbrev pub ◌>>=◌ {ℓ κ} : {A : Type ℓ} {B : Type κ} → Result A → (A → Result B) → Result B
ok a >>= f = f a
err e >>= f = err e

abbrev pub ◌>>◌ {ℓ} : {B : Type ℓ} → Check → Result B → Result B
m >> k = m >>= λ _. k

-- `if refused { return e }`
abbrev pub refuse_if : Bool → Error → Check
refuse_if true e = err e
refuse_if false e = ok tt

-- A loop over a slice that returns at the first error.
abbrev pub for_each {ℓ} : {A : Type ℓ} → (A → Check) → List A → Check
for_each f [] = ok tt
for_each f (x ∷ xs) = f x >> for_each f xs

-- To split on a computed result and keep the equation.
pub Result-cases {ℓ} :
    {A : Type ℓ} (r : Result A) → ((a : A) × (r ≡ ok a)) ⊎ ((e : Error) × (r ≡ err e))
Result-cases (ok a) = inl (a, refl)
Result-cases (err e) = inr (e, refl)

-- Behind a guard that let the call pass, the test was false.
pub refuse_if-passed {ℓ} :
    {B : Type ℓ} (b : Bool) (e : Error) (k : Result B) {x : B}
    → (refuse_if b e >> k) ≡ ok x
    → (b ≡ false) × (k ≡ ok x)
refuse_if-passed true e k h = cc
refuse_if-passed false e k h = (refl, h)
