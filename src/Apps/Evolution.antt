-- ===== src/Apps/Evolution.antt =====
-- How applications may change between two states of the repository, and the steps of the services
-- (internal/apps, internal/reviews) that change them so.
pub mod Steps
pub mod Drafts
pub mod Creation
pub mod Approved
pub mod Worker
use open_xai_connect.Base.{
  if◌then◌else◌, ◌==◌, nat_eqs, string_eqs, lookup, insert, delete, lookup-insert, lookup-delete,
  int_eqs, String, ◌≡◌, refl, sym, ◌∙◌, ◌≢◌, Bool, true, false, Option, none, some, arith, eq_iff,
  subst,
}
use open_xai_connect.Domain.Status.{ApplicationStatus, draft, provisioning, status_eqs}
use open_xai_connect.Domain.Application.{Application}
use open_xai_connect.Domain.Lifecycle.{Life, here, Life-trans}
use open_xai_connect.Portal.Triple.{Implies}
use open_xai_connect.Store.Applications
use open_xai_connect.Store.Applications.{Applications}

-- What stands under an id before and after: a new application started as a draft, one that stayed
-- kept its id and its owner and moved along its life, one that is gone was not being provisioned.
abbrev pub Allowed : String → Option Application → Option Application → Type 0
Allowed id none none = Unit {0}
Allowed id none (some y) = (y.id ≡ id) × Life ApplicationStatus.draft y.status
Allowed id (some x) none = x.status ≢ ApplicationStatus.provisioning
Allowed id (some x) (some y) =
    (y.id ≡ id) × (y.owner_subject ≡ x.owner_subject) × Life x.status y.status

-- Every application stands under its own id.
unfoldable pub IsKeyed : Applications → Type 0
IsKeyed m = (id : String) (a : Application) → lookup id m ≡ some a → a.id ≡ id

unfoldable pub Evolves : Applications → Applications → Type 0
Evolves a0 m = (id : String) → Allowed id (lookup id a0) (lookup id m)

Allowed-same :
    (id : String) (o : Option Application)
    → ((a : Application) → o ≡ some a → a.id ≡ id)
    → Allowed id o o
Allowed-same id none k = tt
Allowed-same id (some x) k = (k x refl, refl, here)

pub Evolves-refl : (m : Applications) → IsKeyed m → Evolves m m
unfolding Evolves IsKeyed
Evolves-refl m k id = Allowed-same id (lookup id m) (k id)

Allowed-keyed :
    (id : String) (o : Option Application) (a : Application) → Allowed id o (some a) → a.id ≡ id
Allowed-keyed id none a (e, _) = e
Allowed-keyed id (some x) a (e, _, _) = e

pub Evolves-IsKeyed : (a0 m : Applications) → Evolves a0 m → IsKeyed m
unfolding Evolves IsKeyed
Evolves-IsKeyed a0 m h id a e =
    Allowed-keyed id (lookup id a0) a (subst (Allowed id (lookup id a0)) e (h id))

Allowed-if :
    (k : String) (o : Option Application) (b : Bool) (p q : Option Application)
    → (b ≡ true → Allowed k o p)
    → Allowed k o q
    → Allowed k o (if b then p else q)
Allowed-if k o true p q f g = f refl
Allowed-if k o false p q f g = g

module _ (a0 : Applications) (id : String) where
  -- The state evolved from `a0`, and `a` stands under the id.
  unfoldable pub At : Application → Applications → Type 0
  At a m = Evolves a0 m × (lookup id m ≡ some a)

  pub At-Evolves : (a : Application) → Implies (At a) (Evolves a0)
  unfolding At
  At-Evolves a m h = h.0

  pub At-Allowed :
      (a : Application) (m : Applications) → At a m → Allowed id (lookup id a0) (some a)
  unfolding At Evolves
  At-Allowed a m h = subst (Allowed id (lookup id a0)) h.1 (h.0 id)

  pub At-id : (a : Application) (m : Applications) → At a m → a.id ≡ id
  At-id a m h = Allowed-keyed id (lookup id a0) a (At-Allowed a m h)

  pub insert-At :
      (y : Application) (m : Applications)
      → Evolves a0 m
      → Allowed id (lookup id a0) (some y)
      → At y (insert id y m)
  unfolding At Evolves
  insert-At y m h a = (
    λ k. subst (Allowed k (lookup k a0)) (sym (lookup-insert id k y m)) (
        Allowed-if k (lookup k a0) (id == k) (some y) (lookup k m)
          (λ e. subst (λ j. Allowed j (lookup j a0) (some y)) (ground (arith, eq_iff id k)) a)
          (h k)),
    ground (arith, lookup-insert id id y m, eq_iff id id),
  )

  pub delete-Evolves :
      (m : Applications) → Evolves a0 m → Allowed id (lookup id a0) none → Evolves a0 (delete id m)
  unfolding Evolves
  delete-Evolves m h a k = subst (Allowed k (lookup k a0)) (sym (lookup-delete id k m)) (
      Allowed-if k (lookup k a0) (id == k) none (lookup k m)
        (λ e. subst (λ j. Allowed j (lookup j a0) none) (ground (arith, eq_iff id k)) a) (h k))

-- What an application that stayed may become next.
pub Allowed-next :
    (id : String) (o : Option Application) (a y : Application)
    → Allowed id o (some a)
    → y.id ≡ a.id
    → y.owner_subject ≡ a.owner_subject
    → Life a.status y.status
    → Allowed id o (some y)
Allowed-next id none a y (e, l) i w k = (i ∙ e, Life-trans l k)
Allowed-next id (some x) a y (e, o, l) i w k = (i ∙ e, w ∙ o, Life-trans l k)
