-- ===== src/Identity/Directory.antt =====
-- What the identity services share: the user repository of internal/store/store.go, which may fail for
-- a reason of the database's own, and Discourse behind identity.Provider, with a state of its own.
use open_xai_connect.Base.{
  nat_eqs, string_eqs, Option-cases, ℤ, int_eqs, Error, Result, ok, err, ℕ, suc, String, ◌≡◌, refl,
  inl, inr, Option, none, some,
}
use open_xai_connect.Base.Exec.{Exec}
use open_xai_connect.Domain.Application.{Time}
use open_xai_connect.Store.Users.{Users}
use open_xai_connect.Identity.UserSnapshot.{UserSnapshot}
use open_xai_connect.Portal.World.{Env}

pub record Directory (R : Type 0) : Type 0 where
  pub users : Users
  pub remote : R
  pub step : ℕ

-- identity.Provider, FetchUser
abbrev pub Provider : Type 0 → Type 0
Provider R = ℤ → Exec R UserSnapshot

abbrev pub D : Type 0 → Type 0 → Type 0
D R A = Exec (Directory R) A

module _ {R : Type 0} where
  unfoldable pub on_remote : {A : Type 0} → Exec R A → D R A
  on_remote op d = let (r, t) = op d.remote in (r, record d { remote = t })

  module _ (env : Env) where
    open env use {clock, fault, random}

    unfoldable pub time_of : D R Time
    time_of d = (ok (clock d.step), record d { step = suc d.step })

    unfoldable pub draw_text : D R (Option String)
    draw_text d = (ok (random d.step), record d { step = suc d.step })

    unfoldable pub on_directory : {A : Type 0} → Exec Users A → D R A
    on_directory op d = elim (fault d.step) [
      | some e ↦ (err e, record d { step = suc d.step })
      | none ↦ let (r, u) = op d.users in (r, record d { step = suc d.step; users = u })
    ]

module _ {R A : Type 0} (P : Result A × Directory R → Type 0) (d : Directory R) where
  -- A call of Discourse.
  pub on_remote-cases :
      (op : Exec R A)
      → ((a : A) (t : R) → op d.remote ≡ (ok a, t) → P (ok a, record d { remote = t }))
      → ((e : Error) (t : R) → op d.remote ≡ (err e, t) → P (err e, record d { remote = t }))
      → P (on_remote op d)
  unfolding on_remote
  on_remote-cases op h k = ended (op d.remote).0 (op d.remote).1 refl
    where
      ended : (r : Result A) (t : R) → op d.remote ≡ (r, t) → P (r, record d { remote = t })
      ended (ok a) t e = h a t e
      ended (err x) t e = k x t e

  -- A call of the user repository: the database refuses it, or it does what the repository does.
  pub on_directory-cases :
      (env : Env) (op : Exec Users A)
      → ((d' : Directory R)
          → d'.remote ≡ d.remote
          → d'.users ≡ (op d.users).1
          → d'.step ≡ suc d.step
          → P ((op d.users).0, d'))
      → ((e : Error) (d' : Directory R)
          → env.fault d.step ≡ some e
          → d'.remote ≡ d.remote
          → d'.users ≡ d.users
          → P (err e, d'))
      → P (on_directory env op d)
  unfolding on_directory
  on_directory-cases env op h k = elim (Option-cases (env.fault d.step)) [
    | inr (x, e) ↦ rw (e, on_directory) (k x _ e refl refl)
    | inl e ↦ rw (e, on_directory) (h _ refl refl refl)
  ]
