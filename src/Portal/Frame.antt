-- ===== src/Portal/Frame.antt =====
-- What a call of one repository leaves of the others, and what its result says of it.
use open_xai_connect.Base.{
  nat_eqs, string_eqs, Option-cases, int_eqs, Error, Result, ok, err, ◌≡◌, refl, inl, inr,
}
use open_xai_connect.Base.Exec.{Exec, continue, ◌>>=◌}
use open_xai_connect.Store.Applications.{Applications}
use open_xai_connect.Store.Consents.{Consents}
use open_xai_connect.Portal.World.{World, Env, M, on_users, on_hydra, on_apps, on_consents}

module _ {H U : Type 0} where
  -- Hydra, the users and the consents are as before.
  abbrev pub Untouched : World H U → World H U → Type 0
  Untouched w w' = (w'.hydra ≡ w.hydra) × (w'.users ≡ w.users) × (w'.consents ≡ w.consents)

module _ {H U A : Type 0} (P : Result A × World H U → Type 0) (w : World H U) where
  -- A call of the application repository: it fails before or inside the repository, or returns what
  -- the repository returns.
  pub on_apps-cases :
      (env : Env) (op : Exec Applications A)
      → ((a : A) (w' : World H U)
          → (op w.apps).0 ≡ ok a
          → w'.apps ≡ (op w.apps).1
          → Untouched w w'
          → P (ok a, w'))
      → ((e : Error) (w' : World H U) → Untouched w w' → P (err e, w'))
      → P (on_apps env op w)
  unfolding on_apps
  on_apps-cases env op h k = elim (Option-cases (env.fault w.step)) [
    | inr (x, e) ↦ rw (e, on_apps) (k x _ (refl, refl, refl))
    | inl e ↦
        rw (e, on_apps)
          (returned (op w.apps).0 _ (λ a f. h a _ f refl (refl, refl, refl))
            (λ x. k x _ (refl, refl, refl)))
  ]
    where
      returned :
          (r : Result A) (w' : World H U)
          → ((a : A) → r ≡ ok a → P (ok a, w'))
          → ((e : Error) → P (err e, w'))
          → P (r, w')
      returned (ok a) w' h k = h a refl
      returned (err e) w' h k = k e

  -- A call of the consent repository: the database refuses it, or the repository does it.
  pub on_consents-cases :
      (env : Env) (op : Exec Consents A)
      → ((w' : World H U)
          → (w'.hydra ≡ w.hydra)
          → (w'.users ≡ w.users)
          → w'.consents ≡ (op w.consents).1
          → P ((op w.consents).0, w'))
      → ((e : Error) (w' : World H U) → Untouched w w' → P (err e, w'))
      → P (on_consents env op w)
  unfolding on_consents
  on_consents-cases env op h k = elim (Option-cases (env.fault w.step)) [
    | inr (x, e) ↦ rw (e, on_consents) (k x _ (refl, refl, refl))
    | inl e ↦ rw (e, on_consents) (h _ refl refl refl)
  ]

  pub on_hydra-cases :
      (op : Exec H A)
      → ((a : A) (t : H) → op w.hydra ≡ (ok a, t) → P (ok a, record w { hydra = t }))
      → ((e : Error) (t : H) → op w.hydra ≡ (err e, t) → P (err e, record w { hydra = t }))
      → P (on_hydra op w)
  unfolding on_hydra
  on_hydra-cases op h k = ended (op w.hydra).0 (op w.hydra).1 refl
    where
      ended : (r : Result A) (t : H) → op w.hydra ≡ (r, t) → P (r, record w { hydra = t })
      ended (ok a) t e = h a t e
      ended (err x) t e = k x t e

  pub on_users-cases :
      (op : Exec U A)
      → ((a : A) (t : U) → op w.users ≡ (ok a, t) → P (ok a, record w { users = t }))
      → ((e : Error) (t : U) → op w.users ≡ (err e, t) → P (err e, record w { users = t }))
      → P (on_users op w)
  unfolding on_users
  on_users-cases op h k = ended (op w.users).0 (op w.users).1 refl
    where
      ended : (r : Result A) (t : U) → op w.users ≡ (r, t) → P (r, record w { users = t })
      ended (ok a) t e = h a t e
      ended (err x) t e = k x t e

-- The same for a call and what follows it.
module _ {H U A B : Type 0} (P : Result B × World H U → Type 0) (w : World H U)
    (f : A → M H U B) where
  pub on_hydra-then :
      (op : Exec H A)
      → ((a : A) (t : H) → op w.hydra ≡ (ok a, t) → P (f a (record w { hydra = t })))
      → ((e : Error) (t : H) → op w.hydra ≡ (err e, t) → P (err e, record w { hydra = t }))
      → P ((on_hydra op >>= f) w)
  unfolding ◌>>=◌
  on_hydra-then op h k = on_hydra-cases (λ p. P (continue p.0 f p.1)) w op h k

  pub on_users-then :
      (op : Exec U A)
      → ((a : A) (t : U) → op w.users ≡ (ok a, t) → P (f a (record w { users = t })))
      → ((e : Error) (t : U) → op w.users ≡ (err e, t) → P (err e, record w { users = t }))
      → P ((on_users op >>= f) w)
  unfolding ◌>>=◌
  on_users-then op h k = on_users-cases (λ p. P (continue p.0 f p.1)) w op h k

  pub on_apps-then :
      (env : Env) (op : Exec Applications A)
      → ((a : A) (w' : World H U)
          → (op w.apps).0 ≡ ok a
          → w'.apps ≡ (op w.apps).1
          → Untouched w w'
          → P (f a w'))
      → ((e : Error) (w' : World H U) → Untouched w w' → P (err e, w'))
      → P ((on_apps env op >>= f) w)
  unfolding ◌>>=◌
  on_apps-then env op h k = on_apps-cases (λ p. P (continue p.0 f p.1)) w env op h k

  pub on_consents-then :
      (env : Env) (op : Exec Consents A)
      → ((w' : World H U)
          → w'.hydra ≡ w.hydra
          → w'.users ≡ w.users
          → w'.consents ≡ (op w.consents).1
          → P (continue (op w.consents).0 f w'))
      → ((e : Error) (w' : World H U) → Untouched w w' → P (err e, w'))
      → P ((on_consents env op >>= f) w)
  unfolding ◌>>=◌
  on_consents-then env op h k = on_consents-cases (λ p. P (continue p.0 f p.1)) w env op h k
