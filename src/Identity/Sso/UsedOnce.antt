-- ===== src/Identity/Sso/UsedOnce.antt =====
-- internal/identity/sso.go: a state is used once, and a sign-in leads back to a path of the portal.
use open_xai_connect.Base.{
  nat_eqs, string_eqs, Bool-cases, Option-cases, All, trim_space, lookup, lookup-delete, IsDistinct,
  lookup-delete_if-none, ℤ, int_eqs, IdentityError, Error, identity, ok, err, Result-cases, String,
  ◌≡◌, refl, sym, ap, ◌∙◌, ◌≢◌, inl, inr, Option, none, some, List, [], ◌∷◌, arith, eq_iff,
}
use open_xai_connect.Base.Exec.{◌>>=◌}
use open_xai_connect.Base.Cases.{ok_inj, lift-passed}
use open_xai_connect.Domain.Application.{Time}
use open_xai_connect.Identity.SsoChecks.{
  SsoLibrary, SsoProvider, SsoCallback, validate_relative_return_to, check_callback,
}
use open_xai_connect.Identity.Sso.{
  PendingSso, PendingStates, SsoIdentity, has_expired, cleanup, redeem, take_state, complete,
}
use open_xai_connect.Identity.Sso.Invalid.{check_callback-IsInvalid}
use open_xai_connect.Identity.Sso.Laws.{take_state-never_expired}
use open_xai_connect.Identity.Sso.History.{
  SsoCall, call, calls, Avoids, in_swept, call-Change, Change-IsDistinct, Change-absent, IsChecked,
  Change-IsChecked,
}

-- A state that was taken is gone, and one that is not there is not found.
take_state-absent :
    (n : String) (id : ℤ) (now : Time) (s t : PendingStates) (found : SsoIdentity)
    → take_state n id now s ≡ (ok found, t)
    → lookup n t ≡ none
unfolding take_state
take_state-absent n id now s t found h =
    ap (lookup n) (ap (λ p. p.1) (sym h))
    ∙ ground (arith, eq_iff n n, lookup-delete n n (cleanup now s))

absent-refused :
    (n : String) (id : ℤ) (now : Time) (s : PendingStates)
    → lookup n s ≡ none
    → (take_state n id now s).0 ≡ err (identity IdentityError.sso_state_replay)
unfolding take_state cleanup redeem
absent-refused n id now s h = rw (lookup-delete_if-none (has_expired now) n s h) refl

-- What a completed sign-in came from.
taken-some :
    (n : String) (id : ℤ) (now : Time) (s t : PendingStates) (found : SsoIdentity)
    → take_state n id now s ≡ (ok found, t)
    → (q : PendingSso) × (lookup n (cleanup now s) ≡ some q) × (found.return_to ≡ q.return_to)
unfolding take_state redeem
taken-some n id now s t found h = elim (Option-cases (lookup n (cleanup now s))) [
  | inl e ↦ cc (rw e at h)
  | inr (q, e) ↦ elim (Bool-cases (has_expired now q)) [
    | inl x ↦ cc (rw (e, x) at h)
    | inr x ↦ (q, e, sym (ap (λ z. z.return_to) (ok_inj (ap (λ p. p.0) (rw (e, x) at h)))))
  ]
]

module _ (go : SsoLibrary) (p : SsoProvider) where
  complete-passed :
      (request : SsoCallback) (now : Time) (s t : PendingStates) (found : SsoIdentity)
      → complete go p (some request) now s ≡ (ok found, t)
      → (id : ℤ) × (take_state (trim_space request.state) id now s ≡ (ok found, t))
  unfolding complete
  complete-passed request now s t found h =
      let (id, _, taken) =
        lift-passed (check_callback go p request)
          (λ id. take_state (trim_space request.state) id now) s t found h in
      (id, taken)

  calls-absent :
      (n : String) (cs : List SsoCall) (s : PendingStates)
      → All (Avoids n) cs
      → lookup n s ≡ none
      → lookup n (calls go p cs s) ≡ none
  calls-absent n [] s a h = h
  calls-absent n (c ∷ cs) s (a, rest) h =
      calls-absent n cs (call go p c s) rest (Change-absent go p n (call-Change go p c s) a h)

  -- A state that signed a user in cannot be used again: after any calls of Begin that do not draw
  -- it and of Complete, a callback with that state fails.
  pub complete-used_once :
      (first again : SsoCallback) (now later : Time) (s t : PendingStates) (found : SsoIdentity)
      (between : List SsoCall)
      → complete go p (some first) now s ≡ (ok found, t)
      → All (Avoids (trim_space first.state)) between
      → trim_space again.state ≡ trim_space first.state
      → (e : Error) × ((complete go p (some again) later (calls go p between t)).0 ≡ err e)
  unfolding complete ◌>>=◌
  complete-used_once first again now later s t found between h avoided same =
      let n = trim_space first.state in
      let (id, taken) = complete-passed first now s t found h in
      let gone = calls-absent n between t avoided (take_state-absent n id now s t found taken) in
      elim (Result-cases (check_callback go p again)) [
        | inr (x, e) ↦ (x, rw e refl)
        | inl (id', e) ↦ (
          identity IdentityError.sso_state_replay,
          rw e (
              absent-refused (trim_space again.state) id' later (calls go p between t)
                (ap (λ z. lookup z (calls go p between t)) same ∙ gone)),
        )
      ]

  IsSound : PendingStates → Type 0
  IsSound s = IsDistinct s × IsChecked go p s

  calls-IsSound : (cs : List SsoCall) (s : PendingStates) → IsSound s → IsSound (calls go p cs s)
  unfolding IsSound
  calls-IsSound [] s h = h
  calls-IsSound (c ∷ cs) s (d, h) =
      let change = call-Change go p c s in
      calls-IsSound cs (call go p c s)
        (Change-IsDistinct go p change d, Change-IsChecked go p change d h)

  -- After any calls on a new provider, a completed sign-in leads to a path that passed the check
  -- for relative paths.
  pub complete-relative :
      (before : List SsoCall) (request : SsoCallback) (now : Time) (t : PendingStates)
      (found : SsoIdentity)
      → complete go p (some request) now (calls go p before []) ≡ (ok found, t)
      → validate_relative_return_to go found.return_to ≡ ok tt
  unfolding IsSound lookup
  complete-relative before request now t found h =
      let s = calls go p before [] in
      let (d, checked) = calls-IsSound before [] (tt, λ n q e. cc e) in
      let (id, taken) = complete-passed request now s t found h in
      let (q, e, same) = taken-some (trim_space request.state) id now s t found taken in
      ap (validate_relative_return_to go) same
      ∙ checked (trim_space request.state) q (in_swept now (trim_space request.state) s q d e)

  -- After any calls on a new provider, no call of Complete reports an expired state, although the
  -- code has an error for it.
  pub complete-never_expired :
      (before : List SsoCall) (request : Option SsoCallback) (now : Time)
      → (complete go p request now (calls go p before [])).0
        ≢ err (identity IdentityError.sso_state_expired)
  unfolding complete IsSound lookup ◌>>=◌
  complete-never_expired before none now = λ e. cc e
  complete-never_expired before (some request) now =
      let s = calls go p before [] in
      let (d, checked) = calls-IsSound before [] (tt, λ n q e. cc e) in
      elim (Result-cases (check_callback go p request)) [
        | inr (x, e) ↦ rw e (λ h. cc (check_callback-IsInvalid go p request x e, h))
        | inl (id, e) ↦ rw e (take_state-never_expired (trim_space request.state) id now s d)
      ]
