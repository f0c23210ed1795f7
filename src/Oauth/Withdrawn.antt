-- ===== src/Oauth/Withdrawn.antt =====
-- internal/oauth/consent.go: which consents a failed call of Accept leaves.
use open_xai_connect.Base.{
  ◌==◌, nat_eqs, string_eqs, lookup, insert, lookup-insert, lookup-delete, kept, int_eqs, Error,
  Result, ok, err, String, ◌≡◌, refl, ◌⊎◌, inl, inr, Bool, true, false, none, some, List, arith,
  eq_iff, subst,
}
use open_xai_connect.Domain.Application.{Duration}
use open_xai_connect.Domain.Records.{Consent}
use open_xai_connect.Hydra.Client.{Client}
use open_xai_connect.Portal.World.{World, Env, StatusLookup}
use open_xai_connect.Store.Consents.{Consents, consent_key, put, delete_consent}
use open_xai_connect.Oauth.Grant.{new_consent}
use open_xai_connect.Oauth.Consent.{accept}
use open_xai_connect.Oauth.Granted.{rollback_failed, ConsentLeft, ConsentEnd}
use open_xai_connect.Oauth.ConsentEnd.{accept-ConsentEnd}

-- The pair has no consent, and every other consent is as before.
abbrev pub IsWithdrawn : String → String → Consents → Consents → Type 0
IsWithdrawn subject app_id before after =
    (lookup (consent_key subject app_id) after ≡ none)
    × ((key : String)
        → (key == consent_key subject app_id) ≡ false
        → lookup key after ≡ lookup key before)

withdrawn :
    (c : Consent) (before after : Consents)
    → after ≡ (delete_consent c.user_subject c.application_id (put c before).1).1
    → IsWithdrawn c.user_subject c.application_id before after
unfolding delete_consent put
withdrawn c before after e =
    let id = consent_key c.user_subject c.application_id in
    (
      rw e (ground (arith, eq_iff id id, lookup-delete id id (insert id c before))),
      λ key other. rw e (
          ground (
            arith,
            eq_iff key id,
            eq_iff id key,
            lookup-delete id key (insert id c before),
            lookup-insert id key c before,
          )),
    )

-- What a failed call leaves.
abbrev pub FailedEnd : String → Error → Consents → Consents → Type 0
FailedEnd subject e before after =
    (after ≡ before)
    ⊎ ((app_id : String) × IsWithdrawn subject app_id before after)
    ⊎ ((x : Error) × (e ≡ rollback_failed x))

left-FailedEnd :
    (c : Consent) (answer r : Result String) (e : Error) (before after : Consents)
    → r ≡ err e
    → ConsentLeft c.user_subject c.application_id (put c before).1 answer r after
    → FailedEnd c.user_subject e before after
left-FailedEnd c (ok redirect) r e before after failed (h, k) = cc (failed, h)
left-FailedEnd c (err x) r e before after failed (inl (h, k)) =
    inr (inl (c.application_id, withdrawn c before after k))
left-FailedEnd c (err x) r e before after failed (inr (y, h, k)) = inr (inr (y, cc (failed, h)))

module _ {H U : Type 0} (env : Env) (client : Client H) (status : StatusLookup U)
    (remember_for : Duration) (challenge subject : String) (granted : List String)
    (remember : Bool) where
  -- A failed call of Accept leaves the stored consents as they were, or no consent for the pair of
  -- the user and one application and every other consent as it was, or it reports that the rollback
  -- failed.
  pub accept-FailedEnd :
      (w w' : World H U) (e : Error)
      → accept env
          (record {
            hydra = some client;
            status = some status;
            has_apps = true;
            has_consents = true;
            remember_for = remember_for;
          })
          challenge
          subject
          granted
          remember
          w
        ≡ (err e, w')
      → FailedEnd subject e w.consents w'.consents
  unfolding new_consent
  accept-FailedEnd w w' e h =
      elim (subst (ConsentEnd env client status remember_for challenge subject granted remember w) h
        (accept-ConsentEnd env client status remember_for challenge subject granted remember w)) [
          | inl (_, _, _, same) ↦ inl same
          | inr g ↦
              let (answer, _, kept) = g.ended in
              left-FailedEnd
                (new_consent subject g.entitled.requested.app.id g.selected remember g.at) answer
                (err e) e w.consents w'.consents refl kept
        ]
