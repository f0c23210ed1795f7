-- ===== src/Oauth/Granted.antt =====
-- internal/oauth/consent.go: what a consent that the portal hands to Hydra grants, and what is stored
-- of it.
use open_xai_connect.Base.{
  ◌==◌, nat_eqs, string_eqs, Bool-cases, contains, of_not-false, int_eqs, Error, wrapped, Result,
  ok, err, Result-cases, refuse_if-passed, String, ◌≡◌, refl, sym, ap, ◌∙◌, ◌≢◌, ◌⊎◌, inl, inr,
  Bool, true, not, List, [], ◌∷◌, arith, eq_iff, subst,
}
use open_xai_connect.Base.Exec.{renamed, raise, failing_as, continue, ◌>>=◌}
use open_xai_connect.Domain.Application.{Time, Duration}
use open_xai_connect.Hydra.Client.{ConsentRequest, ConsentAcceptance, Client}
use open_xai_connect.Identity.StatusSnapshot.{StatusSnapshot, can_authenticate}
use open_xai_connect.Portal.World.{World, Env, StatusLookup}
use open_xai_connect.Portal.Frame.{on_consents-cases, on_hydra-cases}
use open_xai_connect.Store.Consents.{Consents, put, delete_consent}
use open_xai_connect.Oauth.Scopes.{filter_scopes}
use open_xai_connect.Oauth.Scopes.Laws.{IsSubset, filter_scopes_sound}
use open_xai_connect.Oauth.Grant.{
  consent_denied, refuse_unrequested, new_consent, consent_acceptance, select_filtered,
  select_scopes,
}
use open_xai_connect.Oauth.Consent.{answered, hand_over}
use open_xai_connect.Oauth.ConsentSafety.{IsRequested}

-- The scopes that are granted are allowed ones that the request asks for, openid among them.
pub record IsChosen (asked granted selected : List String) : Type 0 where
  pub requested : List String
  pub filtered : filter_scopes asked ≡ ok requested
  pub chosen : filter_scopes granted ≡ ok selected
  pub among : IsSubset selected requested
  pub openid : contains selected "openid" ≡ true

refuse_unrequested-passed :
    (requested selected : List String)
    → refuse_unrequested requested selected ≡ ok tt
    → IsSubset selected requested
unfolding refuse_unrequested contains
refuse_unrequested-passed requested [] h x p = cc p
refuse_unrequested-passed requested (y ∷ rest) h x p =
    let (shown, more) =
      refuse_if-passed (not (contains requested y))
        (wrapped consent_denied "scope was not requested") (refuse_unrequested requested rest) h in
    elim (Bool-cases (y == x)) [
      | inl e ↦ subst (λ z. contains requested z ≡ true) ((eq_iff y x).0 e) (of_not-false _ shown)
      | inr e ↦ refuse_unrequested-passed requested rest more x (ground arith)
    ]

checked-IsChosen :
    (asked granted requested selected : List String)
    → filter_scopes asked ≡ ok requested
    → filter_scopes granted ≡ ok selected
    → refuse_unrequested requested selected ≡ ok tt
    → IsChosen asked granted selected
checked-IsChosen asked granted requested selected a b c = record {
  requested = requested;
  filtered = a;
  chosen = b;
  among = refuse_unrequested-passed requested selected c;
  openid = (filter_scopes_sound granted selected b).3;
}

select_filtered-IsChosen :
    (asked granted selected : List String) (a b : Result (List String))
    → filter_scopes asked ≡ a
    → filter_scopes granted ≡ b
    → select_filtered a b ≡ ok selected
    → IsChosen asked granted selected
unfolding select_filtered
select_filtered-IsChosen asked granted selected (err x) b h k p = cc p
select_filtered-IsChosen asked granted selected (ok requested) (err x) h k p = cc p
select_filtered-IsChosen asked granted selected (ok requested) (ok found) h k p =
    elim (Result-cases (refuse_unrequested requested found)) [
      | inl (tt, e) ↦
          subst (IsChosen asked granted) (cc (rw e at p))
            (checked-IsChosen asked granted requested found h k e)
      | inr (x, e) ↦ cc (rw e at p)
    ]

pub select_scopes-IsChosen :
    (asked granted selected : List String)
    → select_scopes asked granted ≡ ok selected
    → IsChosen asked granted selected
unfolding select_scopes
select_scopes-IsChosen asked granted selected h =
    select_filtered-IsChosen asked granted selected (filter_scopes asked) (filter_scopes granted)
      refl refl h

abbrev pub rollback_failed : Error → Error
rollback_failed x = wrapped x "Hydra consent failed and rollback failed"

-- What the call returns and which consents it leaves, by Hydra's answer: `stored` are the consents
-- with the new one, and the answer is passed on. After an error the pair's consent is deleted, unless
-- the database refuses that.
abbrev pub ConsentLeft :
    String → String → Consents → Result String → Result String → Consents → Type 0
ConsentLeft subject app_id stored (ok redirect) r left = (r ≡ ok redirect) × (left ≡ stored)
ConsentLeft subject app_id stored (err e) r left =
    ((r ≡ err e) × (left ≡ (delete_consent subject app_id stored).1))
    ⊎ ((x : Error) × (r ≡ err (rollback_failed x)) × (left ≡ stored))

module _ {H U : Type 0} (env : Env) (client : Client H) (challenge subject : String) where
  abbrev pub HandEnd :
      String → ConsentAcceptance → H → Consents → Result String × World H U → Type 0
  HandEnd app_id acceptance seen stored (r, w') =
      (answer : Result String) × (client.accept_consent challenge acceptance seen
        ≡ (answer, w'.hydra))
      × ConsentLeft subject app_id stored answer r w'.consents

  pub hand_over-HandEnd :
      (app_id : String) (acceptance : ConsentAcceptance) (w : World H U)
      → HandEnd app_id acceptance w.hydra w.consents
          (hand_over env client challenge subject app_id acceptance w)
  unfolding hand_over answered failing_as ◌>>=◌ delete_consent
  hand_over-HandEnd app_id acceptance w =
      let End = HandEnd app_id acceptance w.hydra w.consents in
      on_hydra-cases (λ p. End (answered env subject app_id p.0 p.1)) w
        (client.accept_consent challenge acceptance)
        (λ redirect t e. (ok redirect, e, (refl, refl)))
        (λ x t e.
          on_consents-cases (λ p. End (continue (renamed rollback_failed p.0) (λ _. raise x) p.1))
            (record w { hydra = t }) env (delete_consent subject app_id)
            (λ w' h u c. (err x, e ∙ ap (λ z. (err x, z)) (sym h), inl (refl, c)))
            (λ y w' (h, u, c). (err x, e ∙ ap (λ z. (err x, z)) (sym h), inr (y, refl, c))))

module _ {H U : Type 0} (env : Env) (client : Client H) (status : StatusLookup U)
    (remember_for : Duration) (challenge subject : String) (granted : List String)
    (remember : Bool) where
  -- The portal may hand the consent over: it is for the subject of the request, whose current status
  -- allows it, and for scopes of the request.
  pub record IsEntitled (w : World H U) (request : ConsentRequest) (current : StatusSnapshot)
      (selected : List String) : Type 0 where
    pub requested : IsRequested env client challenge w request
    pub same_subject : request.subject ≡ subject
    pub named_subject : subject ≢ ""
    pub known : (status subject w.users).0 ≡ ok current
    pub may_authenticate : can_authenticate current ≡ true
    pub chosen : IsChosen request.requested_scope granted selected

  -- A consent that is handed over: what Hydra answers to it, and what is left of it.
  pub record IsGranted (w : World H U) (r : Result String) (w' : World H U) : Type 0 where
    pub request : ConsentRequest
    pub current : StatusSnapshot
    pub selected : List String
    pub entitled : IsEntitled w request current selected
    pub at : Time
    pub ended :
        HandEnd env client challenge subject entitled.requested.app.id
          (consent_acceptance remember_for selected remember current)
          (client.get_consent_request challenge w.hydra).1
          (put (new_consent subject entitled.requested.app.id selected remember at) w.consents).1
          (r, w')

  abbrev pub ConsentEnd : World H U → Result String × World H U → Type 0
  ConsentEnd w (r, w') =
      ((e : Error) × (r ≡ err e)
        × (w'.hydra ≡ (client.get_consent_request challenge w.hydra).1)
        × (w'.consents ≡ w.consents))
      ⊎ IsGranted w r w'
