-- ===== src/Oauth/ConsentEnd.antt =====
-- internal/oauth/consent.go: every way in which Accept may end.
use open_xai_connect.Base.{
  ◌==◌, nat_eqs, string_eqs, eq_of_not_differs, ne_of_not_equal, or-false, of_not-false, int_eqs,
  Result, ok, suc, String, ◌≡◌, refl, sym, ap, ◌∙◌, inl, inr, Bool, true, not, ◌||◌, some, List,
  subst,
}
use open_xai_connect.Base.Exec.{◌>>=◌}
use open_xai_connect.Domain.Application.{Time, Duration, Application}
use open_xai_connect.Hydra.Client.{ConsentRequest, Client}
use open_xai_connect.Identity.StatusSnapshot.{StatusSnapshot, can_authenticate}
use open_xai_connect.Portal.World.{World, Env, StatusLookup, now}
use open_xai_connect.Portal.Frame.{on_users-then, on_apps-then, on_consents-then}
use open_xai_connect.Store.Consents.{put}
use open_xai_connect.Store.Applications.{Applications, get_by_client_id}
use open_xai_connect.Oauth.Grant.{consent_denied, new_consent, consent_acceptance, select_scopes}
use open_xai_connect.Base.Cases.{guard-cases, bind-cases, lift-then}
use open_xai_connect.Oauth.Consent.{request_with, hand_over, store_consent, accept_request, accept}
use open_xai_connect.Oauth.Granted.{
  select_scopes-IsChosen, HandEnd, hand_over-HandEnd, IsEntitled, ConsentEnd,
}
use open_xai_connect.Oauth.ConsentSafety.{
  IsRequested, OnlyAsked, RequestEnd, request_with-RequestEnd,
}

module _ {H U : Type 0} (env : Env) (client : Client H) (status : StatusLookup U)
    (remember_for : Duration) (challenge subject : String) (granted : List String)
    (remember : Bool) where
  End : World H U → Result String × World H U → Type 0
  End w p = ConsentEnd env client status remember_for challenge subject granted remember w p

  handed-End :
      (w w' : World H U) (request : ConsentRequest) (current : StatusSnapshot)
      (selected : List String)
      (entitled : IsEntitled env client status remember_for challenge subject granted remember w
        request current selected)
      (at : Time)
      → w'.hydra ≡ (client.get_consent_request challenge w.hydra).1
      → w'.consents
        ≡ (put (new_consent subject entitled.requested.app.id selected remember at) w.consents).1
      → End w (
          hand_over env client challenge subject entitled.requested.app.id
            (consent_acceptance remember_for selected remember current)
            w')
  unfolding End
  handed-End w w' request current selected entitled at h c =
      let id = entitled.requested.app.id in
      let acceptance = consent_acceptance remember_for selected remember current in
      let p = hand_over env client challenge subject id acceptance w' in
      let ended = hand_over-HandEnd env client challenge subject id acceptance w' in
      inr (record {
        request = request;
        current = current;
        selected = selected;
        entitled = entitled;
        at = at;
        ended =
            subst
              (λ z.
                HandEnd env client challenge subject id acceptance z
                  (put (new_consent subject id selected remember at) w.consents).1 p)
              h
              (subst (λ z. HandEnd env client challenge subject id acceptance w'.hydra z p) c
                ended);
      })

  store-End :
      (w w' : World H U) (request : ConsentRequest) (current : StatusSnapshot)
      (selected : List String) (app : Application)
      (entitled : IsEntitled env client status remember_for challenge subject granted remember w
        request current selected)
      → app ≡ entitled.requested.app
      → w'.hydra ≡ (client.get_consent_request challenge w.hydra).1
      → w'.consents ≡ w.consents
      → End w
          (store_consent env client remember_for challenge subject selected remember current app w')
  unfolding End store_consent now ◌>>=◌ put
  store-End w w' request current selected app entitled e h c =
      let w1 : World H U = record w' { step = suc w'.step } in
      on_consents-then (End w) w1
        (λ _.
          hand_over env client challenge subject app.id
            (consent_acceptance remember_for selected remember current))
        env (put (new_consent subject app.id selected remember (env.clock w'.step)))
        (λ w2 h' u c'.
          let at = env.clock w'.step in
          let stored =
            c'
            ∙ ap (λ z. (put (new_consent subject z.id selected remember at) w'.consents).1) e
            ∙ ap
                (λ z.
                  (put (new_consent subject entitled.requested.app.id selected remember at) z).1)
                c in
          subst
            (λ z. End w (
              hand_over env client challenge subject z.id
                (consent_acceptance remember_for selected remember current) w2))
            (sym e) (handed-End w w2 request current selected entitled at (h' ∙ h) stored))
        (λ x w2 (h', u, c'). inl (x, refl, h' ∙ h, c' ∙ c))

  app_eq :
      (request : ConsentRequest) (app other : Application) (held held' : Applications)
      → held' ≡ held
      → (get_by_client_id request.client.id held).0 ≡ ok other
      → (get_by_client_id request.client.id held').0 ≡ ok app
      → app ≡ other
  app_eq request app other held held' e found found' =
      cc (sym found' ∙ ap (λ m. (get_by_client_id request.client.id m).0) e ∙ found)

  accept_request-End :
      (w w' : World H U) (request : ConsentRequest)
      → OnlyAsked env client challenge w w'
      → IsRequested env client challenge w request
      → w'.apps ≡ w.apps
      → End w (
          accept_request env client status remember_for challenge subject granted remember request
            w')
  unfolding End accept_request ◌>>=◌ get_by_client_id
  accept_request-End w w' request (h, u, c) requested held =
      guard-cases (End w) (not (request.subject == subject) || (subject == "")) consent_denied _ w'
        (λ _. inl (_, refl, h, c))
        (λ same.
          on_users-then (End w) w' _ (status subject)
            (λ current t known.
              let w1 : World H U = record w' { users = t } in
              guard-cases (End w) (not (can_authenticate current)) consent_denied _ w1
                (λ _. inl (_, refl, h, c))
                (λ may.
                  lift-then (End w) w1 _ (select_scopes request.requested_scope granted)
                    (λ selected e.
                      on_apps-then (End w) w1
                        (store_consent env client remember_for challenge subject selected remember
                          current)
                        env (get_by_client_id request.client.id)
                        (λ app w2 found held' (h', u', c').
                          let (a, b) =
                            or-false (not (request.subject == subject)) (subject == "") same in
                          let entitled : IsEntitled env client status remember_for challenge subject
                              granted remember w request current selected =
                            record {
                              requested = requested;
                              same_subject = eq_of_not_differs _ _ a;
                              named_subject = ne_of_not_equal _ _ b;
                              known = ap (λ x. (status subject x).0) (sym u) ∙ ap (λ p. p.0) known;
                              may_authenticate = of_not-false _ may;
                              chosen =
                                  select_scopes-IsChosen request.requested_scope granted selected e;
                            } in
                          store-End w w2 request current selected app entitled
                            (app_eq request app requested.app w.apps w'.apps held requested.found
                              found)
                            (h' ∙ h) (c' ∙ c))
                        (λ x w2 (h', u', c'). inl (x, refl, h' ∙ h, c' ∙ c)))
                    (λ x _. inl (x, refl, h, c))))
            (λ x t _. inl (x, refl, h, c)))

  -- However a consent is accepted, either the call fails with the stored consents as they were and
  -- Hydra only asked for the request, or Hydra was handed an acceptance: then the request is for
  -- the client of an approved application and for the given non-empty subject, whose current status
  -- may authenticate, the scopes handed over are allowed ones that the request asks for, with
  -- openid, and the consent stays stored where Hydra agrees and is deleted where it does not,
  -- unless the database refuses the deletion.
  pub accept-ConsentEnd :
      (w : World H U)
      → ConsentEnd env client status remember_for challenge subject granted remember w (
          accept env
            (record {
              hydra = some client;
              status = some status;
              has_apps = true;
              has_consents = true;
              remember_for = remember_for;
            })
            challenge
            subject
            granted
            remember
            w)
  unfolding accept End
  accept-ConsentEnd w =
      bind-cases (End w) (request_with env client challenge)
        (accept_request env client status remember_for challenge subject granted remember) w
        (λ request w' e.
          let (asked, found) =
            subst (RequestEnd env client challenge w) e
              (request_with-RequestEnd env client challenge w) in
          let (requested, held) = found request refl in
          accept_request-End w w' request asked requested held)
        (λ x w' e.
          let ((h, u, c), found) =
            subst (RequestEnd env client challenge w) e
              (request_with-RequestEnd env client challenge w) in
          inl (x, refl, h, c))
