-- ===== src/Oauth/Decided.antt =====
-- internal/oauth/http.go: a decision takes a session and a form of that session.
use open_xai_connect.Base.{
  ◌==◌, nat_eqs, string_eqs, Bool-cases, eq_of_not_differs, trim_space, int_eqs, Result, ok, err,
  Result-cases, String, ◌≡◌, refl, ◌⊎◌, inl, inr, Bool, true, not, ◌&&◌, Option, some,
}
use open_xai_connect.Domain.Application.{Time, Duration}
use open_xai_connect.Domain.Library.{Library}
use open_xai_connect.Hydra.Client.{ConsentRequest, Client}
use open_xai_connect.Portal.World.{World, Env, StatusLookup}
use open_xai_connect.Session.Memory.{Session}
use open_xai_connect.Session.Http.{HttpHandler, current, session_id}
use open_xai_connect.Session.Csrf.{Keyed, Csrf, verify}
use open_xai_connect.Oauth.Consent.{ConsentService, request_with, request_consent}
use open_xai_connect.Oauth.ConsentSafety.{RequestEnd, request_with-RequestEnd}
use open_xai_connect.Portal.Page.{
  Site, shown, ask, ask_sessions, has_valid_token, valid_token-passed,
}
use open_xai_connect.Oauth.Http.{
  ConsentForm, Reply, error_page, ConsentHttpHandler, answer_form, handle_with,
}

module _ {H U S : Type 0} (crypto : Keyed) (go : Library) (escape : String → String) (env : Env)
    (client : Client H) (service : ConsentService H U) (h : ConsentHttpHandler H U S)
    (sessions : HttpHandler S) (form : ConsentForm) (now : Time) where
  -- What stands behind a decision.
  pub record IsDecision (s : Site H U S) : Type 0 where
    pub session : Session
    pub live : (current sessions form.cookies now s.sessions).0 ≡ ok session
    pub posted : form.method ≡ "POST"
    pub csrf : Csrf
    pub signer : h.csrf ≡ some csrf
    pub sid : String
    pub own_session : session_id sessions form.cookies ≡ ok sid
    pub own_form : verify crypto (some csrf) sid form.csrf_token ≡ true

  -- Hydra was at most asked for the request, and the consents are as before.
  abbrev pub IsIdle : Site H U S → Site H U S → Type 0
  IsIdle s s' =
      ((s'.world.hydra ≡ s.world.hydra)
        ⊎ (s'.world.hydra
            ≡ (client.get_consent_request (trim_space form.consent_challenge) s.world.hydra).1))
      × (s'.world.consents ≡ s.world.consents)

  abbrev pub PageEnd : Site H U S → Reply × Site H U S → Type 0
  PageEnd s (reply, s') = IsIdle s s' ⊎ IsDecision s

  answer_form-PageEnd :
      (s s' : Site H U S) (challenge : String) (session : Session) (request : ConsentRequest)
      → (current sessions form.cookies now s.sessions).0 ≡ ok session
      → IsIdle s s'
      → PageEnd s
          (answer_form crypto go escape env h service sessions form challenge session request s')
  unfolding answer_form
  answer_form-PageEnd s s' challenge session request live idle =
      elim (Bool-cases
        (not (request.subject == "") && not (request.subject == session.user_subject))) [
          | inl e ↦ rw (e, answer_form) (inl idle)
          | inr e ↦ elim (Bool-cases (form.method == "GET")) [
            | inl g ↦ rw (e, g, answer_form) (inl idle)
            | inr g ↦ elim (Bool-cases (not (form.method == "POST"))) [
              | inl p ↦ rw (e, g, p, answer_form) (inl idle)
              | inr p ↦
                  elim (Bool-cases (
                    not (
                      has_valid_token crypto h.csrf (session_id sessions form.cookies)
                        form.csrf_token))) [
                          | inl v ↦ rw (e, g, p, v, answer_form) (inl idle)
                          | inr v ↦
                              let (c, signer, (sid, own_session, own_form)) =
                                valid_token-passed crypto h.csrf (session_id sessions form.cookies)
                                  form.csrf_token v in
                              inr (record {
                                session = session;
                                live = live;
                                posted = eq_of_not_differs _ _ p;
                                csrf = c;
                                signer = signer;
                                sid = sid;
                                own_session = own_session;
                                own_form = own_form;
                              })
                        ]
            ]
          ]
        ]

  found-PageEnd :
      (s : Site H U S) (t : S) (session : Session) (p : Result ConsentRequest × World H U)
      → (current sessions form.cookies now s.sessions).0 ≡ ok session
      → RequestEnd env client (trim_space form.consent_challenge) s.world p
      → PageEnd s (
          shown
            (p.0, record { world = p.1; sessions = t })
            (λ e. error_page 400)
            (answer_form crypto go escape env h service sessions form
              (trim_space form.consent_challenge)
              session))
  found-PageEnd s t session (ok request, w) live ((hydra, _, consents), _) =
      answer_form-PageEnd s (record { world = w; sessions = t }) (trim_space form.consent_challenge)
        session request live (inr hydra, consents)
  found-PageEnd s t session (err e, w) live ((hydra, _, consents), _) = inl (inr hydra, consents)

module _ {H U S : Type 0} (crypto : Keyed) (go : Library) (escape : String → String) (env : Env)
    (client : Client H) (status : Option (StatusLookup U)) (has_consents : Bool)
    (remember_for : Duration) (h : ConsentHttpHandler H U S) (sessions : HttpHandler S)
    (form : ConsentForm) (now : Time) where
  -- However the consent page is answered, either Hydra was at most asked for the request and the
  -- stored consents are as before, or the request was a POST with a live session, and its form
  -- carries a token that verifies for the session id in the cookie.
  pub handle_with-PageEnd :
      (s : Site H U S)
      → PageEnd crypto go escape env client
          (record {
            hydra = some client;
            status = status;
            has_apps = true;
            has_consents = has_consents;
            remember_for = remember_for;
          })
          h
          sessions
          form
          now
          s
          (handle_with crypto go escape env h
            (record {
              hydra = some client;
              status = status;
              has_apps = true;
              has_consents = has_consents;
              remember_for = remember_for;
            })
            sessions
            form
            now
            s)
  unfolding handle_with ask ask_sessions request_consent
  handle_with-PageEnd s =
      let service : ConsentService H U = record {
        hydra = some client;
        status = status;
        has_apps = true;
        has_consents = has_consents;
        remember_for = remember_for;
      } in
      let challenge = trim_space form.consent_challenge in
      elim (Bool-cases (challenge == "")) [
        | inl e ↦ rw (e, handle_with) (inl (inl refl, refl))
        | inr e ↦ elim (Result-cases (current sessions form.cookies now s.sessions).0) [
          | inr (x, f) ↦ rw (e, f, handle_with) (inl (inl refl, refl))
          | inl (session, f) ↦
              rw (e, f, handle_with)
                (found-PageEnd crypto go escape env client service h sessions form now s
                  (current sessions form.cookies now s.sessions).1 session
                  (request_with env client challenge s.world) f
                  (request_with-RequestEnd env client challenge s.world))
        ]
      ]
