-- ===== src/Reviews/Decided.antt =====
-- internal/reviews/http.go: what a request must show before a decision is made.
use open_xai_connect.Base.{
  ◌==◌, nat_eqs, string_eqs, Bool-cases, eq_of_not_differs, int_eqs, ok, Result-cases, String, ◌≡◌,
  refl, ◌⊎◌, inl, inr, true, not, Option, some,
}
use open_xai_connect.Domain.Status.{status_eqs}
use open_xai_connect.Domain.Application.{Time}
use open_xai_connect.Portal.World.{Env, StatusLookup}
use open_xai_connect.Portal.Page.{Site, ask_sessions, has_valid_token, valid_token-passed}
use open_xai_connect.Session.Memory.{Session}
use open_xai_connect.Session.Http.{HttpHandler, current, session_id}
use open_xai_connect.Session.Csrf.{Keyed, Csrf, verify}
use open_xai_connect.Reviews.Service.{Reviewing}
use open_xai_connect.Reviews.Forms.{ReviewForm, ReviewReply, ReviewHttpHandler}
use open_xai_connect.Reviews.Http.{as_subject, decide_for, decide_page}

abbrev pub handler_of :
    {U S : Type 0}
    → Reviewing U
    → Option (StatusLookup U)
    → HttpHandler S
    → Option Csrf
    → ReviewHttpHandler U S
handler_of service status sessions csrf = record {
  service = some service;
  status = status;
  sessions = some sessions;
  csrf = csrf;
}

module _ {H U S : Type 0} (crypto : Keyed) (sessions : HttpHandler S) (csrf : Option Csrf)
    (form : ReviewForm) (now : Time) where
  -- What stands behind a decision.
  pub record IsReviewDecision (s : Site H U S) : Type 0 where
    pub session : Session
    pub live : (current sessions form.cookies now s.sessions).0 ≡ ok session
    pub posted : form.method ≡ "POST"
    pub signer : Csrf
    pub signs : csrf ≡ some signer
    pub sid : String
    pub own_session : session_id sessions form.cookies ≡ ok sid
    pub own_form : verify crypto (some signer) sid form.csrf_token ≡ true

  abbrev pub DecideEnd : Site H U S → ReviewReply × Site H U S → Type 0
  DecideEnd s (reply, s') = (s'.world ≡ s.world) ⊎ IsReviewDecision s

  module _ (env : Env) (service : Reviewing U) (status : Option (StatusLookup U)) where
    decide_for-DecideEnd :
        (s s' : Site H U S) (session : Session)
        → (current sessions form.cookies now s.sessions).0 ≡ ok session
        → form.method ≡ "POST"
        → s'.world ≡ s.world
        → DecideEnd s (
            decide_for crypto env
              (handler_of service status sessions csrf)
              form
              service
              sessions
              session.user_subject
              s')
    unfolding decide_for
    decide_for-DecideEnd s s' session live posted same =
        elim (Bool-cases
          (not (has_valid_token crypto csrf (session_id sessions form.cookies) form.csrf_token))) [
            | inl v ↦ rw (v, decide_for) (inl same)
            | inr v ↦
                let (c, signs, (sid, own_session, own_form)) =
                  valid_token-passed crypto csrf (session_id sessions form.cookies) form.csrf_token
                    v in
                inr (record {
                  session = session;
                  live = live;
                  posted = posted;
                  signer = c;
                  signs = signs;
                  sid = sid;
                  own_session = own_session;
                  own_form = own_form;
                })
          ]

    -- However a request to decide about an application is answered, either the repositories, the
    -- users and Hydra are as before, or the request was a POST with a live session, and its form
    -- carries a token that verifies for the session id in the cookie.
    pub decide_page-DecideEnd :
        (s : Site H U S)
        → DecideEnd s (
            decide_page crypto env
              (record {
                service = some service;
                status = status;
                sessions = some sessions;
                csrf = csrf;
              })
              form
              now
              s)
    unfolding decide_page as_subject ask_sessions
    decide_page-DecideEnd s = elim (Bool-cases (not (form.method == "POST"))) [
      | inl e ↦ rw (e, decide_page) (inl refl)
      | inr e ↦ elim (Result-cases (current sessions form.cookies now s.sessions).0) [
        | inr (x, f) ↦ rw (e, f, decide_page) (inl refl)
        | inl (session, f) ↦
            rw (e, f, decide_page)
              (decide_for-DecideEnd s
                (record s { sessions = (current sessions form.cookies now s.sessions).1 }) session f
                (eq_of_not_differs _ _ e) refl)
      ]
    ]
