-- ===== src/Reviews/Http.antt =====
-- internal/reviews/http.go: the pages for reviewers and administrators. Pages are named, without
-- their text.
use open_xai_connect.Base.{
  if◌then◌else◌, ◌==◌, nat_eqs, string_eqs, trim_space, contains_char, int_eqs, String, not, ◌||◌,
  none, some,
}
use open_xai_connect.Domain.Status.{status_eqs}
use open_xai_connect.Domain.Application.{Time}
use open_xai_connect.Portal.World.{Env, StatusLookup, on_users}
use open_xai_connect.Portal.Page.{Page, ask, ask_sessions, has_valid_token, csrf_token_of}
use open_xai_connect.Identity.StatusSnapshot.{StatusSnapshot}
use open_xai_connect.Session.Http.{HttpHandler, current, session_id}
use open_xai_connect.Session.Csrf.{Keyed}
use open_xai_connect.Reviews.Service.{Reviewing, list_pending, approve, request_changes, reject}
use open_xai_connect.Reviews.Forms.{
  ReviewForm, AdminStats, ReviewReply, error_page, redirect, review_queue, admin_overview,
  method_not_allowed_for, not_found, ReviewHttpHandler, reviewed_id, no_stats, counted_statuses,
  count_statuses, layout_for,
}

module _ {H U S : Type 0} where
  -- currentSubject, before what a page does for the subject
  unfoldable pub as_subject :
      ReviewHttpHandler U S
      → ReviewForm
      → Time
      → (Reviewing U → HttpHandler S → String → Page ReviewReply H U S)
      → Page ReviewReply H U S
  as_subject h form now f = elim h.sessions [
    | none ↦ (λ s. (error_page 503, s))
    | some sessions ↦ elim h.service [
      | none ↦ (λ s. (error_page 503, s))
      | some service ↦
          ask_sessions (current sessions form.cookies now)
            (λ e. redirect 302 "/connect/login?return_to=%2Fconnect%2Freview")
            λ session. f service sessions session.user_subject
    ]
  ]

module _ {H U S : Type 0} (env : Env) where
  unfoldable pub answer_decision :
      Reviewing U → String → String → String → String → Page ReviewReply H U S
  answer_decision service subject id decision reason =
      let done : Unit {0} → Page ReviewReply H U S = λ _ s. (redirect 303 "/connect/review", s) in
      if decision == "approve"
      then ask (approve env service subject id reason) (λ e. error_page 400) done
      else if decision == "changes"
      then ask (request_changes env service subject id reason) (λ e. error_page 400) done
      else if decision == "reject"
      then ask (reject env service subject id reason) (λ e. error_page 400) done
      else (λ s. (error_page 400, s))

module _ {H U S : Type 0} (crypto : Keyed) (env : Env) where
  unfoldable pub list_page : ReviewHttpHandler U S → ReviewForm → Time → Page ReviewReply H U S
  unfolding as_subject layout_for
  list_page h form now =
      if not (form.method == "GET")
      then (λ s. (method_not_allowed_for "GET", s))
      else as_subject h form now λ service sessions subject.
        ask (list_pending env service subject) (λ e. error_page 403)
          λ apps.
            ask (layout_for crypto h sessions form subject "review") (λ e. error_page 500)
              λ layout s. (
                review_queue apps (csrf_token_of crypto h.csrf (session_id sessions form.cookies))
                    layout,
                s,
              )

  unfoldable pub decide_for :
      ReviewHttpHandler U S
      → ReviewForm
      → Reviewing U
      → HttpHandler S
      → String
      → Page ReviewReply H U S
  unfolding answer_decision reviewed_id
  decide_for h form service sessions subject =
      let id = reviewed_id form.path in
      if not (has_valid_token crypto h.csrf (session_id sessions form.cookies) form.csrf_token)
      then (λ s. (error_page 403, s))
      else if (id == "") || contains_char b'/' id
      then (λ s. (not_found, s))
      else answer_decision env service subject id form.decision (trim_space form.reason)

  unfoldable pub decide_page : ReviewHttpHandler U S → ReviewForm → Time → Page ReviewReply H U S
  unfolding as_subject decide_for
  decide_page h form now =
      if not (form.method == "POST")
      then (λ s. (method_not_allowed_for "POST", s))
      else as_subject h form now (decide_for h form)

  unfoldable pub show_stats :
      ReviewHttpHandler U S
      → ReviewForm
      → HttpHandler S
      → String
      → AdminStats
      → Page ReviewReply H U S
  unfolding layout_for
  show_stats h form sessions subject stats =
      ask (layout_for crypto h sessions form subject "admin") (λ e. error_page 500)
        λ layout s. (admin_overview stats layout, s)

  unfoldable pub overview_to :
      ReviewHttpHandler U S
      → ReviewForm
      → HttpHandler S
      → String
      → StatusSnapshot
      → Page ReviewReply H U S
  unfolding count_statuses show_stats
  overview_to h form sessions subject status s =
      if not status.admin
      then (error_page 403, s)
      else ask (count_statuses env counted_statuses no_stats) (λ e. error_page 500)
          (show_stats h form sessions subject) s

  unfoldable pub overview_for :
      ReviewHttpHandler U S
      → ReviewForm
      → StatusLookup U
      → HttpHandler S
      → String
      → Page ReviewReply H U S
  unfolding overview_to
  overview_for h form lookup_status sessions subject =
      ask (on_users (lookup_status subject)) (λ e. error_page 503)
        (overview_to h form sessions subject)

  unfoldable pub overview_with :
      ReviewHttpHandler U S
      → ReviewForm
      → Reviewing U
      → HttpHandler S
      → String
      → Page ReviewReply H U S
  unfolding overview_for
  overview_with h form service sessions subject s = elim h.status [
    | none ↦ (error_page 503, s)
    | some lookup_status ↦
        if not service.has_apps
        then (error_page 503, s)
        else overview_for h form lookup_status sessions subject s
  ]

  unfoldable pub overview_page : ReviewHttpHandler U S → ReviewForm → Time → Page ReviewReply H U S
  unfolding as_subject overview_with
  overview_page h form now s =
      if not (form.method == "GET")
      then (method_not_allowed_for "GET", s)
      else as_subject h form now (overview_with h form) s
