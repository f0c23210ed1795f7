-- ===== src/Reviews/OverviewPage.antt =====
-- internal/reviews/http.go: who sees the overview for administrators, on every branch of adminOverview.
use open_xai_connect.Base.{
  if◌then◌else◌, ◌==◌, nat_eqs, string_eqs, of_not-false, int_eqs, Error, Result, ok, err, String,
  ◌≡◌, refl, ◌≢◌, Bool, true, false, not, Option, none, some, arith, eq_iff,
}
use open_xai_connect.Domain.Application.{Time}
use open_xai_connect.Portal.World.{World, Env, StatusLookup, on_users}
use open_xai_connect.Portal.Page.{Site, shown, ask, ask_sessions}
use open_xai_connect.Identity.StatusSnapshot.{StatusSnapshot}
use open_xai_connect.Session.Memory.{Session}
use open_xai_connect.Session.Http.{HttpHandler, current}
use open_xai_connect.Session.Csrf.{Keyed, Csrf}
use open_xai_connect.Reviews.Service.{Reviewing}
use open_xai_connect.Reviews.Forms.{
  ReviewForm, AdminStats, Layout, ReviewReply, error_page, redirect, review_queue, admin_overview,
  method_not_allowed_for, not_found, ReviewHttpHandler, no_stats, counted_statuses, count_statuses,
  layout_for,
}
use open_xai_connect.Reviews.Http.{
  as_subject, show_stats, overview_to, overview_for, overview_with, overview_page,
}
use open_xai_connect.Reviews.Overview.{counted, StatsEnd, count_all-StatsEnd}

module _ {H U S : Type 0} (h : ReviewHttpHandler U S) (form : ReviewForm) (now : Time)
    (s : Site H U S) where
  -- What stands behind an overview with these counts.
  pub record IsOverview (stats : AdminStats) : Type 0 where
    pub method : form.method ≡ "GET"
    pub sessions : HttpHandler S
    pub keeps : h.sessions ≡ some sessions
    pub session : Session
    pub live : (current sessions form.cookies now s.sessions).0 ≡ ok session
    pub lookup_status : StatusLookup U
    pub asks : h.status ≡ some lookup_status
    pub status : StatusSnapshot
    pub found : (lookup_status session.user_subject s.world.users).0 ≡ ok status
    pub admin : status.admin ≡ true
    pub exact : stats ≡ counted s.world.apps

  -- The answers that are not an error page, and what stands behind each.
  abbrev pub OverviewEnd : ReviewReply → Type 0
  OverviewEnd (error_page code) = Unit {0}
  OverviewEnd (redirect code address) =
      (code ≡ 302)
      × (address ≡ "/connect/login?return_to=%2Fconnect%2Freview")
      × (sessions : HttpHandler S) × (h.sessions ≡ some sessions)
      × ((e : Error) × ((current sessions form.cookies now s.sessions).0 ≡ err e))
  OverviewEnd (method_not_allowed_for allowed) = form.method ≢ "GET"
  OverviewEnd (admin_overview stats layout) = IsOverview stats
  OverviewEnd (review_queue listed token layout) = ⊥
  OverviewEnd not_found = ⊥

  if-OverviewEnd :
      (b : Bool) (x y : ReviewReply × Site H U S)
      → OverviewEnd x.0
      → (b ≡ false → OverviewEnd y.0)
      → OverviewEnd (if b then x else y).0
  if-OverviewEnd true x y a k = a
  if-OverviewEnd false x y a k = k refl

  module _ (crypto : Keyed) (env : Env) (sessions : HttpHandler S) (subject : String)
      (lookup_status : StatusLookup U)
      (known : (status : StatusSnapshot) (stats : AdminStats)
        → (lookup_status subject s.world.users).0 ≡ ok status
        → status.admin ≡ true
        → stats ≡ counted s.world.apps
        → IsOverview stats) where
    laid-OverviewEnd :
        (t : S) (stats : AdminStats) (p : Result Layout × World H U)
        → IsOverview stats
        → OverviewEnd
            (shown
              (p.0, record { world = p.1; sessions = t })
              (λ e. error_page 500)
              (λ layout s. (admin_overview stats layout, s))).0
    laid-OverviewEnd t stats (ok layout, w) o = o
    laid-OverviewEnd t stats (err e, w) o = tt

    counted-OverviewEnd :
        (t : S) (status : StatusSnapshot) (p : Result AdminStats × World H U)
        → (lookup_status subject s.world.users).0 ≡ ok status
        → status.admin ≡ true
        → StatsEnd env s.world.apps p
        → OverviewEnd
            (shown
              (p.0, record { world = p.1; sessions = t })
              (λ e. error_page 500)
              (show_stats crypto env h form sessions subject)).0
    unfolding show_stats ask
    counted-OverviewEnd t status (ok stats, w) found admin exact =
        laid-OverviewEnd t stats (layout_for crypto h sessions form subject "admin" w)
          (known status stats found admin exact)
    counted-OverviewEnd t status (err e, w) found admin exact = tt

    found-OverviewEnd :
        (t : S) (w : World H U) (r : Result StatusSnapshot)
        → w.apps ≡ s.world.apps
        → (lookup_status subject s.world.users).0 ≡ r
        → OverviewEnd
            (shown
              (r, record { world = w; sessions = t })
              (λ e. error_page 503)
              (overview_to crypto env h form sessions subject)).0
    unfolding overview_to ask
    found-OverviewEnd t w (ok status) same found = if-OverviewEnd (not status.admin) _ _ tt λ e.
        counted-OverviewEnd t status (count_statuses env counted_statuses no_stats w) found
          (of_not-false _ e) (count_all-StatsEnd env s.world.apps w same)
    found-OverviewEnd t w (err e) same found = tt

    overview_for-OverviewEnd :
        (t : S)
        → OverviewEnd
            (overview_for crypto env h form lookup_status sessions subject
              (record s { sessions = t })).0
    unfolding overview_for ask on_users
    overview_for-OverviewEnd t = found-OverviewEnd t _ _ refl refl

module _ {H U S : Type 0} (crypto : Keyed) (env : Env) (form : ReviewForm) (now : Time)
    (csrf : Option Csrf) (s : Site H U S) where
  abbrev parts :
      Option (Reviewing U)
      → Option (StatusLookup U)
      → Option (HttpHandler S)
      → ReviewHttpHandler U S
  parts service status sessions = record {
    service = service;
    status = status;
    sessions = sessions;
    csrf = csrf;
  }

  -- What an administrator asks for, once there is a session.
  asked-OverviewEnd :
      (service : Reviewing U) (status : Option (StatusLookup U)) (sessions : HttpHandler S)
      (session : Session) (t : S)
      → form.method ≡ "GET"
      → (current sessions form.cookies now s.sessions).0 ≡ ok session
      → OverviewEnd
          (parts (some service) status (some sessions))
          form
          now
          s
          (overview_with crypto env
            (parts (some service) status (some sessions))
            form
            service
            sessions
            session.user_subject
            (record s { sessions = t })).0
  unfolding overview_with
  asked-OverviewEnd service none sessions session t method live = tt
  asked-OverviewEnd service (some lookup_status) sessions session t method live =
      if-OverviewEnd (parts (some service) (some lookup_status) (some sessions)) form now s
        (not service.has_apps) _ _ tt
        λ _.
          overview_for-OverviewEnd (parts (some service) (some lookup_status) (some sessions)) form
            now s crypto env sessions session.user_subject lookup_status
            (λ status stats found admin exact. record {
              method = method;
              sessions = sessions;
              keeps = refl;
              session = session;
              live = live;
              lookup_status = lookup_status;
              asks = refl;
              status = status;
              found = found;
              admin = admin;
              exact = exact;
            })
            t

  session-OverviewEnd :
      (service : Reviewing U) (status : Option (StatusLookup U)) (sessions : HttpHandler S)
      (r : Result Session) (t : S)
      → form.method ≡ "GET"
      → (current sessions form.cookies now s.sessions).0 ≡ r
      → OverviewEnd
          (parts (some service) status (some sessions))
          form
          now
          s
          (shown
            (r, record s { sessions = t })
            (λ e. redirect 302 "/connect/login?return_to=%2Fconnect%2Freview")
            (λ session.
              overview_with crypto env
                (parts (some service) status (some sessions))
                form
                service
                sessions
                session.user_subject)).0
  session-OverviewEnd service status sessions (ok session) t method live =
      asked-OverviewEnd service status sessions session t method live
  session-OverviewEnd service status sessions (err e) t method gone =
      (refl, refl, sessions, refl, (e, gone))

  subject-OverviewEnd :
      (service : Option (Reviewing U)) (status : Option (StatusLookup U))
      (sessions : Option (HttpHandler S))
      → form.method ≡ "GET"
      → OverviewEnd
          (parts service status sessions)
          form
          now
          s
          (as_subject
            (parts service status sessions)
            form
            now
            (overview_with crypto env (parts service status sessions) form)
            s).0
  unfolding as_subject ask_sessions
  subject-OverviewEnd service status none method = tt
  subject-OverviewEnd none status (some sessions) method = tt
  subject-OverviewEnd (some service) status (some sessions) method =
      session-OverviewEnd service status sessions _ _ method refl

module _ {H U S : Type 0} (crypto : Keyed) (env : Env) (h : ReviewHttpHandler U S)
    (form : ReviewForm) (now : Time) (s : Site H U S) where
  method-OverviewEnd :
      (b : Bool)
      → (form.method == "GET") ≡ b
      → OverviewEnd h form now s
          (if not b
            then (method_not_allowed_for "GET", s)
            else as_subject h form now (overview_with crypto env h form) s).0
  method-OverviewEnd true e =
      subject-OverviewEnd crypto env form now h.csrf s h.service h.status h.sessions
        (ground (arith, eq_iff form.method "GET"))
  method-OverviewEnd false e = λ get. ground (arith, eq_iff form.method "GET")

  -- The overview for administrators is shown only for a GET with a live session of a user whom the
  -- status lookup has just called an administrator, and its counts are those of the stored
  -- applications by status, with their sum as the total. Every other answer is an error page, a
  -- redirect to the login where the session does not load, or the refusal of a method that is not
  -- GET.
  pub overview_page-OverviewEnd : OverviewEnd h form now s (overview_page crypto env h form now s).0
  unfolding overview_page
  overview_page-OverviewEnd = method-OverviewEnd (form.method == "GET") refl
