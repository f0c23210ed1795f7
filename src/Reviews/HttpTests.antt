-- ===== src/Reviews/HttpTests.antt =====
-- Runs of the review pages (internal/reviews/http.go): a decision with a forged form token, the id in a
-- path, and an administrator's overview of one approved application.
use open_xai_connect.Base.{
  nat_eqs, string_eqs, trim_space, lookup, int_eqs, ok, ℕ, ◌≡◌, refl, true, none, some, [], ◌∷◌,
}
use open_xai_connect.Base.Exec.{pure, ◌>>=◌}
use open_xai_connect.Portal.World.{StatusLookup, on_apps}
use open_xai_connect.Portal.Page.{Site, ask_sessions, has_valid_token}
use open_xai_connect.Store.Users.{Users}
use open_xai_connect.Session.Http.{current, session_id, initialized}
use open_xai_connect.Session.Csrf.{verify, token, signed}
use open_xai_connect.Reviews.Service.{Reviewing}
use open_xai_connect.Reviews.Forms.{
  ReviewForm, AdminStats, error_page, ReviewHttpHandler, reviewed_id, no_stats, set_count,
  counted_statuses, count_statuses,
}
use open_xai_connect.Store.Applications.{list_by_status, values_if, sort_by_created}
use open_xai_connect.Reviews.Http.{as_subject, decide_for, decide_page, overview_page}
use open_xai_connect.Reviews.Decided.{handler_of, DecideEnd, decide_page-DecideEnd}
use open_xai_connect.Reviews.OverviewPage.{OverviewEnd, overview_page-OverviewEnd}
use open_xai_connect.Oauth.Fixture.{a_status, no_faults, a_world, toy, browser, a_signer}

abbrev reviewing : Reviewing Users
reviewing = record { access = none; has_apps = true; has_outbox = true; has_audit = true }

abbrev an_admin : StatusLookup Users
an_admin subject = pure (record a_status { admin = true })

abbrev review_pages : ReviewHttpHandler Users (Unit {0})
review_pages = handler_of reviewing (some an_admin) browser (some a_signer)

abbrev forged_form : ReviewForm
forged_form = record {
  method = "POST";
  path = "/connect/review/a1/";
  cookies = ("connect", "sid") ∷ [];
  decision = "approve";
  reason = "fine";
  csrf_token = "forged";
}

abbrev review_site : Site ℕ Users (Unit {0})
review_site = record { world = a_world; sessions = tt }

path_run : reviewed_id "/connect/review/a1/" ≡ "a1"
unfolding reviewed_id
path_run = refl

forged_run : (decide_page toy no_faults review_pages forged_form 5 review_site).0 ≡ error_page 403
unfolding decide_page as_subject decide_for ask_sessions has_valid_token current initialized
    session_id verify token signed lookup trim_space ◌>>=◌
forged_run = refl

decide_page-DecideEnd_example :
    DecideEnd toy browser
      (some a_signer)
      forged_form
      5
      review_site
      (decide_page toy no_faults review_pages forged_form 5 review_site)
decide_page-DecideEnd_example =
    decide_page-DecideEnd toy browser (some a_signer) forged_form 5 no_faults reviewing
      (some an_admin) review_site

abbrev overview_form : ReviewForm
overview_form = record forged_form { method = "GET"; path = "/connect/admin" }

abbrev shown_stats : AdminStats
shown_stats = record no_stats { total = 1; approved = 1 }

count_run :
    (count_statuses {U = Users} no_faults counted_statuses no_stats a_world).0 ≡ ok shown_stats
unfolding count_statuses set_count on_apps list_by_status values_if sort_by_created ◌>>=◌
count_run = refl

overview_page-OverviewEnd_example :
    OverviewEnd review_pages overview_form 5 review_site
      (overview_page toy no_faults review_pages overview_form 5 review_site).0
overview_page-OverviewEnd_example =
    overview_page-OverviewEnd toy no_faults review_pages overview_form 5 review_site
