-- ===== src/Reviews/Forms.antt =====
-- internal/reviews/http.go: what the pages read and show: forms, the layout and the overview's counts.
use Prim.Native.Char.{code}
use open_xai_connect.Base.{
  nat_eq, if◌then◌else◌, ◌==◌, nat_eqs, string_eqs, length, trim_space, ℤ, int_eqs, Result, ok, err,
  ℕ, ◌+◌, String, Bool, false, ◌&&◌, ◌||◌, Option, none, some, List, [], ◌∷◌,
}
use open_xai_connect.Base.Exec.{pure, ◌>>=◌}
use open_xai_connect.Domain.Status.{ApplicationStatus, status_eqs}
use open_xai_connect.Domain.Application.{Application}
use open_xai_connect.Portal.World.{Env, M, StatusLookup, on_users, on_apps}
use open_xai_connect.Portal.Page.{csrf_token_of}
use open_xai_connect.Identity.StatusSnapshot.{StatusSnapshot}
use open_xai_connect.Store.Applications.{list_by_status}
use open_xai_connect.Session.Http.{HttpHandler, Cookies, session_id}
use open_xai_connect.Session.Csrf.{Keyed, Csrf}
use open_xai_connect.Reviews.Service.{Reviewing}

-- The parts of a request that the handlers read.
pub record ReviewForm : Type 0 where
  pub method : String
  pub path : String
  pub cookies : Cookies
  pub decision : String
  pub reason : String
  pub csrf_token : String

pub record AdminStats : Type 0 where
  pub total : ℕ
  pub draft : ℕ
  pub pending_review : ℕ
  pub provisioning : ℕ
  pub approved : ℕ
  pub changes_requested : ℕ
  pub rejected : ℕ
  pub revoked : ℕ

pub record Layout : Type 0 where
  pub active : String
  pub display_name : String
  pub username : String
  pub avatar_url : String
  pub subject : String
  pub trust_level : ℤ
  pub is_reviewer : Bool
  pub is_admin : Bool
  pub csrf_token : String

pub data ReviewReply : Type 0 where
  error_page : ℕ → ReviewReply
  redirect : ℕ → String → ReviewReply
  review_queue : List Application → String → Layout → ReviewReply
  admin_overview : AdminStats → Layout → ReviewReply
  method_not_allowed_for : String → ReviewReply
  not_found : ReviewReply

pub record ReviewHttpHandler (U S : Type 0) : Type 0 where
  pub service : Option (Reviewing U)
  pub status : Option (StatusLookup U)
  pub sessions : Option (HttpHandler S)
  pub csrf : Option Csrf

-- strings.TrimPrefix
after_prefix : String → String → Option String
after_prefix s String.[] = some s
after_prefix String.[] (String.◌∷◌ c p) = none
after_prefix (String.◌∷◌ d s) (String.◌∷◌ c p) =
    let rest = after_prefix s p in if nat_eq (code d) (code c) then rest else none

trim_prefix : String → String → String
unfolding after_prefix
trim_prefix s p = elim (after_prefix s p) [ none ↦ s | some rest ↦ rest ]

-- strings.Trim(s, "/")
trim_left_slashes : String → String
trim_left_slashes String.[] = String.[]
trim_left_slashes (String.◌∷◌ c s) =
    let rest = trim_left_slashes s in if nat_eq (code c) b'/' then rest else String.◌∷◌ c s

trim_right_slashes : String → String
trim_right_slashes String.[] = String.[]
trim_right_slashes (String.◌∷◌ c s) =
    let rest = trim_right_slashes s in
    if nat_eq (code c) b'/' && (rest == "") then String.[] else String.◌∷◌ c rest

unfoldable pub reviewed_id : String → String
unfolding trim_prefix trim_left_slashes trim_right_slashes
reviewed_id path = trim_right_slashes (trim_left_slashes (trim_prefix path "/connect/review/"))

abbrev pub no_stats : AdminStats
no_stats = record {
  total = 0;
  draft = 0;
  pending_review = 0;
  provisioning = 0;
  approved = 0;
  changes_requested = 0;
  rejected = 0;
  revoked = 0;
}

unfoldable pub set_count : ApplicationStatus → ℕ → AdminStats → AdminStats
set_count ApplicationStatus.draft n s = record s { draft = n }
set_count ApplicationStatus.pending_review n s = record s { pending_review = n }
set_count ApplicationStatus.provisioning n s = record s { provisioning = n }
set_count ApplicationStatus.approved n s = record s { approved = n }
set_count ApplicationStatus.changes_requested n s = record s { changes_requested = n }
set_count ApplicationStatus.rejected n s = record s { rejected = n }
set_count ApplicationStatus.revoked n s = record s { revoked = n }
set_count ApplicationStatus.unset n s = s

abbrev pub counted_statuses : List ApplicationStatus
counted_statuses =
    ApplicationStatus.draft ∷ ApplicationStatus.pending_review ∷ ApplicationStatus.provisioning
    ∷ ApplicationStatus.approved ∷ ApplicationStatus.changes_requested ∷ ApplicationStatus.rejected
    ∷ ApplicationStatus.revoked ∷ []

-- layoutFor, with what the status lookup says of the user
unfoldable pub dressed : Layout → Result StatusSnapshot → Layout
dressed layout (err e) = layout
dressed layout (ok s) = record layout {
  display_name = s.name;
  username = s.username;
  avatar_url = s.avatar_url;
  trust_level = s.trust_level;
  is_reviewer = s.reviewer || s.admin;
  is_admin = s.admin;
}

module _ {H U : Type 0} (env : Env) where
  unfoldable pub count_statuses : List ApplicationStatus → AdminStats → M H U AdminStats
  unfolding set_count
  count_statuses [] stats = pure stats
  count_statuses (status ∷ rest) stats = do
    applications ← on_apps env (list_by_status status)
    count_statuses rest (
        set_count status (length applications)
          (record stats { total = stats.total + length applications }))

module _ {H U S : Type 0} (crypto : Keyed) where
  unfoldable pub layout_for :
      ReviewHttpHandler U S → HttpHandler S → ReviewForm → String → String → M H U Layout
  unfolding dressed csrf_token_of
  layout_for h sessions form subject active =
      let layout : Layout = record {
        active = active;
        display_name = "";
        username = "";
        avatar_url = "";
        subject = subject;
        trust_level = ℤ.pos 0;
        is_reviewer = false;
        is_admin = false;
        csrf_token = csrf_token_of crypto h.csrf (session_id sessions form.cookies);
      } in
      elim h.status [
        | none ↦ pure layout
        | some lookup_status ↦ if trim_space subject == "" then pure layout else (λ w.
            let (r, w') = on_users (lookup_status subject) w in (ok (dressed layout r), w'))
      ]
