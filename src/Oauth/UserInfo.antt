-- ===== src/Oauth/UserInfo.antt =====
-- internal/oauth/userinfo.go. A response is its status, the headers that the code sets beside the
-- content type, and its body; JSON encoding is left out.
use open_xai_connect.Base.{
  if◌then◌else◌, ◌==◌, nat_eqs, string_eqs, contains, trim_space, fields, Map, insert, ℤ, int_eqs,
  OauthError, Error, oauth, Result, ok, err, refuse_if, String, Bool, not, ◌&&◌, ◌||◌, Option, none,
  some, List, [], ◌∷◌,
}
use open_xai_connect.Base.Exec.{Exec, pure, raise, lift, failing_as, ◌>>=◌, ◌>>◌}
use open_xai_connect.Domain.Status.{ApplicationStatus, status_eqs}
use open_xai_connect.Domain.User.{User}
use open_xai_connect.Domain.Library.{Library}
use open_xai_connect.Hydra.Client.{TokenIntrospection, Client}
use open_xai_connect.Portal.World.{World, Env, StatusLookup, M, on_users, on_hydra, on_apps}
use open_xai_connect.Store.Applications.{get_by_client_id}
use open_xai_connect.Identity.StatusSnapshot.{StatusSnapshot, can_authenticate}
use open_xai_connect.Oauth.Scopes.{filter_scopes}

abbrev pub unauthorized : Error
unauthorized = oauth OauthError.unauthorized

-- The values of the claims; the keys are the claims' names.
pub data Claim : Type 0 where
  text : String → Claim
  number : ℤ → Claim
  flag : Bool → Claim

abbrev pub Claims : Type 0
Claims = Map String Claim

-- Any of the dependencies may be nil.
pub record UserInfoService (H U : Type 0) : Type 0 where
  pub hydra : Option (Client H)
  pub status : Option (StatusLookup U)
  pub users : Option (String → Exec U User)
  pub has_apps : Bool

unfoldable pub add_profile : Bool → User → Claims → Claims
add_profile shown user claims =
    if shown
    then insert "picture" (text user.avatar_url)
        (insert "name" (text user.name) (insert "preferred_username" (text user.username) claims))
    else claims

unfoldable pub add_email : Bool → StatusSnapshot → Claims → Claims
add_email shown status claims =
    if shown && not (trim_space status.email == "")
    then insert "email" (text status.email) claims
    else claims

unfoldable pub add_community : Bool → StatusSnapshot → Claims → Claims
add_community shown status claims =
    if shown
    then insert "silenced" (flag status.silenced) (
        insert "active" (flag status.active)
          (insert "trust_level" (number status.trust_level) claims))
    else claims

unfoldable pub claims_of : String → List String → User → StatusSnapshot → Claims
unfolding add_profile add_email add_community
claims_of subject scopes user status = add_community (contains scopes "community") status (
    add_email (contains scopes "email") status
      (add_profile (contains scopes "profile") user (insert "sub" (text subject) [])))

unfoldable pub inactive : TokenIntrospection → Bool
inactive token = not token.active || (token.subject == "") || (token.client_id == "")

-- What follows once the token and its application are found.
unfoldable pub claims_for :
    {H U : Type 0} → StatusLookup U → (String → Exec U User) → TokenIntrospection → M H U Claims
claims_for status users introspection = do
  current ← on_users (status introspection.subject)
  lift (refuse_if (not (can_authenticate current)) unauthorized)
  user ← on_users (users introspection.subject)
  scopes ← lift (filter_scopes (fields introspection.scope))
  pure (claims_of introspection.subject scopes user current)

module _ {H U : Type 0} (env : Env) where
  unfoldable pub claims_with :
      Client H → StatusLookup U → (String → Exec U User) → String → M H U Claims
  unfolding claims_for
  claims_with client status users token = do
    introspection ← on_hydra (client.introspect_token token)
    lift (refuse_if (inactive introspection) unauthorized)
    app ← on_apps env (get_by_client_id introspection.client_id)
    lift (refuse_if (not (app.status == ApplicationStatus.approved)) unauthorized)
    claims_for status users introspection

  -- Every failure is reported as the same error.
  unfoldable pub claims : UserInfoService H U → String → M H U Claims
  claims s token = elim s.hydra [
    | none ↦ raise unauthorized
    | some client ↦ elim s.status [
      | none ↦ raise unauthorized
      | some status ↦ elim s.users [
        | none ↦ raise unauthorized
        | some users ↦
            if not s.has_apps
            then raise unauthorized
            else failing_as (λ e. unauthorized) (claims_with client status users token)
      ]
    ]
  ]

-- What the handler answers.
pub data Answer : Type 0 where
  method_not_allowed : Answer
  invalid_token : Answer
  found : Claims → Answer

answer : Result Claims → Answer
answer (ok found_claims) = found found_claims
answer (err e) = invalid_token

module _ (go : Library) where
  open go use {to_lower}

  is_bearer : List String → Result String
  is_bearer (scheme ∷ token ∷ []) =
      if not (to_lower scheme == "bearer") || (token == "") then err unauthorized else ok token
  is_bearer _ = err unauthorized

  -- bearerToken; a field holds no white space, so the code's search for it finds none, and equality up
  -- to case is that of the lower-case texts
  unfoldable pub bearer_token : String → Result String
  unfolding is_bearer
  bearer_token authorization = is_bearer (fields (trim_space authorization))

  module _ {H U : Type 0} (env : Env) where
    unfoldable pub serve : UserInfoService H U → String → String → World H U → Answer × World H U
    unfolding answer
    serve s method authorization w =
        if not (method == "GET") && not (method == "POST")
        then (method_not_allowed, w)
        else (elim (bearer_token authorization) [
          | err e ↦ (invalid_token, w)
          | ok token ↦ let (r, w') = claims env s token w in (answer r, w')
        ])
