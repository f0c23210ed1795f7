-- ===== src/Oauth/Request.antt =====
-- internal/oauth/login.go: the check of a login request that Hydra hands to the portal.
use open_xai_connect.Base.{
  ◌==◌, nat_eqs, string_eqs, contains, fields, lookup, int_eqs, OauthError, Error, oauth, Result,
  ok, err, Check, ◌>>◌, refuse_if, String, Bool, true, not, ◌&&◌, ◌||◌, Option, none, some, List,
}
use open_xai_connect.Domain.Library.{Url, Library}
use open_xai_connect.Hydra.Client.{LoginRequest}
use open_xai_connect.Oauth.Scopes.{filter_scopes, same_strings}

abbrev pub refused : Error
refused = oauth OauthError.invalid_authorization

-- values.Get(key)
value_of : Option String → String
value_of none = ""
value_of (some v) = v

unfoldable pub query_value : Url → String → String
unfolding value_of
query_value parsed key = value_of (lookup key parsed.query)

unfoldable pub not_authorization_url : Option Url → Bool
not_authorization_url none = true
not_authorization_url (some parsed) =
    not (parsed.scheme == "https") || (parsed.host == "") || not (parsed.path == "/oauth2/auth")

unfoldable pub bad_scope : LoginRequest → Result (List String) → Bool
bad_scope request (err e) = true
bad_scope request (ok scope) =
    not (same_strings scope request.requested_scope) || not (contains scope "openid")

unfoldable pub lacks_pkce_nonce : Url → Bool
lacks_pkce_nonce values =
    (query_value values "code_challenge" == "")
    || not (query_value values "code_challenge_method" == "S256")
    || (query_value values "nonce" == "")

-- The checks of the query, once the URL is known to be the authorization endpoint.
unfoldable pub validate_query : LoginRequest → Bool → Url → Check
unfolding bad_scope lacks_pkce_nonce
validate_query request require_pkce_nonce values = do
  refuse_if (not (query_value values "client_id" == request.client.id)) refused
  refuse_if
      ((query_value values "redirect_uri" == "")
        || not (contains request.client.redirect_uris (query_value values "redirect_uri")))
      refused
  refuse_if (not (query_value values "response_type" == "code")) refused
  refuse_if (bad_scope request (filter_scopes (fields (query_value values "scope")))) refused
  refuse_if (query_value values "state" == "") refused
  refuse_if (require_pkce_nonce && lacks_pkce_nonce values) refused

unfoldable pub validate_parsed : LoginRequest → Bool → Option Url → Check
unfolding validate_query
validate_parsed request require none = err refused
validate_parsed request require (some parsed) = do
  refuse_if (not_authorization_url (some parsed)) refused
  validate_query request require parsed

module _ (go : Library) where
  open go use {parse_url}

  unfoldable pub validate_login_request_with_pkce_nonce : LoginRequest → Bool → Check
  unfolding validate_parsed not_authorization_url
  validate_login_request_with_pkce_nonce request require = do
    refuse_if
        ((request.challenge == "") || (request.client.id == "") || (request.request_url == ""))
        refused
    validate_parsed request require (parse_url request.request_url)

  unfoldable pub validate_login_request : LoginRequest → Check
  validate_login_request request = validate_login_request_with_pkce_nonce request true
