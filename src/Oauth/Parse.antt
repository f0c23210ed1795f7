-- ===== src/Oauth/Parse.antt =====
-- internal/oauth/login.go: the parser of an authorization request.
use open_xai_connect.Base.{
  ◌==◌, nat_eqs, string_eqs, fields, int_eqs, Result, ok, err, ◌>>=◌, ◌>>◌, refuse_if, String, Bool,
  not, ◌||◌, Option, none, some, List,
}
use open_xai_connect.Domain.Library.{Url, Library}
use open_xai_connect.Oauth.Scopes.{filter_scopes}
use open_xai_connect.Oauth.Request.{refused, query_value, not_authorization_url}

pub record AuthorizationRequest : Type 0 where
  pub client_id : String
  pub redirect_uri : String
  pub response_type : String
  pub scope : List String
  pub state : String
  pub code_challenge : String
  pub code_challenge_method : String
  pub nonce : String

unfoldable pub request_of : Url → List String → AuthorizationRequest
request_of values scope = record {
  client_id = query_value values "client_id";
  redirect_uri = query_value values "redirect_uri";
  response_type = query_value values "response_type";
  scope = scope;
  state = query_value values "state";
  code_challenge = query_value values "code_challenge";
  code_challenge_method = query_value values "code_challenge_method";
  nonce = query_value values "nonce";
}

unfoldable pub is_incomplete : AuthorizationRequest → Bool
is_incomplete r =
    (r.client_id == "")
    || (r.redirect_uri == "")
    || not (r.response_type == "code")
    || (r.state == "")
    || (r.code_challenge == "")
    || not (r.code_challenge_method == "S256")
    || (r.nonce == "")

unfoldable pub parse_query : Url → Result AuthorizationRequest
unfolding request_of is_incomplete
parse_query values = do
  scope ← filter_scopes (fields (query_value values "scope"))
  refuse_if (is_incomplete (request_of values scope)) refused
  ok (request_of values scope)

parse_located : Option Url → Result AuthorizationRequest
parse_located none = err refused
parse_located (some parsed) = do
  refuse_if (not_authorization_url (some parsed)) refused
  parse_query parsed

unfoldable pub parse_authorization_request : Library → String → Result AuthorizationRequest
unfolding parse_located
parse_authorization_request go raw_url = parse_located (go.parse_url raw_url)
