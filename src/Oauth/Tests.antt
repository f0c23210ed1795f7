-- ===== src/Oauth/Tests.antt =====
-- Runs of the scope filter and of the check of login requests (internal/oauth/login.go).
use open_xai_connect.Base.{
  if◌then◌else◌, ◌==◌, nat_eqs, string_eqs, contains, trim_space, fields, lookup, int_eqs, ok,
  String, ◌≡◌, refl, true, false, none, some, List, [], ◌∷◌, arith, eq_iff,
}
use open_xai_connect.Domain.Library.{Url, Library}
use open_xai_connect.Hydra.Client.{LoginRequest}
use open_xai_connect.Oauth.Scopes.{
  allowed_scopes, collect_scopes, filter_scopes, all_in, same_strings,
}
use open_xai_connect.Oauth.Scopes.Laws.{named, IsSubset, IsUnique, filter_scopes_sound}
use open_xai_connect.Oauth.Scopes.Complete.{IsAllowed, filter_scopes_complete, same_strings_sound}
use open_xai_connect.Oauth.Request.{
  query_value, not_authorization_url, bad_scope, lacks_pkce_nonce, validate_query, validate_parsed,
  validate_login_request_with_pkce_nonce,
}
use open_xai_connect.Oauth.Accepted.{IsAccepted, validate-IsAccepted}

abbrev asked : List String
asked = " openid" ∷ "email" ∷ "openid" ∷ []

abbrev kept_scopes : List String
kept_scopes = "openid" ∷ "email" ∷ []

filter_scopes_sound_example :
    ((x : String) → contains kept_scopes x ≡ named asked x)
    × IsUnique kept_scopes
    × IsSubset kept_scopes allowed_scopes
    × (contains kept_scopes "openid" ≡ true)
unfolding filter_scopes collect_scopes trim_space contains
filter_scopes_sound_example = filter_scopes_sound asked kept_scopes refl

asked-IsAllowed : IsAllowed asked
unfolding contains named trim_space
asked-IsAllowed x h = ground (arith, eq_iff "openid" x, eq_iff "email" x)

filter_scopes_complete_example : (r : List String) × (filter_scopes asked ≡ ok r)
unfolding named trim_space
filter_scopes_complete_example = filter_scopes_complete asked asked-IsAllowed refl

same_strings_sound_example : contains kept_scopes "email" ≡ named asked "email"
unfolding same_strings filter_scopes collect_scopes trim_space contains all_in
same_strings_sound_example = same_strings_sound kept_scopes asked (refl, (refl, tt)) refl "email"

abbrev a_url : Url
a_url = record {
  scheme = "https";
  host = "id.example";
  hostname = "id.example";
  user = false;
  path = "/oauth2/auth";
  raw_query = "";
  fragment = "";
  query =
      ("client_id", "c1")
      ∷ ("redirect_uri", "https://forum.example/cb")
      ∷ ("response_type", "code")
      ∷ ("scope", "openid email")
      ∷ ("state", "xyz")
      ∷ ("code_challenge", "abc")
      ∷ ("code_challenge_method", "S256")
      ∷ ("nonce", "n")
      ∷ [];
}

-- The parser of one address.
abbrev one_address : Library
one_address = record {
  parse_url = λ text. if text == "https://id.example/oauth2/auth" then some a_url else none;
  is_ip = λ text. false;
  to_lower = λ text. text;
}

abbrev a_request : LoginRequest
a_request = record {
  challenge = "ch";
  client = record {
    id = "c1";
    name = "Forum";
    uri = "";
    policy_uri = "";
    logo_uri = "";
    redirect_uris = "https://forum.example/cb" ∷ [];
  };
  requested_scope = "email" ∷ "openid" ∷ [];
  subject = "";
  skip = false;
  session_id = "";
  request_url = "https://id.example/oauth2/auth";
}

validate-IsAccepted_example :
    (parsed : Url) × (one_address.parse_url "https://id.example/oauth2/auth" ≡ some parsed)
    × IsAccepted a_request true parsed
unfolding validate_login_request_with_pkce_nonce validate_parsed validate_query
    not_authorization_url bad_scope lacks_pkce_nonce query_value lookup filter_scopes collect_scopes
    same_strings all_in trim_space fields contains
validate-IsAccepted_example = validate-IsAccepted one_address a_request true refl
