-- ===== src/Oauth/Accepted.antt =====
-- What an accepted login request promises.
use open_xai_connect.Base.{
  ◌==◌, nat_eqs, string_eqs, Option-cases, contains, eq_of_not_differs, ne_of_not_equal, or-false,
  and_or-false, of_not-false, fields, int_eqs, Error, ok, ◌>>◌, refuse_if, Result-cases, String,
  ◌≡◌, sym, ◌∙◌, ◌≢◌, inl, inr, Bool, true, false, not, ◌&&◌, ◌||◌, some, List, arith, eq_iff,
}
use open_xai_connect.Domain.Library.{Url, Library}
use open_xai_connect.Hydra.Client.{LoginRequest}
use open_xai_connect.Oauth.Scopes.{filter_scopes, same_strings}
use open_xai_connect.Oauth.Scopes.Laws.{named, filter_scopes_sound}
use open_xai_connect.Oauth.Scopes.Complete.{IsAllowed, same_strings_sound}
use open_xai_connect.Oauth.Request.{
  refused, query_value, not_authorization_url, bad_scope, lacks_pkce_nonce, validate_query,
  validate_parsed, validate_login_request_with_pkce_nonce,
}

-- The request is for the portal's authorization endpoint, of the client that Hydra names, back to an
-- address that the client registered, for a code, with a state, and for exactly the scopes that Hydra
-- read from it; the query carries a PKCE challenge and a nonce where they are required.
pub record IsAccepted (request : LoginRequest) (require : Bool) (parsed : Url) : Type 0 where
  pub https : parsed.scheme ≡ "https"
  pub endpoint : parsed.path ≡ "/oauth2/auth"
  pub client : query_value parsed "client_id" ≡ request.client.id
  pub named_client : request.client.id ≢ ""
  pub registered : contains request.client.redirect_uris (query_value parsed "redirect_uri") ≡ true
  pub code : query_value parsed "response_type" ≡ "code"
  pub stateful : query_value parsed "state" ≢ ""
  pub scopes :
      (x : String) → named (fields (query_value parsed "scope")) x ≡ named request.requested_scope x
  pub allowed : IsAllowed (fields (query_value parsed "scope"))
  pub openid : named (fields (query_value parsed "scope")) "openid" ≡ true
  pub method : require ≡ true → query_value parsed "code_challenge_method" ≡ "S256"
  pub challenge : require ≡ true → query_value parsed "code_challenge" ≢ ""
  pub nonce : require ≡ true → query_value parsed "nonce" ≢ ""

accepted_scopes :
    (request : LoginRequest) (asked : List String)
    → bad_scope request (filter_scopes asked) ≡ false
    → (scope : List String) × (filter_scopes asked ≡ ok scope)
      × (same_strings scope request.requested_scope ≡ true)
unfolding bad_scope
accepted_scopes request asked h = elim (Result-cases (filter_scopes asked)) [
  | inl (scope, e) ↦ (scope, e, ground arith)
  | inr (x, e) ↦ cc (rw e at h)
]

six_passed :
    (a b c d e f : Bool) (x : Error)
    → (refuse_if a x
        >> (refuse_if b x
            >> (refuse_if c x >> (refuse_if d x >> (refuse_if e x >> refuse_if f x)))))
      ≡ ok tt
    → (a ≡ false) × (b ≡ false) × (c ≡ false) × (d ≡ false) × (e ≡ false) × (f ≡ false)
six_passed a b c d e f x h = ground arith

validate_query-IsAccepted :
    (request : LoginRequest) (require : Bool) (parsed : Url)
    → not_authorization_url (some parsed) ≡ false
    → request.client.id ≢ ""
    → validate_query request require parsed ≡ ok tt
    → IsAccepted request require parsed
unfolding validate_query not_authorization_url lacks_pkce_nonce
validate_query-IsAccepted request require parsed url named_client h =
    let asked = fields (query_value parsed "scope") in
    let value = query_value parsed in
    let (a, b, c, d, e, f) =
      six_passed (not (value "client_id" == request.client.id))
        ((value "redirect_uri" == "")
          || not (contains request.client.redirect_uris (value "redirect_uri")))
        (not (value "response_type" == "code")) (bad_scope request (filter_scopes asked))
        (value "state" == "") (require && lacks_pkce_nonce parsed) refused h in
    let (uv, w) =
      or-false (not (parsed.scheme == "https") || (parsed.host == ""))
        (not (parsed.path == "/oauth2/auth")) url in
    let u = (or-false (not (parsed.scheme == "https")) (parsed.host == "") uv).0 in
    let pkce = λ (r : require ≡ true).
      and_or-false require (value "code_challenge" == "")
        (not (value "code_challenge_method" == "S256")) (value "nonce" == "") f r in
    let (scope, ok_scope, same) = accepted_scopes request asked d in
    let (names, unique, subset, has) = filter_scopes_sound asked scope ok_scope in
    record {
      https = eq_of_not_differs _ _ u;
      endpoint = eq_of_not_differs _ _ w;
      client = eq_of_not_differs _ _ a;
      named_client = named_client;
      registered = of_not-false _ (or-false _ _ b).1;
      code = eq_of_not_differs _ _ c;
      stateful = ne_of_not_equal _ _ e;
      scopes = λ x. sym (names x) ∙ same_strings_sound scope request.requested_scope unique same x;
      allowed = λ x p. subset x (names x ∙ p);
      openid = sym (names "openid") ∙ has;
      method = λ r. eq_of_not_differs _ _ (pkce r).1;
      challenge = λ r. ne_of_not_equal _ _ (pkce r).0;
      nonce = λ r. ne_of_not_equal _ _ (pkce r).2;
    }

module _ (go : Library) where
  open go use {parse_url}

  -- A login request that passes the check parses, and is as `IsAccepted` says.
  pub validate-IsAccepted :
      (request : LoginRequest) (require : Bool)
      → validate_login_request_with_pkce_nonce go request require ≡ ok tt
      → (parsed : Url) × (parse_url request.request_url ≡ some parsed)
        × IsAccepted request require parsed
  unfolding validate_login_request_with_pkce_nonce validate_parsed
  validate-IsAccepted request require h = elim (Option-cases (parse_url request.request_url)) [
    | inl e ↦ ground arith
    | inr (parsed, e) ↦
        let at_endpoint : not_authorization_url (some parsed) ≡ false = ground arith in
        let checked : validate_query request require parsed ≡ ok tt = ground arith in
        (
          parsed,
          e,
          validate_query-IsAccepted request require parsed at_endpoint
              (ground (arith, eq_iff request.client.id "")) checked,
        )
  ]
