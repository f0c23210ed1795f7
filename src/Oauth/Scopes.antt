-- ===== src/Oauth/Scopes.antt =====
-- internal/oauth/login.go: the scopes of a request.
pub mod Laws
pub mod Complete
use open_xai_connect.Base.{
  ◌>>=◌, ◌>>◌, nat_eq, if◌then◌else◌, ◌==◌, nat_eqs, string_eqs, length, contains, trim_space,
  int_eqs, OauthError, oauth, wrapped, Result, ok, err, refuse_if, String, Bool, true, false, not,
  ◌&&◌, ◌||◌, List, [], ◌∷◌, ◌++◌,
}

abbrev pub allowed_scopes : List String
allowed_scopes = "openid" ∷ "profile" ∷ "email" ∷ "community" ∷ "offline_access" ∷ []

-- The loop of FilterScopes. The keys of `seen` are the elements of `result`, so the set is not kept.
unfoldable pub collect_scopes : List String → List String → Result (List String)
collect_scopes result [] = ok result
collect_scopes result (raw ∷ rest) =
    let scope = trim_space raw in
    let skip = collect_scopes result rest in
    let keep = collect_scopes (result ++ scope ∷ []) rest in
    if scope == ""
    then skip
    else if not (contains allowed_scopes scope)
    then err (wrapped (oauth OauthError.invalid_authorization) "scope is not allowed")
    else if contains result scope
    then skip
    else keep

unfoldable pub filter_scopes : List String → Result (List String)
filter_scopes scopes = do
  result ← collect_scopes [] scopes
  refuse_if (nat_eq (length result) 0 || not (contains result "openid"))
      (wrapped (oauth OauthError.invalid_authorization) "openid scope is required")
  ok result

unfoldable pub all_in : List String → List String → Bool
all_in [] wanted = true
all_in (value ∷ rest) wanted = contains wanted value && all_in rest wanted

compare_filtered : List String → Result (List String) → Bool
compare_filtered left (err e) = false
compare_filtered left (ok filtered) = nat_eq (length left) (length filtered) && all_in left filtered

unfoldable pub same_strings : List String → List String → Bool
unfolding compare_filtered
same_strings left right = compare_filtered left (filter_scopes right)
