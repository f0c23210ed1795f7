-- ===== src/Apps/Input.antt =====
-- internal/apps/service.go: the fields that an owner submits, and their checks.
use Prim.Native.String.{◌++◌ as append}
use mathlib.Core.List.{◌++◌}
use open_xai_connect.Base.{
  nat_eq, if◌then◌else◌, ◌==◌, nat_eqs, string_eqs, length, contains, trim_space, contains_char,
  has_prefix, contains_text, has_suffix, trim_dot, int_eqs, AppsError, Error, apps, wrapped, ok,
  err, Check, ◌>>◌, refuse_if, for_each, String, Bool, true, false, not, ◌&&◌, ◌||◌, Option, none,
  some, List, [], ◌∷◌,
}
use open_xai_connect.Domain.Library.{Url, Library}
use open_xai_connect.Domain.Input.{validate_application_input}

pub record DraftInput : Type 0 where
  pub name : String
  pub description : String
  pub logo_url : String
  pub callback_urls : List String
  pub verified_domains : List String
  pub require_pkce_nonce : Option Bool

unfoldable pub enabled_pkce_nonce : Option Bool → Bool
enabled_pkce_nonce none = true
enabled_pkce_nonce (some value) = value

abbrev pub invalid_input : Error
invalid_input = wrapped (apps AppsError.invalid_input) "invalid application input"

module _ (go : Library) where
  open go use {parse_url, is_ip, to_lower}

  hostname_is : Option Url → String → Bool
  hostname_is none value = false
  hostname_is (some parsed) value = parsed.hostname == value

  -- The keys of `seen` are the elements of `result`.
  normalize_from : List String → List String → List String
  unfolding hostname_is
  normalize_from result [] = result
  normalize_from result (raw ∷ rest) =
      let value = to_lower (trim_dot (trim_space raw)) in
      let skip = normalize_from result rest in
      let keep = normalize_from (result ++ value ∷ []) rest in
      if value == ""
      then skip
      else if not (hostname_is (parse_url (append "https://" value)) value)
          || contains_char b'*' value
          || is_ip value
      then skip
      else if contains result value
      then skip
      else keep

  unfoldable pub normalize_domains : List String → List String
  unfolding normalize_from
  normalize_domains values = normalize_from [] values

  unfoldable pub covered_by : String → List String → Bool
  covered_by host [] = false
  covered_by host (domain_name ∷ rest) =
      (host == domain_name) || has_suffix host (append "." domain_name) || covered_by host rest

  unfoldable pub callback_host : String → String
  callback_host callback = elim (parse_url callback) [
    | none ↦ to_lower (trim_dot "")
    | some parsed ↦ to_lower (trim_dot parsed.hostname)
  ]

  as_invalid : Check → Check
  as_invalid (ok _) = ok tt
  as_invalid (err e) = err invalid_input

  unfoldable pub validate_input : String → DraftInput → Check
  unfolding as_invalid
  validate_input subject input = do
    as_invalid (validate_application_input go input.name subject input.callback_urls)
    refuse_if (nat_eq (length input.verified_domains) 0) invalid_input
    for_each
        (λ callback.
          refuse_if
            (not (covered_by (callback_host callback) (normalize_domains input.verified_domains)))
            invalid_input)
        input.callback_urls
    refuse_if
        (not (input.logo_url == "")
          && (not (has_prefix input.logo_url "/assets/") || contains_text input.logo_url ".."))
        invalid_input
