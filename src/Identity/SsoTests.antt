-- ===== src/Identity/SsoTests.antt =====
-- Runs of the sign-in through Discourse (internal/identity/sso.go).
use open_xai_connect.Base.{
  if◌then◌else◌, ◌==◌, nat_eqs, string_eqs, trim_space, has_prefix, Map, lookup, insert, delete,
  delete_if, pos, int_eqs, IdentityError, Error, identity, ok, err, String, ◌≡◌, refl, ◌≢◌, false,
  none, some, List, [], ◌∷◌,
}
use open_xai_connect.Base.Exec.{◌>>=◌}
use open_xai_connect.Domain.Application.{minute}
use open_xai_connect.Domain.Library.{Url}
use open_xai_connect.Identity.SsoChecks.{
  SsoLibrary, SsoProvider, SsoCallback, value_at, is_absolute_https, is_relative, id_of,
  parse_https_absolute, mac_hex, secure_hex_equal, validate_relative_return_to, request_url,
  first_decoded, decode_sso_payload, same_callback_url, badly_signed, unexpected_payload,
  check_callback,
}
use open_xai_connect.Identity.Sso.{
  SsoIdentity, has_expired, cleanup, redeem, take_state, new_pending, remember_state, begin,
  complete,
}
use open_xai_connect.Identity.Sso.History.{SsoCall, started, finished, calls}
use open_xai_connect.Identity.Sso.UsedOnce.{
  complete-used_once, complete-relative, complete-never_expired,
}

abbrev callback_url : Url
callback_url = record {
  scheme = "https";
  host = "portal.example";
  hostname = "portal.example";
  user = false;
  path = "/cb";
  raw_query = "";
  fragment = "";
  query = [];
}

abbrev apps_url : Url
apps_url = record callback_url { scheme = ""; host = ""; hostname = ""; path = "/apps" }

abbrev long_code : String
long_code = "0123456789abcdef0123456789abcdef0123456789abcdef0123456789abcdef"

abbrev answered : Map String String
answered =
    ("nonce", "n1") ∷ ("return_sso_url", "https://portal.example/cb") ∷ ("external_id", "7") ∷ []

-- One code for every text, and one payload.
abbrev a_library : SsoLibrary
a_library = record {
  signing = record {
    mac = λ key text. "";
    encode_hex = λ bytes. long_code;
    decode_hex = λ text. ok text;
    must_decode_hex = λ text. text;
    parse_int = λ text. if text == "7" then some (pos 7) else none;
    format_int = λ n. "";
    to_upper = λ text. text;
  };
  urls = record {
    parse_url = λ text.
        if text == "https://portal.example/cb"
        then some callback_url
        else if text == "/apps"
        then some apps_url
        else none;
    is_ip = λ text. false;
    to_lower = λ text. text;
  };
  url_string = λ u. u.path;
  query_with = λ u key value. value;
  encode = λ values. "";
  parse_query = λ text. some answered;
  to_base64 = λ text. text;
  decoders = (λ text. none) ∷ (λ text. some text) ∷ [];
}

abbrev a_provider : SsoProvider
a_provider = record {
  base_url = callback_url;
  callback_url = callback_url;
  secret = "secret";
  window = pos minute;
}

abbrev a_callback : SsoCallback
a_callback = record { sso = "payload"; sig = long_code; state = " n1" }

abbrev begun : List SsoCall
begun = started "/apps" "ch" (some "n1") 1000 ∷ []

abbrev a_sign_in : SsoIdentity
a_sign_in = record { discourse_id = pos 7; challenge = "ch"; return_to = "/apps" }

complete_run :
    complete a_library a_provider (some a_callback) 2000 (calls a_library a_provider begun [])
    ≡ (ok a_sign_in, [])
unfolding complete take_state cleanup redeem has_expired check_callback badly_signed
    unexpected_payload decode_sso_payload first_decoded secure_hex_equal mac_hex same_callback_url
    parse_https_absolute is_absolute_https id_of value_at begin remember_state new_pending
    request_url validate_relative_return_to is_relative has_prefix trim_space lookup insert delete
    delete_if ◌>>=◌
complete_run = refl

abbrev between_calls : List SsoCall
between_calls = started "/apps" "" (some "n2") 2500 ∷ finished (some a_callback) 2600 ∷ []

complete-used_once_example :
    (e : Error) × ((complete a_library a_provider
        (some a_callback)
        3000
        (calls a_library a_provider between_calls [])).0
      ≡ err e)
unfolding trim_space
complete-used_once_example =
    complete-used_once a_library a_provider a_callback a_callback 2000 3000
      (calls a_library a_provider begun []) [] a_sign_in between_calls complete_run
      ((λ e. cc e), (tt, tt)) refl

complete-relative_example : validate_relative_return_to a_library "/apps" ≡ ok tt
complete-relative_example =
    complete-relative a_library a_provider begun a_callback 2000 [] a_sign_in complete_run

complete-never_expired_example :
    (complete a_library a_provider
      (some a_callback)
      70_000_000_000
      (calls a_library a_provider begun [])).0
    ≢ err (identity IdentityError.sso_state_expired)
complete-never_expired_example =
    complete-never_expired a_library a_provider begun (some a_callback) 70_000_000_000
