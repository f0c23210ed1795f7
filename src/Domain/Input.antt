-- ===== src/Domain/Input.antt =====
-- internal/domain/application.go: the checks of an application's fields.
use Prim.Native.String.{count}
use open_xai_connect.Base.{
  ltb, nat_eq, ◌==◌, nat_eqs, string_eqs, length, trim_space, contains_char, int_eqs, Check, ◌>>◌,
  refuse_if, for_each, message, wrapped, ok, err, String, Bool, true, not, ◌||◌, Option, none, some,
  List,
}
use open_xai_connect.Domain.Library.{Url, Library}

module _ (go : Library) where
  open go use {parse_url, is_ip, to_lower}

  refuses_parts : Option Url → Bool
  refuses_parts none = true
  refuses_parts (some parsed) =
      not (parsed.scheme == "https")
      || (parsed.host == "")
      || parsed.user
      || not (parsed.raw_query == "")
      || not (parsed.fragment == "")

  refuses_host : String → Bool
  refuses_host host = (host == "") || contains_char b'*' host || (host == "localhost") || is_ip host

  host_of : Option Url → String
  host_of none = ""
  host_of (some parsed) = to_lower parsed.hostname

  unfoldable pub validate_callback_url : String → Check
  unfolding refuses_parts refuses_host host_of
  validate_callback_url raw = do
    refuse_if (refuses_parts (parse_url raw))
        (message "callback URL must be an exact HTTPS URL without credentials, query, or fragment")
    refuse_if (refuses_host (host_of (parse_url raw)))
        (message "callback URL hostname must be a public domain")
    ok tt

  named_callback : String → Check → Check
  named_callback callback (ok _) = ok tt
  named_callback callback (err e) = err (wrapped e "callback: ")

  unfoldable pub validate_application_input : String → String → List String → Check
  unfolding validate_callback_url named_callback
  validate_application_input name owner_subject callbacks = do
    refuse_if (trim_space owner_subject == "") (message "owner subject is required")
    refuse_if ((trim_space name == "") || ltb 120 (count (trim_space name)))
        (message "application name must contain 1 to 120 characters")
    refuse_if (nat_eq (length callbacks) 0 || ltb 10 (length callbacks))
        (message "application must contain 1 to 10 callback URLs")
    for_each (λ callback. named_callback callback (validate_callback_url callback)) callbacks
