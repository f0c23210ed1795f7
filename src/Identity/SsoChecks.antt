-- ===== src/Identity/SsoChecks.antt =====
-- internal/identity/sso.go: the URLs, the signatures and the payloads of the round trip through
-- Discourse. The code from net/url and encoding/base64 is a parameter.
use Prim.Native.Char.{code}
use Prim.Native.String.{◌++◌ as append, len}
use open_xai_connect.Base.{
  nat_eq, if◌then◌else◌, ◌==◌, nat_eqs, string_eqs, trim_space, has_prefix, Map, lookup, ℤ, pos,
  int_eqs, is_positive, IdentityError, Error, identity, message, wrapped, Result, ok, err, Check,
  ◌>>=◌, ◌>>◌, refuse_if, ◌*◌, String, Bool, false, not, ◌&&◌, ◌||◌, Option, none, some, List, [],
  ◌∷◌,
}
use open_xai_connect.Domain.Application.{Duration, minute}
use open_xai_connect.Domain.Library.{Url, Library}
use open_xai_connect.Identity.Verifier.{Signing}

pub record SsoLibrary : Type 0 where
  pub signing : Signing
  pub urls : Library
  -- (*url.URL).String
  pub url_string : Url → String
  -- u.Query(), one key set, Encode()
  pub query_with : Url → String → String → String
  -- url.Values.Encode
  pub encode : Map String String → String
  -- url.ParseQuery, with the first value of each key; `none` is an error
  pub parse_query : String → Option (Map String String)
  -- base64.StdEncoding, and the four decoders that are tried
  pub to_base64 : String → String
  pub decoders : List (String → Option String)

pub record SsoProvider : Type 0 where
  pub base_url : Url
  pub callback_url : Url
  pub secret : String
  pub window : Duration

-- The query parameters of the callback that the code reads.
pub record SsoCallback : Type 0 where
  pub sso : String
  pub sig : String
  pub state : String

abbrev pub invalid_sso : Error
invalid_sso = identity IdentityError.invalid_sso

-- strings.TrimRight(s, "/")
unfoldable pub trim_slashes : String → String
trim_slashes String.[] = String.[]
trim_slashes (String.◌∷◌ c s) =
    let rest = trim_slashes s in
    if nat_eq (code c) b'/' && (rest == "") then String.[] else String.◌∷◌ c rest

-- values.Get(key)
unfoldable pub value_at : String → Map String String → String
value_at key values = elim (lookup key values) [ none ↦ "" | some v ↦ v ]

unfoldable pub is_absolute_https : Url → Bool
is_absolute_https u =
    (u.scheme == "https") && not (u.host == "") && not u.user && (u.fragment == "")

absolute_of : Option Url → Result Url
absolute_of none = err (message "must be an absolute HTTPS URL")
absolute_of (some u) =
    if is_absolute_https u then ok u else err (message "must be an absolute HTTPS URL")

unfoldable pub is_relative : Option Url → Bool
is_relative none = false
is_relative (some u) =
    (u.scheme == "") && (u.host == "") && has_prefix u.path "/" && not (has_prefix u.path "//")

unfoldable pub id_of : Option ℤ → Result ℤ
id_of none = err invalid_sso
id_of (some id) = if is_positive id then ok id else err invalid_sso

module _ (go : SsoLibrary) where
  open go use {signing, urls, url_string, query_with, encode, parse_query, to_base64, decoders}

  unfoldable pub parse_https_absolute : String → Result Url
  unfolding absolute_of
  parse_https_absolute raw = absolute_of (urls.parse_url (trim_space raw))

  unfoldable pub parse_https_base : String → Result Url
  unfolding parse_https_absolute
  parse_https_base raw = do
    parsed ← parse_https_absolute raw
    ok (record parsed { path = trim_slashes parsed.path })

  unfoldable pub new_sso_provider : String → String → String → Duration → Result SsoProvider
  unfolding parse_https_base
  new_sso_provider discourse_url callback_url secret window =
      if nat_eq (len secret) 0
      then err (message "DiscourseConnect SSO secret must not be empty")
      else (elim (parse_https_base discourse_url) [
        | err e ↦ err (wrapped e "DiscourseConnect URL")
        | ok base ↦ elim (parse_https_absolute callback_url) [
          | err e ↦ err (wrapped e "DiscourseConnect callback URL")
          | ok callback ↦ ok (record {
            base_url = base;
            callback_url = callback;
            secret = secret;
            window = if is_positive window then window else pos (10 * minute);
          })
        ]
      ])

  unfoldable pub mac_hex : String → String → String
  mac_hex secret value = signing.encode_hex (signing.mac secret value)

  same_bytes : Result String → Result String → Bool
  same_bytes (ok a) (ok b) = a == b
  same_bytes (ok a) (err e) = false
  same_bytes (err e) b = false

  unfoldable pub secure_hex_equal : String → String → Bool
  unfolding same_bytes
  secure_hex_equal expected provided =
      nat_eq (len provided) 64
      && same_bytes (signing.decode_hex expected) (signing.decode_hex provided)

  unfoldable pub validate_relative_return_to : String → Check
  validate_relative_return_to raw =
      if raw == ""
      then err (message "return path is required")
      else refuse_if (not (is_relative (urls.parse_url raw)))
          (message "return path must be relative")

  unfoldable pub request_url : SsoProvider → String → String
  unfolding mac_hex trim_slashes
  request_url p nonce =
      let callback = record p.callback_url {
        raw_query = query_with p.callback_url "state" nonce;
      } in
      let payload = encode (("nonce", nonce) ∷ ("return_sso_url", url_string callback) ∷ []) in
      let raw = to_base64 payload in
      url_string (record p.base_url {
        path = append (trim_slashes p.base_url.path) "/session/sso_provider";
        raw_query = encode (("sso", raw) ∷ ("sig", mac_hex p.secret raw) ∷ []);
      })

  -- The loop over the encodings of decodeSSOPayload.
  unfoldable pub first_decoded : List (String → Option String) → String → Result (Map String String)
  first_decoded [] raw = err invalid_sso
  first_decoded (decode ∷ rest) raw = elim (decode raw) [
    | none ↦ first_decoded rest raw
    | some text ↦ elim (parse_query text) [
      | none ↦ first_decoded rest raw
      | some values ↦ ok values
    ]
  ]

  unfoldable pub decode_sso_payload : String → Result (Map String String)
  unfolding first_decoded
  decode_sso_payload raw = first_decoded decoders raw

  same_callback : Result Url → Url → Bool
  same_callback (err e) expected = false
  same_callback (ok parsed) expected =
      (url_string parsed == url_string expected)
      || ((parsed.path == expected.path)
          && (parsed.scheme == expected.scheme)
          && (parsed.host == expected.host))

  unfoldable pub same_callback_url : String → Url → Bool
  unfolding same_callback
  same_callback_url raw expected = same_callback (parse_https_absolute raw) expected

  unfoldable pub badly_signed : SsoProvider → String → String → String → Bool
  unfolding secure_hex_equal
  badly_signed p raw signature state =
      (raw == "")
      || (signature == "")
      || (state == "")
      || not (secure_hex_equal (mac_hex p.secret raw) signature)

  unfoldable pub unexpected_payload : SsoProvider → String → Map String String → Bool
  unfolding same_callback_url
  unexpected_payload p state decoded =
      let nonce = trim_space (value_at "nonce" decoded) in
      (nonce == "")
      || not (nonce == state)
      || not (same_callback_url (trim_space (value_at "return_sso_url" decoded)) p.callback_url)

  -- The checks of Complete before the state is looked up, in the order of the code: they end in the
  -- user's number at Discourse.
  unfoldable pub check_callback : SsoProvider → SsoCallback → Result ℤ
  unfolding badly_signed unexpected_payload decode_sso_payload id_of
  check_callback p request = do
    refuse_if
        (badly_signed p (trim_space request.sso) (trim_space request.sig)
          (trim_space request.state))
        invalid_sso
    decoded ← decode_sso_payload (trim_space request.sso)
    refuse_if (unexpected_payload p (trim_space request.state) decoded) invalid_sso
    id_of (signing.parse_int (trim_space (value_at "external_id" decoded)))
