-- ===== src/Identity/Verifier.antt =====
-- internal/identity/discourseconnect.go: the check of a signed request. Texts stand for byte slices.
-- A request is the four parts that the check reads; the code from crypto, encoding/hex, strconv and
-- strings that it calls is a parameter.
use Prim.Native.String.{◌++◌ as append, len}
use open_xai_connect.Base.{
  ltb, nat_eq, if◌then◌else◌, ◌==◌, nat_eqs, string_eqs, trim_space, ℤ, pos, negsuc, int_eqs,
  is_positive, IdentityError, identity, message, Result, ok, err, refuse_if, ℕ, suc, ◌+◌, ◌-◌, ◌*◌,
  String, Bool, true, false, not, ◌&&◌, ◌||◌, Option, none, some,
}
use open_xai_connect.Base.Exec.{Exec, raise, lift, ◌>>=◌, ◌>>◌}
use open_xai_connect.Domain.Application.{Time, Duration, add, sub, second, minute}
use open_xai_connect.Identity.Nonces.{NonceStore, check_and_store}

pub record Signing : Type 0 where
  -- HMAC-SHA256, with the key first
  pub mac : String → String → String
  -- encoding/hex; a failed decoding leaves what it decoded before the error
  pub encode_hex : String → String
  pub decode_hex : String → Result String
  pub must_decode_hex : String → String
  -- strconv.ParseInt and FormatInt in base 10
  pub parse_int : String → Option ℤ
  pub format_int : ℤ → String
  pub to_upper : String → String

pub record Request : Type 0 where
  pub method : String
  pub request_uri : String
  pub timestamp : String
  pub nonce : String
  pub signature : String

pub record Verifier : Type 0 where
  pub secret : String
  pub max_skew : Duration

-- NewVerifier; the Boolean says whether there is a nonce store
unfoldable pub new_verifier : String → Duration → Bool → Result Verifier
new_verifier secret max_skew has_nonces =
    if nat_eq (len secret) 0
    then err (message "Connect shared secret must not be empty")
    else if not has_nonces
    then err (message "Connect nonce store is required")
    else ok (record {
      secret = secret;
      max_skew = if is_positive max_skew then max_skew else pos (5 * minute);
    })

-- The seconds from Go's zero time to 1970.
abbrev unix_epoch : ℕ
unix_epoch = 62_135_596_800

-- time.Unix, for a number of seconds whose time is not before the zero time
unfoldable pub unix : ℤ → Time
unix (pos n) = (unix_epoch + n) * second
unix (negsuc n) = (unix_epoch - suc n) * second

-- d > limit
unfoldable pub exceeds : Duration → Duration → Bool
exceeds (pos d) (pos limit) = ltb limit d
exceeds (pos d) (negsuc limit) = true
exceeds (negsuc d) (pos limit) = false
exceeds (negsuc d) (negsuc limit) = ltb d limit

unfoldable pub outside_window : Verifier → Time → Time → Bool
outside_window v now timestamp =
    exceeds (sub now timestamp) v.max_skew || exceeds (sub timestamp now) v.max_skew

unfoldable pub seconds_of : Option ℤ → Result ℤ
seconds_of none = err (identity IdentityError.invalid_signature)
seconds_of (some seconds) = ok seconds

unfoldable pub malformed : Request → Bool
malformed request =
    (trim_space request.timestamp == "")
    || (trim_space request.nonce == "")
    || (trim_space request.signature == "")
    || ltb 128 (len (trim_space request.nonce))

unfoldable pub use_nonce : Verifier → Request → Time → ℤ → Exec NonceStore (Unit {0})
use_nonce v request stored_at seconds = do
  accepted ← check_and_store (trim_space request.nonce) (add (unix seconds) v.max_skew) stored_at
  lift (refuse_if (not accepted) (identity IdentityError.replay))

module _ (go : Signing) where
  open go use {mac, encode_hex, decode_hex, must_decode_hex, parse_int, format_int, to_upper}

  unfoldable pub canonical : String → String → ℤ → String → String → String
  canonical method path seconds nonce body = append (to_upper method) (
      append "\n" (
        append path (
          append "\n"
            (append (format_int seconds) (append "\n" (append nonce (append "\n" body)))))))

  unfoldable pub sign : String → String → String → ℤ → String → String → String
  unfolding canonical
  sign secret method path seconds nonce body =
      encode_hex (mac secret (canonical method path seconds nonce body))

  unfoldable pub same_signature : Result String → String → Bool
  same_signature (err e) expected = false
  same_signature (ok provided) expected =
      nat_eq (len provided) 32 && (provided == must_decode_hex expected)

  unfoldable pub signature_matches : Verifier → Request → ℤ → String → Bool
  unfolding same_signature sign
  signature_matches v request seconds body =
      same_signature (decode_hex (trim_space request.signature))
        (sign v.secret request.method request.request_uri seconds (trim_space request.nonce) body)

  unfoldable pub check_signature :
      Verifier → Request → String → Time → ℤ → Exec NonceStore (Unit {0})
  unfolding use_nonce
  check_signature v request body stored_at seconds = do
    lift (
        refuse_if (not (signature_matches v request seconds body))
          (identity IdentityError.invalid_signature))
    use_nonce v request stored_at seconds

  unfoldable pub check_window :
      Verifier → Request → String → Time → Time → ℤ → Exec NonceStore (Unit {0})
  unfolding check_signature
  check_window v request body now stored_at seconds = do
    lift (refuse_if (outside_window v now (unix seconds)) (identity IdentityError.expired_request))
    check_signature v request body stored_at seconds

  unfoldable pub check_timestamp :
      Verifier → Request → String → Time → Time → Exec NonceStore (Unit {0})
  unfolding seconds_of check_window
  check_timestamp v request body now stored_at = do
    seconds ← lift (seconds_of (parse_int (trim_space request.timestamp)))
    check_window v request body now stored_at seconds

  -- `now` is the reading of the clock by the verifier, `stored_at` that of the nonce store.
  unfoldable pub verify_request :
      Verifier → Request → String → Time → Time → Exec NonceStore (Unit {0})
  unfolding malformed check_timestamp
  verify_request v request body now stored_at = do
    lift (refuse_if (malformed request) (identity IdentityError.invalid_signature))
    check_timestamp v request body now stored_at

  unfoldable pub verify :
      Verifier → Option Request → String → Time → Time → Exec NonceStore (Unit {0})
  unfolding verify_request
  verify v none body now stored_at = raise (identity IdentityError.invalid_signature)
  verify v (some request) body now stored_at = verify_request v request body now stored_at
