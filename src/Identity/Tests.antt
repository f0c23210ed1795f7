-- ===== src/Identity/Tests.antt =====
-- Runs of the nonce store and of the verifier (internal/identity/discourseconnect.go).
use open_xai_connect.Base.{
  nat_eqs, string_eqs, trim_space, lookup, insert, delete_if, pos, int_eqs, ok, ◌*◌, String, ◌≡◌,
  refl, false, some, arith,
}
use open_xai_connect.Base.Exec.{◌>>=◌}
use open_xai_connect.Domain.Application.{minute}
use open_xai_connect.Identity.Nonces.{NonceStore, new_memory_nonce_store, check_and_store}
use open_xai_connect.Identity.Verifier.{
  Signing, Request, Verifier, unix, exceeds, outside_window, seconds_of, malformed, use_nonce, sign,
  signature_matches, same_signature, check_signature, check_window, check_timestamp, verify_request,
  verify,
}
use open_xai_connect.Identity.Replay.{Calls, check_and_store-once}
use open_xai_connect.Identity.Accepted.{IsVerified, verify-IsVerified}

abbrev used : NonceStore
used = (check_and_store "n1" 900 100 new_memory_nonce_store).1

check_and_store-once_example : (check_and_store "n1" 950 300 used).0 ≡ ok false
unfolding check_and_store lookup insert delete_if
check_and_store-once_example =
    check_and_store-once "n1" 0 900 100 300 950 new_memory_nonce_store used
      (check_and_store "n2" 800 200 used).1 Calls.none_yet refl
      (Calls.then_one "n2" 800 200 Calls.none_yet (omega arith)) (omega arith)

-- A code of 32 characters for every text, and the timestamp 0.
abbrev a_code : String
a_code = "0123456789abcdef0123456789abcdef"

abbrev toy : Signing
toy = record {
  mac = λ key text. a_code;
  encode_hex = λ bytes. bytes;
  decode_hex = λ text. ok text;
  must_decode_hex = λ text. text;
  parse_int = λ text. some (pos 0);
  format_int = λ n. "0";
  to_upper = λ text. text;
}

abbrev a_verifier : Verifier
a_verifier = record { secret = "secret"; max_skew = pos (5 * minute) }

abbrev a_request : Request
a_request = record {
  method = "POST";
  request_uri = "/events";
  timestamp = "0";
  nonce = "n1";
  signature = "0123456789abcdef0123456789abcdef";
}

abbrev stored : NonceStore
stored =
    (verify toy a_verifier (some a_request) "" (unix (pos 1)) (unix (pos 1))
      new_memory_nonce_store).1

verify-IsVerified_example :
    IsVerified toy "secret"
      (5 * minute)
      a_request
      ""
      (unix (pos 1))
      (unix (pos 1))
      new_memory_nonce_store
      stored
unfolding verify verify_request malformed check_timestamp check_window check_signature use_nonce
    outside_window exceeds unix signature_matches sign check_and_store lookup insert delete_if
    trim_space seconds_of same_signature ◌>>=◌
verify-IsVerified_example =
    verify-IsVerified toy (λ bytes. refl) "secret" a_request "" (5 * minute) (omega arith)
      (unix (pos 1)) (unix (pos 1)) new_memory_nonce_store stored refl
