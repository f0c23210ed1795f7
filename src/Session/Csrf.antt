-- ===== src/Session/Csrf.antt =====
-- internal/session/csrf.go: the token that ties a form to a session. `Keyed` holds what the code takes
-- from crypto/hmac and encoding/base64: `mac` is HMAC-SHA256, `encode` and `decode` are base64 without
-- padding. Texts stand for byte slices.
use Prim.Native.String.{◌++◌ as append, len}
use open_xai_connect.Base.{
  ltb, nat_eq, if◌then◌else◌, ◌==◌, nat_eqs, string_eqs, Option-cases, int_eqs, message, Result, ok,
  err, String, ◌≡◌, ◌≢◌, inl, inr, Bool, true, false, not, ◌&&◌, Option, none, some, arith, eq_iff,
}

pub record Keyed : Type 0 where
  pub mac : String → String → String
  pub encode : String → String
  pub decode : String → Option String

pub record Csrf : Type 0 where
  pub secret : String

unfoldable pub new_csrf : String → Result Csrf
new_csrf secret =
    if ltb (len secret) 16
    then err (message "CSRF secret must contain at least 128 bits")
    else ok (record { secret = secret })

module _ (crypto : Keyed) where
  open crypto use {mac, encode, decode}

  unfoldable pub signed : Csrf → String → String
  signed c session_id = mac c.secret (append "connect-csrf-v1\n" session_id)

  -- A `none` handler is the nil pointer.
  unfoldable pub token : Option Csrf → String → Result String
  token none session_id = err (message "CSRF signer is not initialized")
  token (some c) session_id =
      if nat_eq (len c.secret) 0
      then err (message "CSRF signer is not initialized")
      else if session_id == ""
      then err (message "session ID is required")
      else ok (encode (signed c session_id))

  same_bytes : Option String → Option String → Bool
  same_bytes (some provided) (some expected) = provided == expected
  same_bytes _ _ = false

  expected_bytes : Result String → Option String
  expected_bytes (ok expected) = decode expected
  expected_bytes (err e) = none

  unfoldable pub verify : Option Csrf → String → String → Bool
  unfolding expected_bytes same_bytes
  verify c session_id given =
      not (session_id == "")
      && not (given == "")
      && same_bytes (decode given) (expected_bytes (token c session_id))

  -- The documented behaviour of base64: decoding undoes encoding.
  abbrev pub IsRoundTrip : Type 0
  IsRoundTrip = (bytes : String) → decode (encode bytes) ≡ some bytes

  module _ (round_trip : IsRoundTrip) (c : Csrf) where
    -- If decoding undoes encoding, the token of a session is accepted for that session, unless it is
    -- the empty text.
    pub verify-token :
        (session_id given : String)
        → token (some c) session_id ≡ ok given
        → given ≢ ""
        → verify (some c) session_id given ≡ true
    unfolding verify token
    verify-token session_id given h ne = ground (
      arith,
      round_trip (signed c session_id),
      eq_iff given "",
      eq_iff (signed c session_id) (signed c session_id),
    )

    -- If decoding undoes encoding, whatever is accepted decodes to the keyed hash of that very session
    -- id, which is not empty.
    pub verify_sound :
        (session_id given : String)
        → verify (some c) session_id given ≡ true
        → (session_id ≢ "") × (decode given ≡ some (signed c session_id))
    unfolding verify token
    verify_sound session_id given h = elim (Option-cases (decode given)) [
      | inl e ↦ ground (arith, eq_iff session_id "")
      | inr (b, e) ↦ ground (
        arith,
        round_trip (signed c session_id),
        eq_iff session_id "",
        eq_iff b (signed c session_id),
      )
    ]
