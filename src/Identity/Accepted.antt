-- ===== src/Identity/Accepted.antt =====
-- internal/identity/discourseconnect.go: what an accepted request promises.
use Prim.Native.String.{◌++◌ as append, len}
use open_xai_connect.Base.{
  leb, nat_eq, ◌==◌, nat_eqs, string_eqs, Bool-cases, trim_space, ℤ, pos, int_eqs, IdentityError,
  Error, identity, Result, ok, err, refuse_if, ℕ, ◌+◌, ◌≤◌, ◌<◌, String, ◌≡◌, refl, ap, ◌≢◌, inl,
  inr, Bool, true, false, not, ◌&&◌, ◌||◌, Option, none, some, List, [], ◌∷◌, arith, eq_iff,
}
use open_xai_connect.Base.Cases.{pair_eq, guard-passed, lift-passed}
use open_xai_connect.Base.Exec.{lift, continue, ◌>>=◌}
use open_xai_connect.Domain.Application.{Time, add, sub, max_duration}
use open_xai_connect.Identity.Nonces.{NonceStore, check_and_store}
use open_xai_connect.Identity.FirstUse.{IsFirstUse, check_and_store-IsFirstUse}
use open_xai_connect.Identity.Verifier.{
  Signing, Request, Verifier, unix, exceeds, outside_window, seconds_of, malformed, use_nonce,
  same_signature, canonical, sign, signature_matches, check_signature, check_window,
  check_timestamp, verify_request, verify,
}

abbrev joined_lines : List String → String
joined_lines [] = ""
joined_lines (line ∷ []) = line
joined_lines (line ∷ next ∷ rest) = append line (append "\n" (joined_lines (next ∷ rest)))

-- What is known of a request that a verifier with this secret and this largest skew accepted.
pub record IsVerified (go : Signing) (secret : String) (limit : ℕ) (request : Request)
    (body : String) (now stored_at : Time) (s t : NonceStore) : Type 0 where
  pub seconds : ℤ
  pub parsed : go.parse_int (trim_space request.timestamp) ≡ some seconds
  pub not_late : now ≤ unix seconds + limit
  pub not_early : unix seconds ≤ now + limit
  pub named : trim_space request.nonce ≢ ""
  pub short : len (trim_space request.nonce) ≤ 128
  pub code : String
  pub given : go.decode_hex (trim_space request.signature) ≡ ok code
  pub signed :
      code
      ≡ go.mac secret (
          joined_lines (
            go.to_upper request.method
            ∷ request.request_uri
            ∷ go.format_int seconds
            ∷ trim_space request.nonce
            ∷ body
            ∷ []))
  pub size : len code ≡ 32
  pub first_use : IsFirstUse (trim_space request.nonce) (unix seconds + limit) stored_at s t

-- An action whose Boolean result must be true.
last-passed :
    {W : Type 0} (r : Result Bool) (w t : W) (e : Error)
    → continue r (λ b. lift (refuse_if (not b) e)) w ≡ (ok tt, t)
    → (r ≡ ok true) × (w ≡ t)
last-passed (ok true) w t e h = (refl, ap (λ p. p.1) h)
last-passed (ok false) w t e h = cc h
last-passed (err x) w t e h = cc h

seconds_of-eq_ok : (o : Option ℤ) (seconds : ℤ) → seconds_of o ≡ ok seconds → o ≡ some seconds
unfolding seconds_of
seconds_of-eq_ok none seconds h = cc h
seconds_of-eq_ok (some x) seconds h = cc h

-- A difference that saturates is still compared exactly with a smaller limit.
sub_within :
    (t u : Time) (limit : ℕ)
    → limit < max_duration
    → exceeds (sub t u) (pos limit) ≡ false
    → t ≤ u + limit
unfolding exceeds
sub_within t u limit small h = elim (Bool-cases (leb u t)) [
  | inl e ↦ ground arith
  | inr e ↦ ground arith
]

well_formed :
    (request : Request)
    → malformed request ≡ false
    → (trim_space request.nonce ≢ "") × (len (trim_space request.nonce) ≤ 128)
unfolding malformed
well_formed request h = ((λ e. ground (arith, eq_iff (trim_space request.nonce) "")), ground arith)

or_false-left : (a b : Bool) → (a || b) ≡ false → a ≡ false
or_false-left a b h = ground arith

or_false-right : (a b : Bool) → (a || b) ≡ false → b ≡ false
or_false-right a b h = ground arith

module _ (go : Signing)
    (hex_law : (bytes : String) → go.must_decode_hex (go.encode_hex bytes) ≡ bytes)
    (secret : String) (request : Request) (body : String) where
  signed_as :
      (code bytes : String)
      → not (nat_eq (len code) 32 && (code == go.must_decode_hex (go.encode_hex bytes))) ≡ false
      → (code ≡ bytes) × (len code ≡ 32)
  signed_as code bytes h = let e = hex_law bytes in ground (arith, eq_iff code bytes)

  signature_of :
      (seconds : ℤ) (given : Result String)
      → not (
          same_signature go given (
            sign go secret request.method request.request_uri seconds
              (trim_space request.nonce)
              body))
        ≡ false
      → (code : String) × (given ≡ ok code)
        × ((code
              ≡ go.mac secret (
                  joined_lines (
                    go.to_upper request.method
                    ∷ request.request_uri
                    ∷ go.format_int seconds
                    ∷ trim_space request.nonce
                    ∷ body
                    ∷ [])))
            × (len code ≡ 32))
  unfolding same_signature sign canonical
  signature_of seconds (err e) h = cc h
  signature_of seconds (ok code) h = (code, refl, signed_as code _ h)

  module _ (limit : ℕ) (small : limit < max_duration) (now stored_at : Time)
      (s t : NonceStore) where
    abbrev verifier : Verifier
    verifier = record { secret = secret; max_skew = pos limit }

    -- Where decoding undoes hexadecimal encoding and the verifier's largest skew is below the
    -- largest duration: a signed request that is accepted has a timestamp at most that far from the
    -- clock, in either direction, a nonce of 1 to 128 bytes, and a signature that decodes to the 32
    -- bytes of the keyed hash of its method, address, timestamp, nonce and body; its nonce was not
    -- remembered with an expiry after the store's clock, and is remembered now until the timestamp
    -- plus the skew.
    pub verify-IsVerified :
        verify go verifier (some request) body now stored_at s ≡ (ok tt, t)
        → IsVerified go secret limit request body now stored_at s t
    unfolding verify verify_request malformed check_timestamp check_window check_signature use_nonce
        outside_window signature_matches ◌>>=◌
    verify-IsVerified h =
        let bad = identity IdentityError.invalid_signature in
        let (form, h1) =
          guard-passed (malformed request) bad
            (check_timestamp go verifier request body now stored_at) s t tt h in
        let (seconds, p, h2) =
          lift-passed (seconds_of (go.parse_int (trim_space request.timestamp)))
            (check_window go verifier request body now stored_at) s t tt h1 in
        let (q, h3) =
          guard-passed (outside_window verifier now (unix seconds))
            (identity IdentityError.expired_request)
            (check_signature go verifier request body stored_at seconds) s t tt h2 in
        let (r, h4) =
          guard-passed (not (signature_matches go verifier request seconds body)) bad
            (use_nonce verifier request stored_at seconds) s t tt h3 in
        let stored =
          check_and_store (trim_space request.nonce) (add (unix seconds) (pos limit)) stored_at s in
        let (x, y) = last-passed stored.0 stored.1 t (identity IdentityError.replay) h4 in
        let (code, given, (signed, size)) =
          signature_of seconds (go.decode_hex (trim_space request.signature)) r in
        record {
          seconds = seconds;
          parsed = seconds_of-eq_ok (go.parse_int (trim_space request.timestamp)) seconds p;
          not_late = sub_within now (unix seconds) limit small (or_false-left _ _ q);
          not_early = sub_within (unix seconds) now limit small (or_false-right _ _ q);
          named = (well_formed request form).0;
          short = (well_formed request form).1;
          code = code;
          given = given;
          signed = signed;
          size = size;
          first_use =
              check_and_store-IsFirstUse (trim_space request.nonce) _ stored_at s t
                (pair_eq stored x y);
        }
