-- ===== src/Identity/Sso.antt =====
-- internal/identity/sso.go: the states that the round trip through Discourse waits for. The clock and the
-- nonce that Begin draws are arguments.
pub mod Laws
pub mod Invalid
pub mod History
pub mod UsedOnce
use open_xai_connect.Base.{
  ltb, leb, nat_eq, if◌then◌else◌, nat_eq_iff, Eq, ◌==◌, nat_eqs, string_eqs, Bool-cases,
  Option-cases, bool_eq, length, All, contains, eq_of_not_differs, ne_of_not_equal, or-false,
  and_or-false, of_not-false, is_space, trim_space, fields, contains_char, has_prefix,
  contains_text, has_suffix, trim_dot, Map, lookup, insert, delete, delete_if, lookup-insert,
  lookup-delete, map_laws, kept, IsDistinct, insert-IsDistinct, delete-IsDistinct,
  delete_if-IsDistinct, lookup-delete_if, ℤ, pos, negsuc, int_eq, int_eq_iff, int_eqs, is_positive,
  is_negative, increment, StoreError, AppsError, ReviewsError, OauthError, IdentityError, Error,
  store, invalid_transition, session_not_found, apps, reviews, oauth, identity, message, wrapped,
  is_not_found, Result, ok, err, Check, refuse_if, for_each, Result-cases, refuse_if-passed, ℕ,
  zero, suc, ◌+◌, ◌-◌, ◌*◌, ◌/◌, ◌≤◌, ◌<◌, String, ◌≡◌, refl, sym, ap, ◌∙◌, ◌≢◌, ◌↔◌, ◌⊎◌, inl, inr,
  Bool, true, false, not, ◌&&◌, ◌||◌, Option, none, some, List, [], ◌∷◌, ◌++◌, arith, eq_iff, subst,
}
use open_xai_connect.Base.Exec.{
  Exec, renamed, pure, raise, lift, on_error, failing_as, continue, ◌>>=◌, ◌>>◌,
}
use open_xai_connect.Domain.Application.{
  Time, Duration, is_zero, add, max_duration, sub, second, minute, Application, transition, is_open,
}
use open_xai_connect.Identity.SsoChecks.{
  SsoLibrary, SsoProvider, SsoCallback, invalid_sso, trim_slashes, value_at, is_absolute_https,
  is_relative, parse_https_absolute, parse_https_base, new_sso_provider, mac_hex, secure_hex_equal,
  validate_relative_return_to, request_url, decode_sso_payload, same_callback_url, badly_signed,
  unexpected_payload, check_callback,
}

pub record PendingSso : Type 0 where
  pub return_to : String
  pub challenge : String
  pub expires_at : Time

abbrev pub PendingStates : Type 0
PendingStates = Map String PendingSso

pub record SsoIdentity : Type 0 where
  pub discourse_id : ℤ
  pub challenge : String
  pub return_to : String

-- Whether the state has expired: `!pending.ExpiresAt.After(now)`.
unfoldable pub has_expired : Time → PendingSso → Bool
has_expired now pending = leb pending.expires_at now

unfoldable pub cleanup : Time → PendingStates → PendingStates
unfolding has_expired
cleanup now states = delete_if (has_expired now) states

-- What a found state gives; the state is deleted before its expiry is looked at.
unfoldable pub redeem : ℤ → Time → Option PendingSso → Result SsoIdentity
redeem id now none = err (identity IdentityError.sso_state_replay)
redeem id now (some pending) =
    if has_expired now pending
    then err (identity IdentityError.sso_state_expired)
    else ok
        (record { discourse_id = id; challenge = pending.challenge; return_to = pending.return_to })

-- The part of Complete under the lock, and the tests of what it found. Deleting a key that is not there
-- changes nothing.
unfoldable pub take_state : String → ℤ → Time → Exec PendingStates SsoIdentity
unfolding cleanup redeem
take_state nonce id now states =
    let swept = cleanup now states in (redeem id now (lookup nonce swept), delete nonce swept)

unfoldable pub new_pending : SsoProvider → String → String → Time → PendingSso
new_pending p return_to challenge now = record {
  return_to = return_to;
  challenge = trim_space challenge;
  expires_at = add now p.window;
}

abbrev pub drawn_nonce : Option String → Result String
drawn_nonce none = err (message "read the random source")
drawn_nonce (some nonce) = ok nonce

module _ (go : SsoLibrary) where
  unfoldable pub remember_state :
      SsoProvider → String → String → Time → String → Exec PendingStates String
  unfolding cleanup new_pending request_url
  remember_state p return_to challenge now nonce states = (
    ok (request_url go p nonce),
    insert nonce (new_pending p return_to challenge now) (cleanup now states),
  )

  unfoldable pub begin :
      SsoProvider → String → String → Option String → Time → Exec PendingStates String
  unfolding validate_relative_return_to remember_state
  begin p return_to challenge drawn now = do
    lift (validate_relative_return_to go return_to)
    nonce ← lift (drawn_nonce drawn)
    remember_state p return_to challenge now nonce

  -- The nonce that is looked up is the state, which the checks compared with it.
  complete_request : SsoProvider → Time → SsoCallback → Exec PendingStates SsoIdentity
  complete_request p now request =
      lift (check_callback go p request) >>= λ id. take_state (trim_space request.state) id now

  unfoldable pub complete : SsoProvider → Option SsoCallback → Time → Exec PendingStates SsoIdentity
  unfolding check_callback take_state complete_request
  complete p none now = raise invalid_sso
  complete p (some request) now = complete_request p now request
