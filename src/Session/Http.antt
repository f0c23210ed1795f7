-- ===== src/Session/Http.antt =====
-- internal/session/http.go and cookie.go: the session of a browser, by its cookie. The readings of the
-- clock are arguments.
use open_xai_connect.Base.{
  if◌then◌else◌, ◌==◌, nat_eqs, string_eqs, Map, lookup, ℤ, pos, negsuc, int_eqs, is_positive,
  session_not_found, message, Result, ok, err, Check, String, Bool, Option, none, some,
}
use open_xai_connect.Base.Exec.{Exec, pure, raise, lift, ◌>>=◌}
use open_xai_connect.Domain.Application.{Time, Duration, sub, whole_seconds}
use open_xai_connect.Session.Memory.{Session}

-- session.Store, over a state of its own
pub record SessionStore (S : Type 0) : Type 0 where
  pub create : String → Time → Exec S Session
  pub get : String → Time → Exec S Session
  pub touch : String → Time → Exec S Session
  pub mark_home_verified : String → Time → Exec S Session
  pub delete_session : String → Exec S (Unit {0})

-- The store may be nil.
pub record HttpHandler (S : Type 0) : Type 0 where
  pub store : Option (SessionStore S)
  pub cookie_name : String
  pub cookie_secure : Bool

-- A cookie that is set: for the whole site, not for scripts, and with SameSite=Lax.
pub record Cookie : Type 0 where
  pub name : String
  pub value : String
  pub max_age : ℤ
  pub secure : Bool

unfoldable pub new_cookie : String → String → ℤ → Bool → Cookie
new_cookie name value max_age secure = record {
  name = name;
  value = value;
  max_age = max_age;
  secure = secure;
}

-- A maximal age of -1 deletes the cookie.
unfoldable pub clear_cookie : String → Bool → Cookie
clear_cookie name secure = record { name = name; value = ""; max_age = negsuc 0; secure = secure }

abbrev pub Cookies : Type 0
Cookies = Map String String

-- int(d.Seconds()), at least 1
unfoldable pub max_age : Duration → ℤ
max_age d = let s = whole_seconds d in if is_positive s then s else pos 1

cookie_of : Option String → Result String
cookie_of none = err session_not_found
cookie_of (some value) = ok value

named_cookie : Option String → Result String
named_cookie none = err session_not_found
named_cookie (some value) = if value == "" then err session_not_found else ok value

module _ {S : Type 0} where
  -- What every method but SessionID needs.
  unfoldable pub initialized : {A : Type 0} → HttpHandler S → (SessionStore S → Exec S A) → Exec S A
  initialized h f = elim h.store [
    | none ↦ raise (message "session HTTP handler is not initialized")
    | some store ↦
        if h.cookie_name == ""
        then raise (message "session HTTP handler is not initialized")
        else f store
  ]

  unfoldable pub establish : HttpHandler S → String → Time → Time → Exec S (Session × Cookie)
  unfolding initialized new_cookie max_age
  establish h subject now later = initialized h λ store. do
    session ← store.create subject now
    pure (
      session,
      new_cookie h.cookie_name session.id (max_age (sub session.expires_at later)) h.cookie_secure,
    )

  unfoldable pub current : HttpHandler S → Cookies → Time → Exec S Session
  unfolding initialized cookie_of
  current h cookies now =
      initialized h
        λ store. do id ← lift (cookie_of (lookup h.cookie_name cookies)); store.touch id now

  unfoldable pub session_id : HttpHandler S → Cookies → Result String
  unfolding named_cookie
  session_id h cookies =
      if h.cookie_name == ""
      then err session_not_found
      else named_cookie (lookup h.cookie_name cookies)

  unfoldable pub home_verified : HttpHandler S → Cookies → Time → Exec S Bool
  unfolding initialized session_id
  home_verified h cookies now = initialized h λ store. do
    id ← lift (session_id h cookies)
    found ← store.get id now
    pure found.home_verified

  unfoldable pub mark_verified : HttpHandler S → Cookies → Time → Exec S (Unit {0})
  unfolding initialized session_id
  mark_verified h cookies now =
      initialized h
        λ store. do id ← lift (session_id h cookies); _ ← store.mark_home_verified id now; pure tt

  delete_named : SessionStore S → Option String → Exec S (Unit {0})
  delete_named store none = pure tt
  delete_named store (some id) = store.delete_session id

  -- The cookie is cleared also when the deletion fails.
  unfoldable pub logout : HttpHandler S → Cookies → S → (Check × Option Cookie) × S
  unfolding clear_cookie delete_named
  logout h cookies s = elim h.store [
    | none ↦ ((err (message "session HTTP handler is not initialized"), none), s)
    | some store ↦
        if h.cookie_name == ""
        then ((err (message "session HTTP handler is not initialized"), none), s)
        else (let (r, s') = delete_named store (lookup h.cookie_name cookies) s in
            ((r, some (clear_cookie h.cookie_name h.cookie_secure)), s'))
  ]
