-- ===== src/Session/Tests.antt =====
-- Runs of the memory store (internal/session/memory.go) and of the form tokens (internal/session/csrf.go).
use Prim.Native.String.{◌++◌ as append}
use open_xai_connect.Base.{
  ltb, if◌then◌else◌, nat_eqs, string_eqs, lookup, insert, pos, int_eqs, session_not_found, ok, err,
  ◌≤◌, ◌<◌, String, ◌≡◌, refl, ◌≢◌, true, ◌&&◌, none, some, arith, eq_iff,
}
use open_xai_connect.Domain.Application.{add}
use open_xai_connect.Session.Memory.{
  Session, MemoryStore, new_memory_store, expiry, valid_at, new_session, create, get, slide,
  refresh, delete_session,
}
use open_xai_connect.Session.Memory.History.{Step, Reach, get-within_lifetime}
use open_xai_connect.Session.Memory.Lifetime.{get-create, get-delete_session, refresh_bounds}
use open_xai_connect.Session.Csrf.{Keyed, Csrf, signed, token, verify, verify-token, verify_sound}

-- a hash that tells ids apart
abbrev hashed : String → String
hashed id = append "sha256:" id

abbrev fresh_store : MemoryStore
fresh_store = new_memory_store (pos 600) (pos 1000)

abbrev with_session : MemoryStore
with_session = (create hashed none (some "s1") "u1" 5000 fresh_store).1

abbrev first_session : Session
first_session = new_session fresh_store "s1" "u1" 5000

get-within_lifetime_example :
    (first_session.id ≡ "s1")
    × (5100 < first_session.expires_at)
    × (5100 < add first_session.created_at (pos 1000))
    × (first_session.expires_at ≤ add first_session.created_at (pos 1000))
unfolding create get valid_at new_session new_memory_store expiry lookup insert
get-within_lifetime_example =
    get-within_lifetime hashed (pos 600) (pos 1000) with_session with_session "s1" 5100
      first_session (Reach.next Reach.here (Step.creates none (some "s1") "u1" 5000)) refl

get-create_example : (get hashed none "s1" 5100 with_session).0 ≡ (
    if ltb 5100 (expiry 5000 (pos 600) (pos 1000)) && ltb 5100 (add 5000 (pos 1000))
    then ok first_session
    else err session_not_found)
unfolding create new_session new_memory_store expiry insert
get-create_example =
    get-create hashed fresh_store with_session (some "s1") "u1" 5000 5100 first_session refl

get-delete_session_example :
    ((get hashed none "s1" 5100 (delete_session hashed none "s1" with_session).1).0
      ≡ err session_not_found)
    × (hashed "s2" ≢ hashed "s1"
        → (get hashed none "s2" 5100 (delete_session hashed none "s1" with_session).1).0
          ≡ (get hashed none "s2" 5100 with_session).0)
get-delete_session_example = get-delete_session hashed with_session "s1" "s2" 5100

abbrev touched : Session
touched = record first_session { last_seen_at = 5500; expires_at = 6000 }

refresh_bounds_example :
    (old : Session) × (lookup (hashed "s1") with_session.data_ ≡ some old)
    × (valid_at old 5500 ≡ true)
    × (touched ≡ record old { id = "s1"; last_seen_at = 5500; expires_at = touched.expires_at })
    × (touched.expires_at ≤ add 5500 with_session.sliding)
    × (touched.expires_at ≤ old.absolute_expires_at)
unfolding refresh slide create new_session new_memory_store valid_at expiry lookup insert
refresh_bounds_example =
    refresh_bounds hashed (λ x. x) with_session
      (refresh hashed (λ x. x) none "s1" 5500 with_session).1 "s1" 5500 touched refl

-- A keyed function and an encoding that are easy to compute.
abbrev plain : Keyed
plain = record {
  mac = λ key text. append key text;
  encode = λ bytes. bytes;
  decode = λ text. some text;
}

abbrev signer : Csrf
signer = record { secret = "0123456789abcdef" }

abbrev s1_token : String
s1_token = signed plain signer "s1"

verify-token_example : verify plain (some signer) "s1" s1_token ≡ true
unfolding token signed
verify-token_example =
    verify-token plain (λ bytes. refl) signer "s1" s1_token refl
      (ground (arith, eq_iff s1_token ""))

abbrev no_text : String
no_text = ""

verify_sound_example : ("s1" ≢ no_text) × (plain.decode s1_token ≡ some (signed plain signer "s1"))
unfolding verify token signed
verify_sound_example = verify_sound plain (λ bytes. refl) signer "s1" s1_token refl
