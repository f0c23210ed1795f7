-- ===== src/Session/Memory.antt =====
-- internal/session/memory.go and store.go: the memory store. The hash of an id is a parameter; a
-- call gets the error of its context and the random id that it draws as arguments.
pub mod Laws
pub mod History
pub mod Lifetime
use open_xai_connect.Base.{
  ltb, if◌then◌else◌, ◌==◌, nat_eqs, string_eqs, Map, lookup, insert, delete, int_eqs, is_positive,
  Error, session_not_found, message, ok, err, String, Bool, true, false, not, ◌&&◌, ◌||◌, Option,
  none, some, [],
}
use open_xai_connect.Base.Exec.{Exec}
use open_xai_connect.Domain.Application.{Time, Duration, add, sub}

pub record Session : Type 0 where
  pub id : String
  pub user_subject : String
  pub home_verified : Bool
  pub created_at : Time
  pub last_seen_at : Time
  pub expires_at : Time
  pub absolute_expires_at : Time

pub record MemoryStore : Type 0 where
  pub data_ : Map String Session
  pub sliding : Duration
  pub absolute : Duration

unfoldable pub new_memory_store : Duration → Duration → MemoryStore
new_memory_store sliding absolute = record { data_ = []; sliding = sliding; absolute = absolute }

unfoldable pub expiry : Time → Duration → Duration → Time
expiry now sliding absolute =
    let candidate = add now sliding in
    let limit = add now absolute in if ltb limit candidate then limit else candidate

unfoldable pub valid_at : Session → Time → Bool
valid_at session now = ltb now session.expires_at && ltb now session.absolute_expires_at

-- The context's error, `none` while it is not done.
abbrev pub Context : Type 0
Context = Option Error

unfoldable pub new_session : MemoryStore → String → String → Time → Session
new_session s id subject now = record {
  id = id;
  user_subject = subject;
  home_verified = false;
  created_at = now;
  last_seen_at = now;
  expires_at = expiry now s.sliding s.absolute;
  absolute_expires_at = add now s.absolute;
}

module _ (hash_id : String → String) where
  put : String → Session → MemoryStore → MemoryStore
  put id session s = record s { data_ = insert (hash_id id) session s.data_ }

  drop : String → MemoryStore → MemoryStore
  drop id s = record s { data_ = delete (hash_id id) s.data_ }

  -- `drawn` is the random id in base64, `none` where the source of randomness fails
  unfoldable pub create : Context → Option String → String → Time → Exec MemoryStore Session
  unfolding put
  create (some e) drawn subject now s = (err e, s)
  create none drawn subject now s =
      if (subject == "") || not (is_positive s.sliding) || not (is_positive s.absolute)
      then (err (message "session subject and positive TTLs are required"), s)
      else elim drawn [
        | none ↦ (err (message "random source failed"), s)
        | some id ↦ (ok (new_session s id subject now), put id (new_session s id subject now) s)
      ]

  unfoldable pub get : Context → String → Time → Exec MemoryStore Session
  unfolding drop
  get (some e) id now s = (err e, s)
  get none id now s = elim (lookup (hash_id id) s.data_) [
    | none ↦ (err session_not_found, s)
    | some session ↦
        if valid_at session now
        then (ok (record session { id = id }), s)
        else (err session_not_found, drop id s)
  ]

  -- The end of Touch and of MarkHomeVerified, from `session.LastSeenAt = now` on.
  unfoldable pub slide : String → Time → Session → Exec MemoryStore Session
  unfolding put drop
  slide id now session s =
      let remaining = sub session.absolute_expires_at now in
      let candidate = expiry now s.sliding remaining in
      let expires =
        (if ltb session.absolute_expires_at candidate
          then session.absolute_expires_at
          else candidate) in
      let slid = record session { id = id; last_seen_at = now; expires_at = expires } in
      if is_positive remaining then (ok slid, put id slid s) else (err session_not_found, drop id s)

  unfoldable pub refresh : (Session → Session) → Context → String → Time → Exec MemoryStore Session
  unfolding slide drop
  refresh change (some e) id now s = (err e, s)
  refresh change none id now s = elim (lookup (hash_id id) s.data_) [
    | none ↦ (err session_not_found, drop id s)
    | some session ↦
        if valid_at session now
        then slide id now (change session) s
        else (err session_not_found, drop id s)
  ]

  unfoldable pub touch : Context → String → Time → Exec MemoryStore Session
  unfolding refresh
  touch = refresh (λ session. session)

  unfoldable pub mark_home_verified : Context → String → Time → Exec MemoryStore Session
  unfolding refresh
  mark_home_verified = refresh (λ session. record session { home_verified = true })

  unfoldable pub delete_session : Context → String → Exec MemoryStore (Unit {0})
  unfolding drop
  delete_session (some e) id s = (err e, s)
  delete_session none id s = (ok tt, drop id s)
