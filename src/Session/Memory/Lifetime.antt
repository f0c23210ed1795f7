-- ===== src/Session/Memory/Lifetime.antt =====
-- One session through its calls.
use open_xai_connect.Base.{
  ltb, if◌then◌else◌, nat_eqs, string_eqs, Option-cases, lookup, lookup-insert, lookup-delete,
  int_eqs, session_not_found, ok, err, ◌≤◌, String, ◌≡◌, ◌≢◌, inl, inr, true, ◌&&◌, Option, none,
  some, arith, eq_iff,
}
use open_xai_connect.Domain.Application.{Time, add, sub}
use open_xai_connect.Session.Memory.{
  Session, MemoryStore, expiry, valid_at, new_session, create, get, slide, refresh, delete_session,
}
use open_xai_connect.Session.Memory.Laws.{expiry-le}

module _ (hash_id : String → String) where
  -- A session that was just created is read back until it expires, and not afterwards.
  pub get-create :
      (s t : MemoryStore) (drawn : Option String) (subject : String) (created now : Time)
      (x : Session)
      → create hash_id none drawn subject created s ≡ (ok x, t)
      → (get hash_id none x.id now t).0 ≡ (
          if ltb now (expiry created s.sliding s.absolute) && ltb now (add created s.absolute)
          then ok x
          else err session_not_found)
  unfolding create get valid_at new_session
  get-create s t none subject created now x h = ground arith
  get-create s t (some id) subject created now x h =
      let made = new_session s id subject created in
      ground (
        arith,
        lookup-insert (hash_id id) (hash_id id) made s.data_,
        eq_iff (hash_id id) (hash_id id),
      )

  -- After a deletion no read finds the session, and sessions with another hash are as before.
  pub get-delete_session :
      (s : MemoryStore) (id other : String) (now : Time)
      → ((get hash_id none id now (delete_session hash_id none id s).1).0 ≡ err session_not_found)
        × (hash_id other ≢ hash_id id
            → (get hash_id none other now (delete_session hash_id none id s).1).0
              ≡ (get hash_id none other now s).0)
  unfolding delete_session get
  get-delete_session s id other now = (
    ground
        (arith, lookup-delete (hash_id id) (hash_id id) s.data_, eq_iff (hash_id id) (hash_id id)),
    λ ne. ground (
      arith,
      lookup-delete (hash_id id) (hash_id other) s.data_,
      eq_iff (hash_id id) (hash_id other),
    ),
  )

  -- A successful refresh was of a stored session that had not expired. It moves the expiry to at most
  -- the sliding lifetime from now and never past the fixed end, and leaves the rest of the session to the change.
  pub refresh_bounds :
      (change : Session → Session) (s t : MemoryStore) (id : String) (now : Time) (x : Session)
      → refresh hash_id change none id now s ≡ (ok x, t)
      → (old : Session) × (lookup (hash_id id) s.data_ ≡ some old)
        × (valid_at old now ≡ true)
        × (x ≡ record (change old) { id = id; last_seen_at = now; expires_at = x.expires_at })
        × (x.expires_at ≤ add now s.sliding)
        × (x.expires_at ≤ (change old).absolute_expires_at)
  unfolding refresh slide
  refresh_bounds change s t id now x h = elim (Option-cases (lookup (hash_id id) s.data_)) [
    | inl e ↦ ground arith
    | inr (old, e) ↦
        let remaining = sub (change old).absolute_expires_at now in
        (
          old,
          e,
          ground arith,
          ground arith,
          ground (arith, expiry-le now s.sliding remaining),
          ground (arith, expiry-le now s.sliding remaining),
        )
  ]
