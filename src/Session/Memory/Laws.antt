-- ===== src/Session/Memory/Laws.antt =====
-- One call of the memory store.
use open_xai_connect.Base.{
  ◌==◌, nat_eqs, string_eqs, Bool-cases, Option-cases, lookup, insert, delete, lookup-insert,
  lookup-delete, pos, negsuc, int_eqs, is_positive, ◌≤◌, String, ◌≡◌, refl, sym, ap, ◌∙◌, inl, inr,
  not, ◌||◌, Option, none, some, arith, eq_iff,
}
use open_xai_connect.Domain.Application.{Time, Duration, add, sub}
use open_xai_connect.Session.Memory.{
  Session, MemoryStore, expiry, valid_at, Context, new_session, create, get, slide, refresh,
}

-- A session ends at a fixed time, counted from its creation, and expires no later.
pub record IsBounded (absolute : Duration) (session : Session) : Type 0 where
  pub expires_by_end : session.expires_at ≤ session.absolute_expires_at
  pub fixed_end : session.absolute_expires_at ≡ add session.created_at absolute

pub record IsSound (s : MemoryStore) : Type 0 where
  pub bounded :
      (key : String) (session : Session)
      → lookup key s.data_ ≡ some session
      → IsBounded s.absolute session

pub expiry-le :
    (now : Time) (sliding absolute : Duration)
    → (expiry now sliding absolute ≤ add now sliding)
      × (expiry now sliding absolute ≤ add now absolute)
unfolding expiry
expiry-le now (pos a) (pos b) = ground arith
expiry-le now (pos a) (negsuc b) = ground arith
expiry-le now (negsuc a) (pos b) = ground arith
expiry-le now (negsuc a) (negsuc b) = ground arith

pub put-IsSound :
    (s : MemoryStore) (key : String) (session : Session)
    → IsBounded s.absolute session
    → IsSound s
    → IsSound (record s { data_ = insert key session s.data_ })
put-IsSound s key session b v = record {
  bounded =
      λ j x p. ground (arith, lookup-insert key j session s.data_, eq_iff key j, v.bounded j x);
}

pub drop-IsSound :
    (s : MemoryStore) (key : String) → IsSound s → IsSound (record s { data_ = delete key s.data_ })
drop-IsSound s key v = record {
  bounded = λ j x p. ground (arith, lookup-delete key j s.data_, eq_iff key j, v.bounded j x);
}

module _ (hash_id : String → String) where
  pub create-IsSound :
      (ctx : Context) (drawn : Option String) (subject : String) (now : Time) (s : MemoryStore)
      → IsSound s
      → IsSound (create hash_id ctx drawn subject now s).1
  unfolding create new_session
  create-IsSound (some e) drawn subject now s v = v
  create-IsSound none none subject now s v = ground arith
  create-IsSound none (some id) subject now s v =
      elim (Bool-cases
        ((subject == "") || not (is_positive s.sliding) || not (is_positive s.absolute))) [
          | inl h ↦ rw (h, create) v
          | inr h ↦
              rw (h, create)
                (put-IsSound s (hash_id id) _
                  (record {
                    expires_by_end = (expiry-le now s.sliding s.absolute).1;
                    fixed_end = refl;
                  })
                  v)
        ]

  pub get-IsSound :
      (ctx : Context) (id : String) (now : Time) (s : MemoryStore)
      → IsSound s
      → IsSound (get hash_id ctx id now s).1
  unfolding get
  get-IsSound ctx id now s v = ground (arith, drop-IsSound s (hash_id id))

  slide-IsSound :
      (id : String) (now : Time) (session : Session) (s : MemoryStore)
      → session.absolute_expires_at ≡ add session.created_at s.absolute
      → IsSound s
      → IsSound (slide hash_id id now session s).1
  unfolding slide
  slide-IsSound id now session s end v =
      let remaining = sub session.absolute_expires_at now in
      let candidate = expiry now s.sliding remaining in
      elim (Bool-cases (is_positive remaining)) [
        | inr h ↦ rw (h, slide) (drop-IsSound s (hash_id id) v)
        | inl h ↦
            rw (h, slide)
              (put-IsSound s (hash_id id) _
                (record { expires_by_end = ground arith; fixed_end = end }) v)
      ]

  pub refresh-IsSound :
      (change : Session → Session) (ctx : Context) (id : String) (now : Time) (s : MemoryStore)
      → ((x : Session) → (change x).created_at ≡ x.created_at)
      → ((x : Session) → (change x).absolute_expires_at ≡ x.absolute_expires_at)
      → IsSound s
      → IsSound (refresh hash_id change ctx id now s).1
  unfolding refresh
  refresh-IsSound change (some e) id now s same end v = v
  refresh-IsSound change none id now s same end v =
      elim (Option-cases (lookup (hash_id id) s.data_)) [
        | inl e ↦ rw (e, refresh) (drop-IsSound s (hash_id id) v)
        | inr (x, e) ↦ elim (Bool-cases (valid_at x now)) [
          | inr h ↦ rw (e, refresh, h) (drop-IsSound s (hash_id id) v)
          | inl h ↦
              rw (e, refresh, h)
                (slide-IsSound id now (change x) s
                  (end x
                    ∙ (v.bounded (hash_id id) x e).fixed_end
                    ∙ ap (λ t. add t s.absolute) (sym (same x)))
                  v)
        ]
      ]
