-- ===== src/Identity/Replay.antt =====
-- internal/identity/discourseconnect.go: a nonce is accepted once while it is remembered.
use open_xai_connect.Base.{
  leb, nat_eqs, string_eqs, Option-cases, lookup, delete_if, lookup-insert, IsDistinct,
  insert-IsDistinct, delete_if-IsDistinct, lookup-delete_if, int_eqs, ok, ◌<◌, String, ◌≡◌, refl,
  ap, inl, inr, Bool, true, false, some, arith, eq_iff, subst,
}
use open_xai_connect.Domain.Application.{Time}
use open_xai_connect.Identity.Nonces.{NonceStore, new_memory_nonce_store, check_and_store}

-- The nonce is stored with its expiry, and no nonce is stored twice.
Remembers : String → Time → NonceStore → Type 0
Remembers nonce expires_at s = IsDistinct s × (lookup nonce s ≡ some expires_at)

-- Calls of the store, each with its own reading of the clock before `end`.
pub data Calls (end : Time) (s : NonceStore) : NonceStore → Type 0 where
  none_yet : Calls end s s
  then_one :
      {t : NonceStore} (nonce : String) (expires_at now : Time)
      → Calls end s t
      → now < end
      → Calls end s (check_and_store nonce expires_at now t).1

abbrev is_over : Time → Time → Bool
is_over now expiry = leb expiry now

abbrev swept : Time → NonceStore → NonceStore
swept now s = delete_if (is_over now) s

survives :
    (nonce : String) (end now : Time) (s : NonceStore)
    → now < end
    → IsDistinct s
    → lookup nonce s ≡ some end
    → lookup nonce (swept now s) ≡ some end
survives nonce end now s lt d e = ground (arith, lookup-delete_if (is_over now) nonce s d)

check_and_store-IsDistinct :
    (nonce : String) (expires_at now : Time) (s : NonceStore)
    → IsDistinct s
    → IsDistinct (check_and_store nonce expires_at now s).1
unfolding check_and_store
check_and_store-IsDistinct nonce expires_at now s d =
    let left = delete_if-IsDistinct (is_over now) s d in
    elim (Option-cases (lookup nonce (swept now s))) [
      | inl e ↦ rw (e, check_and_store) (insert-IsDistinct nonce expires_at (swept now s) left)
      | inr (x, e) ↦ rw (e, check_and_store) left
    ]

check_and_store-Remembers :
    (nonce other : String) (end expires_at now : Time) (s : NonceStore)
    → now < end
    → Remembers nonce end s
    → Remembers nonce end (check_and_store other expires_at now s).1
unfolding Remembers check_and_store
check_and_store-Remembers nonce other end expires_at now s lt (d, e) = (
  check_and_store-IsDistinct other expires_at now s d,
  (let still = survives nonce end now s lt d e in
      elim (Option-cases (lookup other (swept now s))) [
        | inl n ↦
            rw (n, check_and_store)
              (ground
                (arith, lookup-insert other nonce expires_at (swept now s), eq_iff other nonce))
        | inr (x, q) ↦ rw (q, check_and_store) still
      ]),
)

Calls-Remembers :
    (nonce : String) (end : Time) {s t : NonceStore}
    → Calls end s t
    → Remembers nonce end s
    → Remembers nonce end t
Calls-Remembers nonce end none_yet r = r
Calls-Remembers nonce end (then_one {t} other expires_at now calls lt) r =
    check_and_store-Remembers nonce other end expires_at now t lt
      (Calls-Remembers nonce end calls r)

Calls-IsDistinct : {end : Time} {s t : NonceStore} → Calls end s t → IsDistinct s → IsDistinct t
Calls-IsDistinct none_yet d = d
Calls-IsDistinct (then_one {t} nonce expires_at now calls lt) d =
    check_and_store-IsDistinct nonce expires_at now t (Calls-IsDistinct calls d)

refused_again :
    (nonce : String) (end expires_at now : Time) (s : NonceStore)
    → now < end
    → Remembers nonce end s
    → (check_and_store nonce expires_at now s).0 ≡ ok false
unfolding Remembers check_and_store
refused_again nonce end expires_at now s lt (d, e) =
    rw (survives nonce end now s lt d e, check_and_store) refl

accepted-Remembers :
    (nonce : String) (end now : Time) (s t : NonceStore)
    → IsDistinct s
    → check_and_store nonce end now s ≡ (ok true, t)
    → Remembers nonce end t
unfolding Remembers check_and_store
accepted-Remembers nonce end now s t d h = (
  subst IsDistinct (ap (λ r. r.1) h) (check_and_store-IsDistinct nonce end now s d),
  elim (Option-cases (lookup nonce (swept now s))) [
    | inl e ↦ ground (arith, lookup-insert nonce nonce end (swept now s), eq_iff nonce nonce)
    | inr (x, e) ↦ ground arith
  ],
)

-- Once a nonce was accepted with an expiry, it is refused until then: by every call whose reading of
-- the clock is before the expiry, if the calls in between read the clock before it too.
pub check_and_store-once :
    (nonce : String) (past end first later expires_at : Time) (s t u : NonceStore)
    → Calls past new_memory_nonce_store s
    → check_and_store nonce end first s ≡ (ok true, t)
    → Calls end t u
    → later < end
    → (check_and_store nonce expires_at later u).0 ≡ ok false
check_and_store-once nonce past end first later expires_at s t u before h between lt =
    refused_again nonce end expires_at later u lt (
      Calls-Remembers nonce end between
        (accepted-Remembers nonce end first s t (Calls-IsDistinct before tt) h))
