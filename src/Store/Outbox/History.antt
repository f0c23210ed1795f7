-- ===== src/Store/Outbox/History.antt =====
-- Any history of calls on the outbox.
use open_xai_connect.Base.{
  nat_eqs, string_eqs, Bool-cases, lookup, lookup-insert, insert-IsDistinct, int_eqs, String, ◌≡◌,
  ◌≢◌, inl, inr, false, none, some, arith, eq_iff,
}
use open_xai_connect.Domain.Application.{Time}
use open_xai_connect.Domain.Records.{OutboxEvent}
use open_xai_connect.Store.Outbox.{
  Outbox, put_event, key_taken, empty, filled_in, enqueue, claim_next, complete, retry,
}
use open_xai_connect.Store.Outbox.Laws.{
  IsSound, complete-IsSound, retry-IsSound, claim_next-IsSound,
}

-- The event's id is new. Ids are random, and the methods do not check this.
abbrev pub IsFresh : String → Time → OutboxEvent → Outbox → Type 0
IsFresh made now event r = lookup (filled_in made now event).id r.events ≡ none

put_event-IsSound :
    (r : Outbox) (event : OutboxEvent)
    → lookup event.id r.events ≡ none
    → key_taken event r ≡ false
    → IsSound r
    → IsSound (put_event event r)
unfolding put_event key_taken
put_event-IsSound r event fresh free s = record {
  distinct = insert-IsDistinct event.id event r.events s.distinct;
  keyed = λ j x p.
      ground (arith, lookup-insert event.id j event r.events, eq_iff event.id j, s.keyed j x);
  registered = λ j x p. ground (
    arith,
    lookup-insert event.id j event r.events,
    lookup-insert event.idempotency_key x.idempotency_key event.id r.by_key,
    eq_iff event.id j,
    eq_iff event.idempotency_key x.idempotency_key,
    eq_iff event.idempotency_key "",
    s.registered j x,
  );
}

enqueue-IsSound :
    (r : Outbox) (made : String) (now : Time) (event : OutboxEvent)
    → IsFresh made now event r
    → IsSound r
    → IsSound (enqueue made now event r).1
unfolding enqueue
enqueue-IsSound r made now event fresh s = elim (Bool-cases (key_taken event r)) [
  | inl taken ↦ rw taken s
  | inr free ↦
      rw free (
        put_event-IsSound r (filled_in made now event) fresh (unfold filled_in key_taken in free) s)
]

-- One call of a method.
pub data Step (r : Outbox) : Outbox → Type 0 where
  enqueues :
      (made : String) (now : Time) (event : OutboxEvent)
      → IsFresh made now event r
      → Step r (enqueue made now event r).1
  claims : (now : Time) → Step r (claim_next now r).1
  completes : (id : String) (now : Time) → Step r (complete id now r).1
  retries : (id : String) (at : Time) → Step r (retry id at r).1

pub data Reach (r : Outbox) : Outbox → Type 0 where
  here : Reach r r
  next : {t u : Outbox} → Reach r t → Step t u → Reach r u

pub Step-IsSound : {r t : Outbox} → Step r t → IsSound r → IsSound t
Step-IsSound {r} (enqueues made now event fresh) s = enqueue-IsSound r made now event fresh s
Step-IsSound {r} (claims now) s = claim_next-IsSound r now s
Step-IsSound {r} (completes id now) s = complete-IsSound r id now s
Step-IsSound {r} (retries id at) s = retry-IsSound r id at s

pub Reach-IsSound : {r t : Outbox} → IsSound r → Reach r t → IsSound t
Reach-IsSound s here = s
Reach-IsSound s (next h st) = Step-IsSound st (Reach-IsSound s h)

pub empty-IsSound : IsSound empty
unfolding lookup
empty-IsSound = record { distinct = tt; keyed = λ id event h. cc; registered = λ id event h. cc }

-- After any history of calls from the empty outbox in which every enqueued id was new, two stored
-- events that carry the same idempotency key, not empty, are one event.
pub Reach-idempotent :
    (r : Outbox) (i j : String) (a b : OutboxEvent)
    → Reach empty r
    → lookup i r.events ≡ some a
    → lookup j r.events ≡ some b
    → a.idempotency_key ≡ b.idempotency_key
    → a.idempotency_key ≢ ""
    → i ≡ j
Reach-idempotent r i j a b h p q same key =
    let s = Reach-IsSound empty-IsSound h in ground (arith, s.registered i a p, s.registered j b q)
