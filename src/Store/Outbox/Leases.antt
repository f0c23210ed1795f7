-- ===== src/Store/Outbox/Leases.antt =====
-- A claim is a lease of ten minutes: until then no other claim returns its event.
use open_xai_connect.Base.{
  ◌==◌, nat_eqs, string_eqs, Bool-cases, Option-cases, lookup, insert, lookup-insert, int_eqs, ok,
  ◌+◌, ◌<◌, String, ◌≡◌, ap, ◌≢◌, inl, inr, false, some, arith, eq_iff, subst,
}
use open_xai_connect.Domain.Application.{Time}
use open_xai_connect.Domain.Records.{OutboxEvent}
use open_xai_connect.Store.Outbox.{
  Outbox, empty, claim_timeout, enqueue, put_event, filled_in, is_claimable, claim_next, complete,
  retry, mark_claimed, first_claimable,
}
use open_xai_connect.Store.Outbox.Laws.{
  IsSound, claim_next-Claimed, claim_next-IsSound, first_claimable-found,
}
use open_xai_connect.Store.Outbox.History.{
  IsFresh, Step, Reach, Step-IsSound, Reach-IsSound, empty-IsSound,
}

-- The claim of `id` at `start` still stands.
abbrev pub IsHeld : String → Time → Outbox → Type 0
IsHeld id start r =
    (event : OutboxEvent) × (lookup id r.events ≡ some event) × (event.claimed_at ≡ some start)

-- The calls that other workers may make before the claim has timed out: anything but a retry of the
-- claimed event.
pub data Quiet (id : String) (until : Time) (r : Outbox) : Outbox → Type 0 where
  enqueues :
      (made : String) (now : Time) (event : OutboxEvent)
      → IsFresh made now event r
      → Quiet id until r (enqueue made now event r).1
  claims : (now : Time) → now < until → Quiet id until r (claim_next now r).1
  completes : (other : String) (now : Time) → Quiet id until r (complete other now r).1
  retries : (other : String) (at : Time) → other ≢ id → Quiet id until r (retry other at r).1

held_not_claimable :
    (start now : Time) (event : OutboxEvent)
    → event.claimed_at ≡ some start
    → now < start + claim_timeout
    → is_claimable now event ≡ false
unfolding is_claimable
held_not_claimable start now event e lt = ground arith

-- Writing an entry leaves the claim, if it is another entry or has the same claim time.
write-IsHeld :
    (id j : String) (start : Time) (x : OutboxEvent) (r : Outbox)
    → (j ≡ id → x.claimed_at ≡ some start)
    → IsHeld id start r
    → IsHeld id start (record r { events = insert j x r.events })
write-IsHeld id j start x r same (event, p, q) = elim (Bool-cases (j == id)) [
  | inl e ↦ (x, ground (arith, lookup-insert j id x r.events), same ((eq_iff j id).0 e))
  | inr e ↦ (event, ground (arith, lookup-insert j id x r.events), q)
]

claim_next-IsHeld :
    (id : String) (start now : Time) (r : Outbox)
    → IsSound r
    → now < start + claim_timeout
    → IsHeld id start r
    → IsHeld id start (claim_next now r).1
unfolding claim_next
claim_next-IsHeld id start now r s lt (event, p, q) =
    elim (Option-cases (first_claimable now r.events)) [
      | inl e ↦ rw (e, claim_next) (event, p, q)
      | inr ((j, old), e) ↦
          let found = first_claimable-found now r.events j old s.distinct e in
          let busy = held_not_claimable start now event q lt in
          let other : j ≢ id = λ same. cc (found.0, found.1, busy, same, p) in
          let kept = λ (x : OutboxEvent).
            write-IsHeld id j start x r (λ same. absurd (other same)) (event, p, q) in
          elim (Bool-cases (j == "")) [
            | inl h ↦ rw (e, claim_next, h) (kept _)
            | inr h ↦ rw (e, claim_next, h) (kept _)
          ]
    ]

enqueue-IsHeld :
    (id made : String) (start now : Time) (new : OutboxEvent) (r : Outbox)
    → IsFresh made now new r
    → IsHeld id start r
    → IsHeld id start (enqueue made now new r).1
unfolding enqueue put_event
enqueue-IsHeld id made start now new r fresh (event, p, q) = (
  event,
  ground (
    arith,
    eq_iff (filled_in made now new).id id,
    lookup-insert (filled_in made now new).id id (filled_in made now new) r.events,
  ),
  q,
)

complete-IsHeld :
    (id other : String) (start now : Time) (r : Outbox)
    → IsHeld id start r
    → IsHeld id start (complete other now r).1
unfolding complete
complete-IsHeld id other start now r (event, p, q) = elim (Option-cases (lookup other r.events)) [
  | inl e ↦ rw (e, complete) (event, p, q)
  | inr (x, e) ↦ rw (e, complete) (write-IsHeld id other start _ r (λ same. cc) (event, p, q))
]

retry-IsHeld :
    (id other : String) (start at : Time) (r : Outbox)
    → other ≢ id
    → IsHeld id start r
    → IsHeld id start (retry other at r).1
unfolding retry
retry-IsHeld id other start at r ne (event, p, q) = elim (Option-cases (lookup other r.events)) [
  | inl e ↦ rw (e, retry) (event, p, q)
  | inr (x, e) ↦
      rw (e, retry) (write-IsHeld id other start _ r (λ same. absurd (ne same)) (event, p, q))
]

-- A history of quiet calls.
pub data Quietly (id : String) (until : Time) (r : Outbox) : Outbox → Type 0 where
  here : Quietly id until r r
  next : {t u : Outbox} → Quietly id until r t → Quiet id until t u → Quietly id until r u

Quiet-IsHeld :
    (id : String) (start : Time) {r t : Outbox}
    → Quiet id (start + claim_timeout) r t
    → IsSound r
    → IsHeld id start r
    → IsHeld id start t
Quiet-IsHeld id start {r} (enqueues made now event fresh) s h =
    enqueue-IsHeld id made start now event r fresh h
Quiet-IsHeld id start {r} (claims now lt) s h = claim_next-IsHeld id start now r s lt h
Quiet-IsHeld id start {r} (completes other now) s h = complete-IsHeld id other start now r h
Quiet-IsHeld id start {r} (retries other at ne) s h = retry-IsHeld id other start at r ne h

Quiet-Step : (id : String) (until : Time) {r t : Outbox} → Quiet id until r t → Step r t
Quiet-Step id until {r} (enqueues made now event fresh) = Step.enqueues made now event fresh
Quiet-Step id until {r} (claims now lt) = Step.claims now
Quiet-Step id until {r} (completes other now) = Step.completes other now
Quiet-Step id until {r} (retries other at ne) = Step.retries other at

Quietly-keeps :
    (id : String) (start : Time) {r t : Outbox}
    → IsSound r
    → IsHeld id start r
    → Quietly id (start + claim_timeout) r t
    → IsSound t × IsHeld id start t
Quietly-keeps id start s h here = (s, h)
Quietly-keeps id start s h (next q st) =
    let (s', h') = Quietly-keeps id start s h q in
    (Step-IsSound (Quiet-Step id _ st) s', Quiet-IsHeld id start st s' h')

claimed-IsHeld :
    (start : Time) (r r' : Outbox) (event : OutboxEvent)
    → IsSound r
    → claim_next start r ≡ (ok event, r')
    → IsHeld event.id start r'
unfolding mark_claimed
claimed-IsHeld start r r' event s h =
    let (old, p, q, e, w) = claim_next-Claimed start r r' event s h in
    (
      event,
      ground (arith, lookup-insert event.id event.id event r.events, eq_iff event.id event.id),
      ground arith,
    )

-- After any history in which every enqueued id was new, a claim at `start` keeps its event for ten
-- minutes: whatever calls follow with new ids and claim times before `start` plus the timeout, save a
-- retry of the event itself, no claim made before `start` plus the timeout returns it.
pub claim_next-exclusive :
    (r r' t u : Outbox) (start later : Time) (event other : OutboxEvent)
    → Reach empty r
    → claim_next start r ≡ (ok event, r')
    → Quietly event.id (start + claim_timeout) r' t
    → later < start + claim_timeout
    → claim_next later t ≡ (ok other, u)
    → other.id ≢ event.id
claim_next-exclusive r r' t u start later event other reach h quiet lt h' same =
    let s = Reach-IsSound empty-IsSound reach in
    let sound : IsSound r' = subst IsSound (ap (λ p. p.1) h) (claim_next-IsSound r start s) in
    let (s', held) =
      Quietly-keeps event.id start sound (claimed-IsHeld start r r' event s h) quiet in
    let (old, p, q, _, _) = claim_next-Claimed later t u other s' h' in
    let (x, px, qx) = held in
    let busy = held_not_claimable start later x qx lt in cc (p, q, px, busy, same)
