-- ===== src/Store/Outbox/Laws.antt =====
-- The outbox: an event is worked on by one claim at a time, never after it is completed, and an
-- idempotency key is used once. `IsSound` is what the methods keep.
use open_xai_connect.Base.{
  ◌==◌, nat_eqs, string_eqs, Bool-cases, Option-cases, Map, lookup, insert, lookup-insert,
  IsDistinct, insert-IsDistinct, int_eqs, ok, String, ◌≡◌, refl, ◌≢◌, ◌⊎◌, inl, inr, true, false,
  none, some, [], ◌∷◌, arith, eq_iff,
}
use open_xai_connect.Domain.Application.{Time}
use open_xai_connect.Domain.Records.{OutboxEvent}
use open_xai_connect.Store.Outbox.{
  Outbox, is_claimable, first_claimable, claim_next, complete, retry, mark_claimed,
}

pub record IsSound (r : Outbox) : Type 0 where
  pub distinct : IsDistinct r.events
  pub keyed : (id : String) (event : OutboxEvent) → lookup id r.events ≡ some event → event.id ≡ id
  pub registered :
      (id : String) (event : OutboxEvent)
      → lookup id r.events ≡ some event
      → (event.idempotency_key ≡ "") ⊎ (lookup event.idempotency_key r.by_key ≡ some id)

pub first_claimable-found :
    (now : Time) (m : Map String OutboxEvent) (id : String) (event : OutboxEvent)
    → IsDistinct m
    → first_claimable now m ≡ some (id, event)
    → (lookup id m ≡ some event) × (is_claimable now event ≡ true)
unfolding first_claimable lookup
first_claimable-found now [] id event d h = cc
first_claimable-found now ((j, w) ∷ m) id event d h =
    ground (arith, eq_iff j id, first_claimable-found now m id event d.1)

pub first_claimable-none :
    (now : Time) (m : Map String OutboxEvent) (id : String) (event : OutboxEvent)
    → first_claimable now m ≡ none
    → lookup id m ≡ some event
    → is_claimable now event ≡ false
unfolding first_claimable lookup
first_claimable-none now [] id event h e = cc
first_claimable-none now ((j, w) ∷ m) id event h e =
    ground (arith, first_claimable-none now m id event)

pub first_claimable-some :
    (now : Time) (m : Map String OutboxEvent) (id : String) (event : OutboxEvent)
    → lookup id m ≡ some event
    → is_claimable now event ≡ true
    → first_claimable now m ≢ none
first_claimable-some now m id event e h n = cc (first_claimable-none now m id event n e)

-- What a successful claim did.
abbrev pub Claimed : Time → Outbox → OutboxEvent → Outbox → Type 0
Claimed now r event r' =
    (old : OutboxEvent) × (lookup event.id r.events ≡ some old)
    × (is_claimable now old ≡ true)
    × (event ≡ mark_claimed now (record old { claimed_at = none }))
    × (r' ≡ record r { events = insert event.id event r.events })

Claimed-of_found :
    (now : Time) (r r' : Outbox) (id : String) (old event : OutboxEvent)
    → IsSound r
    → first_claimable now r.events ≡ some (id, old)
    → claim_next now r ≡ (ok event, r')
    → Claimed now r event r'
unfolding claim_next mark_claimed
Claimed-of_found now r r' id old event s e h =
    let found = first_claimable-found now r.events id old s.distinct e in
    let same = s.keyed id old found.0 in
    let here : event.id ≡ id = ground arith in
    (old, ground arith, found.1, ground arith, ground arith)

pub claim_next-Claimed :
    (now : Time) (r r' : Outbox) (event : OutboxEvent)
    → IsSound r
    → claim_next now r ≡ (ok event, r')
    → Claimed now r event r'
unfolding claim_next mark_claimed
claim_next-Claimed now r r' event s h = elim (Option-cases (first_claimable now r.events)) [
  | inl e ↦ ground arith
  | inr (p, e) ↦ Claimed-of_found now r r' p.0 p.1 event s e h
]

pub store-IsSound :
    (r : Outbox) (id : String) (old event : OutboxEvent)
    → IsSound r
    → lookup id r.events ≡ some old
    → event.id ≡ old.id
    → event.idempotency_key ≡ old.idempotency_key
    → IsSound (record r { events = insert id event r.events })
store-IsSound r id old event s e same key = record {
  distinct = insert-IsDistinct id event r.events s.distinct;
  keyed = λ j x p.
      ground (arith, lookup-insert id j event r.events, eq_iff id j, s.keyed id old, s.keyed j x);
  registered = λ j x p. ground (
    arith,
    lookup-insert id j event r.events,
    eq_iff id j,
    s.registered id old,
    s.registered j x,
  );
}

pub complete-IsSound :
    (r : Outbox) (id : String) (now : Time) → IsSound r → IsSound (complete id now r).1
unfolding complete
complete-IsSound r id now s = elim (Option-cases (lookup id r.events)) [
  | inl e ↦ rw (e, complete) s
  | inr (old, e) ↦ rw (e, complete) (store-IsSound r id old _ s e refl refl)
]

pub retry-IsSound : (r : Outbox) (id : String) (at : Time) → IsSound r → IsSound (retry id at r).1
unfolding retry
retry-IsSound r id at s = elim (Option-cases (lookup id r.events)) [
  | inl e ↦ rw (e, retry) s
  | inr (old, e) ↦ rw (e, retry) (store-IsSound r id old _ s e refl refl)
]

claim_selected-IsSound :
    (r : Outbox) (now : Time) (id : String) (old : OutboxEvent)
    → IsSound r
    → lookup id r.events ≡ some old
    → first_claimable now r.events ≡ some (id, old)
    → IsSound (claim_next now r).1
unfolding claim_next mark_claimed
claim_selected-IsSound r now id old s e f = elim (Bool-cases (id == "")) [
  | inl h ↦ rw (f, claim_next, h) (store-IsSound r id old _ s e refl refl)
  | inr h ↦ rw (f, claim_next, h) (store-IsSound r id old _ s e refl refl)
]

pub claim_next-IsSound : (r : Outbox) (now : Time) → IsSound r → IsSound (claim_next now r).1
unfolding claim_next mark_claimed
claim_next-IsSound r now s = elim (Option-cases (first_claimable now r.events)) [
  | inl e ↦ rw (e, claim_next) s
  | inr ((id, old), e) ↦
      claim_selected-IsSound r now id old s
        (first_claimable-found now r.events id old s.distinct e).0 e
]
