-- ===== src/Store/Outbox.antt =====
-- internal/store/memory/memory.go: the outbox, a queue of events that workers claim.
mod Laws
pub mod History
pub mod Leases
pub mod Claims
use open_xai_connect.Base.{
  leb, if◌then◌else◌, ◌==◌, nat_eqs, string_eqs, Map, lookup, insert, int_eqs, increment,
  StoreError, store, ok, err, ℕ, ◌+◌, ◌*◌, String, Bool, true, false, ◌&&◌, ◌||◌, Option, none,
  some, [], ◌∷◌,
}
use open_xai_connect.Base.Exec.{Exec}
use open_xai_connect.Domain.Application.{Time, is_zero, minute}
use open_xai_connect.Domain.Records.{OutboxEvent}

pub record Outbox : Type 0 where
  pub events : Map String OutboxEvent
  pub by_key : Map String String

abbrev pub empty : Outbox
empty = record { events = []; by_key = [] }

abbrev pub claim_timeout : ℕ
claim_timeout = 10 * minute

-- The id and the time that the repository fills in are arguments: `made` is "outbox_" with the
-- formatted time, `now` is time.Now().
unfoldable pub filled_in : String → Time → OutboxEvent → OutboxEvent
filled_in made now event =
    let id = if event.id == "" then made else event.id in
    let available = if is_zero event.available_at then now else event.available_at in
    record event { id = id; available_at = available }

unfoldable pub put_event : OutboxEvent → Outbox → Outbox
put_event event r = record {
  events = insert event.id event r.events;
  by_key =
      if event.idempotency_key == ""
      then r.by_key
      else insert event.idempotency_key event.id r.by_key;
}

unfoldable pub key_taken : OutboxEvent → Outbox → Bool
key_taken event r =
    if event.idempotency_key == ""
    then false
    else elim (lookup event.idempotency_key r.by_key) [ none ↦ false | some _ ↦ true ]

unfoldable pub enqueue : String → Time → OutboxEvent → Exec Outbox (Unit {0})
enqueue made now event r =
    if key_taken event r
    then (err (store StoreError.conflict), r)
    else (ok tt, put_event (filled_in made now event) r)

-- now.Sub(claimed) >= outboxClaimTimeout
unfoldable pub is_stale : Time → Option Time → Bool
is_stale now none = false
is_stale now (some claimed) = leb (claimed + claim_timeout) now

abbrev pub is_none {ℓ} : {A : Type ℓ} → Option A → Bool
is_none none = true
is_none (some a) = false

unfoldable pub is_claimable : Time → OutboxEvent → Bool
unfolding is_stale
is_claimable now event =
    is_none event.completed_at
    && (is_none event.claimed_at || is_stale now event.claimed_at)
    && leb event.available_at now

unfoldable pub first_claimable : Time → Map String OutboxEvent → Option (String × OutboxEvent)
unfolding is_claimable
first_claimable now [] = none
first_claimable now ((id, event) ∷ rest) =
    if is_claimable now event then some (id, event) else first_claimable now rest

unfoldable pub mark_claimed : Time → OutboxEvent → OutboxEvent
mark_claimed now event = record event { attempts = increment event.attempts; claimed_at = some now }

store_event : String → OutboxEvent → Outbox → Outbox
store_event id event r = record r { events = insert id event r.events }

-- The loop writes the selected event back unclaimed; an empty id counts as nothing selected.
claim_selected : Time → Option (String × OutboxEvent) → Exec Outbox OutboxEvent
claim_selected now none r = (err (store StoreError.not_found), r)
claim_selected now (some (id, event)) r =
    let freed = record event { claimed_at = none } in
    if id == ""
    then (err (store StoreError.not_found), store_event id freed r)
    else (ok (mark_claimed now freed), store_event id (mark_claimed now freed) r)

unfoldable pub claim_next : Time → Exec Outbox OutboxEvent
unfolding claim_selected store_event
claim_next now r = claim_selected now (first_claimable now r.events) r

unfoldable pub complete : String → Time → Exec Outbox (Unit {0})
unfolding store_event
complete id now r = elim (lookup id r.events) [
  | none ↦ (err (store StoreError.not_found), r)
  | some event ↦ (ok tt, store_event id (record event { completed_at = some now }) r)
]

unfoldable pub retry : String → Time → Exec Outbox (Unit {0})
unfolding store_event
retry id available_at r = elim (lookup id r.events) [
  | none ↦ (err (store StoreError.not_found), r)
  | some event ↦
      (ok tt, store_event id (record event { claimed_at = none; available_at = available_at }) r)
]
