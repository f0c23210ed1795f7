-- ===== src/Store/Outbox/Claims.antt =====
-- Which event a claim returns, and when it returns one.
use open_xai_connect.Base.{
  nat_eqs, string_eqs, Option-cases, lookup, int_eqs, increment, ok, ◌+◌, ◌≤◌, String, ◌≡◌, ◌⊎◌,
  inl, inr, true, none, some, arith, eq_iff,
}
use open_xai_connect.Domain.Application.{Time}
use open_xai_connect.Domain.Records.{OutboxEvent}
use open_xai_connect.Store.Outbox.{
  Outbox, empty, claim_timeout, is_claimable, claim_next, mark_claimed, first_claimable,
}
use open_xai_connect.Store.Outbox.Laws.{
  claim_next-Claimed, first_claimable-found, first_claimable-some,
}
use open_xai_connect.Store.Outbox.History.{Reach, Reach-IsSound, empty-IsSound}

-- After any history in which every enqueued id was new, a successful claim returns a stored event that
-- was not completed, was due, and was unclaimed or claimed ten minutes ago or more; it counts the
-- attempt and records the time of the claim.
pub claim_next-eligible :
    (r t : Outbox) (now : Time) (event : OutboxEvent)
    → Reach empty r
    → claim_next now r ≡ (ok event, t)
    → (old : OutboxEvent) × (lookup event.id r.events ≡ some old)
      × (old.completed_at ≡ none)
      × (old.available_at ≤ now)
      × ((old.claimed_at ≡ none)
          ⊎ ((start : Time) × (old.claimed_at ≡ some start) × (start + claim_timeout ≤ now)))
      × (event.attempts ≡ increment old.attempts)
      × (event.claimed_at ≡ some now)
unfolding is_claimable mark_claimed
claim_next-eligible r t now event reach h =
    let s = Reach-IsSound empty-IsSound reach in
    let (old, p, q, e, _) = claim_next-Claimed now r t event s h in
    (old, p, ground arith, ground arith, ground arith, ground arith, ground arith)

-- After any history in which every enqueued id was new, a claim succeeds where a claimable event is
-- stored and none under the empty id.
pub claim_next-succeeds :
    (r : Outbox) (now : Time) (id : String) (event : OutboxEvent)
    → Reach empty r
    → lookup "" r.events ≡ none
    → lookup id r.events ≡ some event
    → is_claimable now event ≡ true
    → (claimed : OutboxEvent) × ((claim_next now r).0 ≡ ok claimed)
unfolding claim_next
claim_next-succeeds r now id event reach blank p q =
    let s = Reach-IsSound empty-IsSound reach in
    elim (Option-cases (first_claimable now r.events)) [
      | inl e ↦ absurd (first_claimable-some now r.events id event p q e)
      | inr ((j, old), e) ↦
          let found = first_claimable-found now r.events j old s.distinct e in
          (
            mark_claimed now (record old { claimed_at = none }),
            rw (e, claim_next) (ground (arith, eq_iff j "")),
          )
    ]
