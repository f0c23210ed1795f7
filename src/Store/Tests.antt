-- ===== src/Store/Tests.antt =====
-- Runs of the repositories (internal/store/memory/memory.go) at concrete states.
use open_xai_connect.Base.{
  nat_eqs, string_eqs, lookup, insert, pos, int_eqs, increment, ok, ◌+◌, ◌≤◌, String, ◌≡◌, refl,
  ◌≢◌, ◌⊎◌, true, none, some, [], ◌∷◌, arith, eq_iff,
}
use open_xai_connect.Domain.Status.{ApplicationStatus, status_eqs, valid_transition}
use open_xai_connect.Domain.Application.{Time, Application, transition}
use open_xai_connect.Domain.Records.{OutboxEvent}
use open_xai_connect.Store.Applications.{Applications, transition_app}
use open_xai_connect.Store.Applications.Laws.{Moved, transition_app-Moved}
use open_xai_connect.Store.Applications.Refinement.{deletes, run, specified, Shows, run-refines}
use open_xai_connect.Store.Outbox.{
  Outbox, empty, claim_timeout, filled_in, put_event, key_taken, enqueue, is_claimable,
  first_claimable, mark_claimed, claim_next,
}
use open_xai_connect.Store.Outbox.History.{Step, Reach, Reach-idempotent}
use open_xai_connect.Store.Outbox.Leases.{IsHeld, Quiet, Quietly, claim_next-exclusive}
use open_xai_connect.Store.Outbox.Leases
use open_xai_connect.Store.Outbox.Claims.{claim_next-eligible, claim_next-succeeds}

abbrev an_event : String → String → OutboxEvent
an_event id key = record {
  id = id;
  idempotency_key = key;
  kind = "application.provision";
  application_id = "app_1";
  payload = "";
  attempts = pos 0;
  available_at = 100;
  claimed_at = none;
  completed_at = none;
  created_at = 100;
}

abbrev queue : Outbox
queue = (enqueue "m" 100 (an_event "b" "kb") (enqueue "m" 100 (an_event "a" "ka") empty).1).1

queue-Reach : Reach empty queue
unfolding enqueue filled_in put_event key_taken lookup insert
queue-Reach =
    Reach.next (Reach.next Reach.here (Step.enqueues "m" 100 (an_event "a" "ka") refl))
      (Step.enqueues "m" 100 (an_event "b" "kb") refl)

abbrev claimed : String → String → Time → OutboxEvent
claimed id key now = mark_claimed now (an_event id key)

-- Two workers claim one after the other, and get different events.
claim_next-exclusive_example : (claimed "b" "kb" 300).id ≢ (claimed "a" "ka" 200).id
unfolding claim_next first_claimable is_claimable mark_claimed enqueue filled_in put_event key_taken
    lookup insert
claim_next-exclusive_example =
    claim_next-exclusive queue (claim_next 200 queue).1 (claim_next 200 queue).1
      (claim_next 300 (claim_next 200 queue).1).1 200 300 (claimed "a" "ka" 200)
      (claimed "b" "kb" 300) queue-Reach refl Leases.Quietly.here (omega arith) refl

abbrev key_id : String
key_id = "a"

Reach-idempotent_example : key_id ≡ key_id
unfolding enqueue filled_in put_event key_taken lookup insert
Reach-idempotent_example =
    Reach-idempotent queue "a" "a" (an_event "a" "ka") (an_event "a" "ka") queue-Reach refl refl
      refl (ground (arith, eq_iff "ka" ""))

claim_next-eligible_example :
    (old : OutboxEvent) × (lookup "a" queue.events ≡ some old)
    × (old.completed_at ≡ none)
    × (old.available_at ≤ 200)
    × ((old.claimed_at ≡ none)
        ⊎ ((start : Time) × (old.claimed_at ≡ some start) × (start + claim_timeout ≤ 200)))
    × ((claimed "a" "ka" 200).attempts ≡ increment old.attempts)
    × ((claimed "a" "ka" 200).claimed_at ≡ some 200)
unfolding claim_next first_claimable is_claimable mark_claimed enqueue filled_in put_event key_taken
    lookup insert
claim_next-eligible_example =
    claim_next-eligible queue (claim_next 200 queue).1 200 (claimed "a" "ka" 200) queue-Reach refl

claim_next-succeeds_example : (e : OutboxEvent) × ((claim_next 200 queue).0 ≡ ok e)
unfolding is_claimable enqueue filled_in put_event key_taken lookup insert
claim_next-succeeds_example =
    claim_next-succeeds queue 200 "b" (an_event "b" "kb") queue-Reach refl refl refl

abbrev an_application : Application
an_application = record {
  id = "app_1";
  owner_subject = "u1";
  name = "Forum";
  description = "";
  logo_url = "";
  callback_urls = "https://forum.example/callback" ∷ [];
  verified_domains = "forum.example" ∷ [];
  status = ApplicationStatus.draft;
  require_pkce_nonce = true;
  client_id = "";
  encrypted_client_secret = "";
  secret_version = pos 0;
  review_note = "";
  reviewed_by = "";
  created_at = 100;
  updated_at = 100;
}

abbrev one : Applications
one = ("app_1", an_application) ∷ []

run-refines_example :
    ((run (deletes "app_1") one).0 ≡ (specified (deletes "app_1") (λ id. lookup id one)).0)
    × Shows (run (deletes "app_1") one).1 (specified (deletes "app_1") (λ id. lookup id one)).1
run-refines_example = run-refines (deletes "app_1") one (λ id. lookup id one) (λ id. refl)

abbrev submitted : Application
submitted = record an_application { status = ApplicationStatus.pending_review; updated_at = 200 }

transition_app-Moved_example :
    Moved "app_1" ApplicationStatus.draft ApplicationStatus.pending_review 200 one submitted
      (insert "app_1" submitted one)
unfolding transition_app transition valid_transition lookup insert
transition_app-Moved_example =
    transition_app-Moved "app_1" ApplicationStatus.draft ApplicationStatus.pending_review 200 one
      (insert "app_1" submitted one) submitted refl
