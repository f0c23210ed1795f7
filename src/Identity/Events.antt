-- ===== src/Identity/Events.antt =====
-- internal/identity/events.go: the messages by which Discourse tells the portal of a changed user. The
-- JSON decoder is a parameter, and the body is what reading the limited request body gives.
use Prim.Native.String.{len}
use open_xai_connect.Base.{
  ltb, if◌then◌else◌, ◌==◌, nat_eqs, string_eqs, ℤ, pos, int_eqs, is_positive, IdentityError,
  identity, message, wrapped, Result, refuse_if, ◌*◌, String, Bool, not, ◌&&◌, ◌||◌, Option, none,
  some,
}
use open_xai_connect.Base.Exec.{Exec, lift, failing_as, ◌>>=◌}
use open_xai_connect.Base.Handler.{Handler, answer, fail_with, attempt}
use open_xai_connect.Domain.Application.{Time, add, minute}
use open_xai_connect.Domain.User.{User}
use open_xai_connect.Store.Users.{upsert, get_by_discourse_id}
use open_xai_connect.Identity.UserSnapshot.{UserSnapshot}
use open_xai_connect.Identity.Nonces.{NonceStore, check_and_store}
use open_xai_connect.Identity.Verifier.{Signing, Request, Verifier, verify}
use open_xai_connect.Identity.Directory.{Directory, D, time_of, on_directory}
use open_xai_connect.Identity.Refresher.{mismatch, refreshed}
use open_xai_connect.Portal.World.{Env}

-- OccurredAt is read and filled in by the code, and then not used: it is left out.
pub record StatusEvent : Type 0 where
  pub event_id : String
  pub user_id : ℤ
  pub event_type : String
  pub status : UserSnapshot

-- The directory, the nonces of signed requests, the events that were seen, and the cache of level
-- progress.
pub record Inbox (R C : Type 0) : Type 0 where
  pub directory : Directory R
  pub nonces : NonceStore
  pub event_ids : NonceStore
  pub cache : C

-- Any of the dependencies may be nil.
pub record EventConsumer (C : Type 0) : Type 0 where
  pub verifier : Option Verifier
  pub has_users : Bool
  pub has_event_ids : Bool
  pub invalidate : Option (ℤ → Exec C (Unit {0}))

abbrev pub Posted : Type 0
Posted = Request × Result String

unfoldable pub invalid_event : StatusEvent → Bool
invalid_event event =
    (event.event_id == "")
    || ltb 128 (len event.event_id)
    || not (is_positive event.user_id)
    || not (event.event_type == "user_status_changed")
    || not (event.status.discourse_id == event.user_id)

unfoldable pub misnamed : User → UserSnapshot → Bool
misnamed user status = not (status.subject == "") && not (status.subject == user.subject)

unfoldable pub updated_by : User → UserSnapshot → Time → User
unfolding refreshed
updated_by user status now = record (refreshed user.subject status user.created_at now) {
  discourse_id = user.discourse_id;
}

module _ {R C : Type 0} where
  unfoldable pub in_directory : {A : Type 0} → D R A → Exec (Inbox R C) A
  in_directory op w = let (r, d) = op w.directory in (r, record w { directory = d })

  unfoldable pub in_nonces : {A : Type 0} → Exec NonceStore A → Exec (Inbox R C) A
  in_nonces op w = let (r, s) = op w.nonces in (r, record w { nonces = s })

  unfoldable pub in_event_ids : {A : Type 0} → Exec NonceStore A → Exec (Inbox R C) A
  in_event_ids op w = let (r, s) = op w.event_ids in (r, record w { event_ids = s })

  -- A failure to drop the cached progress is logged, and no more.
  unfoldable pub drop_cached :
      Option (ℤ → Exec C (Unit {0})) → ℤ → Handler (Inbox R C) → Handler (Inbox R C)
  drop_cached none id next w = next w
  drop_cached (some invalidate) id next w = next (record w { cache = (invalidate id w.cache).1 })

  module _ (env : Env) where
    -- CheckAndStore of the event's id, for a day.
    unfoldable pub accept_event : String → Exec (Inbox R C) Bool
    accept_event id = do
      now ← in_directory (time_of env)
      stored_at ← in_directory (time_of env)
      in_event_ids (check_and_store id (add now (pos (24 * 60 * minute))) stored_at)

    unfoldable pub store_status : StatusEvent → User → Exec (Inbox R C) (Unit {0})
    unfolding updated_by
    store_status event user = do
      now ← in_directory (time_of env)
      in_directory (on_directory env (upsert (updated_by user event.status now)))

    unfoldable pub update_user : EventConsumer C → StatusEvent → User → Handler (Inbox R C)
    unfolding store_status drop_cached misnamed
    update_user c event user =
        attempt 400 (lift (refuse_if (misnamed user event.status) mismatch)) λ _.
          attempt 503 (store_status event user)
            λ _. drop_cached c.invalidate event.user_id (answer 204)

    unfoldable pub apply_event : EventConsumer C → StatusEvent → Handler (Inbox R C)
    unfolding update_user
    apply_event c event =
        attempt 404 (in_directory (on_directory env (get_by_discourse_id event.user_id)))
          (update_user c event)

    unfoldable pub consume_event : EventConsumer C → StatusEvent → Handler (Inbox R C)
    unfolding accept_event apply_event
    consume_event c event = attempt 503 (accept_event event.event_id) λ accepted.
        attempt 409 (lift (refuse_if (not accepted) (identity IdentityError.replay)))
          λ _. apply_event c event

  module _ (decode_event : String → Result StatusEvent) (env : Env) where
    unfoldable pub decode_posted : EventConsumer C → String → Handler (Inbox R C)
    unfolding consume_event invalid_event
    decode_posted c body =
        attempt 400 (failing_as (λ e. wrapped e "decode identity event") (lift (decode_event body)))
          λ event.
            attempt 400 (lift (refuse_if (invalid_event event) (message "invalid identity event")))
              λ _. consume_event env c event

  module _ (go : Signing) (env : Env) where
    unfoldable pub verify_posted : Verifier → Request → String → Exec (Inbox R C) (Unit {0})
    verify_posted v request body = do
      now ← in_directory (time_of env)
      stored_at ← in_directory (time_of env)
      in_nonces (verify go v (some request) body now stored_at)

  module _ (go : Signing) (decode_event : String → Result StatusEvent) (env : Env) where
    unfoldable pub receive_event : EventConsumer C → Verifier → Posted → Handler (Inbox R C)
    unfolding verify_posted decode_posted
    receive_event c v (request, read_body) =
        attempt 405
          (lift
            (refuse_if (not (request.method == "POST")) (message "identity events require POST")))
          λ _. attempt 400 (lift read_body) λ body.
            attempt 401 (verify_posted go env v request body)
              λ _. decode_posted decode_event env c body

    unfoldable pub serve_event : EventConsumer C → Posted → Handler (Inbox R C)
    unfolding receive_event
    serve_event c posted = elim c.verifier [
      | none ↦ fail_with 503 (message "identity event consumer is not initialized")
      | some v ↦
          if not c.has_users || not c.has_event_ids
          then fail_with 503 (message "identity event consumer is not initialized")
          else receive_event c v posted
    ]
