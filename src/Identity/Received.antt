-- ===== src/Identity/Received.antt =====
-- internal/identity/events.go: what an event may change of the users.
use open_xai_connect.Base.{
  ◌==◌, nat_eqs, string_eqs, Bool-cases, eq_of_not_differs, of_not-false, lookup, ℤ, int_eqs,
  IdentityError, identity, message, wrapped, Result, ok, Check, refuse_if, ℕ, suc, String, ◌≡◌,
  refl, sym, ap, ◌∙◌, ◌⊎◌, inl, inr, false, not, Option, none, some, subst,
}
use open_xai_connect.Base.Exec.{Exec, renamed, failing_as, ◌>>=◌}
use open_xai_connect.Base.Cases.{renamed-passed, refuse_if-false}
use open_xai_connect.Base.Handler.{answer, attempted, attempt, attempt-cases, attempt_lift-cases}
use open_xai_connect.Domain.Application.{Time}
use open_xai_connect.Domain.User.{User}
use open_xai_connect.Store.Users.{Users, upsert, get_by_discourse_id}
use open_xai_connect.Store.Users.Linked.{IsLinked}
use open_xai_connect.Store.Users.Found.{get_by_discourse_id-cases, get_by_discourse_id-same}
use open_xai_connect.Identity.Nonces.{NonceStore}
use open_xai_connect.Identity.Verifier.{Signing, Verifier, verify}
use open_xai_connect.Identity.Directory.{Directory, time_of, on_directory-cases}
use open_xai_connect.Identity.Events.{
  StatusEvent, Inbox, EventConsumer, Posted, invalid_event, misnamed, updated_by, in_directory,
  in_nonces, in_event_ids, drop_cached, accept_event, store_status, update_user, apply_event,
  consume_event, decode_posted, verify_posted, receive_event,
}
use open_xai_connect.Portal.World.{Env}
use open_xai_connect.Identity.Updated.{
  later, clock_after, IsUpdate, EventEnd, accepted-IsFirstUse, invalid_event-IsEvent,
  misnamed-passed,
}

module _ {R C : Type 0} (go : Signing) (decode_event : String → Result StatusEvent) (env : Env)
    (v : Verifier) (posted : Posted) (w : Inbox R C) where
  abbrev End : (ℕ × Check) × Inbox R C → Type 0
  End = EventEnd go decode_event env v posted w

  abbrev Left : Users → NonceStore → Type 0
  Left = IsUpdate go decode_event env v posted w

  abbrev at_step : ℕ → Time
  at_step = clock_after go decode_event env v posted w

  module _ (c : EventConsumer C) (linked : IsLinked w.directory.users) where
    dropped-EventEnd :
        (invalidate : Option (ℤ → Exec C (Unit {0}))) (id : ℤ) (w' : Inbox R C)
        → Left w'.directory.users w'.event_ids
        → End (drop_cached invalidate id (answer 204) w')
    unfolding drop_cached
    dropped-EventEnd none id w' update = (refl, update)
    dropped-EventEnd (some f) id w' update = (refl, update)

    update-EventEnd :
        (w' : Inbox R C) (event : StatusEvent) (user : User)
        → w'.directory.users ≡ w.directory.users
        → w'.directory.step ≡ later 5 w.directory.step
        → ((users : Users)
            → (event.status.subject ≡ "") ⊎ (event.status.subject ≡ user.subject)
            → users ≡ (upsert (updated_by user event.status (at_step 5)) w.directory.users).1
            → Left users w'.event_ids)
        → End (update_user env c event user w')
    unfolding update_user in_directory attempt store_status time_of upsert updated_by ◌>>=◌
    update-EventEnd w' event user same step update =
        elim (Bool-cases (misnamed user event.status)) [
          | inl e ↦ rw (e, update_user) same
          | inr e ↦
              let new : ℕ → User = λ n. updated_by user event.status (env.clock n) in
              let d1 : Directory R = record w'.directory { step = suc w'.directory.step } in
              rw (e, update_user)
                (on_directory-cases
                  (λ p. End (
                    attempted 503 p.0 (λ _. drop_cached c.invalidate event.user_id (answer 204))
                      (record w' { directory = p.1 })))
                  d1 env (upsert (new w'.directory.step))
                  (λ d' _ u _.
                    dropped-EventEnd c.invalidate event.user_id (record w' { directory = d' })
                      (update d'.users (misnamed-passed user event.status e) (
                        u
                        ∙ ap (λ z. (upsert (new w'.directory.step) z).1) same
                        ∙ ap (λ n. (upsert (new n) w.directory.users).1) step)))
                  (λ x d' _ _ u. u ∙ same))
        ]

    apply-EventEnd :
        (w' : Inbox R C) (event : StatusEvent)
        → w'.directory.users ≡ w.directory.users
        → w'.directory.step ≡ later 4 w.directory.step
        → ((user : User) (users : Users)
            → lookup user.subject w.directory.users.by_subject ≡ some user
            → user.discourse_id ≡ event.user_id
            → (event.status.subject ≡ "") ⊎ (event.status.subject ≡ user.subject)
            → users ≡ (upsert (updated_by user event.status (at_step 5)) w.directory.users).1
            → Left users w'.event_ids)
        → End (apply_event env c event w')
    unfolding apply_event in_directory attempt store_status time_of drop_cached upsert updated_by
        ◌>>=◌
    apply-EventEnd w' event same step update =
        on_directory-cases
          (λ p. End (attempted 404 p.0 (update_user env c event) (record w' { directory = p.1 })))
          w'.directory env (get_by_discourse_id event.user_id)
          (λ d' _ e next.
            let same' = e ∙ get_by_discourse_id-same w'.directory.users event.user_id ∙ same in
            get_by_discourse_id-cases
              (λ x. End (attempted 404 x (update_user env c event) (record w' { directory = d' })))
              w'.directory.users event.user_id (subst IsLinked (sym same) linked)
              (λ u a b n.
                update-EventEnd (record w' { directory = d' }) event u same' (next ∙ ap suc step)
                  (λ users.
                    update u users (ap (λ z. lookup u.subject z.by_subject) (sym same) ∙ b) n))
              (λ _. same'))
          (λ x d' _ _ e. e ∙ same)

    module _ (method : posted.0.method ≡ "POST") (body : String) (read : posted.1 ≡ ok body)
        (verified : (verify go v (some posted.0) body (at_step 0) (at_step 1) w.nonces).0
          ≡ ok tt) where
      -- What is known of the event once the request is verified and decoded.
      consume-EventEnd :
          (w' : Inbox R C) (event : StatusEvent)
          → decode_event body ≡ ok event
          → invalid_event event ≡ false
          → w'.directory.users ≡ w.directory.users
          → w'.directory.step ≡ later 2 w.directory.step
          → w'.event_ids ≡ w.event_ids
          → End (consume_event env c event w')
      unfolding consume_event accept_event in_directory in_event_ids time_of ◌>>=◌
      consume-EventEnd w' event decoded valid same step ids =
          attempt-cases End 503 (accept_event env event.event_id) _ w'
            (λ accepted t e.
              let users = ap (λ p. p.1.directory.users) (sym e) ∙ same in
              attempt_lift-cases End 409 (refuse_if (not accepted) (identity IdentityError.replay))
                _ t
                (λ _ unseen.
                  apply-EventEnd t event users
                    (ap (λ p. p.1.directory.step) (sym e) ∙ ap (λ n. suc (suc n)) step)
                    (λ user after stored number named updated. record {
                      method = method;
                      body = body;
                      read = read;
                      verified = verified;
                      event = event;
                      decoded = decoded;
                      valid = invalid_event-IsEvent event valid;
                      first_use =
                          accepted-IsFirstUse go decode_event env v posted w w' t event.event_id
                            accepted e
                            (of_not-false accepted (
                              refuse_if-false (not accepted) (identity IdentityError.replay) _
                                unseen))
                            step ids;
                      user = user;
                      stored = stored;
                      number = number;
                      named = named;
                      updated = updated;
                    }))
                (λ x _. users))
            (λ x t e. ap (λ p. p.1.directory.users) (sym e) ∙ same)

      decode-EventEnd :
          (w' : Inbox R C)
          → w'.directory.users ≡ w.directory.users
          → w'.directory.step ≡ later 2 w.directory.step
          → w'.event_ids ≡ w.event_ids
          → End (decode_posted decode_event env c body w')
      unfolding decode_posted failing_as
      decode-EventEnd w' same step ids =
          attempt_lift-cases End 400
            (renamed (λ e. wrapped e "decode identity event") (decode_event body)) _ w'
            (λ event decoded.
              attempt_lift-cases End 400
                (refuse_if (invalid_event event) (message "invalid identity event")) _ w'
                (λ _ valid.
                  consume-EventEnd w' event
                    (renamed-passed (λ e. wrapped e "decode identity event") (decode_event body)
                      event decoded)
                    (refuse_if-false (invalid_event event) (message "invalid identity event") _
                      valid)
                    same step ids)
                (λ x _. same))
            (λ x _. same)

    -- Where the maps of the user repository agree, an event changes a user only if its request is a
    -- POST and verified at the clock, it decodes and is well-formed, its id is not remembered past
    -- the clock of the id store, and it names the stored user with its number; then 204 is
    -- answered, that user is stored with the status, and the id is remembered for a day from the
    -- clock. After every error the users are as before.
    pub receive-EventEnd :
        EventEnd go decode_event env v posted w (receive_event go decode_event env c v posted w)
    unfolding receive_event verify_posted in_directory in_nonces time_of ◌>>=◌
    receive-EventEnd =
        attempt_lift-cases End 405
          (refuse_if (not (posted.0.method == "POST")) (message "identity events require POST")) _ w
          (λ _ method.
            attempt_lift-cases End 400 posted.1 _ w
              (λ body read.
                attempt-cases End 401 (verify_posted go env v posted.0 body) _ w
                  (λ _ t e.
                    decode-EventEnd
                      (eq_of_not_differs _ _ (
                        refuse_if-false (not (posted.0.method == "POST"))
                          (message "identity events require POST") _ method))
                      body read (ap (λ p. p.0) e) t (ap (λ p. p.1.directory.users) (sym e))
                      (ap (λ p. p.1.directory.step) (sym e)) (ap (λ p. p.1.event_ids) (sym e)))
                  (λ x t e. ap (λ p. p.1.directory.users) (sym e)))
              (λ x _. refl))
          (λ x _. refl)
