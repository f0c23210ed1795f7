-- ===== src/Identity/Updated.antt =====
-- internal/identity/events.go: what stands behind an event that changed a user, and how the handler may
-- end.
use Prim.Native.String.{len}
use open_xai_connect.Base.{
  ◌==◌, nat_eqs, string_eqs, Bool-cases, lookup, int_eq_iff, int_eqs, is_positive, Result, ok, err,
  Check, ℕ, zero, suc, ◌+◌, ◌*◌, ◌≤◌, String, ◌≡◌, ap, ◌∙◌, ◌≢◌, ◌⊎◌, inl, inr, Bool, true, false,
  some, arith, eq_iff, subst,
}
use open_xai_connect.Base.Exec.{◌>>=◌}
use open_xai_connect.Base.Cases.{pair_eq}
use open_xai_connect.Domain.Application.{Time, minute}
use open_xai_connect.Domain.User.{User}
use open_xai_connect.Store.Users.{Users, upsert}
use open_xai_connect.Identity.UserSnapshot.{UserSnapshot}
use open_xai_connect.Identity.Nonces.{NonceStore, check_and_store}
use open_xai_connect.Identity.FirstUse.{IsFirstUse, check_and_store-IsFirstUse}
use open_xai_connect.Identity.Verifier.{Signing, Verifier, verify}
use open_xai_connect.Identity.Directory.{time_of}
use open_xai_connect.Identity.Events.{
  StatusEvent, Inbox, Posted, invalid_event, misnamed, updated_by, in_directory, in_event_ids,
  accept_event,
}
use open_xai_connect.Portal.World.{Env}

-- An event that the portal understands.
pub record IsEvent (event : StatusEvent) : Type 0 where
  pub has_id : event.event_id ≢ ""
  pub short : len event.event_id ≤ 128
  pub has_user : is_positive event.user_id ≡ true
  pub type_known : event.event_type ≡ "user_status_changed"
  pub about : event.status.discourse_id ≡ event.user_id

pub invalid_event-IsEvent : (event : StatusEvent) → invalid_event event ≡ false → IsEvent event
unfolding invalid_event
invalid_event-IsEvent event h = record {
  has_id = λ e. ground (arith, eq_iff event.event_id "");
  short = ground arith;
  has_user = ground arith;
  type_known = ground (arith, eq_iff event.event_type "user_status_changed");
  about = ground (arith, int_eq_iff event.status.discourse_id event.user_id);
}

pub misnamed-passed :
    (user : User) (status : UserSnapshot)
    → misnamed user status ≡ false
    → (status.subject ≡ "") ⊎ (status.subject ≡ user.subject)
unfolding misnamed
misnamed-passed user status h = elim (Bool-cases (status.subject == "")) [
  | inl e ↦ inl (ground (arith, eq_iff status.subject ""))
  | inr e ↦ inr (ground (arith, eq_iff status.subject user.subject))
]

-- So many steps on.
abbrev pub later : ℕ → ℕ → ℕ
later zero n = n
later (suc k) n = suc (later k n)

module _ {R C : Type 0} (go : Signing) (decode_event : String → Result StatusEvent) (env : Env)
    (v : Verifier) (posted : Posted) (w : Inbox R C) where
  -- The reading of the clock after this many steps of the handler.
  abbrev pub clock_after : ℕ → Time
  clock_after n = env.clock (later n w.directory.step)

  -- The event that changed a user, and the users and event ids that it left: its request was posted and
  -- verified, its id was not remembered at the clock of the id store and is remembered now for a day,
  -- and it is about the stored user with its number, who takes over its status.
  pub record IsUpdate (users : Users) (event_ids : NonceStore) : Type 0 where
    pub method : posted.0.method ≡ "POST"
    pub body : String
    pub read : posted.1 ≡ ok body
    pub verified :
        (verify go v (some posted.0) body (clock_after 0) (clock_after 1) w.nonces).0 ≡ ok tt
    pub event : StatusEvent
    pub decoded : decode_event body ≡ ok event
    pub valid : IsEvent event
    pub first_use :
        IsFirstUse event.event_id
          (clock_after 2 + 24 * 60 * minute)
          (clock_after 3)
          w.event_ids
          event_ids
    pub user : User
    pub stored : lookup user.subject w.directory.users.by_subject ≡ some user
    pub number : user.discourse_id ≡ event.user_id
    pub named : (event.status.subject ≡ "") ⊎ (event.status.subject ≡ user.subject)
    pub updated :
        users ≡ (upsert (updated_by user event.status (clock_after 5)) w.directory.users).1

  -- How the handler may end: with an error and the users as they were, or with status 204 and one user
  -- updated.
  abbrev pub EventEnd : (ℕ × Check) × Inbox R C → Type 0
  EventEnd ((code, ok _), w') = (code ≡ 204) × IsUpdate w'.directory.users w'.event_ids
  EventEnd ((code, err e), w') = w'.directory.users ≡ w.directory.users

  pub accepted-IsFirstUse :
      (w' t : Inbox R C) (id : String) (accepted : Bool)
      → accept_event env id w' ≡ (ok accepted, t)
      → accepted ≡ true
      → w'.directory.step ≡ later 2 w.directory.step
      → w'.event_ids ≡ w.event_ids
      → IsFirstUse id (clock_after 2 + 24 * 60 * minute) (clock_after 3) w.event_ids t.event_ids
  unfolding accept_event in_directory in_event_ids time_of ◌>>=◌
  accepted-IsFirstUse w' t id accepted e took step ids =
      let day = 24 * 60 * minute in
      let expires : ℕ → Time = λ n. env.clock n + day in
      let stored =
        check_and_store id (expires w'.directory.step) (env.clock (suc w'.directory.step))
          w'.event_ids in
      subst (λ s. IsFirstUse id (clock_after 2 + day) (clock_after 3) s t.event_ids) ids
        (subst (λ n. IsFirstUse id (expires n) (env.clock (suc n)) w'.event_ids t.event_ids) step
          (check_and_store-IsFirstUse id (expires w'.directory.step)
            (env.clock (suc w'.directory.step)) w'.event_ids t.event_ids
            (pair_eq stored (ap (λ p. p.0) e ∙ ap ok took) (ap (λ p. p.1.event_ids) e))))
