-- ===== src/Identity/Refresher.antt =====
-- internal/identity/status.go and access.go: the current status of a user, read from Discourse and
-- stored, and the rights that follow from it.
use open_xai_connect.Base.{
  if◌then◌else◌, ◌==◌, nat_eqs, string_eqs, int_eqs, IdentityError, Error, identity, message,
  wrapped, refuse_if, String, Bool, not, ◌&&◌, ◌||◌, Option, none, some,
}
use open_xai_connect.Base.Exec.{Exec, pure, raise, lift, failing_as, ◌>>=◌, ◌>>◌}
use open_xai_connect.Domain.Application.{Time}
use open_xai_connect.Domain.User.{User}
use open_xai_connect.Store.Users.{upsert, get_by_subject}
use open_xai_connect.Identity.UserSnapshot.{UserSnapshot}
use open_xai_connect.Identity.StatusSnapshot.{StatusSnapshot}
use open_xai_connect.Identity.Directory.{Directory, Provider, D, on_remote, time_of, on_directory}
use open_xai_connect.Portal.World.{Env, StatusLookup}

abbrev pub mismatch : Error
mismatch = identity IdentityError.identity_mismatch

-- A user as it is stored after Discourse answered with a snapshot.
unfoldable pub refreshed : String → UserSnapshot → Time → Time → User
refreshed subject snapshot created_at now = record {
  subject = subject;
  discourse_id = snapshot.discourse_id;
  username = snapshot.username;
  name = snapshot.name;
  email = snapshot.email;
  avatar_url = snapshot.avatar_url;
  trust_level = snapshot.trust_level;
  active = snapshot.active;
  silenced = snapshot.silenced;
  suspended = snapshot.suspended;
  reviewer = snapshot.reviewer;
  admin = snapshot.admin;
  created_at = created_at;
  updated_at = now;
}

unfoldable pub status_of : String → UserSnapshot → StatusSnapshot
status_of subject snapshot = record {
  subject = subject;
  username = snapshot.username;
  name = snapshot.name;
  email = snapshot.email;
  avatar_url = snapshot.avatar_url;
  trust_level = snapshot.trust_level;
  active = snapshot.active;
  silenced = snapshot.silenced;
  suspended = snapshot.suspended;
  reviewer = snapshot.reviewer;
  admin = snapshot.admin;
}

unfoldable pub mismatched : String → User → UserSnapshot → Bool
mismatched subject user snapshot =
    (not (snapshot.subject == "") && not (snapshot.subject == subject))
    || not (snapshot.discourse_id == user.discourse_id)

unfoldable pub stable_subject : String → UserSnapshot → String
stable_subject subject snapshot = if not (snapshot.subject == "") then snapshot.subject else subject

-- The provider and the repository may be nil.
pub record StatusRefresher (R : Type 0) : Type 0 where
  pub provider : Option (Provider R)
  pub has_users : Bool

module _ {R : Type 0} (env : Env) where
  unfoldable pub persist : String → User → UserSnapshot → D R StatusSnapshot
  unfolding refreshed status_of
  persist subject user snapshot = do
    at ← time_of env
    failing_as (λ e. wrapped e "persist current Discourse status")
        (on_directory env (upsert (refreshed subject snapshot user.created_at at)))
    pure (status_of subject snapshot)

  unfoldable pub refresh_user : Provider R → String → User → D R StatusSnapshot
  unfolding persist mismatched stable_subject
  refresh_user fetch subject user = do
    snapshot ←
        failing_as (λ e. wrapped e "fetch current Discourse status")
          (on_remote (fetch user.discourse_id))
    lift (refuse_if (mismatched subject user snapshot) mismatch)
    persist (stable_subject subject snapshot) user snapshot

  unfoldable pub refresh : Provider R → String → D R StatusSnapshot
  unfolding refresh_user
  refresh fetch subject = on_directory env (get_by_subject subject) >>= refresh_user fetch subject

  unfoldable pub current_status : StatusRefresher R → StatusLookup (Directory R)
  unfolding refresh
  current_status s subject = elim s.provider [
    | none ↦ raise (message "identity status refresher is not initialized")
    | some fetch ↦
        if not s.has_users
        then raise (message "identity status refresher is not initialized")
        else refresh fetch subject
  ]

module _ {U : Type 0} where
  -- The snapshot method of AccessLookup, over any status lookup.
  unfoldable pub snapshot_with : StatusLookup U → String → Exec U StatusSnapshot
  snapshot_with status subject = do
    lift (refuse_if (subject == "") (message "identity access lookup is not initialized"))
    snapshot ← status subject
    lift (refuse_if (not (snapshot.subject == "") && not (snapshot.subject == subject)) mismatch)
    pure snapshot

  unfoldable pub access_snapshot : Option (StatusLookup U) → String → Exec U StatusSnapshot
  unfolding snapshot_with
  access_snapshot none subject = raise (message "identity access lookup is not initialized")
  access_snapshot (some status) subject = snapshot_with status subject

  unfoldable pub is_reviewer : Option (StatusLookup U) → String → Exec U Bool
  is_reviewer status subject = do snapshot ← access_snapshot status subject; pure snapshot.reviewer

  unfoldable pub is_admin : Option (StatusLookup U) → String → Exec U Bool
  is_admin status subject = do snapshot ← access_snapshot status subject; pure snapshot.admin
