-- ===== src/Identity/Shadow.antt =====
-- internal/identity/sso.go: EnsureShadowUser, the portal's own record of a user of Discourse.
use Prim.Native.String.{◌++◌ as append}
use open_xai_connect.Base.{
  if◌then◌else◌, ◌==◌, nat_eqs, string_eqs, trim_space, ℤ, int_eqs, is_positive, IdentityError,
  identity, message, is_not_found, Result, ok, err, refuse_if, String, Bool, not, ◌&&◌, ◌||◌,
  Option, none, some,
}
use open_xai_connect.Base.Exec.{pure, raise, lift, ◌>>=◌, ◌>>◌}
use open_xai_connect.Domain.Application.{Time, is_zero}
use open_xai_connect.Domain.User.{User}
use open_xai_connect.Store.Users.{upsert, zero_user, get_by_discourse_id}
use open_xai_connect.Identity.UserSnapshot.{UserSnapshot}
use open_xai_connect.Identity.Directory.{Provider, D, on_remote, time_of, draw_text, on_directory}
use open_xai_connect.Identity.Refresher.{mismatch, refreshed}
use open_xai_connect.Portal.World.{Env}

-- newSubject, from what it reads of the random source
unfoldable pub new_subject : Option String → Result String
new_subject none = err (message "read the random source")
new_subject (some drawn) = ok (append "usr_" drawn)

unfoldable pub first_seen : String → ℤ → Time → User
first_seen subject discourse_id now = record zero_user {
  subject = subject;
  discourse_id = discourse_id;
  created_at = now;
}

unfoldable pub unusable : ℤ → UserSnapshot → Bool
unusable discourse_id snapshot =
    not (snapshot.discourse_id == discourse_id) || (trim_space snapshot.username == "")

unfoldable pub other_owner : User → UserSnapshot → Bool
other_owner user snapshot = not (snapshot.subject == "") && not (snapshot.subject == user.subject)

unfoldable pub created_or : Time → User → Time
created_or now user = if is_zero user.created_at then now else user.created_at

module _ {R : Type 0} (env : Env) where
  unfoldable pub new_user : ℤ → D R User
  unfolding first_seen
  new_user discourse_id = do
    drawn ← draw_text env
    subject ← lift (new_subject drawn)
    at ← time_of env
    pure (first_seen subject discourse_id at)

  -- The stored user, or a new one where there is none.
  unfoldable pub found_or_new : ℤ → Result User → D R User
  unfolding new_user
  found_or_new discourse_id (ok user) = pure user
  found_or_new discourse_id (err e) = if is_not_found e then new_user discourse_id else raise e

  unfoldable pub known_or_new : ℤ → D R User
  unfolding found_or_new
  known_or_new discourse_id d =
      let (r, d') = on_directory env (get_by_discourse_id discourse_id) d in
      found_or_new discourse_id r d'

  unfoldable pub store_user : UserSnapshot → User → D R User
  store_user snapshot user = do
    lift (refuse_if (other_owner user snapshot) mismatch)
    at ← time_of env
    on_directory env (upsert (refreshed user.subject snapshot (created_or at user) at))
    pure (refreshed user.subject snapshot (created_or at user) at)

  unfoldable pub shadow_user : Provider R → ℤ → D R User
  unfolding known_or_new store_user
  shadow_user fetch discourse_id = do
    snapshot ← on_remote (fetch discourse_id)
    lift (refuse_if (unusable discourse_id snapshot) (identity IdentityError.invalid_sso))
    user ← known_or_new discourse_id
    store_user snapshot user

  unfoldable pub ensure_shadow_user : Bool → Option (Provider R) → ℤ → D R User
  unfolding shadow_user
  ensure_shadow_user has_users none discourse_id =
      raise (message "identity mapping is not initialized")
  ensure_shadow_user has_users (some fetch) discourse_id =
      if not has_users || not (is_positive discourse_id)
      then raise (message "identity mapping is not initialized")
      else shadow_user fetch discourse_id
