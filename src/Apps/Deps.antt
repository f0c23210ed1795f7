-- ===== src/Apps/Deps.antt =====
-- internal/apps/service.go: the service, what it is built from, and the steps that its operations
-- share. A Bool or an `Option` stands for a dependency that may be nil; the service itself is not.
use Prim.Native.String.{◌++◌ as append}
use open_xai_connect.Base.{
  ltb, leb, if◌then◌else◌, ◌==◌, nat_eqs, string_eqs, trim_space, Map, ℤ, pos, negsuc, int_eqs,
  is_positive, AppsError, apps, message, Result, ℕ, ◌*◌, String, Bool, false, not, Option, none,
  some, [], ◌∷◌,
}
use open_xai_connect.Base.Exec.{pure, raise, ◌>>=◌}
use open_xai_connect.Domain.Application.{Time, Duration, is_zero, sub, minute, Application}
use open_xai_connect.Hydra.Client.{Client}
use open_xai_connect.Identity.StatusSnapshot.{StatusSnapshot, can_manage_applications}
use open_xai_connect.Portal.World.{Env, StatusLookup, M, on_users, now, draw, on_apps, on_audit}
use open_xai_connect.Store.Applications
use open_xai_connect.Store.Audit.{append_event}

-- internal/secrets/box.go as its clients see it; encryption draws a random nonce.
pub record Box : Type 0 where
  pub encrypt : Option String → String → String → Result String
  pub decrypt : String → String → Result String

pub record Service (H U : Type 0) : Type 0 where
  pub status : Option (StatusLookup U)
  pub has_apps : Bool
  pub has_outbox : Bool
  pub has_audit : Bool
  pub box : Option Box
  pub hydra : Option (Client H)
  pub max_open : ℕ
  pub sensitive_window : Duration
  pub require_review : Bool

-- age >= 0 && age <= window
unfoldable pub within : Duration → Duration → Bool
within (negsuc a) window = false
within (pos a) (pos w) = leb a w
within (pos a) (negsuc w) = false

-- The maps that become JSON: one key and its text.
abbrev pub success : Map String String
success = ("result", "success") ∷ []

-- An id with a random part, or the fallback where the random source fails.
unfoldable pub id_or : String → String → Option String → String
id_or prefix fallback none = fallback
id_or prefix fallback (some raw) = append prefix raw

-- secretAssociatedData
unfoldable pub secret_associated_data : Application → String
secret_associated_data app = append app.id (append ":" app.client_id)

module _ {H U : Type 0} where
  -- NewService: a limit or a window that is not positive gets the default.
  unfoldable pub new_service : Service H U → ℤ → Service H U
  new_service deps max_open = record deps {
    max_open = elim max_open [ pos n ↦ (if ltb 0 n then n else 3) | negsuc n ↦ 3 ];
    sensitive_window =
        if is_positive deps.sensitive_window then deps.sensitive_window else pos (5 * minute);
  }

  unfoldable pub current_status : Option (StatusLookup U) → String → M H U StatusSnapshot
  current_status none subject = raise (apps AppsError.not_eligible)
  current_status (some lookup_status) subject = on_users (lookup_status subject)

  unfoldable pub ensure_eligible : Service H U → String → M H U (Unit {0})
  unfolding current_status
  ensure_eligible s subject =
      if trim_space subject == "" then raise (apps AppsError.not_eligible) else do
        status ← current_status s.status subject
        if can_manage_applications status then pure tt else raise (apps AppsError.not_eligible)

  module _ (env : Env) where
    unfoldable pub get_owned : Service H U → String → String → M H U Application
    get_owned s subject id =
        if not s.has_apps then raise (message "application repository is not initialized") else do
          app ← on_apps env (Applications.get id)
          if app.owner_subject == subject then pure app else raise (apps AppsError.not_owner)

    unfoldable pub audit_event : Service H U → String → String → String → M H U (Unit {0})
    unfolding id_or
    audit_event s actor id action = if not s.has_audit then pure tt else do
      drawn ← draw env
      at ← now env
      filled ← now env
      on_audit env (
          append_event filled (record {
            id = id_or "audit_" "audit_fallback" drawn;
            actor_subject = actor;
            action = action;
            application_id = id;
            metadata = success;
            created_at = at;
          }))

    -- confirmedAt may be the zero time, which confirms nothing
    unfoldable pub confirmed : Service H U → Time → M H U Bool
    confirmed s confirmed_at =
        if is_zero confirmed_at
        then pure false
        else do t ← now env; pure (within (sub t confirmed_at) s.sensitive_window)
