-- ===== src/Identity/StatusSnapshot.antt =====
-- internal/identity/provider.go: what the services know of a user's current status.
use open_xai_connect.Base.{
  nat_eqs, string_eqs, ℤ, int_eqs, is_positive, String, Bool, not, ◌&&◌, ◌||◌,
}

pub record StatusSnapshot : Type 0 where
  pub subject : String
  pub username : String
  pub name : String
  pub email : String
  pub avatar_url : String
  pub trust_level : ℤ
  pub active : Bool
  pub silenced : Bool
  pub suspended : Bool
  pub reviewer : Bool
  pub admin : Bool

unfoldable pub can_authenticate : StatusSnapshot → Bool
can_authenticate s = s.active && not s.suspended

unfoldable pub can_manage_applications : StatusSnapshot → Bool
unfolding can_authenticate
can_manage_applications s =
    can_authenticate s && not s.silenced && (is_positive s.trust_level || s.admin)
