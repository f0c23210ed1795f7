-- ===== src/Identity/UserSnapshot.antt =====
-- internal/identity/provider.go: a user as Discourse answers for one id.
use open_xai_connect.Base.{
  nat_eqs, string_eqs, ℤ, int_eqs, is_positive, String, Bool, not, ◌&&◌, ◌||◌,
}

pub record UserSnapshot : Type 0 where
  pub subject : String
  pub discourse_id : ℤ
  pub username : String
  pub name : String
  pub email : String
  pub avatar_url : String
  pub trust_level : ℤ
  pub active : Bool
  pub silenced : Bool
  pub suspended : Bool
  pub reviewer : Bool
  pub admin : Bool

unfoldable pub can_authenticate : UserSnapshot → Bool
can_authenticate u = u.active && not u.suspended

unfoldable pub can_manage_applications : UserSnapshot → Bool
unfolding can_authenticate
can_manage_applications u =
    can_authenticate u && not u.silenced && (is_positive u.trust_level || u.admin)
