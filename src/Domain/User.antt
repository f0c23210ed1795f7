-- ===== src/Domain/User.antt =====
-- internal/domain/user.go: a user as the portal stores it.
use open_xai_connect.Base.{
  nat_eqs, string_eqs, ℤ, int_eqs, is_positive, String, Bool, not, ◌&&◌, ◌||◌,
}
use open_xai_connect.Domain.Application.{Time}

pub record User : Type 0 where
  pub subject : String
  pub discourse_id : ℤ
  pub username : String
  pub name : String
  pub email : String
  pub avatar_url : String
  pub trust_level : ℤ
  pub active : Bool
  pub silenced : Bool
  pub suspended : Bool
  pub reviewer : Bool
  pub admin : Bool
  pub created_at : Time
  pub updated_at : Time

unfoldable pub can_manage_applications : User → Bool
can_manage_applications u =
    u.active && not u.silenced && not u.suspended && (is_positive u.trust_level || u.admin)

unfoldable pub can_authenticate : User → Bool
can_authenticate u = u.active && not u.suspended
