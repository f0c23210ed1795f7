-- ===== src/Store/Users.antt =====
-- internal/store/memory/memory.go: the user repository, two maps that point at one another.
pub mod Linked
pub mod Found
use open_xai_connect.Base.{
  nat_eqs, string_eqs, Map, lookup, insert, ℤ, pos, int_eqs, StoreError, store, ok, err, String,
  false, Option, none, some, [],
}
use open_xai_connect.Base.Exec.{Exec}
use open_xai_connect.Domain.User.{User}

pub record Users : Type 0 where
  pub by_subject : Map String User
  pub by_discourse : Map ℤ String

abbrev pub no_users : Users
no_users = record { by_subject = []; by_discourse = [] }

unfoldable pub upsert : User → Exec Users (Unit {0})
upsert user r = (
  ok tt,
  record {
    by_subject = insert user.subject user r.by_subject;
    by_discourse = insert user.discourse_id user.subject r.by_discourse;
  },
)

unfoldable pub get_by_subject : String → Exec Users User
get_by_subject subject r = elim (lookup subject r.by_subject) [
  | none ↦ (err (store StoreError.not_found), r)
  | some user ↦ (ok user, r)
]

-- Go's zero value, which a lookup of a missing key gives
abbrev pub zero_user : User
zero_user = record {
  subject = "";
  discourse_id = pos 0;
  username = "";
  name = "";
  email = "";
  avatar_url = "";
  trust_level = pos 0;
  active = false;
  silenced = false;
  suspended = false;
  reviewer = false;
  admin = false;
  created_at = 0;
  updated_at = 0;
}

abbrev pub user_at : Option User → User
user_at none = zero_user
user_at (some user) = user

unfoldable pub get_by_discourse_id : ℤ → Exec Users User
get_by_discourse_id id r = elim (lookup id r.by_discourse) [
  | none ↦ (err (store StoreError.not_found), r)
  | some subject ↦ (ok (user_at (lookup subject r.by_subject)), r)
]
