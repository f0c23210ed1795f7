-- ===== src/Oauth/Scoped.antt =====
-- internal/oauth/userinfo.go: each claim that is released belongs to a scope of the token.
use open_xai_connect.Base.{
  ◌==◌, nat_eqs, string_eqs, Bool-cases, contains, trim_space, lookup, insert, lookup-insert,
  int_eqs, String, ◌≡◌, refl, inl, inr, Bool, true, false, some, List, [], arith, eq_iff, subst,
}
use open_xai_connect.Domain.User.{User}
use open_xai_connect.Identity.StatusSnapshot.{StatusSnapshot}
use open_xai_connect.Oauth.UserInfo.{
  Claim, text, Claims, add_profile, add_email, add_community, claims_of,
}

-- The scope that a claim belongs to.
pub data HasScope : String → String → Type 0 where
  openid_sub : HasScope "sub" "openid"
  profile_username : HasScope "preferred_username" "profile"
  profile_name : HasScope "name" "profile"
  profile_picture : HasScope "picture" "profile"
  email_email : HasScope "email" "email"
  community_trust_level : HasScope "trust_level" "community"
  community_active : HasScope "active" "community"
  community_silenced : HasScope "silenced" "community"

abbrev pub IsReleased : List String → String → Type 0
IsReleased scopes key = (s : String) × HasScope key s × (contains scopes s ≡ true)

abbrev pub IsScoped : List String → Claims → Type 0
IsScoped scopes m = (key : String) (v : Claim) → lookup key m ≡ some v → IsReleased scopes key

IsScoped-insert :
    (scopes : List String) (key : String) (new : Claim) (m : Claims)
    → IsReleased scopes key
    → IsScoped scopes m
    → IsScoped scopes (insert key new m)
IsScoped-insert scopes key new m released h read v e = elim (Bool-cases (key == read)) [
  | inl x ↦ subst (IsReleased scopes) ((eq_iff key read).0 x) released
  | inr x ↦ h read v (ground (arith, lookup-insert key read new m))
]

module _ (scopes : List String) (m : Claims) (h : IsScoped scopes m) where
  profile-IsScoped :
      (shown : Bool) (user : User)
      → contains scopes "profile" ≡ shown
      → IsScoped scopes (add_profile shown user m)
  unfolding add_profile
  profile-IsScoped false user e = h
  profile-IsScoped true user e =
      IsScoped-insert scopes "picture" _ _ ("profile", profile_picture, e)
        (IsScoped-insert scopes "name" _ _ ("profile", profile_name, e)
          (IsScoped-insert scopes "preferred_username" _ m ("profile", profile_username, e) h))

  email-IsScoped :
      (shown : Bool) (status : StatusSnapshot)
      → contains scopes "email" ≡ shown
      → IsScoped scopes (add_email shown status m)
  unfolding add_email
  email-IsScoped false status e = h
  email-IsScoped true status e = elim (Bool-cases (trim_space status.email == "")) [
    | inl x ↦ rw x h
    | inr x ↦ rw x (IsScoped-insert scopes "email" _ m ("email", email_email, e) h)
  ]

  community-IsScoped :
      (shown : Bool) (status : StatusSnapshot)
      → contains scopes "community" ≡ shown
      → IsScoped scopes (add_community shown status m)
  unfolding add_community
  community-IsScoped false status e = h
  community-IsScoped true status e =
      IsScoped-insert scopes "silenced" _ _ ("community", community_silenced, e)
        (IsScoped-insert scopes "active" _ _ ("community", community_active, e)
          (IsScoped-insert scopes "trust_level" _ m ("community", community_trust_level, e) h))

pub claims_of-IsScoped :
    (subject : String) (scopes : List String) (user : User) (status : StatusSnapshot)
    → contains scopes "openid" ≡ true
    → IsScoped scopes (claims_of subject scopes user status)
unfolding claims_of insert lookup
claims_of-IsScoped subject scopes user status e =
    let sub : IsScoped scopes (insert "sub" (text subject) []) =
      IsScoped-insert scopes "sub" (text subject) [] ("openid", openid_sub, e) (λ key v x. cc x) in
    community-IsScoped scopes _
      (email-IsScoped scopes _
        (profile-IsScoped scopes (insert "sub" (text subject) []) sub _ user refl) _ status refl)
      _ status refl
