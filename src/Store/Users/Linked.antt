-- ===== src/Store/Users/Linked.antt =====
-- internal/store/memory/memory.go: the two maps of the user repository agree.
use open_xai_connect.Base.{
  ◌==◌, nat_eqs, string_eqs, Bool-cases, lookup, insert, found-insert, insert-finds, insert-keeps,
  ℤ, int_eq_iff, int_eqs, String, ◌≡◌, sym, ap, ◌∙◌, inl, inr, false, some, eq_iff,
}
use open_xai_connect.Domain.User.{User}
use open_xai_connect.Store.Users.{Users, no_users, upsert}

-- A user is stored under its subject, and its number at Discourse points back at that subject and at no
-- other.
pub record IsLinked (r : Users) : Type 0 where
  pub named : (s : String) (u : User) → lookup s r.by_subject ≡ some u → u.subject ≡ s
  pub back :
      (s : String) (u : User)
      → lookup s r.by_subject ≡ some u
      → lookup u.discourse_id r.by_discourse ≡ some s
  pub forth :
      (id : ℤ) (s : String)
      → lookup id r.by_discourse ≡ some s
      → (u : User) × (lookup s r.by_subject ≡ some u) × (u.discourse_id ≡ id)

pub no_users-IsLinked : IsLinked no_users
unfolding lookup
no_users-IsLinked = record { named = λ s u e. cc e; back = λ s u e. cc e; forth = λ id s e. cc e }

module _ (user : User) (r : Users) (linked : IsLinked r)
    (hs : (u : User)
      → lookup user.subject r.by_subject ≡ some u
      → u.discourse_id ≡ user.discourse_id)
    (hd : (s : String) → lookup user.discourse_id r.by_discourse ≡ some s → s ≡ user.subject) where
  back_kept :
      (s : String) (u : User)
      → (user.subject == s) ≡ false
      → lookup s r.by_subject ≡ some u
      → lookup u.discourse_id (insert user.discourse_id user.subject r.by_discourse) ≡ some s
  back_kept s u x y = elim (Bool-cases (user.discourse_id == u.discourse_id)) [
    | inl z ↦
        let same = (int_eq_iff user.discourse_id u.discourse_id).0 z in
        let owner = hd s (ap (λ i. lookup i r.by_discourse) same ∙ linked.back s u y) in
        cc ((eq_iff user.subject s).1 (sym owner), x)
    | inr z ↦
        insert-keeps user.discourse_id u.discourse_id user.subject r.by_discourse z
        ∙ linked.back s u y
  ]

  forth_kept :
      (id : ℤ) (s : String)
      → (user.discourse_id == id) ≡ false
      → (u : User) × (lookup s r.by_subject ≡ some u) × (u.discourse_id ≡ id)
      → (u : User) × (lookup s (insert user.subject user r.by_subject) ≡ some u)
        × (u.discourse_id ≡ id)
  forth_kept id s x (u, y, z) = elim (Bool-cases (user.subject == s)) [
    | inl v ↦
        let same = (eq_iff user.subject s).0 v in
        let number = hs u (ap (λ i. lookup i r.by_subject) same ∙ y) in
        cc ((int_eq_iff user.discourse_id id).1 (sym number ∙ z), x)
    | inr v ↦ (u, insert-keeps user.subject s user r.by_subject v ∙ y, z)
  ]

  -- Storing a user keeps the maps in agreement, if the subject keeps its number at Discourse and the
  -- number its subject.
  pub upsert-IsLinked : IsLinked (upsert user r).1
  unfolding upsert
  upsert-IsLinked = record {
    named = λ s u e. elim (found-insert user.subject s user r.by_subject u e) [
      | inl (x, y) ↦ cc (x, ap (λ z. z.subject) y)
      | inr (x, y) ↦ linked.named s u y
    ];
    back = λ s u e. elim (found-insert user.subject s user r.by_subject u e) [
      | inl (x, y) ↦
          insert-finds user.discourse_id u.discourse_id user.subject r.by_discourse
            (ap (λ z. z.discourse_id) y)
          ∙ ap some x
      | inr (x, y) ↦ back_kept s u x y
    ];
    forth = λ id s e. elim (found-insert user.discourse_id id user.subject r.by_discourse s e) [
      | inl (x, y) ↦ (user, insert-finds user.subject s user r.by_subject y, x)
      | inr (x, y) ↦ forth_kept id s x (linked.forth id s y)
    ];
  }
