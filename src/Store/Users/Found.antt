-- ===== src/Store/Users/Found.antt =====
-- internal/store/memory/memory.go: what the two reads of the user repository return.
use open_xai_connect.Base.{
  nat_eqs, string_eqs, Option-cases, lookup, ℤ, int_eqs, StoreError, store, Result, ok, err, String,
  ◌≡◌, refl, sym, ap, ◌∙◌, inl, inr, none, some, subst,
}
use open_xai_connect.Domain.User.{User}
use open_xai_connect.Store.Users.{Users, upsert, get_by_subject, user_at, get_by_discourse_id}
use open_xai_connect.Store.Users.Linked.{IsLinked, upsert-IsLinked}

abbrev pub missing : Result User
missing = err (store StoreError.not_found)

module _ (Q : Result User → Type 0) (r : Users) where
  pub get_by_subject-cases :
      (subject : String)
      → ((u : User) → lookup subject r.by_subject ≡ some u → Q (ok u))
      → Q missing
      → Q (get_by_subject subject r).0
  unfolding get_by_subject
  get_by_subject-cases subject h k = elim (Option-cases (lookup subject r.by_subject)) [
    | inl e ↦ rw (e, get_by_subject) k
    | inr (u, e) ↦ rw (e, get_by_subject) (h u e)
  ]

  -- A user that is found by its number is the one stored under the subject that the number points at.
  pub get_by_discourse_id-cases :
      (id : ℤ)
      → IsLinked r
      → ((u : User)
          → lookup id r.by_discourse ≡ some u.subject
          → lookup u.subject r.by_subject ≡ some u
          → u.discourse_id ≡ id
          → Q (ok u))
      → (lookup id r.by_discourse ≡ none → Q missing)
      → Q (get_by_discourse_id id r).0
  unfolding get_by_discourse_id
  get_by_discourse_id-cases id linked h k = elim (Option-cases (lookup id r.by_discourse)) [
    | inl e ↦ rw (e, get_by_discourse_id) (k e)
    | inr (s, e) ↦
        let (u, found, number) = linked.forth id s e in
        let name = linked.named s u found in
        rw (e, get_by_discourse_id)
          (subst (λ o. Q (ok (user_at o))) (sym found)
            (h u (e ∙ ap some (sym name)) (ap (λ z. lookup z r.by_subject) name ∙ found) number))
  ]

module _ (r : Users) where
  pub get_by_subject-same : (subject : String) → (get_by_subject subject r).1 ≡ r
  unfolding get_by_subject
  get_by_subject-same subject = elim (Option-cases (lookup subject r.by_subject)) [
    | inl e ↦ rw (e, get_by_subject) refl
    | inr (u, e) ↦ rw (e, get_by_subject) refl
  ]

  pub get_by_discourse_id-same : (id : ℤ) → (get_by_discourse_id id r).1 ≡ r
  unfolding get_by_discourse_id
  get_by_discourse_id-same id = elim (Option-cases (lookup id r.by_discourse)) [
    | inl e ↦ rw (e, get_by_discourse_id) refl
    | inr (u, e) ↦ rw (e, get_by_discourse_id) refl
  ]

-- Storing a user under the subject and the number of a stored one keeps the maps in agreement.
pub upsert_known-IsLinked :
    (user known : User) (r : Users)
    → IsLinked r
    → lookup known.subject r.by_subject ≡ some known
    → user.subject ≡ known.subject
    → user.discourse_id ≡ known.discourse_id
    → IsLinked (upsert user r).1
upsert_known-IsLinked user known r linked found s d =
    upsert-IsLinked user r linked
      (λ u e.
        let same : some known ≡ some u = sym found ∙ ap (λ z. lookup z r.by_subject) (sym s) ∙ e in
        let eq : known ≡ u = cc same in sym (ap (λ z. z.discourse_id) eq) ∙ sym d)
      (λ t e.
        let back = linked.back known.subject known found in
        let same : some known.subject ≡ some t =
          sym back ∙ ap (λ z. lookup z r.by_discourse) (sym d) ∙ e in
        let eq : known.subject ≡ t = cc same in sym eq ∙ sym s)
