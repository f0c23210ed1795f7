-- ===== src/Identity/SignedIn.antt =====
-- internal/identity/sso.go: what EnsureShadowUser stores and returns.
use Prim.Native.String.{◌++◌ as append}
use open_xai_connect.Base.{
  nat_eqs, string_eqs, Bool-cases, Option-cases, or-false, of_not-false, lookup, insert-finds, ℤ,
  int_eq_iff, int_eqs, is_positive, IdentityError, Error, identity, is_not_found, Result, ok, err,
  refuse_if, ℕ, suc, String, ◌≡◌, refl, sym, ap, ◌∙◌, inl, inr, true, false, none, some, subst,
}
use open_xai_connect.Base.Exec.{pure, lift, continue, ◌>>=◌, ◌>>◌}
use open_xai_connect.Base.Cases.{guard-cases}
use open_xai_connect.Domain.User.{User}
use open_xai_connect.Store.Users.{Users, upsert, get_by_discourse_id}
use open_xai_connect.Store.Users.Linked.{IsLinked, upsert-IsLinked}
use open_xai_connect.Store.Users.Found.{
  get_by_discourse_id-cases, get_by_discourse_id-same, upsert_known-IsLinked,
}
use open_xai_connect.Identity.UserSnapshot.{UserSnapshot}
use open_xai_connect.Identity.Directory.{
  Directory, Provider, time_of, draw_text, on_remote-cases, on_directory-cases,
}
use open_xai_connect.Identity.Refresher.{mismatch, refreshed}
use open_xai_connect.Identity.Shadow.{
  new_subject, first_seen, unusable, other_owner, created_or, new_user, found_or_new, known_or_new,
  store_user, shadow_user, ensure_shadow_user,
}
use open_xai_connect.Portal.World.{Env}

-- The subject that a sign-in may draw, at its first call of the database, is not in use.
abbrev pub IsFresh : {R : Type 0} → Env → Directory R → Type 0
IsFresh env d =
    (drawn : String)
    → env.random (suc d.step) ≡ some drawn
    → lookup (append "usr_" drawn) d.users.by_subject ≡ none

-- The database does not answer that there is no such user where it fails for a reason of its own.
abbrev pub IsHonest : Env → Type 0
IsHonest env = (n : ℕ) (e : Error) → env.fault n ≡ some e → is_not_found e ≡ false

-- The user that a sign-in starts from is the stored one with that number, or a new one.
data IsOwner (r : Users) (id : ℤ) (user : User) : Type 0 where
  known :
      lookup id r.by_discourse ≡ some user.subject
      → lookup user.subject r.by_subject ≡ some user
      → user.discourse_id ≡ id
      → IsOwner r id user
  unseen :
      lookup id r.by_discourse ≡ none → lookup user.subject r.by_subject ≡ none → IsOwner r id user

-- The user is stored under its subject and found by its number, which kept the subject it had; the maps
-- of the repository agree.
pub record IsSignedIn (before : Users) (id : ℤ) (user : User) (after : Users) : Type 0 where
  pub number : user.discourse_id ≡ id
  pub stored : lookup user.subject after.by_subject ≡ some user
  pub back : lookup id after.by_discourse ≡ some user.subject
  pub kept : (s : String) → lookup id before.by_discourse ≡ some s → user.subject ≡ s
  pub linked : IsLinked after

stored-IsSignedIn :
    (r : Users) (id : ℤ) (user new : User)
    → IsLinked r
    → IsOwner r id user
    → new.subject ≡ user.subject
    → new.discourse_id ≡ id
    → IsSignedIn r id new (upsert new r).1
unfolding upsert
stored-IsSignedIn r id user new linked owner s n = record {
  number = n;
  stored = insert-finds new.subject new.subject new r.by_subject refl;
  back = insert-finds new.discourse_id id new.subject r.by_discourse n;
  kept = λ t e. subject_kept owner t e;
  linked = still owner;
}
  where
    subject_kept :
        IsOwner r id user → (t : String) → lookup id r.by_discourse ≡ some t → new.subject ≡ t
    subject_kept (known a b c) t e =
        let same : some user.subject ≡ some t = sym a ∙ e in
        let eq : user.subject ≡ t = cc same in s ∙ eq
    subject_kept (unseen a b) t e = cc (a, e)

    still : IsOwner r id user → IsLinked (upsert new r).1
    still (known a b c) = upsert_known-IsLinked new user r linked b s (n ∙ sym c)
    still (unseen a b) =
        upsert-IsLinked new r linked (λ u e. cc (b, e, ap (λ z. lookup z r.by_subject) s))
          (λ t e. cc (a, e, ap (λ z. lookup z r.by_discourse) n))

module _ {R : Type 0} (env : Env) (id : ℤ) where
  -- A failed call leaves the users as they were.
  abbrev pub SignedInEnd : Users → Result User × Directory R → Type 0
  SignedInEnd r (ok user, d') = IsSignedIn r id user d'.users
  SignedInEnd r (err e, d') = d'.users ≡ r

module _ {R : Type 0} (env : Env) (id : ℤ) (r : Users) (linked : IsLinked r) where
  store_user-End :
      (snapshot : UserSnapshot) (user : User) (d : Directory R)
      → snapshot.discourse_id ≡ id
      → d.users ≡ r
      → IsOwner r id user
      → SignedInEnd {R = R} env id r (store_user env snapshot user d)
  unfolding store_user time_of upsert refreshed ◌>>=◌
  store_user-End snapshot user d number same owner =
      let at = env.clock d.step in
      let new = refreshed user.subject snapshot (created_or at user) at in
      guard-cases (SignedInEnd env id r) (other_owner user snapshot) mismatch _ d (λ _. same)
        (λ _.
          on_directory-cases (λ p. SignedInEnd env id r (continue p.0 (λ _. pure new) p.1))
            (record d { step = suc d.step }) env (upsert new)
            (λ d' _ e _.
              subst (IsSignedIn r id new) (sym (e ∙ ap (λ u. (upsert new u).1) same))
                (stored-IsSignedIn r id user new linked owner refl number))
            (λ x d' _ _ e. e ∙ same))

  new_user-End :
      (snapshot : UserSnapshot) (d : Directory R)
      → snapshot.discourse_id ≡ id
      → d.users ≡ r
      → ((drawn : String)
          → env.random d.step ≡ some drawn
          → lookup (append "usr_" drawn) r.by_subject ≡ none)
      → lookup id r.by_discourse ≡ none
      → SignedInEnd {R = R} env id r ((new_user env id >>= store_user env snapshot) d)
  unfolding new_user draw_text time_of first_seen new_subject ◌>>=◌
  new_user-End snapshot d number same fresh none_there = elim (Option-cases (env.random d.step)) [
    | inl e ↦ rw e same
    | inr (drawn, e) ↦ rw e (
        store_user-End snapshot (first_seen (append "usr_" drawn) id (env.clock (suc d.step)))
          (record d { step = suc (suc d.step) }) number same (unseen none_there (fresh drawn e)))
  ]

module _ {R : Type 0} (env : Env) (id : ℤ) where
  known_or_new-End :
      (snapshot : UserSnapshot) (d : Directory R)
      → IsLinked d.users
      → IsHonest env
      → IsFresh env d
      → snapshot.discourse_id ≡ id
      → SignedInEnd env id d.users ((known_or_new env id >>= store_user env snapshot) d)
  unfolding known_or_new found_or_new is_not_found ◌>>=◌
  known_or_new-End snapshot d linked honest fresh number =
      let rest = λ (p : Result User × Directory R). continue p.0 (store_user env snapshot) p.1 in
      on_directory-cases (λ p. SignedInEnd env id d.users (rest (found_or_new env id p.0 p.1))) d
        env (get_by_discourse_id id)
        (λ d' _ e stepped.
          let same = e ∙ get_by_discourse_id-same d.users id in
          get_by_discourse_id-cases
            (λ x. SignedInEnd env id d.users (rest (found_or_new env id x d'))) d.users id linked
            (λ u a b c.
              store_user-End env id d.users linked snapshot u d' number same (known a b c))
            (λ n.
              new_user-End env id d.users linked snapshot d' number same
                (λ drawn x. fresh drawn (ap env.random (sym stepped) ∙ x)) n))
        (λ x d' failed _ e. rw (honest d.step x failed) e)

  shadow_user-End :
      (fetch : Provider R) (d : Directory R)
      → IsLinked d.users
      → IsHonest env
      → IsFresh env d
      → SignedInEnd env id d.users (shadow_user env fetch id d)
  unfolding shadow_user unusable ◌>>=◌
  shadow_user-End fetch d linked honest fresh =
      on_remote-cases
        (λ p. SignedInEnd env id d.users (
          continue p.0
            (λ snapshot.
              lift (refuse_if (unusable id snapshot) (identity IdentityError.invalid_sso))
              >> (known_or_new env id >>= store_user env snapshot))
            p.1))
        d (fetch id)
        (λ snapshot t _.
          let d1 : Directory R = record d { remote = t } in
          guard-cases (SignedInEnd env id d.users) (unusable id snapshot)
            (identity IdentityError.invalid_sso) _ d1 (λ _. refl)
            (λ usable.
              known_or_new-End snapshot d1 linked honest fresh
                ((int_eq_iff snapshot.discourse_id id).0 (of_not-false _ (or-false _ _ usable).0))))
        (λ x t _. refl)

  -- The same for the whole call.
  pub ensure-SignedInEnd :
      (fetch : Provider R) (d : Directory R)
      → IsLinked d.users
      → IsHonest env
      → IsFresh env d
      → SignedInEnd env id d.users (ensure_shadow_user env true (some fetch) id d)
  unfolding ensure_shadow_user
  ensure-SignedInEnd fetch d linked honest fresh = elim (Bool-cases (is_positive id)) [
    | inl e ↦ rw (e, ensure_shadow_user) (shadow_user-End fetch d linked honest fresh)
    | inr e ↦ rw (e, ensure_shadow_user) refl
  ]

  -- Where the maps of the repository agree, the database never reports a missing user in place of a
  -- failure and no drawn subject is in use, a sign-in that succeeds leaves the maps in agreement,
  -- with the returned user stored under its subject and found by its number; a user that was stored
  -- keeps its subject.
  pub ensure_shadow_user-IsSignedIn :
      (fetch : Provider R) (d d' : Directory R) (user : User)
      → IsLinked d.users
      → IsHonest env
      → IsFresh env d
      → ensure_shadow_user env true (some fetch) id d ≡ (ok user, d')
      → IsSignedIn d.users id user d'.users
  ensure_shadow_user-IsSignedIn fetch d d' user linked honest fresh h =
      subst (SignedInEnd env id d.users) h (ensure-SignedInEnd fetch d linked honest fresh)
