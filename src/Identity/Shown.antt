-- ===== src/Identity/Shown.antt =====
-- internal/identity/level_progress.go: what the refresher returns was checked for the user.
use open_xai_connect.Base.{
  nat_eqs, string_eqs, lookup, ℤ, pos, int_eqs, Result, ok, Result-cases, String, ◌≡◌, sym, ap, ◌∙◌,
  inl, inr, true, Option, none, some,
}
use open_xai_connect.Base.Exec.{Exec}
use open_xai_connect.Base.Cases.{pair_eq, ok_inj, bind-cases, lift-then, bind-passed}
use open_xai_connect.Domain.User.{User}
use open_xai_connect.Store.Users.{get_by_subject}
use open_xai_connect.Store.Users.Found.{get_by_subject-cases}
use open_xai_connect.Identity.Directory.{Directory, on_remote, on_directory, on_directory-cases}
use open_xai_connect.Identity.Progress.{LevelProgressSnapshot, validate_for}
use open_xai_connect.Identity.ProgressLookup.{
  ProgressCache, Levels, in_users, in_cache, remember, fetch_progress, use_cached, progress_of,
  current_level_progress,
}
use open_xai_connect.Identity.Validated.{IsProgress, validate_for_iff}
use open_xai_connect.Portal.World.{Env}

module _ {R C : Type 0} (fetch : ℤ → Exec R LevelProgressSnapshot) (id : ℤ) where
  -- A snapshot that is returned is one that the check accepts.
  abbrev IsChecked : Result LevelProgressSnapshot × Levels R C → Type 0
  IsChecked (r, w') = (s : LevelProgressSnapshot) → r ≡ ok s → validate_for id s ≡ ok tt

  remember-IsChecked :
      (cache : Option (ProgressCache C)) (snapshot : LevelProgressSnapshot) (w : Levels R C)
      → validate_for id snapshot ≡ ok tt
      → IsChecked (remember cache snapshot w)
  unfolding remember
  remember-IsChecked none snapshot w valid = λ s e. ap (validate_for id) (sym (ok_inj e)) ∙ valid
  remember-IsChecked (some cache) snapshot w valid =
      bind-cases IsChecked (in_cache (cache.set snapshot (pos 0))) _ w
        (λ _ t _ s e. ap (validate_for id) (sym (ok_inj e)) ∙ valid) (λ x t _ s e. cc e)

  fetch_progress-IsChecked :
      (cache : Option (ProgressCache C)) (w : Levels R C)
      → IsChecked (fetch_progress fetch cache id w)
  unfolding fetch_progress
  fetch_progress-IsChecked cache w =
      bind-cases IsChecked (in_users (on_remote (fetch id))) _ w
        (λ snapshot t _.
          lift-then IsChecked t (λ _. remember cache snapshot) (validate_for id snapshot)
            (λ _ valid. remember-IsChecked cache snapshot t valid) (λ x _ s e. cc e))
        (λ x t _ s e. cc e)

  use_cached-IsChecked :
      (cache : ProgressCache C) (held : Option LevelProgressSnapshot) (w : Levels R C)
      → IsChecked (use_cached fetch cache id held w)
  unfolding use_cached
  use_cached-IsChecked cache none w = fetch_progress-IsChecked (some cache) w
  use_cached-IsChecked cache (some snapshot) w = elim (Result-cases (validate_for id snapshot)) [
    | inl (u, e) ↦ rw (e, use_cached) (λ s x. ap (validate_for id) (sym (ok_inj x)) ∙ e)
    | inr (y, e) ↦ rw (e, use_cached) (fetch_progress-IsChecked (some cache) _)
  ]

  progress_of-IsChecked :
      (cache : Option (ProgressCache C)) (w : Levels R C) → IsChecked (progress_of fetch cache id w)
  unfolding progress_of
  progress_of-IsChecked none w = fetch_progress-IsChecked none w
  progress_of-IsChecked (some cache) w =
      bind-cases IsChecked (in_cache (cache.get id)) (use_cached fetch cache id) w
        (λ held t _. use_cached-IsChecked cache held t) (λ x t _ s e. cc e)

stored_user :
    {R : Type 0} (env : Env) (subject : String) (user : User) (d d' : Directory R)
    → on_directory env (get_by_subject subject) d ≡ (ok user, d')
    → lookup subject d.users.by_subject ≡ some user
stored_user {R} env subject user d d' h =
    on_directory-cases P d env (get_by_subject subject)
      (λ t _ _ _.
        get_by_subject-cases (λ x. P (x, t)) d.users subject
          (λ u e k. e ∙ ap some (ok_inj (ap (λ p. p.0) k))) (λ k. cc k))
      (λ x t _ _ _ k. cc k) h
  where
    P : Result User × Directory R → Type 0
    P p = p ≡ (ok user, d') → lookup subject d.users.by_subject ≡ some user

module _ {R C : Type 0} (env : Env) (fetch : ℤ → Exec R LevelProgressSnapshot)
    (cache : Option (ProgressCache C)) (subject : String) where
  -- Whatever the cache and Discourse answer, a level progress that the refresher returns is well-
  -- formed and belongs to the number of the user stored under the subject.
  pub current_level_progress-IsProgress :
      (w w' : Levels R C) (s : LevelProgressSnapshot)
      → current_level_progress env
          (record { provider = some fetch; has_users = true; cache = cache })
          subject
          w
        ≡ (ok s, w')
      → (user : User) × (lookup subject w.directory.users.by_subject ≡ some user)
        × IsProgress user.discourse_id s
  unfolding current_level_progress in_users
  current_level_progress-IsProgress w w' s h =
      let (user, t, e, k) =
        bind-passed (in_users (on_directory env (get_by_subject subject)))
          (λ user. progress_of fetch cache user.discourse_id) w w' s h in
      let found =
        stored_user env subject user w.directory t.directory
          (pair_eq _ (ap (λ p. p.0) e) (ap (λ p. p.1.directory) e)) in
      (
        user,
        found,
        (validate_for_iff user.discourse_id s).0
            (progress_of-IsChecked fetch user.discourse_id cache t s (ap (λ p. p.0) k)),
      )
