-- ===== src/Identity/Refreshed.antt =====
-- internal/identity/status.go and access.go: what a refresh of a user's status stores and returns.
use open_xai_connect.Base.{
  nat_eqs, string_eqs, lookup, int_eq_iff, int_eqs, wrapped, Result, ok, err, refuse_if, suc,
  String, ◌≡◌, refl, sym, ap, ◌∙◌, false, some, arith, eq_iff, subst,
}
use open_xai_connect.Base.Exec.{renamed, pure, lift, failing_as, continue, ◌>>=◌, ◌>>◌}
use open_xai_connect.Base.Cases.{guard-cases}
use open_xai_connect.Domain.Application.{Time}
use open_xai_connect.Domain.User.{User}
use open_xai_connect.Store.Users.{upsert, get_by_subject}
use open_xai_connect.Store.Users.Found.{get_by_subject-cases, get_by_subject-same}
use open_xai_connect.Identity.UserSnapshot.{UserSnapshot}
use open_xai_connect.Identity.StatusSnapshot.{StatusSnapshot}
use open_xai_connect.Identity.Directory.{
  Directory, Provider, time_of, on_remote-cases, on_directory-cases,
}
use open_xai_connect.Identity.Refresher.{
  mismatch, refreshed, status_of, mismatched, stable_subject, persist, refresh_user, refresh,
}
use open_xai_connect.Portal.World.{Env}

module _ {R : Type 0} (env : Env) (fetch : Provider R) (subject : String) where
  -- What a returned status stands on: the stored user's number, Discourse's answer for it, and the user
  -- that is stored now.
  pub record IsCurrent (d : Directory R) (status : StatusSnapshot) (d' : Directory R) : Type 0 where
    pub user : User
    pub stored : lookup subject d.users.by_subject ≡ some user
    pub snapshot : UserSnapshot
    pub fetched : fetch user.discourse_id d.remote ≡ (ok snapshot, d'.remote)
    pub same_number : snapshot.discourse_id ≡ user.discourse_id
    pub status_as : status ≡ status_of subject snapshot
    pub at : Time
    pub left : d'.users ≡ (upsert (refreshed subject snapshot user.created_at at) d.users).1

  -- A failed refresh leaves the users as they were.
  abbrev pub RefreshEnd : Directory R → Result StatusSnapshot × Directory R → Type 0
  RefreshEnd d (ok status, d') = IsCurrent d status d'
  RefreshEnd d (err e, d') = d'.users ≡ d.users

  stable_subject_eq :
      (user : User) (snapshot : UserSnapshot)
      → mismatched subject user snapshot ≡ false
      → (stable_subject subject snapshot ≡ subject) × (snapshot.discourse_id ≡ user.discourse_id)
  unfolding mismatched stable_subject
  stable_subject_eq user snapshot h = (
    ground (arith, eq_iff snapshot.subject "", eq_iff snapshot.subject subject),
    (int_eq_iff snapshot.discourse_id user.discourse_id).0 (ground arith),
  )

  persist-RefreshEnd :
      (d d' : Directory R) (user : User) (snapshot : UserSnapshot)
      → lookup subject d.users.by_subject ≡ some user
      → fetch user.discourse_id d.remote ≡ (ok snapshot, d'.remote)
      → d'.users ≡ d.users
      → snapshot.discourse_id ≡ user.discourse_id
      → RefreshEnd d (persist env subject user snapshot d')
  unfolding persist time_of failing_as ◌>>=◌ upsert
  persist-RefreshEnd d d' user snapshot stored fetched same number =
      let at = env.clock d'.step in
      let new = refreshed subject snapshot user.created_at at in
      on_directory-cases
        (λ p. RefreshEnd d (
          continue (renamed (λ e. wrapped e "persist current Discourse status") p.0)
            (λ _. pure (status_of subject snapshot)) p.1))
        (record d' { step = suc d'.step }) env (upsert new)
        (λ d2 r e _. record {
          user = user;
          stored = stored;
          snapshot = snapshot;
          fetched = fetched ∙ ap (λ z. (ok snapshot, z)) (sym r);
          same_number = number;
          status_as = refl;
          at = at;
          left = e ∙ ap (λ u. (upsert new u).1) same;
        })
        (λ x d2 _ r e. e ∙ same)

  checked-RefreshEnd :
      (d d' : Directory R) (user : User) (snapshot : UserSnapshot)
      → lookup subject d.users.by_subject ≡ some user
      → fetch user.discourse_id d.remote ≡ (ok snapshot, d'.remote)
      → d'.users ≡ d.users
      → RefreshEnd d (
          (lift (refuse_if (mismatched subject user snapshot) mismatch)
              >> persist env (stable_subject subject snapshot) user snapshot)
            d')
  checked-RefreshEnd d d' user snapshot stored fetched same =
      guard-cases (RefreshEnd d) (mismatched subject user snapshot) mismatch _ d' (λ _. same)
        (λ matched.
          let (name, number) = stable_subject_eq user snapshot matched in
          subst (λ z. RefreshEnd d (persist env z user snapshot d')) (sym name)
            (persist-RefreshEnd d d' user snapshot stored fetched same number))

  fetched-RefreshEnd :
      (d d' : Directory R) (user : User)
      → lookup subject d.users.by_subject ≡ some user
      → d'.remote ≡ d.remote
      → d'.users ≡ d.users
      → RefreshEnd d (refresh_user env fetch subject user d')
  unfolding refresh_user failing_as ◌>>=◌
  fetched-RefreshEnd d d' user stored r same =
      on_remote-cases
        (λ p. RefreshEnd d (
          continue (renamed (λ e. wrapped e "fetch current Discourse status") p.0)
            (λ snapshot.
              lift (refuse_if (mismatched subject user snapshot) mismatch)
              >> persist env (stable_subject subject snapshot) user snapshot)
            p.1))
        d' (fetch user.discourse_id)
        (λ snapshot t e.
          checked-RefreshEnd d (record d' { remote = t }) user snapshot stored
            (ap (fetch user.discourse_id) (sym r) ∙ e) same)
        (λ x t e. same)

  pub refresh-RefreshEnd : (d : Directory R) → RefreshEnd d (refresh env fetch subject d)
  unfolding refresh ◌>>=◌
  refresh-RefreshEnd d =
      on_directory-cases (λ p. RefreshEnd d (continue p.0 (refresh_user env fetch subject) p.1)) d
        env (get_by_subject subject)
        (λ d' r e _.
          let same = e ∙ get_by_subject-same d.users subject in
          get_by_subject-cases (λ x. RefreshEnd d (continue x (refresh_user env fetch subject) d'))
            d.users subject (λ user stored. fetched-RefreshEnd d d' user stored r same) same)
        (λ x d' _ r e. e)
