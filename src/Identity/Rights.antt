-- ===== src/Identity/Rights.antt =====
-- internal/identity/status.go and access.go: a refresh keeps the user repository in order, and the
-- rights of a reviewer come from Discourse's answer of the moment.
use open_xai_connect.Base.{
  ◌==◌, nat_eqs, string_eqs, lookup, int_eqs, message, Result, ok, err, String, ◌≡◌, refl, sym, ap,
  ◌∙◌, Bool, true, not, ◌&&◌, some, subst,
}
use open_xai_connect.Base.Exec.{pure, ◌>>=◌}
use open_xai_connect.Base.Cases.{guard-passed, bind-passed}
use open_xai_connect.Domain.User.{User}
use open_xai_connect.Store.Users.Linked.{IsLinked}
use open_xai_connect.Store.Users.Found.{upsert_known-IsLinked}
use open_xai_connect.Identity.UserSnapshot.{UserSnapshot}
use open_xai_connect.Identity.StatusSnapshot.{StatusSnapshot}
use open_xai_connect.Identity.Directory.{Directory, Provider}
use open_xai_connect.Identity.Refresher.{
  mismatch, refreshed, status_of, StatusRefresher, current_status, snapshot_with, access_snapshot,
  is_reviewer, is_admin,
}
use open_xai_connect.Identity.Refreshed.{IsCurrent, RefreshEnd, refresh-RefreshEnd}
use open_xai_connect.Portal.World.{Env, StatusLookup}

module _ {R : Type 0} (env : Env) (fetch : Provider R) (subject : String) where
  abbrev refresher : StatusRefresher R
  refresher = record { provider = some fetch; has_users = true }

  pub current_status-RefreshEnd :
      (d : Directory R)
      → RefreshEnd env fetch subject d
          (current_status env (record { provider = some fetch; has_users = true }) subject d)
  unfolding current_status
  current_status-RefreshEnd d = refresh-RefreshEnd env fetch subject d

  end-IsLinked :
      (d : Directory R) (p : Result StatusSnapshot × Directory R)
      → IsLinked d.users
      → RefreshEnd env fetch subject d p
      → IsLinked p.1.users
  unfolding refreshed
  end-IsLinked d (err e, d') linked same = subst IsLinked (sym same) linked
  end-IsLinked d (ok status, d') linked current =
      let name = linked.named subject current.user current.stored in
      subst IsLinked (sym current.left) (
        upsert_known-IsLinked _ current.user d.users linked
          (ap (λ z. lookup z d.users.by_subject) name ∙ current.stored) (sym name)
          current.same_number)

  pub current_status-IsLinked :
      (d : Directory R)
      → IsLinked d.users
      → IsLinked
          (current_status env
            (record { provider = some fetch; has_users = true })
            subject
            d).1.users
  current_status-IsLinked d linked =
      end-IsLinked d (current_status env refresher subject d) linked (current_status-RefreshEnd d)

  -- Discourse says of the user stored under the subject that a property holds.
  abbrev pub DiscourseSays : (UserSnapshot → Bool) → Directory R → Type 0
  DiscourseSays right d =
      (user : User) × (lookup subject d.users.by_subject ≡ some user)
      × (snapshot : UserSnapshot) × ((fetch user.discourse_id d.remote).0 ≡ ok snapshot)
      × (right snapshot ≡ true)

module _ {U : Type 0} (status : StatusLookup U) (subject : String) where
  pub access_snapshot-passed :
      (u v : U) (s : StatusSnapshot)
      → access_snapshot (some status) subject u ≡ (ok s, v)
      → status subject u ≡ (ok s, v)
  unfolding access_snapshot snapshot_with
  access_snapshot-passed u v s h =
      let (_, h1) =
        guard-passed (subject == "") (message "identity access lookup is not initialized") _ u v s
          h in
      let (snapshot, w, e, h2) = bind-passed (status subject) _ u v s h1 in
      let (_, h3) =
        guard-passed (not (snapshot.subject == "") && not (snapshot.subject == subject)) mismatch
          (pure snapshot) w v s h2 in
      e ∙ h3

module _ {R : Type 0} (env : Env) (fetch : Provider R) (subject : String) where
  said :
      (right : StatusSnapshot → Bool) (says : UserSnapshot → Bool)
      → ((s : UserSnapshot) → right (status_of subject s) ≡ says s)
      → (d d' : Directory R)
      → (access_snapshot
              (some (current_status env (record { provider = some fetch; has_users = true })))
              subject
            >>= (λ s. pure (right s)))
          d
        ≡ (ok true, d')
      → DiscourseSays env fetch subject says d
  said right says eq d d' h =
      let status = current_status env (record { provider = some fetch; has_users = true }) in
      let (s, v, e, k) =
        bind-passed (access_snapshot (some status) subject) (λ s. pure (right s)) d d' true h in
      let current : IsCurrent env fetch subject d s v =
        subst (RefreshEnd env fetch subject d) (access_snapshot-passed status subject d v s e)
          (current_status-RefreshEnd env fetch subject d) in
      let is_right : right s ≡ true = cc (ap (λ p. p.0) k) in
      (
        current.user,
        current.stored,
        current.snapshot,
        ap (λ p. p.0) current.fetched,
        sym (eq current.snapshot) ∙ ap right (sym current.status_as) ∙ is_right,
      )

  -- The access lookup over the status refresher calls a user a reviewer only if Discourse, asked
  -- now about the number stored with that subject, says so.
  pub is_reviewer-DiscourseSays :
      (d d' : Directory R)
      → is_reviewer
          (some (current_status env (record { provider = some fetch; has_users = true })))
          subject
          d
        ≡ (ok true, d')
      → DiscourseSays env fetch subject (λ s. s.reviewer) d
  unfolding is_reviewer status_of
  is_reviewer-DiscourseSays d d' h = said (λ s. s.reviewer) (λ s. s.reviewer) (λ s. refl) d d' h

  pub is_admin-DiscourseSays :
      (d d' : Directory R)
      → is_admin
          (some (current_status env (record { provider = some fetch; has_users = true })))
          subject
          d
        ≡ (ok true, d')
      → DiscourseSays env fetch subject (λ s. s.admin) d
  unfolding is_admin status_of
  is_admin-DiscourseSays d d' h = said (λ s. s.admin) (λ s. s.admin) (λ s. refl) d d' h
