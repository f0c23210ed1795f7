-- ===== src/Reviews/Overview.antt =====
-- internal/reviews/http.go: what the overview for administrators shows, and to whom.
use open_xai_connect.Base.{
  nat_eqs, string_eqs, int_eqs, Result, ok, err, ℕ, ◌+◌, ◌≡◌, sym, ap, ◌∙◌, List, [], ◌∷◌, arith,
  subst,
}
use open_xai_connect.Domain.Status.{ApplicationStatus, status_eqs}
use open_xai_connect.Portal.World.{World, Env}
use open_xai_connect.Portal.Frame.{on_apps-then}
use open_xai_connect.Store.Applications.{Applications, list_by_status}
use open_xai_connect.Store.Applications.Counted.{count_in, length-list_by_status}
use open_xai_connect.Reviews.Forms.{
  AdminStats, no_stats, set_count, counted_statuses, count_statuses,
}

-- The stored applications by status, and all of them that have one.
abbrev pub counted : Applications → AdminStats
counted m =
    let n : ApplicationStatus → ℕ = λ status. count_in status m in
    record {
      total =
          n ApplicationStatus.draft
          + n ApplicationStatus.pending_review
          + n ApplicationStatus.provisioning
          + n ApplicationStatus.approved
          + n ApplicationStatus.changes_requested
          + n ApplicationStatus.rejected
          + n ApplicationStatus.revoked;
      draft = n ApplicationStatus.draft;
      pending_review = n ApplicationStatus.pending_review;
      provisioning = n ApplicationStatus.provisioning;
      approved = n ApplicationStatus.approved;
      changes_requested = n ApplicationStatus.changes_requested;
      rejected = n ApplicationStatus.rejected;
      revoked = n ApplicationStatus.revoked;
    }

seven : (a b c d e f g : ℕ) → 0 + a + b + c + d + e + f + g ≡ a + b + c + d + e + f + g
seven a b c d e f g = omega arith

module _ {H U : Type 0} (env : Env) (m : Applications) where
  abbrev pub StatsEnd : Result AdminStats × World H U → Type 0
  StatsEnd (ok stats, w) = stats ≡ counted m
  StatsEnd (err e, w) = Unit {0}

  -- One status counted, and the rest to come.
  count_next :
      (status : ApplicationStatus) (rest : List ApplicationStatus) (stats : AdminStats)
      (w : World H U)
      → w.apps ≡ m
      → ((t : World H U)
          → t.apps ≡ m
          → StatsEnd (
              count_statuses env rest
                (set_count status
                  (count_in status m)
                  (record stats { total = stats.total + count_in status m }))
                t))
      → StatsEnd (count_statuses env (status ∷ rest) stats w)
  unfolding count_statuses list_by_status
  count_next status rest stats w same k =
      on_apps-then StatsEnd w _ env (list_by_status status)
        (λ apps t listed kept _.
          subst
            (λ n. StatsEnd (
              count_statuses env rest
                (set_count status n (record stats { total = stats.total + n })) t))
            (sym (length-list_by_status status w.apps apps listed ∙ ap (count_in status) same))
            (k t (kept ∙ same)))
        (λ e t _. tt)

  count_done :
      (stats : AdminStats) (w : World H U)
      → stats ≡ counted m
      → StatsEnd (count_statuses env [] stats w)
  unfolding count_statuses
  count_done stats w h = h

  pub count_all-StatsEnd :
      (w : World H U) → w.apps ≡ m → StatsEnd (count_statuses env counted_statuses no_stats w)
  unfolding set_count
  count_all-StatsEnd w same = count_next _ _ _ _ same λ _ a. count_next _ _ _ _ a λ _ b.
      count_next _ _ _ _ b λ _ c. count_next _ _ _ _ c λ _ d. count_next _ _ _ _ d λ _ e.
        count_next _ _ _ _ e λ _ f.
          count_next _ _ _ _ f
            λ t _. count_done _ t (ap (λ n. record (counted m) { total = n }) (seven _ _ _ _ _ _ _))
