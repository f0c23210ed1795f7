-- ===== src/Domain/Status.antt =====
-- internal/domain/application.go: the status of an application and its transitions.
use open_xai_connect.Base.{ℕ, ◌≡◌, ◌↔◌, Bool, true, false, ◌||◌, arith, nat_eq, Eq, ◌==◌}

-- `unset` is the zero value, the empty text.
pub data ApplicationStatus : Type 0 where
  unset draft pending_review provisioning approved rejected changes_requested revoked :
      ApplicationStatus

abbrev pub ordinal : ApplicationStatus → ℕ
ordinal ApplicationStatus.unset = 0
ordinal ApplicationStatus.draft = 1
ordinal ApplicationStatus.pending_review = 2
ordinal ApplicationStatus.provisioning = 3
ordinal ApplicationStatus.approved = 4
ordinal ApplicationStatus.rejected = 5
ordinal ApplicationStatus.changes_requested = 6
ordinal ApplicationStatus.revoked = 7

abbrev pub status_eq : ApplicationStatus → ApplicationStatus → Bool
status_eq a b = nat_eq (ordinal a) (ordinal b)

pub status_eq_iff : (a b : ApplicationStatus) → (status_eq a b ≡ true) ↔ (a ≡ b)
status_eq_iff a b = ground arith

instance abbrev pub status_eqs : Eq ApplicationStatus
status_eqs = record { beq = status_eq; beq_iff = status_eq_iff }

unfoldable pub valid_transition : ApplicationStatus → ApplicationStatus → Bool
valid_transition ApplicationStatus.draft to =
    (to == ApplicationStatus.pending_review) || (to == ApplicationStatus.provisioning)
valid_transition ApplicationStatus.pending_review to =
    (to == ApplicationStatus.provisioning)
    || (to == ApplicationStatus.rejected)
    || (to == ApplicationStatus.changes_requested)
valid_transition ApplicationStatus.provisioning to =
    (to == ApplicationStatus.approved) || (to == ApplicationStatus.rejected)
valid_transition ApplicationStatus.approved to = to == ApplicationStatus.revoked
valid_transition ApplicationStatus.rejected to = to == ApplicationStatus.draft
valid_transition ApplicationStatus.changes_requested to = to == ApplicationStatus.draft
valid_transition _ to = false

-- Application.IsOpen reads the status alone.
unfoldable pub is_open_status : ApplicationStatus → Bool
is_open_status ApplicationStatus.draft = true
is_open_status ApplicationStatus.pending_review = true
is_open_status ApplicationStatus.provisioning = true
is_open_status ApplicationStatus.changes_requested = true
is_open_status _ = false
