-- ===== src/Domain/Lifecycle.antt =====
-- The life of an application: what the transitions of internal/domain/application.go allow.
use open_xai_connect.Base.{nat_eqs, string_eqs, int_eqs, ◌≡◌, true, arith}
use open_xai_connect.Domain.Status.{ApplicationStatus, valid_transition}

-- Zero or more valid transitions.
pub data Life (s : ApplicationStatus) : ApplicationStatus → Type 0 where
  here : Life s s
  next : {t u : ApplicationStatus} → Life s t → valid_transition t u ≡ true → Life s u

pub Life-trans : {s t u : ApplicationStatus} → Life s t → Life t u → Life s u
Life-trans p here = p
Life-trans p (next q v) = next (Life-trans p q) v

-- A revoked application stays revoked.
pub Life-revoked :
    {s t : ApplicationStatus}
    → Life s t
    → s ≡ ApplicationStatus.revoked
    → t ≡ ApplicationStatus.revoked
unfolding valid_transition
Life-revoked here e = e
Life-revoked (next {t} {u} p v) e = ground (arith, Life-revoked p e)
