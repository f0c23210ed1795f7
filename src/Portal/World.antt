-- ===== src/Portal/World.antt =====
-- The repositories as the services see them: behind the interfaces of internal/store/store.go, where
-- each call may also fail for a reason of the database's own. The environment decides that, the times
-- that `now` returns and the random texts, one decision for each step of the portal.
use open_xai_connect.Base.{
  nat_eqs, string_eqs, int_eqs, Error, ok, err, ℕ, suc, String, Option, none, some,
}
use open_xai_connect.Base.Exec.{Exec}
use open_xai_connect.Domain.Application.{Time}
use open_xai_connect.Store.Applications.{Applications}
use open_xai_connect.Store.Outbox.{Outbox}
use open_xai_connect.Store.Audit.{AuditLog}
use open_xai_connect.Store.Consents.{Consents}
use open_xai_connect.Identity.StatusSnapshot.{StatusSnapshot}

-- `users` is whatever the status lookup reads and writes, `hydra` the state of Ory Hydra.
pub record World (H U : Type 0) : Type 0 where
  pub users : U
  pub apps : Applications
  pub outbox : Outbox
  pub audit : AuditLog
  pub consents : Consents
  pub hydra : H
  pub step : ℕ

pub record Env : Type 0 where
  pub clock : ℕ → Time
  pub fault : ℕ → Option Error
  pub random : ℕ → Option String

-- identity.StatusLookup
abbrev pub StatusLookup : Type 0 → Type 0
StatusLookup U = String → Exec U StatusSnapshot

abbrev pub M : Type 0 → Type 0 → Type 0 → Type 0
M H U A = Exec (World H U) A

module _ {H U : Type 0} where
  unfoldable pub on_users : {A : Type 0} → Exec U A → M H U A
  on_users op w = let (r, u) = op w.users in (r, record w { users = u })

  unfoldable pub on_hydra : {A : Type 0} → Exec H A → M H U A
  on_hydra op w = let (r, h) = op w.hydra in (r, record w { hydra = h })

  module _ (env : Env) where
    open env use {clock, fault, random}

    unfoldable pub now : M H U Time
    now w = (ok (clock w.step), record w { step = suc w.step })

    -- a read of the random source, `none` where it fails
    unfoldable pub draw : M H U (Option String)
    draw w = (ok (random w.step), record w { step = suc w.step })

    unfoldable pub on_apps : {A : Type 0} → Exec Applications A → M H U A
    on_apps op w = elim (fault w.step) [
      | some e ↦ (err e, record w { step = suc w.step })
      | none ↦ let (r, m) = op w.apps in (r, record w { step = suc w.step; apps = m })
    ]

    unfoldable pub on_outbox : {A : Type 0} → Exec Outbox A → M H U A
    on_outbox op w = elim (fault w.step) [
      | some e ↦ (err e, record w { step = suc w.step })
      | none ↦ let (r, o) = op w.outbox in (r, record w { step = suc w.step; outbox = o })
    ]

    unfoldable pub on_audit : {A : Type 0} → Exec AuditLog A → M H U A
    on_audit op w = elim (fault w.step) [
      | some e ↦ (err e, record w { step = suc w.step })
      | none ↦ let (r, l) = op w.audit in (r, record w { step = suc w.step; audit = l })
    ]

    unfoldable pub on_consents : {A : Type 0} → Exec Consents A → M H U A
    on_consents op w = elim (fault w.step) [
      | some e ↦ (err e, record w { step = suc w.step })
      | none ↦ let (r, c) = op w.consents in (r, record w { step = suc w.step; consents = c })
    ]
