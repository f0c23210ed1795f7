-- ===== src/Domain/Records.antt =====
-- internal/domain/audit.go, consent.go and outbox.go.
use open_xai_connect.Base.{ℤ, String, Bool, Option, List}
use open_xai_connect.Base.{Map}
use open_xai_connect.Domain.Application.{Time}

pub record AuditEvent : Type 0 where
  pub id : String
  pub actor_subject : String
  pub action : String
  pub application_id : String
  pub metadata : Map String String
  pub created_at : Time

pub record Consent : Type 0 where
  pub user_subject : String
  pub application_id : String
  pub scopes : List String
  pub remember : Bool
  pub granted_at : Time
  pub last_used_at : Time

pub record OutboxEvent : Type 0 where
  pub id : String
  pub idempotency_key : String
  pub kind : String
  pub application_id : String
  pub payload : String
  pub attempts : ℤ
  pub available_at : Time
  pub claimed_at : Option Time
  pub completed_at : Option Time
  pub created_at : Time
