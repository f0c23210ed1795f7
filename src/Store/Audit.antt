-- ===== src/Store/Audit.antt =====
-- internal/store/memory/memory.go: the audit log, in the order of the appends.
use open_xai_connect.Base.{
  if◌then◌else◌, ◌==◌, nat_eqs, string_eqs, int_eqs, ok, String, List, [], ◌∷◌, ◌++◌,
}
use open_xai_connect.Base.Exec.{Exec}
use open_xai_connect.Domain.Application.{Time, is_zero}
use open_xai_connect.Domain.Records.{AuditEvent}

abbrev pub AuditLog : Type 0
AuditLog = List AuditEvent

with_time : Time → AuditEvent → AuditEvent
with_time now event = record event {
  created_at = if is_zero event.created_at then now else event.created_at;
}

unfoldable pub append_event : Time → AuditEvent → Exec AuditLog (Unit {0})
unfolding with_time
append_event now event log = (ok tt, log ++ with_time now event ∷ [])

events_of : String → AuditLog → List AuditEvent
events_of app [] = []
events_of app (event ∷ rest) =
    let more = events_of app rest in if event.application_id == app then event ∷ more else more

unfoldable pub list_by_application : String → Exec AuditLog (List AuditEvent)
unfolding events_of
list_by_application app log = (ok (events_of app log), log)
