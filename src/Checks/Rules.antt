-- ===== src/Checks/Rules.antt =====
-- The rules that stand apart from the tables, at concrete inputs.
use sha.Base.{suc, ◌<◌, String, ◌≡◌, ◌↔◌, refl, Option, some, ok, length}
use sha.Text.{trim_required, strip}
use sha.Model.{Db, field, text, end}
use sha.Authz.{clause_holds, scope_clause, permits_scope, audit_call, record_audit_event, AuditCall}
use sha.Authz.Scopes.{scope_clause-permits_scope}
use sha.Authz.Redaction.{record_audit_event-IsCleanLog, IsCleanLog}
use sha.Protocol.{Instant, migration, LegacyReporterPolicy, configured, from_config, state, expired}
use sha.Protocol.Deadline.{from_config-IsConsistent, IsConsistent, state-expired_iff}
use sha.Checks.World.{world, reviewer, start}

padded_trims : trim_required " a " "reason" ≡ ok "a"
unfolding trim_required
padded_trims = refl

scope_clause-permits_scope_example :
    clause_holds (scope_clause reviewer "approval.decide") (some "cl") (some "lo")
    ≡ permits_scope reviewer "approval.decide" (some "cl") (some "lo")
scope_clause-permits_scope_example =
    scope_clause-permits_scope reviewer "approval.decide" (some "cl") (some "lo")

abbrev call : AuditCall
call = record (audit_call "login" reviewer) {
  metadata = field "access_token" (text "t") (field "host" (text "h") end);
}

record_audit_event-IsCleanLog_example :
    (db' : Db) × (record_audit_event world 5 call start ≡ ok (tt, db'))
    × (length db'.audit ≡ suc (length start.audit))
    × IsCleanLog world db'.audit
record_audit_event-IsCleanLog_example = record_audit_event-IsCleanLog world refl 5 call start tt

abbrev deadline : Instant
deadline = record { seconds = 1000; year = 2027 }

abbrev parse : String → Option Instant
parse s = some deadline

abbrev policy : LegacyReporterPolicy
policy = record { mode = migration; compatibility_until = some deadline }

policy_configured : from_config parse "migration" (some "2027-01-01T00:00:00Z") ≡ configured policy
unfolding from_config strip
policy_configured = refl

from_config-IsConsistent_example : IsConsistent policy
from_config-IsConsistent_example =
    from_config-IsConsistent parse "migration" (some "2027-01-01T00:00:00Z") policy_configured

state-expired_iff_example :
    (state policy 2000 ≡ expired) ↔ ((policy.mode ≡ migration) × (1000 < 2000) × (2027 < 2026))
state-expired_iff_example = state-expired_iff policy deadline 2000 refl
