-- ===== src/Audit.antt =====
-- `AuditLogService.record` of src/audit-log/audit-log.service.ts: the entry is written, or the
-- failure is logged; the caller is never disturbed.
use Prim.Native.String.{String}
use rive_backend.Base.{ℕ, Option, Result, ok, err, if◌then◌else◌, pure, ◌⊎◌}
use rive_backend.Base.Text.{Text}
use rive_backend.Db.{Prisma}
use rive_backend.Store.{World, AuditChanges, AuditEntry, Store, M}

-- A transaction in which another client writes the audit log: a throw rolls back all but the entries.
abbrev pub keep_audit : {A : Type 0} → Store → Result A × Store → Result A × Store
keep_audit s (ok a, t) = (ok a, t)
keep_audit s (err e, t) = (err e, record s { audit = t.audit })

abbrev pub audited_transaction : {A : Type 0} → M A → M A
audited_transaction m s = keep_audit s (m s)

module _ (db : Prisma) (w : World) where
  unfoldable pub record_audit : Option ℕ → String → Text ⊎ ℕ → AuditChanges → M (Unit {0})
  record_audit user action entity changes s =
      let entry : AuditEntry = record {
        user_id = user;
        action = action;
        entity = entity;
        changes = changes;
        created_at = w.now;
      } in
      pure tt (if w.audit_up then record s { audit = db.create entry s.audit } else s)
