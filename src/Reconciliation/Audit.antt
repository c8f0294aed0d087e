-- ===== src/Reconciliation/Audit.antt =====
-- The rows of the audit trail that the reconciliation services write
-- (backend/app/services/audit_service.py: `record_audit_event`).
use treasury_os_app.Base.{ℕ, Option, List}
use treasury_os_app.Text.{Text}
use treasury_os_app.Reconciliation.Records.{
  OpenItemStatus, OpenItemPriority, OpenItemCategory, ProposalStatus, MatchProposalKind,
}

-- `_snapshot` of an open item
pub record Snapshot : Type 0 where
  pub status : OpenItemStatus
  pub assigned_to : Option ℕ
  pub priority : OpenItemPriority
  pub due_date : Option ℕ

pub data AuditAction : Type 0 where
  investigation_started assigned reassigned comment_added evidence_added : AuditAction
  resolved closed rejected reopened sync_open_items match_accepted match_rejected : AuditAction

-- the record that an audit event is about
pub data AuditRecord : Type 0 where
  open_item run : ℕ → AuditRecord
  proposal : MatchProposalKind → ℕ → AuditRecord

pub data AuditValue : Type 0 where
  item_value : Snapshot → AuditValue
  proposal_value : ProposalStatus → ℕ → Option ℕ → AuditValue
  sync_value : ℕ → ℕ → List OpenItemCategory → AuditValue

pub record AuditEvent : Type 0 where
  pub action : AuditAction
  pub subject : AuditRecord
  pub user_id : Option ℕ
  pub legal_entity_id : ℕ
  pub previous_value : Option AuditValue
  pub new_value : Option AuditValue
  pub reason : Option Text
