-- ===== src/Reconciliation/Sync.antt =====
-- Open items for what a run derives (backend/app/services/reconciliation_open_item_service.py:
-- `_persist_specs` and `sync_open_items_for_run`). The INSERT ... ON CONFLICT DO NOTHING on the
-- unique constraint of run and source key inserts a specification unless an item of the run has its
-- key. The chunks of 500 only split the statement.
pub mod Coverage
pub mod History
pub mod Frame
use treasury_os_app.Base.{
  ℕ, suc, ◌+◌, Bool, true, false, ◌&&◌, Option, none, some, List, [], ◌∷◌, ◌++◌, ◌==◌,
  if◌then◌else◌, any,
}
use treasury_os_app.Reconciliation.Records.{
  OpenItemCategory, OpenItemEventType, OpenItem, ItemEvent, SourceKey, ReconciliationRun,
  open_status,
}
use treasury_os_app.Reconciliation.Audit.{AuditAction, AuditEvent, AuditRecord, sync_value}
use treasury_os_app.Reconciliation.Store.{Store, evidence}
use treasury_os_app.Reconciliation.Derivation.{ItemSpec, same_source}
use treasury_os_app.Reconciliation.Exceptions.{derive_open_item_specs}

-- `by_category` has one entry for each created item: the counts of the dictionary are the
-- multiplicities.
pub record SyncResult : Type 0 where
  pub created : ℕ
  pub existing : ℕ
  pub by_category : List OpenItemCategory

abbrev pub no_sync : SyncResult
no_sync = record { created = 0; existing = 0; by_category = [] }

-- Whether an item of the run has the source key.
abbrev pub has_source : List OpenItem → ReconciliationRun → SourceKey → Bool
has_source items run k =
    any (λ (i : OpenItem). i.run_id == run.id && same_source i.source_key k) items

pub new_item : ReconciliationRun → ItemSpec → ℕ → OpenItem
new_item run x id = record {
  id = id;
  run_id = run.id;
  legal_entity_id = run.legal_entity_id;
  bank_account_id = run.bank_account_id;
  source_key = x.source_key;
  status = open_status;
  amount = x.amount;
  currency_code = x.currency_code;
  description = x.description;
  reason = x.reason;
  item_date = x.item_date;
  priority = x.priority;
  due_date = none;
  assigned_to = none;
  assigned_by = none;
  assigned_at = none;
  resolved_at = none;
  resolved_by = none;
  resolution_reason = none;
  closed_at = none;
  closed_by = none;
  rejected_at = none;
  rejection_reason = none;
}

-- The history row of a new item. Its note, a fixed text, is left out.
pub created_event : ReconciliationRun → Option ℕ → ℕ → ItemEvent
created_event run actor id = record {
  open_item_id = id;
  legal_entity_id = run.legal_entity_id;
  event_type = OpenItemEventType.created;
  actor_user_id = actor;
  from_status = none;
  to_status = some open_status;
  assignee_user_id = none;
  note = none;
  reference = none;
}

pub insert_item : ReconciliationRun → Option ℕ → ItemSpec → Store → Store
unfolding new_item created_event
insert_item run actor x s = record s {
  items = s.items ++ new_item run x s.next_id ∷ [];
  events = created_event run actor s.next_id ∷ s.events;
  next_id = suc s.next_id;
}

abbrev one_existing : SyncResult → SyncResult
one_existing r = record r { existing = suc r.existing }

abbrev one_created : OpenItemCategory → SyncResult → SyncResult
one_created c r = record r { created = suc r.created; by_category = c ∷ r.by_category }

pub persist_spec : ReconciliationRun → Option ℕ → ItemSpec → SyncResult × Store → SyncResult × Store
unfolding insert_item
persist_spec run actor x (r, s) =
    if has_source s.items run x.source_key
    then (one_existing r, s)
    else (one_created x.source_key.category r, insert_item run actor x s)

pub persist_specs :
    ReconciliationRun → Option ℕ → List ItemSpec → SyncResult × Store → SyncResult × Store
unfolding persist_spec
persist_specs run actor [] acc = acc
persist_specs run actor (x ∷ xs) acc = persist_specs run actor xs (persist_spec run actor x acc)

pub sync_audit : ReconciliationRun → Option ℕ → SyncResult → AuditEvent
sync_audit run actor r = record {
  action = AuditAction.sync_open_items;
  subject = AuditRecord.run run.id;
  user_id = actor;
  legal_entity_id = run.legal_entity_id;
  previous_value = none;
  new_value = some (sync_value r.created r.existing r.by_category);
  reason = none;
}

-- The audit row, only if something was created.
pub audit_sync : ReconciliationRun → Option ℕ → SyncResult × Store → SyncResult × Store
unfolding sync_audit
audit_sync run actor (r, s) =
    if r.created == 0 then (r, s) else (r, record s { audits = sync_audit run actor r ∷ s.audits })

pub sync_open_items_for_run : Store → ReconciliationRun → Option ℕ → SyncResult × Store
unfolding persist_specs audit_sync
sync_open_items_for_run s run actor =
    audit_sync run actor
      (persist_specs run actor (derive_open_item_specs (evidence s) run) (no_sync, s))
