-- ===== src/Reconciliation/Workflow.antt =====
-- The actions on one open item (backend/app/services/reconciliation_open_item_service.py, from
-- `OPEN_ITEM_TRANSITIONS` on). An action is given the row-locked item, the user who acts and the
-- time, and raises, or returns the changed item with the history row and the audit row that it
-- adds. `is_alpha` is the character test of Python's Unicode tables.
pub mod Disposition
pub mod History
pub mod Rules
pub mod Errors
use treasury_os_app.Base.{
  ℕ, ◌≡◌, Bool, true, false, not, ◌&&◌, ◌||◌, Option, none, some, List, [], ◌∷◌, ◌==◌, ltb, leb,
  if◌then◌else◌, same_key, length, Outcome, ok, raised, bad_request, unprocessable, ◌>>=◌, ◌>>◌,
  raise_if, require,
}
use treasury_os_app.Text.{Text, strip, or_empty, codes, starts_with, has_sub, lower, is_empty}
use treasury_os_app.Reconciliation.Records.{
  OpenItemStatus, OpenItemPriority, OpenItemEventType, OpenItem, ItemEvent, open_status,
  under_review,
}
use treasury_os_app.Reconciliation.Notes.{
  min_reason_length, min_assignment_reason_length, clean_text, validate_evidence_reference,
  optional_note,
}
use treasury_os_app.Reconciliation.Audit.{Snapshot, AuditAction, AuditEvent, open_item, item_value}

-- `OPEN_ITEM_TRANSITIONS`: whether the second status is among those allowed from the first.
pub allowed : OpenItemStatus → OpenItemStatus → Bool
allowed open_status under_review = true
allowed open_status OpenItemStatus.rejected = true
allowed under_review OpenItemStatus.resolved = true
allowed under_review OpenItemStatus.rejected = true
allowed OpenItemStatus.resolved OpenItemStatus.closed = true
allowed OpenItemStatus.resolved open_status = true
allowed OpenItemStatus.closed open_status = true
allowed OpenItemStatus.rejected open_status = true
allowed _ _ = false

-- `status in ACTIONABLE_STATUSES`
pub is_actionable : OpenItemStatus → Bool
is_actionable open_status = true
is_actionable under_review = true
is_actionable _ = false

pub require_transition : OpenItem → OpenItemStatus → Outcome (Unit {0})
unfolding allowed
require_transition item target = require (allowed item.status target) bad_request

pub snapshot : OpenItem → Snapshot
snapshot item = record {
  status = item.status;
  assigned_to = item.assigned_to;
  priority = item.priority;
  due_date = item.due_date;
}

-- the item after an action, its history row and its audit row
pub record Recorded : Type 0 where
  pub item : OpenItem
  pub event : ItemEvent
  pub audit : AuditEvent

-- `note if note else reference`
abbrev pub audit_reason : Option Text → Option Text → Option Text
audit_reason none reference = reference
audit_reason (some note) reference = if is_empty note then reference else some note

-- `_record`: the history row and the audit row of an action, on the item as it is after it.
pub record_event :
    OpenItem
    → OpenItemEventType
    → ℕ
    → AuditAction
    → Option Snapshot
    → OpenItemStatus
    → Option Text
    → Option Text
    → Option ℕ
    → Recorded
unfolding snapshot
record_event item event_type actor audit_action previous before note reference assignee = record {
  item = item;
  event = record {
    open_item_id = item.id;
    legal_entity_id = item.legal_entity_id;
    event_type = event_type;
    actor_user_id = some actor;
    from_status = some before;
    to_status = some item.status;
    assignee_user_id = assignee;
    note = note;
    reference = reference;
  };
  audit = record {
    action = audit_action;
    subject = open_item item.id;
    user_id = some actor;
    legal_entity_id = item.legal_entity_id;
    previous_value = elim previous [ none ↦ none | some s ↦ some (item_value s) ];
    new_value = some (item_value (snapshot item));
    reason = audit_reason note reference;
  };
}

unfoldable pub start_investigation : OpenItem → ℕ → Outcome Recorded
unfolding require_transition record_event
start_investigation item actor = do
  require_transition item under_review
  ok (
      record_event (record item { status = under_review }) OpenItemEventType.investigation_started
        actor AuditAction.investigation_started (some (snapshot item)) item.status none none none)

-- `x if value is not None else old`
abbrev pub or_keep {ℓ} : {A : Type ℓ} → Option A → A → A
or_keep none old = old
or_keep (some new) old = new

abbrev pub or_keep_date : Option ℕ → Option ℕ → Option ℕ
or_keep_date none old = old
or_keep_date (some new) old = some new

pub assign_item :
    OpenItem → ℕ → ℕ → ℕ → Option Text → Option ℕ → Option OpenItemPriority → Outcome Recorded
unfolding clean_text record_event is_actionable
assign_item item now actor assignee reason due_date priority = do
  require (is_actionable item.status) bad_request
  raise_if (same_key item.assigned_to (some assignee)) bad_request
  text ← clean_text reason min_assignment_reason_length
  let item' = record item {
    assigned_to = some assignee;
    assigned_by = some actor;
    assigned_at = some now;
    due_date = or_keep_date due_date item.due_date;
    priority = or_keep priority item.priority;
  }
  ok (
      record_event item'
        (elim item.assigned_to [
          | none ↦ OpenItemEventType.assigned
          | some _ ↦ OpenItemEventType.reassigned
        ])
        actor
        (elim item.assigned_to [ none ↦ AuditAction.assigned | some _ ↦ AuditAction.reassigned ])
        (some (snapshot item)) item.status (some text) none (some assignee))

pub add_comment : OpenItem → ℕ → Option Text → Outcome Recorded
unfolding clean_text record_event
add_comment item actor note = do
  text ← clean_text note 1
  ok (
      record_event item OpenItemEventType.comment actor AuditAction.comment_added none item.status
        (some text) none none)

pub add_evidence : (ℕ → Bool) → OpenItem → ℕ → Option Text → Option Text → Outcome Recorded
unfolding optional_note record_event
add_evidence is_alpha item actor reference note = do
  value ← validate_evidence_reference is_alpha reference
  text ← optional_note note
  ok (
      record_event item OpenItemEventType.evidence actor AuditAction.evidence_added none item.status
        text (some value) none)

unfoldable pub resolve_item : OpenItem → ℕ → ℕ → Option Text → Outcome Recorded
unfolding require_transition clean_text record_event
resolve_item item now actor reason = do
  require_transition item OpenItemStatus.resolved
  text ← clean_text reason min_reason_length
  let item' = record item {
    status = OpenItemStatus.resolved;
    resolved_at = some now;
    resolved_by = some actor;
    resolution_reason = some text;
  }
  ok (
      record_event item' OpenItemEventType.resolved actor AuditAction.resolved
        (some (snapshot item)) item.status (some text) none none)

pub close_item : OpenItem → ℕ → ℕ → Option Text → Outcome Recorded
unfolding require_transition optional_note record_event
close_item item now actor note = do
  require_transition item OpenItemStatus.closed
  text ← optional_note note
  let item' = record item {
    status = OpenItemStatus.closed;
    closed_at = some now;
    closed_by = some actor;
  }
  ok (
      record_event item' OpenItemEventType.closed actor AuditAction.closed (some (snapshot item))
        item.status text none none)

pub reject_item : OpenItem → ℕ → ℕ → Option Text → Outcome Recorded
unfolding require_transition clean_text record_event
reject_item item now actor reason = do
  require_transition item OpenItemStatus.rejected
  text ← clean_text reason min_reason_length
  let item' = record item {
    status = OpenItemStatus.rejected;
    rejected_at = some now;
    rejection_reason = some text;
  }
  ok (
      record_event item' OpenItemEventType.rejected actor AuditAction.rejected
        (some (snapshot item)) item.status (some text) none none)

unfoldable pub reopen_item : OpenItem → ℕ → Option Text → Outcome Recorded
unfolding require_transition clean_text record_event
reopen_item item actor reason = do
  require_transition item open_status
  text ← clean_text reason min_reason_length
  let item' = record item {
    status = open_status;
    resolved_at = none;
    resolved_by = none;
    resolution_reason = none;
    closed_at = none;
    closed_by = none;
    rejected_at = none;
    rejection_reason = none;
  }
  ok (
      record_event item' OpenItemEventType.reopened actor AuditAction.reopened
        (some (snapshot item)) item.status (some text) none none)

-- What a user can ask of one item, with the payloads of the endpoints
-- (backend/app/api/v1/reconciliation_open_items.py). The assignee is one whom the endpoint accepted.
pub data Request : Type 0 where
  start : Request
  assign : ℕ → Option Text → Option ℕ → Option OpenItemPriority → Request
  comment resolve close reject reopen : Option Text → Request
  evidence : Option Text → Option Text → Request

-- The service call of each endpoint.
unfoldable pub perform : (ℕ → Bool) → OpenItem → ℕ → ℕ → Request → Outcome Recorded
perform is_alpha item now actor start = start_investigation item actor
perform is_alpha item now actor (assign who reason due priority) =
    assign_item item now actor who reason due priority
perform is_alpha item now actor (comment note) = add_comment item actor note
perform is_alpha item now actor (evidence reference note) =
    add_evidence is_alpha item actor reference note
perform is_alpha item now actor (resolve reason) = resolve_item item now actor reason
perform is_alpha item now actor (close note) = close_item item now actor note
perform is_alpha item now actor (reject reason) = reject_item item now actor reason
perform is_alpha item now actor (reopen reason) = reopen_item item actor reason
