-- ===== src/Tests.antt =====
-- A small company to run the code on: two entities of one group, a clerk of the second with every
-- permission of the bank reconciliation, a stranger without any, a bank row, the ledger row that
-- records it, and open items.
pub mod Access
pub mod Credit
pub mod Schedules
pub mod Investments
pub mod Queue
pub mod Decisions
pub mod Matching
use treasury_os_app.Base.{ℕ, Bool, true, false, Option, none, some, List, [], ◌∷◌}
use treasury_os_app.Text.{Text, Unicode, codes}
use treasury_os_app.Auth.{
  TreasuryAction, bank_reconciliation, view, investigate, comment, approve, execute, Permission,
  UserRoleAssignment, User, LegalEntity, entity,
}
use treasury_os_app.Reconciliation.Records.{
  credit, inflow, active, TransactionStatus, BankTransaction, LedgerTransaction, bank_only,
  OpenItemCategory, OpenItemStatus, OpenItem, medium, no_ledger_match, unclaimed, ItemEvent,
  OpenItemEventType, open_status, under_review, ReconciliationRun, ReconciliationRunStatus,
}
use treasury_os_app.Reconciliation.Records.{
  MatchSuggestion, MatchSuggestionStatus, exact, tiered, auto_match,
}
use treasury_os_app.Reconciliation.Store.{Store}

abbrev pub entities : List LegalEntity
entities = record { id = 1; group_id = 7 } ∷ record { id = 2; group_id = 7 } ∷ []

abbrev may : TreasuryAction → Permission
may a = record { module_of = bank_reconciliation; action_of = a }

abbrev pub clerk : User
clerk = record {
  id = 5;
  is_active = true;
  is_superuser = false;
  role_assignments =
      record {
        is_active = true;
        scope_type = entity;
        legal_entity_id = some 2;
        group_id = none;
        permissions =
            may view
            ∷ may investigate
            ∷ may comment
            ∷ may TreasuryAction.resolve
            ∷ may approve
            ∷ may execute
            ∷ [];
      }
      ∷ [];
}

abbrev pub stranger : User
stranger = record { id = 6; is_active = true; is_superuser = false; role_assignments = [] }

abbrev pub received : BankTransaction
received = record {
  id = 20;
  legal_entity_id = 2;
  bank_account_id = 3;
  transaction_date = 100;
  entry_type = credit;
  amount = 5000;
  currency_code = 1;
  bank_reference = some (codes "INV-7");
  external_transaction_id = none;
  narration = none;
  status = active;
}

abbrev pub booked : LedgerTransaction
booked = record {
  id = 30;
  legal_entity_id = 2;
  bank_account_id = some 3;
  event_date = 100;
  direction = inflow;
  transaction_amount = 5000;
  transaction_currency_code = 1;
  reference = some (codes "INV-7");
  external_reference = none;
  narration = none;
  counterparty = none;
  status = TransactionStatus.posted;
}

-- in another currency, so that nothing matches it
abbrev pub unmatched : LedgerTransaction
unmatched = record booked { id = 31; transaction_currency_code = 2 }

abbrev pub run : ReconciliationRun
run = record {
  id = 40;
  legal_entity_id = 2;
  bank_account_id = 3;
  period_start = 90;
  period_end = 110;
  status = ReconciliationRunStatus.completed;
  configuration_id = none;
}

-- an item in some status, with no trace of a settlement
abbrev pub item_in : OpenItemStatus → OpenItem
item_in status = record {
  id = 50;
  run_id = 40;
  legal_entity_id = 2;
  bank_account_id = 3;
  source_key = record { category = bank_only; bank_id = some 20; treasury_id = none };
  status = status;
  amount = 5000;
  currency_code = 1;
  description = no_ledger_match none;
  reason = unclaimed;
  item_date = 100;
  priority = medium;
  due_date = none;
  assigned_to = none;
  assigned_by = none;
  assigned_at = none;
  resolved_at = none;
  resolved_by = none;
  resolution_reason = none;
  closed_at = none;
  closed_by = none;
  rejected_at = none;
  rejection_reason = none;
}

abbrev pub first_event : ItemEvent
first_event = record {
  open_item_id = 50;
  legal_entity_id = 2;
  event_type = OpenItemEventType.created;
  actor_user_id = none;
  from_status = none;
  to_status = some open_status;
  assignee_user_id = none;
  note = none;
  reference = none;
}

abbrev pub store : Store
store = record {
  entities = entities;
  users = clerk ∷ stranger ∷ [];
  banks = received ∷ [];
  ledgers = booked ∷ unmatched ∷ [];
  runs = run ∷ [];
  configurations = [];
  suggestions = [];
  groups = [];
  members = [];
  decisions = [];
  claims = [];
  items = item_in open_status ∷ [];
  events = first_event ∷ [];
  audits = [];
  pending = [];
  next_id = 60;
}

-- a proposal of the run for the bank row
abbrev pub proposed : MatchSuggestion
proposed = record {
  id = 45;
  run_id = 40;
  bank_id = some 20;
  treasury_id = some 30;
  match_type = some exact;
  confidence = some 95;
  status = MatchSuggestionStatus.pending;
  reason = some (tiered auto_match []);
}

abbrev pub with_proposal : Store
with_proposal = record store { suggestions = proposed ∷ [] }

-- a table of letters that changes no case
abbrev pub plain : Unicode
plain = record { to_upper = λ t. t; to_lower = λ t. t; is_alpha = λ c. true }
