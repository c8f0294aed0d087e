-- ===== src/Reconciliation/Records.antt =====
-- The tables of the reconciliation (backend/app/models/reconciliation.py, bank_statement.py,
-- treasury_transaction.py), with the columns that the services read or write. Ids, currency codes,
-- dates (as ordinals) and timestamps are numbers, amounts are cents: an amount of a statement or of
-- the ledger is never negative, since its direction stands in a column of its own. A text that the
-- code composes from values is a constructor with those values.
use treasury_os_app.Base.{ℕ, Option, List}
use treasury_os_app.Text.{Text}

pub data BankStatementEntryType : Type 0 where
  debit credit : BankStatementEntryType

pub data BankStatementTransactionStatus : Type 0 where
  active reversed : BankStatementTransactionStatus

pub data CashDirection : Type 0 where
  inflow outflow transfer non_cash : CashDirection

pub data TransactionStatus : Type 0 where
  pending posted cancelled : TransactionStatus

pub data ReconciliationRunStatus : Type 0 where
  draft ready running completed failed cancelled : ReconciliationRunStatus

pub data MatchRelationshipType : Type 0 where
  one_to_many many_to_one batch internal_transfer fx_match : MatchRelationshipType

pub data MatchGroupStatus : Type 0 where
  pending ambiguous accepted rejected : MatchGroupStatus

pub data MatchSuggestionStatus : Type 0 where
  pending accepted rejected superseded : MatchSuggestionStatus

-- The values that the one-to-one engine sets.
pub data MatchType : Type 0 where
  exact tolerance : MatchType

pub data OpenItemCategory : Type 0 where
  bank_only ledger_only amount_variance timing_difference ambiguous_match : OpenItemCategory
  one_to_many many_to_one batch_payment exception_item : OpenItemCategory

pub data OpenItemPriority : Type 0 where
  low medium high : OpenItemPriority

pub data OpenItemStatus : Type 0 where
  open_status under_review resolved closed rejected : OpenItemStatus

pub data OpenItemEventType : Type 0 where
  created assigned reassigned investigation_started comment evidence : OpenItemEventType
  resolved closed rejected reopened : OpenItemEventType

pub data MatchProposalKind : Type 0 where
  suggestion group : MatchProposalKind

pub data MatchDecisionType : Type 0 where
  accepted rejected : MatchDecisionType

-- the namespaces of accepted claims
pub data AcceptedClaimKind : Type 0 where
  match transfer : AcceptedClaimKind

pub record BankTransaction : Type 0 where
  pub id : ℕ
  pub legal_entity_id : ℕ
  pub bank_account_id : ℕ
  pub transaction_date : ℕ
  pub entry_type : BankStatementEntryType
  pub amount : ℕ
  pub currency_code : ℕ
  pub bank_reference : Option Text
  pub external_transaction_id : Option Text
  pub narration : Option Text
  pub status : BankStatementTransactionStatus

pub record LedgerTransaction : Type 0 where
  pub id : ℕ
  pub legal_entity_id : ℕ
  pub bank_account_id : Option ℕ
  pub event_date : ℕ
  pub direction : CashDirection
  pub transaction_amount : ℕ
  pub transaction_currency_code : ℕ
  pub reference : Option Text
  pub external_reference : Option Text
  pub narration : Option Text
  pub counterparty : Option Text
  pub status : TransactionStatus

pub record ReconciliationRun : Type 0 where
  pub id : ℕ
  pub legal_entity_id : ℕ
  pub bank_account_id : ℕ
  pub period_start : ℕ
  pub period_end : ℕ
  pub status : ReconciliationRunStatus
  pub configuration_id : Option ℕ

-- `amount_tolerance_pct` has three decimal places: it is counted in thousandths of a percent.
pub record ReconciliationConfiguration : Type 0 where
  pub id : ℕ
  pub amount_tolerance_pct : ℕ
  pub date_tolerance_days : ℕ
  pub high_value_threshold : Option ℕ

-- The parts of the reason of a score.
pub data ReasonPart : Type 0 where
  exact_amount amount_within_tolerance exact_date date_within_tolerance : ReasonPart
  exact_reference partial_reference no_reference compatible_direction : ReasonPart
  narration_overlap : ReasonPart

pub data Tier : Type 0 where
  auto_match review : Tier

-- "No eligible ...", "AMBIGUOUS: <count> candidates tied at score <top> ...", "[<tier>] ...".
pub data SuggestionReason : Type 0 where
  no_candidate : SuggestionReason
  tied_at : ℕ → ℕ → List ReasonPart → SuggestionReason
  tiered : Tier → List ReasonPart → SuggestionReason

-- `confidence` is a score, in whole points.
pub record MatchSuggestion : Type 0 where
  pub id : ℕ
  pub run_id : ℕ
  pub bank_id : Option ℕ
  pub treasury_id : Option ℕ
  pub match_type : Option MatchType
  pub confidence : Option ℕ
  pub status : MatchSuggestionStatus
  pub reason : Option SuggestionReason

pub record MatchGroup : Type 0 where
  pub id : ℕ
  pub run_id : ℕ
  pub relationship_type : MatchRelationshipType
  pub status : MatchGroupStatus
  pub currency_code : ℕ
  pub fx_source_currency_code : Option ℕ
  pub fx_target_currency_code : Option ℕ

pub record MatchGroupMember : Type 0 where
  pub match_group_id : ℕ
  pub bank_id : Option ℕ
  pub treasury_id : Option ℕ

-- `.value` of the status of a suggestion or of a group
pub data ProposalStatus : Type 0 where
  pending ambiguous accepted rejected superseded : ProposalStatus

pub record MatchDecision : Type 0 where
  pub id : ℕ
  pub run_id : ℕ
  pub legal_entity_id : ℕ
  pub kind : MatchProposalKind
  pub suggestion_id : Option ℕ
  pub group_id : Option ℕ
  pub decision : MatchDecisionType
  pub previous_status : ProposalStatus
  pub new_status : ProposalStatus
  pub reason : Option Text
  pub decided_by : ℕ

pub record AcceptedClaim : Type 0 where
  pub decision_id : ℕ
  pub legal_entity_id : ℕ
  pub claim_kind : AcceptedClaimKind
  pub bank_id : Option ℕ
  pub treasury_id : Option ℕ

-- `source_key`, the text "<category>:<bank id or ->:<ledger id or ->"
pub record SourceKey : Type 0 where
  pub category : OpenItemCategory
  pub bank_id : Option ℕ
  pub treasury_id : Option ℕ

-- How an item is described; the numbers are those that the text shows.
pub data Description : Type 0 where
  competing_groups : Description
  tied_candidates : ℕ → Description
  variance_of : ℕ → ℕ → ℕ → ℕ → Description
  dates_differ : ℕ → Description
  weak_evidence : Description
  no_ledger_match : Option (Option Text) → Description
  no_bank_match : Option (Option Text) → Description

pub data ItemReason : Type 0 where
  ambiguous_group tied_top review_tier proposal_rejected below_threshold unclaimed : ItemReason
  engine_reason : SuggestionReason → ItemReason

pub record OpenItem : Type 0 where
  pub id : ℕ
  pub run_id : ℕ
  pub legal_entity_id : ℕ
  pub bank_account_id : ℕ
  pub source_key : SourceKey
  pub status : OpenItemStatus
  pub amount : ℕ
  pub currency_code : ℕ
  pub description : Description
  pub reason : ItemReason
  pub item_date : ℕ
  pub priority : OpenItemPriority
  pub due_date : Option ℕ
  pub assigned_to : Option ℕ
  pub assigned_by : Option ℕ
  pub assigned_at : Option ℕ
  pub resolved_at : Option ℕ
  pub resolved_by : Option ℕ
  pub resolution_reason : Option Text
  pub closed_at : Option ℕ
  pub closed_by : Option ℕ
  pub rejected_at : Option ℕ
  pub rejection_reason : Option Text

pub record ItemEvent : Type 0 where
  pub open_item_id : ℕ
  pub legal_entity_id : ℕ
  pub event_type : OpenItemEventType
  pub actor_user_id : Option ℕ
  pub from_status : Option OpenItemStatus
  pub to_status : Option OpenItemStatus
  pub assignee_user_id : Option ℕ
  pub note : Option Text
  pub reference : Option Text
