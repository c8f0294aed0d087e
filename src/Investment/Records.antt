-- ===== src/Investment/Records.antt =====
-- The tables of investments (backend/app/models/investment.py), with the rows of the cash ledger that
-- they lead to. Texts that the code composes are constructors with their values.
use treasury_os_app.Base.{ℕ, Bool, Option, List, ℤ}
use treasury_os_app.Text.{Text}
use treasury_os_app.Dates.{Date}
use treasury_os_app.Reconciliation.Records.{CashDirection}
use treasury_os_app.Facility.Records.{DayCountConvention}
use treasury_os_app.Investment.Engine.{PenaltyType}
use treasury_os_app.Investment.Schedule.{InterestFrequency}

pub data InvestmentStatus : Type 0 where
  draft submitted under_review approved placement_pending active matured : InvestmentStatus
  partially_terminated terminated rolled_over rebooked cancelled rejected : InvestmentStatus

pub data InvestmentRateType : Type 0 where
  fixed variable negotiated custom : InvestmentRateType

pub data InterestPaymentMethod : Type 0 where
  at_maturity periodic upfront : InterestPaymentMethod

pub data InvestmentTransactionType : Type 0 where
  placement interest_accrual interest_receipt partial_termination : InvestmentTransactionType
  full_termination rollover rebooking penalty maturity_settlement : InvestmentTransactionType

pub data InvestmentTransactionStatus : Type 0 where
  draft submitted approved executed rejected cancelled : InvestmentTransactionStatus

pub data InvestmentEventType : Type 0 where
  investment_created submitted approved rejected placed terms_changed : InvestmentEventType
  interest_accrued interest_received partial_termination full_termination : InvestmentEventType
  matured rollover rebooked penalty_applied cancelled status_changed : InvestmentEventType

pub record Investment : Type 0 where
  pub id : ℕ
  pub investment_reference : Text
  pub investment_type_code : Text
  pub legal_entity_id : ℕ
  pub business_unit_id : Option ℕ
  pub institution_id : ℕ
  pub source_account_id : Option ℕ
  pub destination_account_id : Option ℕ
  pub currency_code : Text
  pub principal_amount : ℤ
  pub original_principal_amount : ℤ
  pub placement_date : Option Date
  pub value_date : Option Date
  pub start_date : Date
  pub maturity_date : Date
  pub tenor_days : ℤ
  pub interest_rate : ℤ
  pub rate_type : InvestmentRateType
  pub rate_source : Option Text
  pub day_count_convention : DayCountConvention
  pub interest_payment_method : InterestPaymentMethod
  pub interest_payment_frequency : Option InterestFrequency
  pub expected_interest : ℤ
  pub accrued_interest : ℤ
  pub received_interest : ℤ
  pub early_termination_allowed : Bool
  pub partial_termination_allowed : Bool
  pub rollover_allowed : Bool
  pub penalty_type : PenaltyType
  pub penalty_rate : Option ℤ
  pub penalty_amount : Option ℤ
  pub status : InvestmentStatus
  pub purpose : Option Text
  pub notes : Option Text
  pub version : ℕ
  pub previous_investment_id : Option ℕ
  pub rolled_to_investment_id : Option ℕ
  pub created_by_user_id : Option ℕ
  pub updated_by_user_id : Option ℕ
  pub approved_by_user_id : Option ℕ
  pub placed_by_user_id : Option ℕ

-- `_investment_terms_snapshot`
pub record InvestmentTerms : Type 0 where
  pub principal_amount : ℤ
  pub original_principal_amount : ℤ
  pub interest_rate : ℤ
  pub maturity_date : Date
  pub tenor_days : ℤ
  pub interest_payment_method : InterestPaymentMethod
  pub early_termination_allowed : Bool
  pub partial_termination_allowed : Bool
  pub rollover_allowed : Bool

pub data InvestmentText : Type 0 where
  plain_text : Text → InvestmentText
  placed_amount : ℤ → Text → InvestmentText
  now_active : InvestmentText
  deposit_placement : Text → InvestmentText
  maturity_of : Text → ℤ → ℤ → InvestmentText
  settled_parts : ℤ → ℤ → InvestmentText
  matured_parts : ℤ → ℤ → ℤ → InvestmentText
  additional_funding : Text → Text → InvestmentText
  created_investment : Text → InvestmentText
  rollover_into : Text → Text → InvestmentText
  rollover_from rolled_to : Text → InvestmentText
  rolled_amount : Bool → ℤ → Text → Text → InvestmentText

pub record InvestmentVersion : Type 0 where
  pub investment_id : ℕ
  pub version : ℕ
  pub effective_date : Date
  pub terms : InvestmentTerms
  pub change_reason : InvestmentText
  pub created_by_user_id : ℕ

pub record InvestmentTransaction : Type 0 where
  pub investment_id : ℕ
  pub legal_entity_id : ℕ
  pub cash_transaction_id : Option ℕ
  pub idempotency_key : Option Text
  pub transaction_type : InvestmentTransactionType
  pub currency_code : Text
  pub amount : ℤ
  pub transaction_date : Date
  pub status : InvestmentTransactionStatus
  pub description : Option InvestmentText
  pub related_investment_id : Option ℕ
  pub created_by_user_id : ℕ
  pub executed_by_user_id : ℕ

pub data InvestmentValue : Type 0 where
  terms_value : InvestmentTerms → InvestmentValue
  status_value : InvestmentStatus → InvestmentValue

-- What an event is about: the id of a transaction that is not saved yet is not known.
pub data RelatedInvestmentRecord : Type 0 where
  unsaved_transaction : RelatedInvestmentRecord
  related_investment : ℕ → RelatedInvestmentRecord

-- the columns of an event that the service sets
pub record InvestmentEvent : Type 0 where
  pub investment_id : ℕ
  pub event_type : InvestmentEventType
  pub event_date : ℕ
  pub description : InvestmentText
  pub amount : Option ℤ
  pub currency_code : Option Text
  pub previous_value : Option InvestmentValue
  pub new_value : Option InvestmentValue
  pub related : Option RelatedInvestmentRecord
  pub reference : Option Text
  pub created_by_user_id : ℕ

pub data CashEventType : Type 0 where
  investment_placement investment_maturity investment_rollover : CashEventType

-- A row of the cash ledger as `_create_cash_transaction` writes it.
pub record CashMovement : Type 0 where
  pub id : ℕ
  pub legal_entity_id : ℕ
  pub event_type_code : CashEventType
  pub direction : CashDirection
  pub value_date : Date
  pub currency_code : Text
  pub amount : ℤ
  pub bank_account_id : Option ℕ
  pub reference : Text
  pub narration : InvestmentText
  pub source_record_id : ℕ
  pub created_by_user_id : ℕ

pub record InvestmentStore : Type 0 where
  pub investments : List Investment
  pub versions : List InvestmentVersion
  pub transactions : List InvestmentTransaction
  pub events : List InvestmentEvent
  pub cash : List CashMovement
  pub next_id : ℕ
