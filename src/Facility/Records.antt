-- ===== src/Facility/Records.antt =====
-- The tables of credit facilities (backend/app/models/facility.py). Amounts are in cents, rates in
-- millionths of a percent, dates are ordinals, ids are numbers, currency codes are texts.
use treasury_os_app.Base.{ℕ, Bool, Option, ℤ}
use treasury_os_app.Text.{Text}

pub data CommitmentType : Type 0 where
  committed uncommitted : CommitmentType

pub data FacilityStatus : Type 0 where
  draft active suspended expired matured : FacilityStatus
  renewal_pending renewed closed cancelled : FacilityStatus

pub data InterestRateType : Type 0 where
  fixed variable benchmark_plus_spread custom : InterestRateType

pub data DayCountConvention : Type 0 where
  act_365 act_360 thirty_360 : DayCountConvention

pub data RepaymentMethod : Type 0 where
  equal_principal equal_installment interest_only bullet custom_schedule : RepaymentMethod

pub data DrawdownStatus : Type 0 where
  draft submitted under_review approved executed rejected cancelled : DrawdownStatus

pub data RepaymentStatus : Type 0 where
  scheduled due partially_paid paid overdue cancelled : RepaymentStatus

pub data RepaymentType : Type 0 where
  principal interest fee : RepaymentType

pub data FeeType : Type 0 where
  arrangement commitment processing renewal early_repayment other : FeeType

pub data FeeStatus : Type 0 where
  due paid waived cancelled : FeeStatus

pub data CovenantType : Type 0 where
  minimum_liquidity maximum_leverage debt_service_coverage interest_coverage : CovenantType
  current_ratio minimum_net_worth borrowing_base_availability custom : CovenantType

pub data CovenantOperator : Type 0 where
  greater_than_or_equal less_than_or_equal greater_than less_than equal : CovenantOperator

pub data CovenantStatus : Type 0 where
  compliant warning breach waived cured unknown data_required : CovenantStatus

pub data CollateralType : Type 0 where
  cash_collateral fixed_deposit receivables inventory : CollateralType
  property equipment guarantee other : CollateralType

pub data CollateralStatus : Type 0 where
  active released expired : CollateralStatus

pub data FacilityEventType : Type 0 where
  facility_created facility_activated draw_down repayment early_repayment : FacilityEventType
  rate_changed limit_changed maturity_extended renewed refinanced fee_charged : FacilityEventType
  covenant_warning covenant_breach collateral_added collateral_released : FacilityEventType
  facility_suspended facility_closed status_changed : FacilityEventType

-- A row is active unless it was deleted softly; no endpoint here does so, and the flag stands only on
-- the sub-limits. The columns of an import's source are left out, of the other tables too.
pub record Facility : Type 0 where
  pub id : ℕ
  pub facility_reference : Text
  pub facility_name : Text
  pub facility_type_code : Text
  pub commitment_type : CommitmentType
  pub lender_id : ℕ
  pub legal_entity_id : ℕ
  pub currency_code : Text
  pub approved_limit : ℤ
  pub committed_limit : ℤ
  pub current_drawn_amount : ℤ
  pub covenant_restricted_amount : ℤ
  pub interest_rate_type : InterestRateType
  pub benchmark_rate : Option ℤ
  pub spread : Option ℤ
  pub fixed_rate : Option ℤ
  pub day_count_convention : DayCountConvention
  pub arrangement_fee : Option ℤ
  pub commitment_fee_rate : Option ℤ
  pub processing_fee : Option ℤ
  pub start_date : ℕ
  pub availability_start_date : Option ℕ
  pub availability_end_date : Option ℕ
  pub maturity_date : ℕ
  pub renewal_date : Option ℕ
  pub repayment_frequency : Option Text
  pub repayment_method : RepaymentMethod
  pub next_repayment_date : Option ℕ
  pub status : FacilityStatus
  pub purpose : Option Text
  pub security_type : Option Text
  pub collateral_description : Option Text
  pub notice_period_days : Option ℕ
  pub notes : Option Text
  pub version : ℕ
  pub refinanced_from_facility_id : Option ℕ
  pub created_by_user_id : Option ℕ
  pub updated_by_user_id : Option ℕ

-- `_facility_terms_snapshot`
pub record Terms : Type 0 where
  pub committed_limit : ℤ
  pub approved_limit : ℤ
  pub fixed_rate : Option ℤ
  pub benchmark_rate : Option ℤ
  pub spread : Option ℤ
  pub maturity_date : ℕ
  pub repayment_method : RepaymentMethod
  pub repayment_frequency : Option Text

pub record FacilityVersion : Type 0 where
  pub facility_id : ℕ
  pub version : ℕ
  pub effective_date : ℕ
  pub terms : Terms
  pub change_reason : Option Text
  pub created_by_user_id : Option ℕ

pub record FacilitySubLimit : Type 0 where
  pub id : ℕ
  pub facility_id : ℕ
  pub name : Text
  pub purpose_code : Option Text
  pub limit_amount : ℤ
  pub drawn_amount : ℤ
  pub is_active : Bool

pub record FacilityDrawdown : Type 0 where
  pub id : ℕ
  pub facility_id : ℕ
  pub legal_entity_id : ℕ
  pub sub_limit_id : Option ℕ
  pub currency_code : Text
  pub drawdown_amount : ℤ
  pub drawdown_date : ℕ
  pub value_date : Option ℕ
  pub maturity_date : Option ℕ
  pub interest_rate_applicable : Option ℤ
  pub purpose : Option Text
  pub reference : Option Text
  pub status : DrawdownStatus
  pub created_by_user_id : Option ℕ
  pub approved_by_user_id : Option ℕ
  pub executed_by_user_id : Option ℕ

pub record FacilityRepayment : Type 0 where
  pub id : ℕ
  pub facility_id : ℕ
  pub legal_entity_id : ℕ
  pub drawdown_id : Option ℕ
  pub currency_code : Text
  pub repayment_type : RepaymentType
  pub original_amount : ℤ
  pub paid_amount : ℤ
  pub due_date : ℕ
  pub actual_payment_date : Option ℕ
  pub status : RepaymentStatus
  pub is_early_repayment : Bool
  pub reference : Option Text
  pub created_by_user_id : Option ℕ

pub record FacilityFee : Type 0 where
  pub id : ℕ
  pub facility_id : ℕ
  pub legal_entity_id : ℕ
  pub fee_type : FeeType
  pub currency_code : Text
  pub amount : ℤ
  pub rate : Option ℤ
  pub calculation_basis : Option Text
  pub due_date : ℕ
  pub paid_date : Option ℕ
  pub status : FeeStatus

-- Amounts of a covenant are ratios or sums, in millionths.
pub record FacilityCovenant : Type 0 where
  pub id : ℕ
  pub facility_id : ℕ
  pub name : Text
  pub covenant_type : CovenantType
  pub description : Option Text
  pub threshold : Option ℤ
  pub operator : CovenantOperator
  pub measurement_frequency : Option Text
  pub measurement_date : Option ℕ
  pub current_value : Option ℤ
  pub headroom : Option ℤ
  pub status : CovenantStatus
  pub warning_threshold : Option ℤ
  pub breach_threshold : Option ℤ
  pub cure_period_days : Option ℕ
  pub notes : Option Text

-- The haircut is in thousandths of a percent.
pub record FacilityCollateral : Type 0 where
  pub id : ℕ
  pub facility_id : ℕ
  pub collateral_type : CollateralType
  pub description : Option Text
  pub value : ℤ
  pub currency_code : Text
  pub valuation_date : ℕ
  pub haircut_pct : ℤ
  pub expiry_date : Option ℕ
  pub document_reference : Option Text
  pub status : CollateralStatus

-- What an event says, and the row that it is related to.
pub data RelatedRecord : Type 0 where
  drawdown repayment fee covenant collateral : ℕ → RelatedRecord

pub data EventValue : Type 0 where
  terms_value : Terms → EventValue
  status_value : FacilityStatus → EventValue
  drawdown_value : ℤ → EventValue
  payment_value : ℤ → RepaymentStatus → EventValue
  covenant_value : CovenantStatus → EventValue

-- The descriptions are texts made of the values that stand here.
pub data EventText : Type 0 where
  given_text : Text → EventText
  created_text : Text → EventText
  status_text : FacilityStatus → FacilityStatus → EventText
  drawdown_text : ℤ → Text → EventText
  payment_text : RepaymentType → ℤ → Text → EventText
  fee_text : FeeType → ℤ → Text → EventText
  collateral_text : CollateralType → ℤ → Text → EventText
  covenant_text : Text → CovenantStatus → EventText

pub record FacilityEvent : Type 0 where
  pub facility_id : ℕ
  pub event_type : FacilityEventType
  pub event_date : ℕ
  pub description : EventText
  pub related : Option RelatedRecord
  pub previous_value : Option EventValue
  pub new_value : Option EventValue
  pub created_by_user_id : Option ℕ
