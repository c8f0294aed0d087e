-- ===== src/Facility/Store.antt =====
-- The tables of the facilities and their audit rows, with the payloads of the requests
-- (backend/app/schemas/facility.py). New rows go to the end, but the two logs are listed newest
-- first. A fresh UUID is the number `next_id`.
use treasury_os_app.Base.{ℕ, Bool, Option, List, ◌∷◌, ℤ, get_row, put_row}
use treasury_os_app.Text.{Text}
use treasury_os_app.Auth.{LegalEntity}
use treasury_os_app.Facility.Records.{
  CommitmentType, InterestRateType, DayCountConvention, RepaymentMethod, RepaymentType, FeeType,
  CovenantType, CollateralType, CovenantOperator, FacilityStatus, CovenantStatus, Facility,
  FacilityVersion, FacilitySubLimit, FacilityDrawdown, FacilityRepayment, FacilityFee,
  FacilityCovenant, FacilityCollateral, FacilityEvent,
}

pub record FacilityCreate : Type 0 where
  pub facility_reference : Text
  pub facility_name : Text
  pub facility_type_code : Text
  pub commitment_type : CommitmentType
  pub lender_id : ℕ
  pub legal_entity_id : ℕ
  pub currency_code : Text
  pub approved_limit : ℤ
  pub committed_limit : ℤ
  pub interest_rate_type : InterestRateType
  pub benchmark_rate : Option ℤ
  pub spread : Option ℤ
  pub fixed_rate : Option ℤ
  pub day_count_convention : DayCountConvention
  pub arrangement_fee : Option ℤ
  pub commitment_fee_rate : Option ℤ
  pub processing_fee : Option ℤ
  pub start_date : ℕ
  pub availability_start_date : Option ℕ
  pub availability_end_date : Option ℕ
  pub maturity_date : ℕ
  pub renewal_date : Option ℕ
  pub repayment_frequency : Option Text
  pub repayment_method : RepaymentMethod
  pub next_repayment_date : Option ℕ
  pub purpose : Option Text
  pub security_type : Option Text
  pub collateral_description : Option Text
  pub notice_period_days : Option ℕ
  pub notes : Option Text

-- `FacilityUpdate` without its reason
pub record FacilityChanges : Type 0 where
  pub committed_limit : Option ℤ
  pub fixed_rate : Option ℤ
  pub benchmark_rate : Option ℤ
  pub spread : Option ℤ
  pub maturity_date : Option ℕ
  pub repayment_method : Option RepaymentMethod
  pub repayment_frequency : Option Text

pub record SubLimitCreate : Type 0 where
  pub name : Text
  pub purpose_code : Option Text
  pub limit_amount : ℤ

pub record DrawdownCreate : Type 0 where
  pub legal_entity_id : ℕ
  pub sub_limit_id : Option ℕ
  pub currency_code : Text
  pub drawdown_amount : ℤ
  pub drawdown_date : ℕ
  pub value_date : Option ℕ
  pub maturity_date : Option ℕ
  pub purpose : Option Text
  pub reference : Option Text

pub record RepaymentCreate : Type 0 where
  pub legal_entity_id : ℕ
  pub drawdown_id : Option ℕ
  pub currency_code : Text
  pub repayment_type : RepaymentType
  pub original_amount : ℤ
  pub due_date : ℕ
  pub is_early_repayment : Bool
  pub reference : Option Text

pub record FeeCreate : Type 0 where
  pub legal_entity_id : ℕ
  pub fee_type : FeeType
  pub currency_code : Text
  pub amount : ℤ
  pub rate : Option ℤ
  pub calculation_basis : Option Text
  pub due_date : ℕ

pub record CovenantCreate : Type 0 where
  pub name : Text
  pub covenant_type : CovenantType
  pub description : Option Text
  pub threshold : Option ℤ
  pub operator : CovenantOperator
  pub measurement_frequency : Option Text
  pub warning_threshold : Option ℤ
  pub breach_threshold : Option ℤ
  pub cure_period_days : Option ℕ
  pub notes : Option Text

pub record CollateralCreate : Type 0 where
  pub collateral_type : CollateralType
  pub description : Option Text
  pub value : ℤ
  pub currency_code : Text
  pub valuation_date : ℕ
  pub haircut_pct : ℤ
  pub expiry_date : Option ℕ
  pub document_reference : Option Text

-- What an audit row says, with the row that it is about.
pub data FacilityAuditEntry : Type 0 where
  create : ℕ → FacilityCreate → FacilityAuditEntry
  update : ℕ → Text → ℤ → FacilityChanges → FacilityAuditEntry
  status_change : ℕ → Option Text → FacilityStatus → FacilityStatus → FacilityAuditEntry
  sub_limit_create : ℕ → SubLimitCreate → FacilityAuditEntry
  drawdown_create : ℕ → DrawdownCreate → FacilityAuditEntry
  drawdown_approve : ℕ → FacilityAuditEntry
  drawdown_execute : ℕ → ℤ → FacilityAuditEntry
  repayment_create : ℕ → RepaymentCreate → FacilityAuditEntry
  repayment_paid : ℕ → ℤ → FacilityAuditEntry
  fee_create : ℕ → FeeCreate → FacilityAuditEntry
  covenant_create : ℕ → CovenantCreate → FacilityAuditEntry
  collateral_create : ℕ → CollateralCreate → FacilityAuditEntry
  covenant_update : ℕ → CovenantStatus → CovenantStatus → FacilityAuditEntry

pub record FacilityAudit : Type 0 where
  pub entry : FacilityAuditEntry
  pub user_id : ℕ
  pub legal_entity_id : ℕ

pub record FacilityStore : Type 0 where
  pub entities : List LegalEntity
  pub facilities : List Facility
  pub versions : List FacilityVersion
  pub sub_limits : List FacilitySubLimit
  pub drawdowns : List FacilityDrawdown
  pub repayments : List FacilityRepayment
  pub fees : List FacilityFee
  pub covenants : List FacilityCovenant
  pub collateral : List FacilityCollateral
  pub events : List FacilityEvent
  pub audits : List FacilityAudit
  pub next_id : ℕ

-- `db.get`, `SELECT … FOR UPDATE`, and the write of a changed row
abbrev pub get_facility : ℕ → FacilityStore → Option Facility
get_facility k s = get_row (λ (f : Facility). f.id) k s.facilities

abbrev pub put_facility : Facility → FacilityStore → FacilityStore
put_facility f s = record s { facilities = put_row (λ (x : Facility). x.id) f s.facilities }

abbrev pub get_sub_limit : ℕ → FacilityStore → Option FacilitySubLimit
get_sub_limit k s = get_row (λ (l : FacilitySubLimit). l.id) k s.sub_limits

abbrev pub put_sub_limit : FacilitySubLimit → FacilityStore → FacilityStore
put_sub_limit l s = record s {
  sub_limits = put_row (λ (x : FacilitySubLimit). x.id) l s.sub_limits;
}

abbrev pub get_drawdown : ℕ → FacilityStore → Option FacilityDrawdown
get_drawdown k s = get_row (λ (d : FacilityDrawdown). d.id) k s.drawdowns

abbrev pub put_drawdown : FacilityDrawdown → FacilityStore → FacilityStore
put_drawdown d s = record s { drawdowns = put_row (λ (x : FacilityDrawdown). x.id) d s.drawdowns }

abbrev pub get_repayment : ℕ → FacilityStore → Option FacilityRepayment
get_repayment k s = get_row (λ (r : FacilityRepayment). r.id) k s.repayments

abbrev pub put_repayment : FacilityRepayment → FacilityStore → FacilityStore
put_repayment r s = record s {
  repayments = put_row (λ (x : FacilityRepayment). x.id) r s.repayments;
}

abbrev pub get_covenant : ℕ → FacilityStore → Option FacilityCovenant
get_covenant k s = get_row (λ (c : FacilityCovenant). c.id) k s.covenants

abbrev pub put_covenant : FacilityCovenant → FacilityStore → FacilityStore
put_covenant c s = record s { covenants = put_row (λ (x : FacilityCovenant). x.id) c s.covenants }

abbrev pub add_event : FacilityEvent → FacilityStore → FacilityStore
add_event e s = record s { events = e ∷ s.events }

-- `record_audit_event`
abbrev pub facility_audit : ℕ → ℕ → FacilityAuditEntry → FacilityStore → FacilityStore
facility_audit user_id entity e s = record s {
  audits = record { entry = e; user_id = user_id; legal_entity_id = entity } ∷ s.audits;
}
