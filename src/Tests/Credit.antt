-- ===== src/Tests/Credit.antt =====
-- The banker draws on a facility, pays back, and closes it.
use treasury_os_app.Base.{
  ℕ, All, length, ◌≡◌, refl, ◌↔◌, true, false, Option, none, some, List, [], ◌∷◌, ◌==◌, arith, ℤ,
  pos, ◌+ℤ◌, ◌-ℤ◌, ok, is_ok, inl, inr, Bool-cases,
}
use treasury_os_app.Text.{Text, codes}
use treasury_os_app.Auth.{
  TreasuryAction, TreasuryModule, Permission, User, entity, assert_entity_access, get_entity,
  get_authorized_scope, has_perm, same_module, same_action,
}
use treasury_os_app.Facility.Records.{
  CommitmentType, FacilityStatus, InterestRateType, DayCountConvention, RepaymentMethod,
  DrawdownStatus, RepaymentType, Facility, FacilitySubLimit, FacilityDrawdown,
}
use treasury_os_app.Facility.Utilization.{
  validate_drawdown, capacity_problems, calculate_utilization, sub_limit_problems,
  exceeds_sub_limit,
}
use treasury_os_app.Facility.Balances.{
  execute_drawdown, draw_sub_limit, record_repayment_payment, paid_repayment, repay_principal,
  free_sub_limit,
}
use treasury_os_app.Facility.Store.{FacilityStore, DrawdownCreate, RepaymentCreate}
use treasury_os_app.Facility.Endpoints.{check_access}
use treasury_os_app.Facility.Repayments.{pay_repayment, create_repayment, new_repayment}
use treasury_os_app.Facility.Drawdowns.{
  execute_drawdown_endpoint, approve_drawdown, create_drawdown, named_sub_limit, still_valid,
  new_drawdown,
}
use treasury_os_app.Facility.Session.{
  FacilityRequest, draw, approve_draw, execute_draw, plan_repayment, pay, FacilityCall, answer,
  answered_or, answer_all,
}
use treasury_os_app.Facility.Book.{book, facility_at, drawdown_at}
use treasury_os_app.Facility.Moves.{Move}
use treasury_os_app.Facility.Validation.{Drawable, validate_drawdown-Drawable}
use treasury_os_app.Facility.Refinement.{answer-Move}
use treasury_os_app.Facility.Conservation.{IsAccounted, CoversTotals, answer_all-IsAccounted}
use treasury_os_app.Facility.Limits.{answer_all-IsWithin}
use treasury_os_app.Facility.Within.{IsPlain, IsWithin}
use treasury_os_app.Facility.Final.{answer_all-executed}
use treasury_os_app.Facility.Lifecycle.{
  MayEnd, is_over, closing_path, closing_session, closing_session-ends,
}
use treasury_os_app.Funding.Actions.{
  FundingActionType, FundingActionStatus, FundingAction, FundingActionCreate,
  validate_funding_action, check_linked_transaction,
}
use treasury_os_app.Funding.Workflow.{
  FundingStep, FundingStore, FundingCall, FundingRequest, on_facility, advance, fund_all, propose,
  fund, transition_funding_action, create_funding_action, funding_allowed,
}
use treasury_os_app.Funding.Backed.{IsBacked, fund_all-IsBacked}
use treasury_os_app.Funding.Links.{HasUniqueLinks, fund_all-HasUniqueLinks}
use treasury_os_app.Tests.{entities}

abbrev for_facilities : TreasuryAction → Permission
for_facilities a = record { module_of = TreasuryModule.facilities; action_of = a }

abbrev banker : User
banker = record {
  id = 8;
  is_active = true;
  is_superuser = false;
  role_assignments =
      record {
        is_active = true;
        scope_type = entity;
        legal_entity_id = some 2;
        group_id = none;
        permissions =
            for_facilities TreasuryAction.create
            ∷ for_facilities TreasuryAction.approve
            ∷ for_facilities TreasuryAction.execute
            ∷ [];
      }
      ∷ [];
}

-- A committed facility of 1000.00 in dollars, of which 100.00 are restricted.
abbrev pub revolver : Facility
revolver = record {
  id = 10;
  facility_reference = codes "RCF-1";
  facility_name = codes "Revolver";
  facility_type_code = codes "RCF";
  commitment_type = CommitmentType.committed;
  lender_id = 4;
  legal_entity_id = 2;
  currency_code = codes "USD";
  approved_limit = pos 100_000;
  committed_limit = pos 100_000;
  current_drawn_amount = pos 0;
  covenant_restricted_amount = pos 10_000;
  interest_rate_type = InterestRateType.fixed;
  benchmark_rate = none;
  spread = none;
  fixed_rate = some (pos 5_000_000);
  day_count_convention = DayCountConvention.act_365;
  arrangement_fee = none;
  commitment_fee_rate = none;
  processing_fee = none;
  start_date = 100;
  availability_start_date = some 110;
  availability_end_date = none;
  maturity_date = 400;
  renewal_date = none;
  repayment_frequency = none;
  repayment_method = RepaymentMethod.bullet;
  next_repayment_date = none;
  status = FacilityStatus.active;
  purpose = none;
  security_type = none;
  collateral_description = none;
  notice_period_days = none;
  notes = none;
  version = 1;
  refinanced_from_facility_id = none;
  created_by_user_id = none;
  updated_by_user_id = none;
}

abbrev working_capital_limit : FacilitySubLimit
working_capital_limit = record {
  id = 11;
  facility_id = 10;
  name = codes "Working capital";
  purpose_code = none;
  limit_amount = pos 50_000;
  drawn_amount = pos 0;
  is_active = true;
}

abbrev credit : FacilityStore
credit = record {
  entities = entities;
  facilities = revolver ∷ [];
  versions = [];
  sub_limits = working_capital_limit ∷ [];
  drawdowns = [];
  repayments = [];
  fees = [];
  covenants = [];
  collateral = [];
  events = [];
  audits = [];
  next_id = 12;
}

abbrev as_is : Text → Text
as_is s = s

abbrev wanted : DrawdownCreate
wanted = record {
  legal_entity_id = 2;
  sub_limit_id = some 11;
  currency_code = codes "USD";
  drawdown_amount = pos 40_000;
  drawdown_date = 200;
  value_date = none;
  maturity_date = none;
  purpose = none;
  reference = none;
}

abbrev planned : RepaymentCreate
planned = record {
  legal_entity_id = 2;
  drawdown_id = some 12;
  currency_code = codes "USD";
  repayment_type = RepaymentType.principal;
  original_amount = pos 40_000;
  due_date = 300;
  is_early_repayment = false;
  reference = none;
}

abbrev asks : FacilityRequest → FacilityCall
asks r = record { user = banker; today = 200; now = 7; request = r }

abbrev plan : List FacilityCall
plan =
    asks (draw 10 wanted)
    ∷ asks (approve_draw 12)
    ∷ asks (execute_draw 12)
    ∷ asks (execute_draw 12)
    ∷ asks (plan_repayment 10 planned)
    ∷ asks (pay 13 (pos 15_000) 250)
    ∷ []

-- the amount drawn after the plan
abbrev drawn_of : Option Facility → ℤ
drawn_of none = pos 0
drawn_of (some f) = f.current_drawn_amount

plan_draws : drawn_of (facility_at 10 (book (answer_all as_is credit plan))) ≡ pos 25_000
unfolding answer_all answer pay_repayment create_repayment execute_drawdown_endpoint
    approve_drawdown create_drawdown check_access assert_entity_access get_entity
    get_authorized_scope has_perm same_module same_action named_sub_limit validate_drawdown
    capacity_problems calculate_utilization sub_limit_problems still_valid execute_drawdown
    draw_sub_limit record_repayment_payment paid_repayment repay_principal free_sub_limit
    new_drawdown new_repayment ◌+ℤ◌ ◌-ℤ◌
plan_draws = refl

validate_drawdown-Drawable_example :
    (validate_drawdown as_is revolver (pos 40_000) (codes "USD") 200 (some working_capital_limit)
      ≡ [])
    ↔ Drawable as_is revolver (pos 40_000) (codes "USD") 200 (some working_capital_limit)
validate_drawdown-Drawable_example =
    validate_drawdown-Drawable as_is revolver (pos 40_000) (codes "USD") 200
      (some working_capital_limit)

-- Too much for the sub-limit.
over_sub_limit :
    validate_drawdown as_is revolver (pos 60_000) (codes "USD") 200 (some working_capital_limit)
    ≡ exceeds_sub_limit (pos 60_000) (pos 50_000) ∷ []
unfolding validate_drawdown capacity_problems calculate_utilization sub_limit_problems ◌-ℤ◌
over_sub_limit = refl

covers_at_start : (k : ℕ) → CoversTotals k (book credit) (facility_at k (book credit))
unfolding ◌+ℤ◌
covers_at_start k = elim (Bool-cases (10 == k)) [ inl e ↦ rw e (omega arith) | inr e ↦ rw e tt ]

starts-IsAccounted : IsAccounted (book credit)
starts-IsAccounted = (((omega arith, tt), tt, tt), covers_at_start)

answer_all-IsAccounted_example : IsAccounted (book (answer_all as_is credit plan))
answer_all-IsAccounted_example = answer_all-IsAccounted as_is credit plan starts-IsAccounted

plan-IsPlain : All (λ (c : FacilityCall). IsPlain c.request) plan
plan-IsPlain = (omega arith, (tt, (tt, (tt, (omega arith, (omega arith, tt))))))

starts-IsWithin : IsWithin (book credit)
starts-IsWithin =
    (((omega arith, omega arith, omega arith), tt), ((omega arith, omega arith), tt), tt, tt)

answer_all-IsWithin_example : IsWithin (book (answer_all as_is credit plan))
answer_all-IsWithin_example = answer_all-IsWithin as_is credit plan plan-IsPlain starts-IsWithin

abbrev drawn : FacilityDrawdown
drawn = record {
  id = 5;
  facility_id = 10;
  legal_entity_id = 2;
  sub_limit_id = none;
  currency_code = codes "USD";
  drawdown_amount = pos 40_000;
  drawdown_date = 150;
  value_date = none;
  maturity_date = none;
  interest_rate_applicable = none;
  purpose = none;
  reference = none;
  status = DrawdownStatus.executed;
  created_by_user_id = none;
  approved_by_user_id = none;
  executed_by_user_id = none;
}

abbrev drawn_credit : FacilityStore
drawn_credit = record credit { drawdowns = drawn ∷ [] }

answer_all-executed_example :
    (drawdown_at 5 (book (answer_all as_is drawn_credit (asks (execute_draw 5) ∷ plan)))
      ≡ some drawn)
    × (is_ok (
          execute_drawdown_endpoint as_is
            (answer_all as_is drawn_credit (asks (execute_draw 5) ∷ plan))
            banker
            5
            9)
        ≡ false)
answer_all-executed_example =
    answer_all-executed as_is drawn_credit (asks (execute_draw 5) ∷ plan) 5 drawn banker 9
      (refl, refl)

drawn_ok :
    answer as_is credit banker 200 7 (draw 10 wanted)
    ≡ ok (answered_or credit (answer as_is credit banker 200 7 (draw 10 wanted)))
unfolding answer create_drawdown check_access assert_entity_access get_entity get_authorized_scope
    has_perm same_module same_action named_sub_limit validate_drawdown capacity_problems
    calculate_utilization sub_limit_problems ◌-ℤ◌
drawn_ok = refl

answer-Move_example :
    Move
      (draw 10 wanted)
      (book credit)
      (book (answered_or credit (answer as_is credit banker 200 7 (draw 10 wanted))))
answer-Move_example =
    answer-Move as_is credit banker 200 7 (draw 10 wanted)
      (answered_or credit (answer as_is credit banker 200 7 (draw 10 wanted))) drawn_ok

may_approve : is_ok (check_access credit banker TreasuryAction.approve 2) ≡ true
unfolding check_access assert_entity_access get_entity get_authorized_scope has_perm same_module
    same_action
may_approve = refl

closing_session-ends_example :
    (final : FacilityStatus) × (is_over final ≡ true)
    × MayEnd banker 10 final
        (answer_all as_is credit (closing_session banker 10 7 (closing_path FacilityStatus.active)))
closing_session-ends_example =
    closing_session-ends as_is banker 10 7 FacilityStatus.active credit
      (revolver, refl, refl, may_approve)

-- An approved action that waits for the executed drawdown.
abbrev waiting : FundingAction
waiting = record {
  id = 6;
  action_type = FundingActionType.propose_drawdown;
  facility_id = some 10;
  linked_drawdown_id = some 5;
  linked_repayment_id = none;
  legal_entity_id = 2;
  currency_code = none;
  amount = none;
  proposed_date = none;
  status = FundingActionStatus.approved;
  rationale = none;
  created_by_user_id = none;
  approved_by_user_id = none;
  executed_by_user_id = none;
}

abbrev funding : FundingStore
funding = record { facility = drawn_credit; actions = waiting ∷ []; audits = [] }

abbrev orders : FundingRequest → FundingCall
orders r = record { user = banker; today = 200; now = 7; request = r }

abbrev second_action : FundingActionCreate
second_action = record {
  action_type = FundingActionType.propose_drawdown;
  facility_id = some 10;
  linked_drawdown_id = some 5;
  linked_repayment_id = none;
  legal_entity_id = 2;
  currency_code = none;
  amount = none;
  proposed_date = none;
  rationale = none;
}

abbrev funding_plan : List FundingCall
funding_plan =
    orders (advance 6 FundingStep.execute)
    ∷ orders (propose second_action)
    ∷ orders (on_facility (draw 10 wanted))
    ∷ []

fund_all-IsBacked_example : IsBacked (fund_all as_is funding funding_plan)
fund_all-IsBacked_example = fund_all-IsBacked as_is funding funding_plan (refl, tt)

one_link : HasUniqueLinks funding.actions
one_link k = elim (Bool-cases (5 == k)) [
  | inl e ↦ rw e (omega arith, omega arith)
  | inr e ↦ rw e (omega arith, omega arith)
]

fund_all-HasUniqueLinks_example : HasUniqueLinks (fund_all as_is funding funding_plan).actions
fund_all-HasUniqueLinks_example = fund_all-HasUniqueLinks as_is funding funding_plan one_link

-- The second action for the drawdown is refused.
one_action : length (fund_all as_is funding funding_plan).actions ≡ 1
unfolding fund_all fund transition_funding_action create_funding_action validate_funding_action
    answer create_drawdown check_access assert_entity_access get_entity get_authorized_scope
    has_perm same_module same_action funding_allowed check_linked_transaction named_sub_limit
    validate_drawdown capacity_problems calculate_utilization ◌-ℤ◌ sub_limit_problems
one_action = refl
