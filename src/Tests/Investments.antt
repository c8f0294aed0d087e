-- ===== src/Tests/Investments.antt =====
-- An investment that is placed, rebooked, rolled over in part and settled.
use treasury_os_app.Base.{ℕ, ◌≡◌, refl, true, none, some, List, [], ◌∷◌, map, pos, ◌+ℤ◌, ◌-ℤ◌, ◌*ℤ◌}
use treasury_os_app.Text.{codes}
use treasury_os_app.Dates.{Date, ordinal, days_in_month, first_months, is_leap}
use treasury_os_app.Facility.Records.{act_365}
use treasury_os_app.Investment.Engine.{no_penalty, calculate_simple_interest, days_between}
use treasury_os_app.Investment.Records.{
  InvestmentStatus, InvestmentRateType, at_maturity, Investment, CashMovement, InvestmentStore,
}
use treasury_os_app.Facility.Utilization.{round_ratio}
use treasury_os_app.Investment.Service.{
  record_investment_version, create_cash_transaction, apply_investment_update, changed_investment,
  recompute_expected_interest,
}
use treasury_os_app.Investment.Rollover.{rollover_investment, replacement, rolled_over_by}
use treasury_os_app.Investment.Settlement.{
  place_investment, settle_maturity, fund_additional, rebooking_changes, rebook_investment, place,
  settle, roll, rebook, InvestmentCall, call_all,
}
use treasury_os_app.Investment.CashLinks.{call_all-IsReconciled, rebook_investment_again}
use treasury_os_app.Investment.LedgerRows.{IsReconciled}

abbrev january : ℕ → Date
january d = record { year = 2026; month = 1; day = d }

abbrev deposit : Investment
deposit = record {
  id = 1;
  investment_reference = codes "FD-1";
  investment_type_code = codes "FIXED_DEPOSIT";
  legal_entity_id = 7;
  business_unit_id = none;
  institution_id = 3;
  source_account_id = some 9;
  destination_account_id = none;
  currency_code = codes "USD";
  principal_amount = pos 5_000_000;
  original_principal_amount = pos 5_000_000;
  placement_date = none;
  value_date = none;
  start_date = january 1;
  maturity_date = january 31;
  tenor_days = pos 30;
  interest_rate = pos 8_000_000;
  rate_type = InvestmentRateType.fixed;
  rate_source = none;
  day_count_convention = act_365;
  interest_payment_method = at_maturity;
  interest_payment_frequency = none;
  expected_interest = pos 32_877;
  accrued_interest = pos 0;
  received_interest = pos 0;
  early_termination_allowed = true;
  partial_termination_allowed = true;
  rollover_allowed = true;
  penalty_type = no_penalty;
  penalty_rate = none;
  penalty_amount = none;
  status = InvestmentStatus.placement_pending;
  purpose = none;
  notes = none;
  version = 1;
  previous_investment_id = none;
  rolled_to_investment_id = none;
  created_by_user_id = some 2;
  updated_by_user_id = none;
  approved_by_user_id = some 4;
  placed_by_user_id = none;
}

abbrev ledger : InvestmentStore
ledger = record {
  investments = deposit ∷ [];
  versions = [];
  transactions = [];
  events = [];
  cash = [];
  next_id = 20;
}

abbrev topped_up : InvestmentCall
topped_up = record {
  investment_id = 1;
  user_id = 4;
  today = january 10;
  now = 11;
  operation = rebook none none (pos 1_000_000) (codes "top-up") none (some (codes "k1"));
}

-- The placement is asked for twice, and so are the rebooking and the settlement.
abbrev deposit_life : List InvestmentCall
deposit_life =
    record { investment_id = 1; user_id = 4; today = january 1; now = 10; operation = place none }
    ∷ record {
      investment_id = 1;
      user_id = 4;
      today = january 2;
      now = 10;
      operation = place (some 8);
    }
    ∷ topped_up
    ∷ topped_up
    ∷ record {
      investment_id = 1;
      user_id = 4;
      today = january 20;
      now = 11;
      operation = roll (pos 2_000_000) (pos 9_000_000) (january 20) (january 31) (codes "FD-2");
    }
    ∷ record {
      investment_id = 1;
      user_id = 4;
      today = january 31;
      now = 12;
      operation = settle (january 31) none none;
    }
    ∷ record {
      investment_id = 1;
      user_id = 4;
      today = january 31;
      now = 13;
      operation = settle (january 31) none (some (pos 5));
    }
    ∷ []

cash_amounts :
    map (λ (m : CashMovement). m.amount) (call_all ledger deposit_life).cash
    ≡ pos 4_026_301 ∷ pos 2_000_000 ∷ pos 1_000_000 ∷ pos 5_000_000 ∷ []
unfolding call_all rollover_investment record_investment_version replacement rolled_over_by
    place_investment create_cash_transaction rebook_investment fund_additional
    apply_investment_update changed_investment settle_maturity ◌+ℤ◌ rebooking_changes
    recompute_expected_interest calculate_simple_interest round_ratio ◌*ℤ◌ days_between ◌-ℤ◌ ordinal
    days_in_month first_months is_leap
cash_amounts = refl

call_all-IsReconciled_example : IsReconciled (call_all ledger deposit_life)
call_all-IsReconciled_example = call_all-IsReconciled ledger deposit_life (tt, tt)

abbrev rebooked_once : InvestmentStore
rebooked_once =
    rebook_investment ledger deposit none (some (january 20)) (pos 0) (codes "shorter") 4 none
      (some (codes "k2")) (january 5) 14

rebook_investment_again_example :
    rebook_investment rebooked_once deposit
      (some (pos 1))
      none
      (pos 7)
      (codes "other")
      5
      (some 8)
      (some (codes "k2"))
      (january 6)
      15
    ≡ rebooked_once
rebook_investment_again_example =
    rebook_investment_again ledger deposit deposit none (some (pos 1)) (some (january 20)) none
      (pos 0) (pos 7) (codes "shorter") (codes "other") 4 5 none (some 8) (codes "k2") (january 5)
      (january 6) 14 15 refl
