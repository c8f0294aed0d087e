-- ===== src/Investment/Rollover.antt =====
-- The rollover of an investment into a new one (backend/app/services/investment_service.py:
-- `rollover_investment`).
use treasury_os_app.Base.{
  ℕ, ◌+◌, none, some, [], ◌∷◌, ◌++◌, if◌then◌else◌, ℤ, pos, ◌-ℤ◌, leb_ℤ, max_zero,
}
use treasury_os_app.Text.{Text}
use treasury_os_app.Dates.{Date, ordinal}
use treasury_os_app.Reconciliation.Records.{non_cash}
use treasury_os_app.Investment.Records.{
  InvestmentStatus, placement, rollover, InvestmentEventType, Investment, rollover_into,
  rollover_from, rolled_to, rolled_amount, InvestmentTransaction, related_investment,
  investment_rollover, InvestmentStore,
}
use treasury_os_app.Investment.Service.{
  put_investment, add_investment_event, add_transaction, recompute_expected_interest,
  create_cash_transaction, linked_transaction, record_investment_version,
}

-- The investment that takes over; what the code does not set has its default.
unfoldable pub replacement : ℕ → Investment → ℤ → ℤ → Date → Date → Text → ℕ → Investment
replacement k i amount rate start maturity reference user_id = record {
  id = k;
  investment_reference = reference;
  investment_type_code = i.investment_type_code;
  legal_entity_id = i.legal_entity_id;
  business_unit_id = i.business_unit_id;
  institution_id = i.institution_id;
  source_account_id = i.source_account_id;
  destination_account_id = i.destination_account_id;
  currency_code = i.currency_code;
  principal_amount = amount;
  original_principal_amount = amount;
  placement_date = some start;
  value_date = some start;
  start_date = start;
  maturity_date = maturity;
  tenor_days = pos (ordinal maturity) -ℤ pos (ordinal start);
  interest_rate = rate;
  rate_type = i.rate_type;
  rate_source = none;
  day_count_convention = i.day_count_convention;
  interest_payment_method = i.interest_payment_method;
  interest_payment_frequency = i.interest_payment_frequency;
  expected_interest = pos 0;
  accrued_interest = pos 0;
  received_interest = pos 0;
  early_termination_allowed = i.early_termination_allowed;
  partial_termination_allowed = i.partial_termination_allowed;
  rollover_allowed = i.rollover_allowed;
  penalty_type = i.penalty_type;
  penalty_rate = i.penalty_rate;
  penalty_amount = i.penalty_amount;
  status = InvestmentStatus.active;
  purpose = none;
  notes = none;
  version = 1;
  previous_investment_id = some i.id;
  rolled_to_investment_id = none;
  created_by_user_id = some user_id;
  updated_by_user_id = none;
  approved_by_user_id = some user_id;
  placed_by_user_id = some user_id;
}

-- the original after the rollover
unfoldable pub rolled_over_by : Investment → ℤ → ℕ → Investment
rolled_over_by i amount k =
    let rest = record i {
      rolled_to_investment_id = some k;
      principal_amount = max_zero (i.principal_amount -ℤ amount);
      status =
          if leb_ℤ i.principal_amount amount
          then InvestmentStatus.rolled_over
          else InvestmentStatus.partially_terminated;
    } in
    record rest { expected_interest = recompute_expected_interest rest }

-- the two transactions that share the row of the ledger
abbrev pub placed_by_rollover : Investment → Investment → ℤ → Date → ℕ → ℕ → InvestmentTransaction
placed_by_rollover new i amount date user_id cash_id =
    record (linked_transaction new placement amount date user_id cash_id
      (some (rollover_from i.investment_reference)) none) { related_investment_id = some i.id }

abbrev pub rolled_out : Investment → Investment → ℤ → Date → ℕ → ℕ → InvestmentTransaction
rolled_out new i amount date user_id cash_id =
    record (linked_transaction i rollover amount date user_id cash_id
      (some (rolled_to new.investment_reference)) none) { related_investment_id = some new.id }

unfoldable pub rollover_investment :
    InvestmentStore → Investment → ℤ → ℤ → Date → Date → Text → ℕ → ℕ → InvestmentStore
rollover_investment s i amount rate start maturity reference user_id now =
    let paid =
      create_cash_transaction s i non_cash investment_rollover amount start i.source_account_id
        user_id reference (rollover_into i.investment_reference reference) in
    let new = replacement (s.next_id + 1) i amount rate start maturity reference user_id in
    let added = record paid {
      investments = paid.investments ++ new ∷ [];
      next_id = s.next_id + 1 + 1;
    } in
    add_investment_event
      (record {
        investment_id = i.id;
        event_type = InvestmentEventType.rollover;
        event_date = now;
        description =
            rolled_amount (leb_ℤ i.principal_amount amount) amount i.currency_code reference;
        amount = some amount;
        currency_code = some i.currency_code;
        previous_value = none;
        new_value = none;
        related = some (related_investment new.id);
        reference = none;
        created_by_user_id = user_id;
      })
      (add_transaction (rolled_out new i amount start user_id s.next_id) (
        put_investment (rolled_over_by i amount new.id) (
          add_transaction (placed_by_rollover new i amount start user_id s.next_id)
            (record_investment_version added new now user_id))))
