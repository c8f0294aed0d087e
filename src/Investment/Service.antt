-- ===== src/Investment/Service.antt =====
-- The parts of the life of an investment that its operations share: versions, updates of the terms,
-- rows of the cash ledger (backend/app/services/investment_service.py).
use treasury_os_app.Base.{ℕ, ◌+◌, Option, none, some, ◌∷◌, ℤ, put_row}
use treasury_os_app.Text.{Text}
use treasury_os_app.Dates.{Date}
use treasury_os_app.Investment.Engine.{calculate_simple_interest}
use treasury_os_app.Reconciliation.Records.{CashDirection}
use treasury_os_app.Text.{codes}
use treasury_os_app.Investment.Records.{
  created_investment, InvestmentTransactionType, InvestmentTransactionStatus, InvestmentEventType,
  Investment, InvestmentTerms, InvestmentText, plain_text, InvestmentVersion, InvestmentTransaction,
  terms_value, InvestmentEvent, CashEventType, CashMovement, InvestmentStore,
}

-- `a or b`
abbrev pub or_else {ℓ} : {A : Type ℓ} → Option A → Option A → Option A
or_else none b = b
or_else (some a) b = some a

-- The value, or the default for None.
abbrev pub or_default {ℓ} : {A : Type ℓ} → Option A → A → A
or_default none d = d
or_default (some a) d = a

abbrev pub put_investment : Investment → InvestmentStore → InvestmentStore
put_investment i s = record s { investments = put_row (λ (x : Investment). x.id) i s.investments }

abbrev pub add_investment_event : InvestmentEvent → InvestmentStore → InvestmentStore
add_investment_event e s = record s { events = e ∷ s.events }

abbrev pub add_transaction : InvestmentTransaction → InvestmentStore → InvestmentStore
add_transaction t s = record s { transactions = t ∷ s.transactions }

abbrev pub investment_terms_snapshot : Investment → InvestmentTerms
investment_terms_snapshot i = record {
  principal_amount = i.principal_amount;
  original_principal_amount = i.original_principal_amount;
  interest_rate = i.interest_rate;
  maturity_date = i.maturity_date;
  tenor_days = i.tenor_days;
  interest_payment_method = i.interest_payment_method;
  early_termination_allowed = i.early_termination_allowed;
  partial_termination_allowed = i.partial_termination_allowed;
  rollover_allowed = i.rollover_allowed;
}

unfoldable pub recompute_expected_interest : Investment → ℤ
recompute_expected_interest i =
    calculate_simple_interest i.principal_amount i.interest_rate i.start_date i.maturity_date
      i.day_count_convention

-- Its id is the next one; the caller links to it.
unfoldable pub create_cash_transaction :
    InvestmentStore
    → Investment
    → CashDirection
    → CashEventType
    → ℤ
    → Date
    → Option ℕ
    → ℕ
    → Text
    → InvestmentText
    → InvestmentStore
create_cash_transaction s i direction type amount date account user_id reference narration =
    let m : CashMovement = record {
      id = s.next_id;
      legal_entity_id = i.legal_entity_id;
      event_type_code = type;
      direction = direction;
      value_date = date;
      currency_code = i.currency_code;
      amount = amount;
      bank_account_id = account;
      reference = reference;
      narration = narration;
      source_record_id = i.id;
      created_by_user_id = user_id;
    } in
    record s { cash = m ∷ s.cash; next_id = s.next_id + 1 }

-- an executed transaction of the investment, linked to a row of the ledger
abbrev pub linked_transaction :
    Investment
    → InvestmentTransactionType
    → ℤ
    → Date
    → ℕ
    → ℕ
    → Option InvestmentText
    → Option Text
    → InvestmentTransaction
linked_transaction i type amount date user_id cash_id description key = record {
  investment_id = i.id;
  legal_entity_id = i.legal_entity_id;
  cash_transaction_id = some cash_id;
  idempotency_key = key;
  transaction_type = type;
  currency_code = i.currency_code;
  amount = amount;
  transaction_date = date;
  status = InvestmentTransactionStatus.executed;
  description = description;
  related_investment_id = none;
  created_by_user_id = user_id;
  executed_by_user_id = user_id;
}

unfoldable pub record_investment_version : InvestmentStore → Investment → ℕ → ℕ → InvestmentStore
record_investment_version s i now user_id =
    let v : InvestmentVersion = record {
      investment_id = i.id;
      version = 1;
      effective_date = i.start_date;
      terms = investment_terms_snapshot i;
      change_reason = plain_text (codes "Initial investment creation");
      created_by_user_id = user_id;
    } in
    add_investment_event
      (record {
        investment_id = i.id;
        event_type = InvestmentEventType.investment_created;
        event_date = now;
        description = created_investment i.investment_reference;
        amount = none;
        currency_code = none;
        previous_value = none;
        new_value = some (terms_value (investment_terms_snapshot i));
        related = none;
        reference = none;
        created_by_user_id = user_id;
      })
      (record s { versions = v ∷ s.versions })

-- The fields that the two callers of `apply_investment_update` change.
pub record InvestmentChanges : Type 0 where
  pub interest_rate : Option ℤ
  pub maturity_date : Option Date
  pub tenor_days : Option ℤ
  pub principal_amount : Option ℤ
  pub original_principal_amount : Option ℤ

unfoldable pub changed_investment : Investment → InvestmentChanges → ℕ → Investment
changed_investment i c user_id =
    let changed = record i {
      interest_rate = or_default c.interest_rate i.interest_rate;
      maturity_date = or_default c.maturity_date i.maturity_date;
      tenor_days = or_default c.tenor_days i.tenor_days;
      principal_amount = or_default c.principal_amount i.principal_amount;
      original_principal_amount =
          or_default c.original_principal_amount i.original_principal_amount;
      version = i.version + 1;
      updated_by_user_id = some user_id;
    } in
    record changed { expected_interest = recompute_expected_interest changed }

unfoldable pub apply_investment_update :
    InvestmentStore → Investment → InvestmentChanges → Text → Date → ℕ → ℕ → InvestmentStore
apply_investment_update s i c reason today now user_id =
    let new = changed_investment i c user_id in
    let v : InvestmentVersion = record {
      investment_id = i.id;
      version = new.version;
      effective_date = today;
      terms = investment_terms_snapshot new;
      change_reason = plain_text reason;
      created_by_user_id = user_id;
    } in
    let t = put_investment new s in
    add_investment_event
      (record {
        investment_id = i.id;
        event_type = InvestmentEventType.terms_changed;
        event_date = now;
        description = plain_text reason;
        amount = none;
        currency_code = none;
        previous_value = some (terms_value (investment_terms_snapshot i));
        new_value = some (terms_value (investment_terms_snapshot new));
        related = none;
        reference = none;
        created_by_user_id = user_id;
      })
      (record t { versions = v ∷ t.versions })
