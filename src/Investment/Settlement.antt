-- ===== src/Investment/Settlement.antt =====
-- The placement, the settlement at maturity and the rebooking of an investment
-- (backend/app/services/investment_service.py). The investment is the row that the caller has locked.
use treasury_os_app.Base.{
  ℕ, Bool, true, false, ◌&&◌, Option, none, some, List, [], ◌∷◌, ◌==◌, if◌then◌else◌, any, Outcome,
  ok, raised, conflict, not_found, get_row, ◌>>◌, raise_if, ℤ, pos, ◌+ℤ◌, ◌-ℤ◌, eqb_ℤ,
}
use treasury_os_app.Text.{Text, same_text}
use treasury_os_app.Dates.{Date, ordinal}
use treasury_os_app.Reconciliation.Records.{inflow, outflow}
use treasury_os_app.Investment.Records.{
  InvestmentStatus, InvestmentTransactionType, placement, rebooking, maturity_settlement,
  InvestmentEventType, unsaved_transaction, Investment, plain_text, placed_amount, now_active,
  deposit_placement, maturity_of, settled_parts, matured_parts, additional_funding,
  InvestmentTransaction, status_value, InvestmentEvent, investment_placement, investment_maturity,
  InvestmentStore,
}
use treasury_os_app.Investment.Rollover.{rollover_investment}
use treasury_os_app.Investment.Service.{
  or_else, or_default, put_investment, add_investment_event, add_transaction,
  create_cash_transaction, linked_transaction, InvestmentChanges, apply_investment_update,
}

abbrev pub is_placement : InvestmentTransactionType → Bool
is_placement placement = true
is_placement _ = false

abbrev pub is_maturity_settlement : InvestmentTransactionType → Bool
is_maturity_settlement maturity_settlement = true
is_maturity_settlement _ = false

-- the investment has a transaction of the type
abbrev pub has_transaction :
    (InvestmentTransactionType → Bool) → ℕ → List InvestmentTransaction → Bool
has_transaction is_type k ts =
    any (λ (t : InvestmentTransaction). t.investment_id == k && is_type t.transaction_type) ts

unfoldable pub place_investment :
    InvestmentStore → Investment → ℕ → Option ℕ → Date → ℕ → Outcome InvestmentStore
place_investment s i user_id account today now = do
  raise_if (has_transaction is_placement i.id s.transactions) conflict
  let date = or_default i.placement_date today
  let paid =
      create_cash_transaction s i outflow investment_placement i.principal_amount date
        (or_else account i.source_account_id) user_id i.investment_reference
        (deposit_placement i.investment_reference)
  let new = record i { status = InvestmentStatus.active; placed_by_user_id = some user_id }
  ok (
      add_investment_event
        (record {
          investment_id = i.id;
          event_type = InvestmentEventType.status_changed;
          event_date = now;
          description = now_active;
          amount = none;
          currency_code = none;
          previous_value = some (status_value InvestmentStatus.placement_pending);
          new_value = some (status_value InvestmentStatus.active);
          related = none;
          reference = none;
          created_by_user_id = user_id;
        })
        (add_investment_event
          (record {
            investment_id = i.id;
            event_type = InvestmentEventType.placed;
            event_date = now;
            description = placed_amount i.principal_amount i.currency_code;
            amount = some i.principal_amount;
            currency_code = some i.currency_code;
            previous_value = none;
            new_value = none;
            related = some unsaved_transaction;
            reference = none;
            created_by_user_id = user_id;
          })
          (put_investment new (
            add_transaction
              (linked_transaction i placement i.principal_amount date user_id s.next_id none none)
              paid))))

unfoldable pub settle_maturity :
    InvestmentStore → Investment → Date → ℕ → Option ℕ → Option ℤ → ℕ → Outcome InvestmentStore
settle_maturity s i date user_id account actual now = do
  raise_if (has_transaction is_maturity_settlement i.id s.transactions) conflict
  let interest = or_default actual i.expected_interest
  let total = i.principal_amount +ℤ interest
  let paid =
      create_cash_transaction s i inflow investment_maturity total date
        (or_else account (or_else i.destination_account_id i.source_account_id)) user_id
        i.investment_reference (maturity_of i.investment_reference i.principal_amount interest)
  let new = record i {
    received_interest = i.received_interest +ℤ interest;
    principal_amount = pos 0;
    status = InvestmentStatus.matured;
  }
  ok (
      add_investment_event
        (record {
          investment_id = i.id;
          event_type = InvestmentEventType.matured;
          event_date = now;
          description = matured_parts i.principal_amount interest total;
          amount = some total;
          currency_code = some i.currency_code;
          previous_value = none;
          new_value = none;
          related = some unsaved_transaction;
          reference = none;
          created_by_user_id = user_id;
        })
        (put_investment new (
          add_transaction
            (linked_transaction i maturity_settlement total date user_id s.next_id
              (some (settled_parts i.principal_amount interest)) none)
            paid)))

abbrev pub is_rebooked : InvestmentEventType → Bool
is_rebooked InvestmentEventType.rebooked = true
is_rebooked _ = false

abbrev pub has_reference : Text → Option Text → Bool
has_reference key none = false
has_reference key (some r) = same_text r key

-- A rebooking of the investment with the key is on record.
abbrev pub was_rebooked : Option Text → ℕ → List InvestmentEvent → Bool
was_rebooked none k es = false
was_rebooked (some key) k es =
    any
      (λ (e : InvestmentEvent).
        e.investment_id == k && is_rebooked e.event_type && has_reference key e.reference)
      es

abbrev pub tenor_until : Date → Option Date → Option ℤ
tenor_until start none = none
tenor_until start (some d) = some (pos (ordinal d) -ℤ pos (ordinal start))

unfoldable pub rebooking_changes : Investment → Option ℤ → Option Date → ℤ → InvestmentChanges
rebooking_changes i rate maturity additional = record {
  interest_rate = rate;
  maturity_date = maturity;
  tenor_days = tenor_until i.start_date maturity;
  principal_amount =
      if eqb_ℤ additional (pos 0) then none else some (i.principal_amount +ℤ additional);
  original_principal_amount =
      if eqb_ℤ additional (pos 0) then none else some (i.original_principal_amount +ℤ additional);
}

-- The cash of additional principal, where there is some.
unfoldable pub fund_additional :
    InvestmentStore → Investment → ℤ → Text → Option Text → Option ℕ → Date → ℕ → InvestmentStore
fund_additional s i additional reason key account today user_id =
    if eqb_ℤ additional (pos 0)
    then s
    else add_transaction
        (linked_transaction i rebooking additional today user_id s.next_id
          (some (plain_text reason)) key)
        (create_cash_transaction s i outflow investment_placement additional today
          (or_else account i.source_account_id) user_id i.investment_reference
          (additional_funding i.investment_reference reason))

unfoldable pub rebook_investment :
    InvestmentStore
    → Investment
    → Option ℤ
    → Option Date
    → ℤ
    → Text
    → ℕ
    → Option ℕ
    → Option Text
    → Date
    → ℕ
    → InvestmentStore
rebook_investment s i rate maturity additional reason user_id account key today now =
    if was_rebooked key i.id s.events
    then s
    else add_investment_event
        (record {
          investment_id = i.id;
          event_type = InvestmentEventType.rebooked;
          event_date = now;
          description = plain_text reason;
          amount = if eqb_ℤ additional (pos 0) then none else some additional;
          currency_code = some i.currency_code;
          previous_value = none;
          new_value = none;
          related = none;
          reference = key;
          created_by_user_id = user_id;
        })
        (fund_additional
          (apply_investment_update s i (rebooking_changes i rate maturity additional) reason today
            now user_id)
          i additional reason key account today user_id)

-- The calls that the endpoints make of these operations.
pub data InvestmentOperation : Type 0 where
  place : Option ℕ → InvestmentOperation
  settle : Date → Option ℕ → Option ℤ → InvestmentOperation
  roll : ℤ → ℤ → Date → Date → Text → InvestmentOperation
  rebook : Option ℤ → Option Date → ℤ → Text → Option ℕ → Option Text → InvestmentOperation

abbrev pub operate :
    InvestmentStore → Investment → ℕ → Date → ℕ → InvestmentOperation → Outcome InvestmentStore
operate s i user_id today now (place account) = place_investment s i user_id account today now
operate s i user_id today now (settle date account actual) =
    settle_maturity s i date user_id account actual now
operate s i user_id today now (roll amount rate start maturity reference) =
    ok (rollover_investment s i amount rate start maturity reference user_id now)
operate s i user_id today now (rebook rate maturity additional reason account key) =
    ok (rebook_investment s i rate maturity additional reason user_id account key today now)

pub record InvestmentCall : Type 0 where
  pub investment_id : ℕ
  pub user_id : ℕ
  pub today : Date
  pub now : ℕ
  pub operation : InvestmentOperation

abbrev pub operate_row :
    InvestmentStore → Option Investment → InvestmentCall → Outcome InvestmentStore
operate_row s none c = raised not_found
operate_row s (some i) c = operate s i c.user_id c.today c.now c.operation

-- The call of an operation on the row that `load_investment_for_update` finds.
abbrev pub call : InvestmentStore → InvestmentCall → Outcome InvestmentStore
call s c = operate_row s (get_row (λ (i : Investment). i.id) c.investment_id s.investments) c

abbrev pub store_or : InvestmentStore → Outcome InvestmentStore → InvestmentStore
store_or s (ok t) = t
store_or s (raised e) = s

unfoldable pub call_all : InvestmentStore → List InvestmentCall → InvestmentStore
call_all s [] = s
call_all s (c ∷ rest) = call_all (store_or s (call s c)) rest
