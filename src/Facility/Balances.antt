-- ===== src/Facility/Balances.antt =====
-- The movements of the balances of a facility and its sub-limits
-- (backend/app/services/facility_service.py: `execute_drawdown`, `record_repayment_payment`).
use treasury_os_app.Base.{
  ℕ, Bool, true, false, Option, none, some, if◌then◌else◌, Outcome, ok, bad_request, ◌>>◌, raise_if,
  ℤ, ◌+ℤ◌, ◌-ℤ◌, ltb_ℤ, leb_ℤ, max_zero,
}
use treasury_os_app.Facility.Records.{
  Facility, DrawdownStatus, FacilityDrawdown, FacilitySubLimit, RepaymentStatus, RepaymentType,
  principal, FacilityRepayment, FacilityEventType, RelatedRecord, drawdown_value, payment_value,
  drawdown_text, payment_text,
}
use treasury_os_app.Facility.Store.{
  FacilityStore, put_facility, get_sub_limit, put_sub_limit, get_drawdown, put_drawdown,
  put_repayment, add_event,
}

-- `sub_limit.drawn_amount += amount`, where there is one
abbrev pub draw_row : Option FacilitySubLimit → ℤ → FacilityStore → FacilityStore
draw_row none amount s = s
draw_row (some l) amount s = put_sub_limit (record l { drawn_amount = l.drawn_amount +ℤ amount }) s

unfoldable pub draw_sub_limit : Option ℕ → ℤ → FacilityStore → FacilityStore
draw_sub_limit none amount s = s
draw_sub_limit (some k) amount s = draw_row (get_sub_limit k s) amount s

abbrev pub drawn_more : Facility → ℤ → Facility
drawn_more f amount = record f { current_drawn_amount = f.current_drawn_amount +ℤ amount }

abbrev pub executed_by : FacilityDrawdown → ℕ → FacilityDrawdown
executed_by d user_id = record d {
  status = DrawdownStatus.executed;
  executed_by_user_id = some user_id;
}

unfoldable pub execute_drawdown :
    FacilityStore → Facility → FacilityDrawdown → ℕ → ℕ → FacilityStore
execute_drawdown s f d now user_id =
    add_event
      (record {
        facility_id = f.id;
        event_type = FacilityEventType.draw_down;
        event_date = now;
        description = drawdown_text d.drawdown_amount d.currency_code;
        related = some (RelatedRecord.drawdown d.id);
        previous_value = none;
        new_value = some (drawdown_value d.drawdown_amount);
        created_by_user_id = some user_id;
      })
      (draw_sub_limit d.sub_limit_id d.drawdown_amount
        (put_facility (drawn_more f d.drawdown_amount) (put_drawdown (executed_by d user_id) s)))

-- `sub_limit.drawn_amount = max(0, sub_limit.drawn_amount - paid)`, where there is one
abbrev pub free_row : Option FacilitySubLimit → ℤ → FacilityStore → FacilityStore
free_row none amount s = s
free_row (some l) amount s =
    put_sub_limit (record l { drawn_amount = max_zero (l.drawn_amount -ℤ amount) }) s

abbrev pub free_sub_limit_of : Option ℕ → ℤ → FacilityStore → FacilityStore
free_sub_limit_of none amount s = s
free_sub_limit_of (some k) amount s = free_row (get_sub_limit k s) amount s

abbrev pub free_drawdown : Option FacilityDrawdown → ℤ → FacilityStore → FacilityStore
free_drawdown none amount s = s
free_drawdown (some d) amount s = free_sub_limit_of d.sub_limit_id amount s

unfoldable pub free_sub_limit : Option ℕ → ℤ → FacilityStore → FacilityStore
free_sub_limit none amount s = s
free_sub_limit (some k) amount s = free_drawdown (get_drawdown k s) amount s

abbrev pub is_principal : RepaymentType → Bool
is_principal principal = true
is_principal _ = false

abbrev pub drawn_less : Facility → ℤ → Facility
drawn_less f amount = record f {
  current_drawn_amount = max_zero (f.current_drawn_amount -ℤ amount);
}

-- What a payment does to the balances.
unfoldable pub repay_principal : FacilityStore → Facility → FacilityRepayment → ℤ → FacilityStore
repay_principal s f r amount =
    if is_principal r.repayment_type
    then free_sub_limit r.drawdown_id amount (put_facility (drawn_less f amount) s)
    else s

-- the repayment after the payment
unfoldable pub paid_repayment : FacilityRepayment → ℤ → ℕ → FacilityRepayment
paid_repayment r amount date =
    let total = r.paid_amount +ℤ amount in
    record r {
      paid_amount = total;
      actual_payment_date = some date;
      status =
          if leb_ℤ r.original_amount total
          then RepaymentStatus.paid
          else RepaymentStatus.partially_paid;
    }

unfoldable pub record_repayment_payment :
    FacilityStore → Facility → FacilityRepayment → ℤ → ℕ → ℕ → ℕ → Outcome FacilityStore
record_repayment_payment s f r amount date now user_id = do
  raise_if (ltb_ℤ (r.original_amount -ℤ r.paid_amount) amount) bad_request
  let new = paid_repayment r amount date
  ok (
      add_event
        (record {
          facility_id = f.id;
          event_type =
              if r.is_early_repayment
              then FacilityEventType.early_repayment
              else FacilityEventType.repayment;
          event_date = now;
          description = payment_text r.repayment_type amount r.currency_code;
          related = some (RelatedRecord.repayment r.id);
          previous_value = none;
          new_value = some (payment_value amount new.status);
          created_by_user_id = some user_id;
        })
        (repay_principal (put_repayment new s) f r amount))
