-- ===== src/Facility/Schedule.antt =====
-- Interest and the schedule of repayments of a facility
-- (backend/app/services/facility_engine.py: `calculate_interest`, `generate_repayment_schedule`).
-- Products, powers and quotients are exact until `_round`. The dates are ordinals, and the parameter
-- `civil` gives the day, month and year of one.
use treasury_os_app.Base.{
  ℕ, suc, zero, ◌+◌, ◌-◌, ◌*◌, Bool, true, false, Option, none, some, List, [], ◌∷◌, ◌==◌,
  if◌then◌else◌, ℤ, pos, negsuc, ◌+ℤ◌, ◌-ℤ◌, ◌*ℤ◌, eqb_ℤ,
}
use treasury_os_app.Dates.{Date, min_ℕ}
use treasury_os_app.Facility.Records.{
  Facility, DayCountConvention, act_365, act_360, thirty_360, RepaymentMethod, equal_principal,
  equal_installment, interest_only, bullet, custom_schedule,
}
use treasury_os_app.Facility.Utilization.{round_ratio, effective_interest_rate}

abbrev pub facility_denominator : DayCountConvention → ℕ
facility_denominator act_365 = 365
facility_denominator act_360 = 360
facility_denominator thirty_360 = 360

unfoldable pub facility_days : (ℕ → Date) → ℕ → ℕ → DayCountConvention → ℤ
facility_days civil start end thirty_360 =
    let a = civil start in
    let b = civil end in
    let d1 = min_ℕ a.day 30 in
    let d2 = if d1 == 30 then min_ℕ b.day 30 else b.day in
    pos (b.year * 360 + b.month * 30 + d2) -ℤ pos (a.year * 360 + a.month * 30 + d1)
facility_days civil start end act_365 = pos end -ℤ pos start
facility_days civil start end act_360 = pos end -ℤ pos start

unfoldable pub calculate_interest : (ℕ → Date) → ℤ → ℤ → ℕ → ℕ → DayCountConvention → ℤ
calculate_interest civil principal rate start end convention =
    round_ratio (principal *ℤ rate *ℤ facility_days civil start end convention)
      (100_000_000 * facility_denominator convention)

pub record ScheduleInstallment : Type 0 where
  pub period : ℕ
  pub due_date : ℕ
  pub opening_principal : ℤ
  pub principal_repayment : ℤ
  pub interest : ℤ
  pub total_installment : ℤ
  pub closing_principal : ℤ

-- What a period but the last repays, of its opening principal and its interest.
unfoldable pub schedule_row :
    (ℕ → Date) → DayCountConvention → ℤ → ℕ → ℕ → ℕ → (ℤ → ℤ → ℤ) → Bool → ℤ → ScheduleInstallment
schedule_row civil convention rate start period_days period repay is_last opening =
    let due = start + period_days * period in
    let interest =
      calculate_interest civil opening rate (start + period_days * (period - 1)) due convention in
    let repaid = if is_last then opening else repay opening interest in
    record {
      period = period;
      due_date = due;
      opening_principal = opening;
      principal_repayment = repaid;
      interest = interest;
      total_installment = repaid +ℤ interest;
      closing_principal = opening -ℤ repaid;
    }

-- `for i in range(…)`, with the periods that are left after this one
unfoldable pub schedule_rows :
    (ℕ → Date) → DayCountConvention → ℤ → ℕ → ℕ → (ℤ → ℤ → ℤ) → ℕ → ℕ → ℤ → List ScheduleInstallment
schedule_rows civil convention rate start period_days repay zero period opening =
    schedule_row civil convention rate start period_days period repay true opening ∷ []
schedule_rows civil convention rate start period_days repay (suc left) period opening =
    let row = schedule_row civil convention rate start period_days period repay false opening in
    row
    ∷ schedule_rows civil convention rate start period_days repay left (period + 1)
        row.closing_principal

abbrev pub power : ℤ → ℕ → ℤ
power a zero = pos 1
power a (suc n) = a *ℤ power a n

-- `_round` of a quotient of integers
unfoldable pub round_quotient : ℤ → ℤ → ℤ
round_quotient a (pos d) = round_ratio a d
round_quotient a (negsuc d) = round_ratio (pos 0 -ℤ a) (suc d)

-- The installment, with the period's rate as a fraction.
unfoldable pub equal_installment_amount : ℤ → ℕ → ℤ → ℕ → DayCountConvention → ℤ
equal_installment_amount principal num_periods rate period_days convention =
    let part = rate *ℤ pos period_days in
    let whole = pos (100_000_000 * facility_denominator convention) in
    let grown = power (whole +ℤ part) num_periods in
    if eqb_ℤ part (pos 0)
    then round_ratio principal num_periods
    else round_quotient (principal *ℤ part *ℤ grown) (whole *ℤ (grown -ℤ power whole num_periods))

abbrev pub rate_or_zero : Option ℤ → ℤ
rate_or_zero none = pos 0
rate_or_zero (some r) = r

-- The rule of each method for a period but the last; none, for a method without a schedule.
abbrev pub repayment_rule :
    RepaymentMethod → ℤ → ℕ → ℤ → ℕ → DayCountConvention → Option (ℤ → ℤ → ℤ)
repayment_rule equal_principal principal n rate days convention =
    some (λ opening interest. round_ratio principal n)
repayment_rule equal_installment principal n rate days convention =
    some (λ opening interest. equal_installment_amount principal n rate days convention -ℤ interest)
repayment_rule interest_only principal n rate days convention = some (λ opening interest. pos 0)
repayment_rule bullet principal n rate days convention = none
repayment_rule custom_schedule principal n rate days convention = none

abbrev pub schedule_with :
    (ℕ → Date)
    → DayCountConvention
    → ℤ
    → ℕ
    → ℕ
    → Option (ℤ → ℤ → ℤ)
    → ℕ
    → ℤ
    → List ScheduleInstallment
schedule_with civil convention rate start days none n principal = []
schedule_with civil convention rate start days (some repay) zero principal = []
schedule_with civil convention rate start days (some repay) (suc left) principal =
    schedule_rows civil convention rate start days repay left 1 principal

-- A schedule of no period is empty; Python refuses the division by zero of the first two methods.
unfoldable pub generate_repayment_schedule :
    (ℕ → Date) → Facility → ℤ → ℕ → ℕ → ℕ → List ScheduleInstallment
generate_repayment_schedule civil f principal num_periods period_days start =
    let rate = rate_or_zero (effective_interest_rate f) in
    schedule_with civil f.day_count_convention rate start period_days
      (repayment_rule f.repayment_method principal num_periods rate period_days
        f.day_count_convention)
      num_periods principal
