-- ===== src/Investment/Schedule.antt =====
-- The schedule of periodic interest (backend/app/services/investment_engine.py:
-- `generate_periodic_interest_schedule`). The loop is on fuel, one unit for each round; it is given
-- more than the months from the start to the maturity.
use treasury_os_app.Base.{
  ℕ, suc, zero, ◌+◌, ◌-◌, ◌/◌, ◌%◌, not, Option, none, some, List, [], ◌∷◌, if◌then◌else◌, ℤ,
}
use treasury_os_app.Facility.Records.{DayCountConvention}
use treasury_os_app.Dates.{Date, days_in_month, month_index, is_earlier, earliest, min_ℕ}
use treasury_os_app.Investment.Engine.{calculate_simple_interest}

pub data InterestFrequency : Type 0 where
  monthly quarterly semi_annual annual custom : InterestFrequency

-- `_PERIODIC_FREQUENCY_MONTHS.get`
abbrev pub frequency_months : InterestFrequency → Option ℕ
frequency_months monthly = some 1
frequency_months quarterly = some 3
frequency_months semi_annual = some 6
frequency_months annual = some 12
frequency_months custom = none

unfoldable pub add_months : Date → ℕ → Date
add_months d months =
    let index = d.month - 1 + months in
    let year = d.year + index / 12 in
    let month = index % 12 + 1 in
    record { year = year; month = month; day = min_ℕ d.day (days_in_month year month) }

pub record PeriodicInterestScheduleEntry : Type 0 where
  pub period : ℕ
  pub period_start : Date
  pub period_end : Date
  pub interest_amount : ℤ

-- an entry before the rest of the schedule
abbrev pub then_rest {ℓ} : {A : Type ℓ} → A → Option (List A) → Option (List A)
then_rest a none = none
then_rest a (some rest) = some (a ∷ rest)

-- The loop from a period's start; `none` is a loop that ran out of fuel.
unfoldable pub schedule_from :
    ℕ
    → ℤ
    → ℤ
    → Date
    → DayCountConvention
    → ℕ
    → Date
    → ℕ
    → Option (List PeriodicInterestScheduleEntry)
schedule_from zero principal rate maturity convention months start period = none
schedule_from (suc fuel) principal rate maturity convention months start period =
    let end = earliest maturity (add_months start months) in
    let entry : PeriodicInterestScheduleEntry = record {
      period = period;
      period_start = start;
      period_end = end;
      interest_amount = calculate_simple_interest principal rate start end convention;
    } in
    let rest = schedule_from fuel principal rate maturity convention months end (period + 1) in
    if not (is_earlier start maturity)
    then some []
    else if not (is_earlier end maturity)
    then some (entry ∷ [])
    else then_rest entry rest

abbrev pub schedule_by :
    Option ℕ
    → ℤ
    → ℤ
    → Date
    → Date
    → DayCountConvention
    → Option (List PeriodicInterestScheduleEntry)
schedule_by none principal rate start maturity convention = some []
schedule_by (some months) principal rate start maturity convention =
    if not (is_earlier start maturity)
    then some []
    else schedule_from (month_index maturity - month_index start + 1) principal rate maturity
        convention months start 1

unfoldable pub generate_periodic_interest_schedule :
    ℤ
    → ℤ
    → Date
    → Date
    → InterestFrequency
    → DayCountConvention
    → Option (List PeriodicInterestScheduleEntry)
generate_periodic_interest_schedule principal rate start maturity frequency convention =
    schedule_by (frequency_months frequency) principal rate start maturity convention
