-- ===== src/Facility/Amortization.antt =====
-- A schedule repays the principal, no more and no less.
use treasury_os_app.Base.{
  ℕ, suc, zero, ◌+◌, ◌≡◌, refl, sym, Bool, true, false, some, List, [], ◌∷◌, arith, length, ℤ, pos,
  ◌+ℤ◌, ◌-ℤ◌, int_laws, sum_ℤ,
}
use treasury_os_app.Dates.{Date}
use treasury_os_app.Facility.Records.{
  Facility, DayCountConvention, RepaymentMethod, equal_principal, equal_installment, interest_only,
  bullet, custom_schedule,
}
use treasury_os_app.Facility.Utilization.{effective_interest_rate}
use treasury_os_app.Facility.Schedule.{
  ScheduleInstallment, schedule_row, schedule_rows, rate_or_zero, repayment_rule,
  generate_repayment_schedule,
}

-- The rows are numbered from the number on; each opens with what the one before closed with, the first
-- with the amount, closes with that less what it repays, and asks for that and the interest; and
-- after the last row nothing is left.
abbrev pub PaysOff : ℕ → ℤ → List ScheduleInstallment → Type 0
PaysOff n opening [] = opening ≡ pos 0
PaysOff n opening (row ∷ rest) =
    (row.period ≡ n)
    × (row.opening_principal ≡ opening)
    × (row.closing_principal ≡ opening -ℤ row.principal_repayment)
    × (row.total_installment ≡ row.principal_repayment +ℤ row.interest)
    × PaysOff (n + 1) row.closing_principal rest

abbrev pub repaid_sum : List ScheduleInstallment → ℤ
repaid_sum rows = sum_ℤ (λ (row : ScheduleInstallment). row.principal_repayment) rows

nothing_left : (a : ℤ) → a -ℤ a ≡ pos 0
nothing_left a = grind int_laws

schedule_rows-PaysOff :
    (civil : ℕ → Date) (c : DayCountConvention) (rate : ℤ) (start days : ℕ) (repay : ℤ → ℤ → ℤ)
    (left n : ℕ) (opening : ℤ)
    → (length (schedule_rows civil c rate start days repay left n opening) ≡ left + 1)
      × PaysOff n opening (schedule_rows civil c rate start days repay left n opening)
unfolding schedule_rows schedule_row
schedule_rows-PaysOff civil c rate start days repay zero n opening =
    (refl, (refl, refl, refl, refl, nothing_left opening))
schedule_rows-PaysOff civil c rate start days repay (suc left) n opening =
    let row = schedule_row civil c rate start days n repay false opening in
    let (long, rest) =
      schedule_rows-PaysOff civil c rate start days repay left (n + 1) row.closing_principal in
    (omega (arith, long), (refl, refl, refl, refl, rest))

-- What pays an amount off repays it.
PaysOff-sum :
    (n : ℕ) (opening : ℤ) (rows : List ScheduleInstallment)
    → PaysOff n opening rows
    → repaid_sum rows ≡ opening
PaysOff-sum n opening [] h = sym h
PaysOff-sum n opening (row ∷ rest) h =
    grind (int_laws, h.2, PaysOff-sum (n + 1) row.closing_principal rest h.4)

-- the methods that the code makes a schedule for
abbrev pub has_schedule : RepaymentMethod → Bool
has_schedule equal_principal = true
has_schedule equal_installment = true
has_schedule interest_only = true
has_schedule _ = false

repayment_rule-some :
    (m : RepaymentMethod) (principal : ℤ) (n : ℕ) (rate : ℤ) (days : ℕ) (c : DayCountConvention)
    → has_schedule m ≡ true
    → (repay : ℤ → ℤ → ℤ) × (repayment_rule m principal n rate days c ≡ some repay)
repayment_rule-some equal_principal principal n rate days c h = (_, refl)
repayment_rule-some equal_installment principal n rate days c h = (_, refl)
repayment_rule-some interest_only principal n rate days c h = (_, refl)
repayment_rule-some bullet principal n rate days c h = cc
repayment_rule-some custom_schedule principal n rate days c h = cc

-- For the methods EQUAL_PRINCIPAL, EQUAL_INSTALLMENT and INTEREST_ONLY and at least one period,
-- whatever the rounding, the schedule has as many rows as periods, its repayments add up to the
-- principal, and its rows run from the principal down to nothing: each opens with what the one before
-- closed with, and its installment is its repayment and its interest.
pub generate_repayment_schedule-PaysOff :
    (civil : ℕ → Date) (f : Facility) (principal : ℤ) (left period_days start : ℕ)
    → has_schedule f.repayment_method ≡ true
    → let rows = generate_repayment_schedule civil f principal (suc left) period_days start in
      (length rows ≡ suc left) × (repaid_sum rows ≡ principal) × PaysOff 1 principal rows
unfolding generate_repayment_schedule
generate_repayment_schedule-PaysOff civil f principal left days start scheduled =
    let rate = rate_or_zero (effective_interest_rate f) in
    let (repay, rule) =
      repayment_rule-some f.repayment_method principal (suc left) rate days f.day_count_convention
        scheduled in
    let (long, off) =
      schedule_rows-PaysOff civil f.day_count_convention rate start days repay left 1 principal in
    rw rule (omega (arith, long), PaysOff-sum 1 principal _ off, off)
