-- ===== src/Tests/Schedules.antt =====
-- Schedules and an early termination on concrete figures.
use treasury_os_app.Base.{
  ℕ, suc, ◌+◌, ◌/◌, ◌%◌, ◌≡◌, refl, none, some, List, [], ◌∷◌, map, length, arith, pos, ◌+ℤ◌, ◌-ℤ◌,
  ◌*ℤ◌,
}
use treasury_os_app.Dates.{Date, ordinal, is_leap, days_in_month, first_months}
use treasury_os_app.Facility.Records.{Facility, RepaymentMethod, act_365}
use treasury_os_app.Facility.Utilization.{round_ratio, effective_interest_rate}
use treasury_os_app.Facility.Schedule.{
  ScheduleInstallment, generate_repayment_schedule, schedule_rows, schedule_row, calculate_interest,
  facility_days,
}
use treasury_os_app.Facility.Amortization.{PaysOff, repaid_sum, generate_repayment_schedule-PaysOff}
use treasury_os_app.Investment.Engine.{
  calculate_simple_interest, calculate_early_termination, rate_reduction, days_between,
}
use treasury_os_app.Investment.Proceeds.{once_more, calculate_early_termination-net}
use treasury_os_app.Investment.Schedule.{
  PeriodicInterestScheduleEntry, generate_periodic_interest_schedule, quarterly, add_months,
}
use treasury_os_app.Investment.Tiling.{Tiles, generate_periodic_interest_schedule-Tiles}
use treasury_os_app.Tests.Credit.{revolver}

abbrev date : ℕ → ℕ → ℕ → Date
date y m d = record { year = y; month = m; day = d }

-- A calendar of months of 30 days.
abbrev thirty_days : ℕ → Date
thirty_days n = date (n / 360) (n / 30 % 12 + 1) (n % 30 + 1)

abbrev term_loan : Facility
term_loan = record revolver { repayment_method = RepaymentMethod.equal_principal }

-- A third of 1000.00 is 333.33, and the last period takes the 333.34 that are left.
thirds :
    map
      (λ (row : ScheduleInstallment). row.principal_repayment)
      (generate_repayment_schedule thirty_days term_loan (pos 100_000) 3 30 500)
    ≡ pos 33_333 ∷ pos 33_333 ∷ pos 33_334 ∷ []
unfolding generate_repayment_schedule schedule_rows schedule_row effective_interest_rate round_ratio
    calculate_interest facility_days ◌-ℤ◌ ◌*ℤ◌
thirds = refl

generate_repayment_schedule-PaysOff_example :
    (length (generate_repayment_schedule thirty_days term_loan (pos 100_000) (suc 2) 30 500)
      ≡ suc 2)
    × (repaid_sum (generate_repayment_schedule thirty_days term_loan (pos 100_000) (suc 2) 30 500)
        ≡ pos 100_000)
    × PaysOff 1
        (pos 100_000)
        (generate_repayment_schedule thirty_days term_loan (pos 100_000) (suc 2) 30 500)
generate_repayment_schedule-PaysOff_example =
    generate_repayment_schedule-PaysOff thirty_days term_loan (pos 100_000) 2 30 500 refl

-- The ordinals of Python: 0001-01-01 is 1, and 2024-02-29 is 738945.
ordinals : (ordinal (date 1 1 1) ≡ 1) × (ordinal (date 2024 2 29) ≡ 738_945)
unfolding ordinal days_in_month first_months
ordinals = (refl, refl)

-- A quarter from January 31st.
quarters : add_months (date 2026 1 31) 3 ≡ date 2026 4 30
unfolding add_months days_in_month
quarters = refl

generate_periodic_interest_schedule-Tiles_example :
    (entries : List PeriodicInterestScheduleEntry) × (generate_periodic_interest_schedule
        (pos 1_000_000)
        (pos 8_000_000)
        (date 2026 1 31)
        (date 2026 9 15)
        quarterly
        act_365
      ≡ some entries)
    × Tiles (pos 1_000_000) (pos 8_000_000) act_365 (date 2026 9 15) (date 2026 1 31) 1 entries
generate_periodic_interest_schedule-Tiles_example =
    generate_periodic_interest_schedule-Tiles (pos 1_000_000) (pos 8_000_000) (date 2026 1 31)
      (date 2026 9 15) quarterly act_365 3 refl (omega arith, omega arith, omega arith, omega arith)
      (omega arith, omega arith, omega arith, omega arith) refl

-- 1000.00 at 18 percent for 73 days of a year of 365 earn 36.00, and at 16 percent 32.00: the penalty
-- is 4.00, and 1028.00 come back, not the 1032.00 of the reduced rate.
reduced :
    calculate_early_termination
      (pos 100_000)
      (pos 18_000_000)
      (date 2026 1 1)
      (date 2026 3 15)
      act_365
      rate_reduction
      (some (pos 2_000_000))
      none
      (pos 1_000_000)
    ≡ record {
      principal_returned = pos 100_000;
      interest_earned = pos 3200;
      interest_forfeited = pos 0;
      penalty = pos 400;
      net_proceeds = pos 102_800;
    }
unfolding calculate_early_termination calculate_simple_interest round_ratio days_between ordinal
    days_in_month first_months is_leap ◌+ℤ◌ ◌-ℤ◌ ◌*ℤ◌
reduced = refl

calculate_early_termination-net_example :
    let r =
      calculate_early_termination
        (pos 100_000)
        (pos 18_000_000)
        (date 2026 1 1)
        (date 2026 3 15)
        act_365
        rate_reduction
        (some (pos 2_000_000))
        none
        (pos 1_000_000) in
    r.net_proceeds +ℤ r.penalty +ℤ once_more rate_reduction r.penalty
    ≡ pos 100_000
      +ℤ calculate_simple_interest
          (pos 100_000)
          (pos 18_000_000)
          (date 2026 1 1)
          (date 2026 3 15)
          act_365
calculate_early_termination-net_example =
    calculate_early_termination-net (pos 100_000) (pos 18_000_000) (date 2026 1 1) (date 2026 3 15)
      act_365 rate_reduction (some (pos 2_000_000)) none (pos 1_000_000)
