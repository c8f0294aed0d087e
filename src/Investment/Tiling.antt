-- ===== src/Investment/Tiling.antt =====
-- The loop of the schedule ends, and its periods tile the time from the start to the maturity.
use treasury_os_app.Base.{
  ℕ, suc, zero, ◌+◌, ◌-◌, ◌/◌, ◌%◌, ◌≤◌, ◌<◌, ◌≡◌, refl, true, false, some, List, [], ◌∷◌, arith, ℤ,
  inl, inr, Bool-cases,
}
use treasury_os_app.Facility.Records.{DayCountConvention}
use treasury_os_app.Dates.{Date, days_in_month, month_index, date_rank, is_earlier, min_ℕ}
use treasury_os_app.Investment.Engine.{calculate_simple_interest}
use treasury_os_app.Investment.Schedule.{
  InterestFrequency, monthly, quarterly, semi_annual, annual, custom, frequency_months, add_months,
  PeriodicInterestScheduleEntry, schedule_from, generate_periodic_interest_schedule,
}

-- A date that a calendar may show, but for the length of its month.
abbrev pub IsDate : Date → Type 0
IsDate d = (1 ≤ d.month) × (d.month ≤ 12) × (1 ≤ d.day) × (d.day ≤ 31)

-- The entries are numbered from the number on, each period begins where the one before ended, the
-- first at the date, each ends after it begins, the last at the maturity, and the interest of each is
-- that of its own dates.
abbrev pub Tiles :
    ℤ → ℤ → DayCountConvention → Date → Date → ℕ → List PeriodicInterestScheduleEntry → Type 0
Tiles principal rate convention maturity start n [] = start ≡ maturity
Tiles principal rate convention maturity start n (e ∷ rest) =
    (e.period ≡ n)
    × (e.period_start ≡ start)
    × (date_rank e.period_start < date_rank e.period_end)
    × (e.interest_amount
        ≡ calculate_simple_interest principal rate e.period_start e.period_end convention)
    × Tiles principal rate convention maturity e.period_end (n + 1) rest

days_in_month_range : (y m : ℕ) → (28 ≤ days_in_month y m) × (days_in_month y m ≤ 31)
unfolding days_in_month
days_in_month_range y m = ground arith

min_ℕ-range : (a b : ℕ) → 1 ≤ a → 1 ≤ b → (1 ≤ min_ℕ a b) × (min_ℕ a b ≤ a)
min_ℕ-range a b h k = ground arith

-- Some months on is a date of as many months more.
add_months-later :
    (d : Date) (months : ℕ)
    → IsDate d
    → IsDate (add_months d months) × (month_index (add_months d months) ≡ month_index d + months)
unfolding add_months
add_months-later d months (m₁, m₂, d₁, d₂) =
    let index = d.month - 1 + months in
    let long = days_in_month_range (d.year + index / 12) (index % 12 + 1) in
    let days =
      min_ℕ-range d.day (days_in_month (d.year + index / 12) (index % 12 + 1)) d₁
        (omega (arith, long)) in
    ((omega arith, omega arith, days.0, omega (arith, days)), omega arith)

-- So it is a later date, and one of no earlier rank has no earlier month.
rank-month :
    (a b : Date) → IsDate a → IsDate b → month_index a < month_index b → date_rank a < date_rank b
rank-month a b h k less = omega (arith, h, k)

month-rank :
    (a b : Date) → IsDate a → IsDate b → date_rank a ≤ date_rank b → month_index a ≤ month_index b
month-rank a b h k less = omega (arith, h, k)

earlier_iff : (a b : Date) → is_earlier a b ≡ true → date_rank a < date_rank b
earlier_iff a b h = ground arith

never_earlier : (a : Date) → is_earlier a a ≡ false
never_earlier a = ground arith

-- The loop has fuel for more than the months that are left, and does not run out.
schedule_from-Tiles :
    (fuel : ℕ) (principal rate : ℤ) (maturity : Date) (convention : DayCountConvention) (months : ℕ)
    (start : Date) (n : ℕ)
    → 1 ≤ months
    → IsDate start
    → IsDate maturity
    → is_earlier start maturity ≡ true
    → month_index maturity < month_index start + fuel
    → (entries : List PeriodicInterestScheduleEntry) × (schedule_from fuel principal rate maturity
          convention months start n
        ≡ some entries)
      × Tiles principal rate convention maturity start n entries
unfolding schedule_from
schedule_from-Tiles zero p r m c k s n positive ds dm early enough =
    let less = month-rank s m ds dm (omega (arith, earlier_iff s m early)) in
    absurd (omega (arith, less, enough))
schedule_from-Tiles (suc fuel) p r m c k s n positive ds dm early enough =
    let (de, later) = add_months-later s k ds in
    let on = rank-month s (add_months s k) ds de (omega arith) in
    elim (Bool-cases (is_earlier (add_months s k) m)) [
      | inr capped ↦ rw early (
          rw capped
            (rw (never_earlier m) (_, refl, (refl, refl, earlier_iff s m early, refl, refl))))
      | inl going ↦
          let (rest, runs, tiles) =
            schedule_from-Tiles fuel p r m c k (add_months s k) (n + 1) positive de dm going
              (omega arith) in
          rw early (rw going (rw going (rw runs (_, refl, (refl, refl, on, refl, tiles)))))
    ]

positive_months :
    (f : InterestFrequency) (months : ℕ) → frequency_months f ≡ some months → 1 ≤ months
positive_months monthly months h = ground arith
positive_months quarterly months h = ground arith
positive_months semi_annual months h = ground arith
positive_months annual months h = ground arith
positive_months custom months h = cc

-- For a frequency other than CUSTOM, and a start before the maturity, the loop of the schedule ends
-- and gives entries that are numbered from 1 and tile the time: the first period begins at the start,
-- each later one where the one before ended, each ends after it begins, the last at the maturity, and
-- the interest of each is that of its own dates.
pub generate_periodic_interest_schedule-Tiles :
    (principal rate : ℤ) (start maturity : Date) (frequency : InterestFrequency)
    (convention : DayCountConvention) (months : ℕ)
    → frequency_months frequency ≡ some months
    → IsDate start
    → IsDate maturity
    → is_earlier start maturity ≡ true
    → (entries : List PeriodicInterestScheduleEntry) × (generate_periodic_interest_schedule
          principal rate start maturity frequency convention
        ≡ some entries)
      × Tiles principal rate convention maturity start 1 entries
unfolding generate_periodic_interest_schedule
generate_periodic_interest_schedule-Tiles p r s m f c k given ds dm early = rw given (
    rw early (
      schedule_from-Tiles (month_index m - month_index s + 1) p r m c k s 1
        (positive_months f k given) ds dm early (omega arith)))
