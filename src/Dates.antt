-- ===== src/Dates.antt =====
-- Dates, with what the engines ask of `datetime.date` and `calendar`.
use treasury_os_app.Base.{
  ℕ, zero, suc, ◌+◌, ◌-◌, ◌*◌, ◌/◌, ◌%◌, Bool, not, ◌&&◌, ◌||◌, ◌==◌, ltb, leb, if◌then◌else◌,
}

-- A year is not bounded here; Python's end at 9999.
pub record Date : Type 0 where
  pub year : ℕ
  pub month : ℕ
  pub day : ℕ

unfoldable pub is_leap : ℕ → Bool
is_leap y = y % 4 == 0 && (not (y % 100 == 0) || y % 400 == 0)

-- `calendar.mdays`
abbrev pub month_days : ℕ → ℕ
month_days m = if m == 4 || m == 6 || m == 9 || m == 11 then 30 else if m == 2 then 28 else 31

-- `calendar.monthrange(year, month)[1]`, with the leap day added to February
unfoldable pub days_in_month : ℕ → ℕ → ℕ
days_in_month y m = month_days m + (if m == 2 && is_leap y then 1 else 0)

-- the days of the first months of a year
unfoldable pub first_months : ℕ → ℕ → ℕ
first_months y zero = 0
first_months y (suc m) = first_months y m + days_in_month y (m + 1)

-- `date.toordinal`
unfoldable pub ordinal : Date → ℕ
ordinal d =
    let p = d.year - 1 in
    p * 365 + p / 4 - p / 100 + p / 400 + first_months d.year (d.month - 1) + d.day

-- Dates are ordered by year, month and day: as these numbers, for a month of 1 to 12 and a day of 1
-- to 31.
abbrev pub month_index : Date → ℕ
month_index d = d.year * 12 + (d.month - 1)

abbrev pub date_rank : Date → ℕ
date_rank d = month_index d * 31 + (d.day - 1)

abbrev pub is_earlier : Date → Date → Bool
is_earlier a b = ltb (date_rank a) (date_rank b)

abbrev pub earliest : Date → Date → Date
earliest a b = if is_earlier b a then b else a

abbrev pub min_ℕ : ℕ → ℕ → ℕ
min_ℕ a b = if leb a b then a else b
