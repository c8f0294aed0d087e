-- ===== src/Investment/Engine.antt =====
-- Simple interest, early termination and the comparison of a rollover
-- (backend/app/services/investment_engine.py). Amounts are in cents, rates in millionths of a
-- percent, and a proportion in millionths. Products and quotients are exact until `_round`.
use treasury_os_app.Base.{
  ℕ, ◌+◌, ◌*◌, Option, none, some, ◌==◌, if◌then◌else◌, ℤ, pos, ◌+ℤ◌, ◌-ℤ◌, ◌*ℤ◌, eqb_ℤ, max_zero,
}
use treasury_os_app.Facility.Records.{DayCountConvention, act_365, act_360, thirty_360}
use treasury_os_app.Facility.Utilization.{round_ratio}
use treasury_os_app.Dates.{Date, ordinal, min_ℕ}

abbrev pub day_count_denominator : DayCountConvention → ℕ
day_count_denominator act_365 = 365
day_count_denominator act_360 = 360
day_count_denominator thirty_360 = 360

unfoldable pub days_between : Date → Date → DayCountConvention → ℤ
days_between start end thirty_360 =
    let d1 = min_ℕ start.day 30 in
    let d2 = if d1 == 30 then min_ℕ end.day 30 else end.day in
    pos (end.year * 360 + end.month * 30 + d2) -ℤ pos (start.year * 360 + start.month * 30 + d1)
days_between start end act_365 = pos (ordinal end) -ℤ pos (ordinal start)
days_between start end act_360 = pos (ordinal end) -ℤ pos (ordinal start)

-- A rate of 1 is the hundred millionth part of the principal in a year.
unfoldable pub calculate_simple_interest : ℤ → ℤ → Date → Date → DayCountConvention → ℤ
calculate_simple_interest principal rate start end convention =
    round_ratio (principal *ℤ rate *ℤ days_between start end convention)
      (100_000_000 * day_count_denominator convention)

pub data PenaltyType : Type 0 where
  no_penalty rate_reduction flat_amount forfeit_interest custom : PenaltyType

pub record TerminationResult : Type 0 where
  pub principal_returned : ℤ
  pub interest_earned : ℤ
  pub interest_forfeited : ℤ
  pub penalty : ℤ
  pub net_proceeds : ℤ

-- The interest that is left and the penalty, from the interest earned and that at a rate reduced by
-- the penalty rate. A missing or zero penalty leaves them as they are.
abbrev pub flat_penalty : Option ℤ → ℤ → ℤ → ℤ × ℤ
flat_penalty none proportion earned = (earned, pos 0)
flat_penalty (some amount) proportion earned =
    (earned, round_ratio (amount *ℤ proportion) 1_000_000)

abbrev pub reduction_penalty : Option ℤ → (ℤ → ℤ) → ℤ → ℤ × ℤ
reduction_penalty none at_reduced earned = (earned, pos 0)
reduction_penalty (some penalty_rate) at_reduced earned =
    if eqb_ℤ penalty_rate (pos 0)
    then (earned, pos 0)
    else (at_reduced penalty_rate, earned -ℤ at_reduced penalty_rate)

abbrev pub penalize : PenaltyType → Option ℤ → Option ℤ → ℤ → (ℤ → ℤ) → ℤ → ℤ × ℤ
penalize PenaltyType.no_penalty rate amount proportion at_reduced earned = (earned, pos 0)
penalize PenaltyType.custom rate amount proportion at_reduced earned = (earned, pos 0)
penalize flat_amount rate amount proportion at_reduced earned =
    flat_penalty amount proportion earned
penalize rate_reduction rate amount proportion at_reduced earned =
    reduction_penalty rate at_reduced earned
penalize forfeit_interest rate amount proportion at_reduced earned = (pos 0, earned)

-- `penalty if penalty_type == FORFEIT_INTEREST else 0`, and the other way round
abbrev pub forfeited : PenaltyType → ℤ → ℤ
forfeited forfeit_interest penalty = penalty
forfeited _ penalty = pos 0

abbrev pub deducted : PenaltyType → ℤ → ℤ
deducted forfeit_interest penalty = pos 0
deducted _ penalty = penalty

unfoldable pub calculate_early_termination :
    ℤ
    → ℤ
    → Date
    → Date
    → DayCountConvention
    → PenaltyType
    → Option ℤ
    → Option ℤ
    → ℤ
    → TerminationResult
calculate_early_termination principal rate start end convention type penalty_rate penalty_amount
      proportion =
    let earned = calculate_simple_interest principal rate start end convention in
    let at_reduced = λ (by : ℤ).
      calculate_simple_interest principal (max_zero (rate -ℤ by)) start end convention in
    let (interest, penalty) =
      penalize type penalty_rate penalty_amount proportion at_reduced earned in
    record {
      principal_returned = principal;
      interest_earned = interest;
      interest_forfeited = forfeited type penalty;
      penalty = penalty;
      net_proceeds = principal +ℤ interest -ℤ deducted type penalty;
    }

-- The figures of `RolloverComparison` that are computed.
pub record RolloverComparison : Type 0 where
  pub additional_principal : ℤ
  pub withdrawn_principal : ℤ
  pub expected_interest_current_term : ℤ
  pub expected_interest_new_term : ℤ
  pub net_expected_proceeds : ℤ

unfoldable pub compare_rollover_options :
    ℤ
    → ℤ
    → Date
    → Date
    → DayCountConvention
    → ℤ
    → ℤ
    → Date
    → Date
    → DayCountConvention
    → ℤ
    → RolloverComparison
compare_rollover_options principal rate start maturity convention new_principal new_rate new_start
      new_maturity new_convention penalty =
    let expected_new =
      calculate_simple_interest new_principal new_rate new_start new_maturity new_convention in
    record {
      additional_principal = max_zero (new_principal -ℤ principal);
      withdrawn_principal = max_zero (principal -ℤ new_principal);
      expected_interest_current_term =
          calculate_simple_interest principal rate start maturity convention;
      expected_interest_new_term = expected_new;
      net_expected_proceeds = new_principal +ℤ expected_new -ℤ penalty;
    }
