-- ===== src/Investment/Proceeds.antt =====
-- Where the money of an early termination goes
-- (backend/app/services/investment_engine.py: `calculate_early_termination`).
use treasury_os_app.Base.{
  ◌≡◌, Option, none, some, ℤ, pos, ◌+ℤ◌, eqb_ℤ, int_laws, inl, inr, Bool-cases,
}
use treasury_os_app.Facility.Records.{DayCountConvention}
use treasury_os_app.Dates.{Date}
use treasury_os_app.Investment.Engine.{
  PenaltyType, no_penalty, rate_reduction, flat_amount, forfeit_interest, calculate_simple_interest,
  calculate_early_termination,
}

-- What is deducted besides the penalty.
abbrev pub once_more : PenaltyType → ℤ → ℤ
once_more rate_reduction penalty = penalty
once_more _ penalty = pos 0

-- The net proceeds, the penalty and, when the penalty is a reduced rate, the penalty once more make
-- up the principal and the interest earned at the full rate.
pub calculate_early_termination-net :
    (principal rate : ℤ) (start end : Date) (convention : DayCountConvention) (type : PenaltyType)
    (penalty_rate penalty_amount : Option ℤ) (proportion : ℤ)
    → let r =
        calculate_early_termination principal rate start end convention type penalty_rate
          penalty_amount proportion in
      r.net_proceeds +ℤ r.penalty +ℤ once_more type r.penalty
      ≡ principal +ℤ calculate_simple_interest principal rate start end convention
unfolding calculate_early_termination
calculate_early_termination-net p r s e c no_penalty rate amount q = grind int_laws
calculate_early_termination-net p r s e c PenaltyType.custom rate amount q = grind int_laws
calculate_early_termination-net p r s e c forfeit_interest rate amount q = grind int_laws
calculate_early_termination-net p r s e c flat_amount rate none q = grind int_laws
calculate_early_termination-net p r s e c flat_amount rate (some a) q = grind int_laws
calculate_early_termination-net p r s e c rate_reduction none amount q = grind int_laws
calculate_early_termination-net p r s e c rate_reduction (some b) amount q =
    elim (Bool-cases (eqb_ℤ b (pos 0))) [
      | inl zero_rate ↦ rw zero_rate (grind int_laws)
      | inr other ↦ rw other (grind int_laws)
    ]
