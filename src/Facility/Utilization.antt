-- ===== src/Facility/Utilization.antt =====
-- Capacity, rates and covenants (backend/app/services/facility_engine.py), and the check of a
-- drawdown (backend/app/services/drawdown_validation_service.py).
use treasury_os_app.Base.{
  ℕ, ◌+◌, ◌*◌, ◌/◌, Bool, true, false, not, Option, none, some, List, [], ◌∷◌, ◌++◌, ltb,
  if◌then◌else◌, ℤ, pos, negsuc, ◌+ℤ◌, ◌-ℤ◌, neg_ℤ, pos_part, ltb_ℤ, leb_ℤ, eqb_ℤ, max_zero,
}
use treasury_os_app.Text.{Text, same_text}
use treasury_os_app.Facility.Records.{
  CommitmentType, committed, uncommitted, FacilityStatus, InterestRateType, fixed, variable,
  benchmark_plus_spread, custom, Facility, FacilitySubLimit, CovenantOperator,
  greater_than_or_equal, less_than_or_equal, greater_than, less_than, equal,
}

-- `_round` of the quotient of an integer by a positive number: the nearest integer, halves away from
-- zero.
unfoldable pub round_ratio : ℤ → ℕ → ℤ
round_ratio (pos n) d = pos ((2 * n + d) / (2 * d))
round_ratio (negsuc n) d = neg_ℤ (pos ((2 * (n + 1) + d) / (2 * d)))

-- The percentage is in hundredths.
pub record UtilizationResult : Type 0 where
  pub committed_limit : ℤ
  pub drawn_amount : ℤ
  pub undrawn_amount : ℤ
  pub covenant_restricted_amount : ℤ
  pub available_amount : ℤ
  pub utilization_pct : ℤ

-- ten thousand times the number
abbrev pub scaled : ℤ → ℤ
scaled (pos n) = pos (n * 10_000)
scaled (negsuc n) = neg_ℤ (pos ((n + 1) * 10_000))

abbrev pub is_uncommitted : CommitmentType → Bool
is_uncommitted committed = false
is_uncommitted uncommitted = true

unfoldable pub calculate_utilization : Facility → UtilizationResult
calculate_utilization facility =
    let limit = facility.committed_limit in
    let drawn = facility.current_drawn_amount in
    let undrawn = limit -ℤ drawn in
    let restricted = facility.covenant_restricted_amount in
    record {
      committed_limit = limit;
      drawn_amount = drawn;
      undrawn_amount = undrawn;
      covenant_restricted_amount = restricted;
      available_amount =
          if is_uncommitted facility.commitment_type
          then pos 0
          else max_zero (undrawn -ℤ restricted);
      utilization_pct =
          if ltb_ℤ (pos 0) limit then round_ratio (scaled drawn) (pos_part limit) else pos 0;
    }

abbrev pub benchmark_and_spread : Option ℤ → Option ℤ → Option ℤ
benchmark_and_spread (some b) (some s) = some (b +ℤ s)
benchmark_and_spread _ _ = none

abbrev pub rate_by_type : InterestRateType → Facility → Option ℤ
rate_by_type fixed facility = facility.fixed_rate
rate_by_type benchmark_plus_spread facility =
    benchmark_and_spread facility.benchmark_rate facility.spread
rate_by_type variable facility = facility.benchmark_rate
rate_by_type custom facility = facility.fixed_rate

unfoldable pub effective_interest_rate : Facility → Option ℤ
effective_interest_rate facility = rate_by_type facility.interest_rate_type facility

pub evaluate_covenant : CovenantOperator → ℤ → ℤ → Bool
evaluate_covenant greater_than_or_equal value threshold = leb_ℤ threshold value
evaluate_covenant less_than_or_equal value threshold = leb_ℤ value threshold
evaluate_covenant greater_than value threshold = ltb_ℤ threshold value
evaluate_covenant less_than value threshold = ltb_ℤ value threshold
evaluate_covenant equal value threshold = eqb_ℤ value threshold

-- the reasons that `validate_drawdown` lists
pub data DrawdownProblem : Type 0 where
  not_active : FacilityStatus → DrawdownProblem
  wrong_currency : Text → Text → DrawdownProblem
  before_availability after_availability after_maturity : DrawdownProblem
  exceeds_undrawn : ℤ → ℤ → DrawdownProblem
  exceeds_available : ℤ → ℤ → DrawdownProblem
  exceeds_sub_limit : ℤ → ℤ → DrawdownProblem

abbrev pub is_active_status : FacilityStatus → Bool
is_active_status FacilityStatus.active = true
is_active_status _ = false

-- `d is not None and date < d`, and the other way round
abbrev pub is_before : ℕ → Option ℕ → Bool
is_before date none = false
is_before date (some d) = ltb date d

abbrev pub is_after : ℕ → Option ℕ → Bool
is_after date none = false
is_after date (some d) = ltb d date

-- `if c: reasons.append(p)`
abbrev pub reason_if : Bool → DrawdownProblem → List DrawdownProblem
reason_if true p = p ∷ []
reason_if false p = []

unfoldable pub capacity_problems : Facility → ℤ → List DrawdownProblem
capacity_problems facility amount =
    let utilization = calculate_utilization facility in
    if is_uncommitted facility.commitment_type
    then reason_if (ltb_ℤ utilization.undrawn_amount amount)
        (exceeds_undrawn amount utilization.undrawn_amount)
    else reason_if (ltb_ℤ utilization.available_amount amount)
        (exceeds_available amount utilization.available_amount)

unfoldable pub sub_limit_problems : Option FacilitySubLimit → ℤ → List DrawdownProblem
sub_limit_problems none amount = []
sub_limit_problems (some l) amount =
    let remaining = l.limit_amount -ℤ l.drawn_amount in
    reason_if (ltb_ℤ remaining amount) (exceeds_sub_limit amount remaining)

-- The first argument is Python's `str.upper`.
unfoldable pub validate_drawdown :
    (Text → Text) → Facility → ℤ → Text → ℕ → Option FacilitySubLimit → List DrawdownProblem
validate_drawdown upper facility amount currency date sub_limit =
    reason_if (not (is_active_status facility.status)) (not_active facility.status)
    ++ (reason_if (not (same_text (upper currency) facility.currency_code))
          (wrong_currency currency facility.currency_code)
        ++ (reason_if (is_before date facility.availability_start_date) before_availability
            ++ (reason_if (is_after date facility.availability_end_date) after_availability
                ++ (reason_if (ltb facility.maturity_date date) after_maturity
                    ++ (capacity_problems facility amount
                        ++ sub_limit_problems sub_limit amount)))))
