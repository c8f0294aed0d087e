-- ===== src/Reconciliation/Scoring/Bounds.antt =====
-- What a total of points says of the signals behind it.
use treasury_os_app.Base.{◌≤◌, ◌≡◌, ◌↔◌, ◌⊎◌, true, false, Option, none, some, arith, List}
use treasury_os_app.Text.{Text, Unicode}
use treasury_os_app.Reconciliation.Records.{
  BankStatementEntryType, debit, credit, CashDirection, inflow, outflow,
}
use treasury_os_app.Reconciliation.Scoring.{
  calculate_amount_score, calculate_date_score, calculate_reference_score,
  calculate_narration_score, CandidateScore, is_exact_match, ScoreInput, score_candidate, max_score,
  auto_match_threshold, reference_exact_points,
}

-- The points of each signal take the values of the table.
reference_points_cases :
    (u : Unicode) (bs ls : List (Option Text))
    → (calculate_reference_score u bs ls ≡ 30)
      ⊎ ((calculate_reference_score u bs ls ≡ 15) ⊎ (calculate_reference_score u bs ls ≡ 0))
unfolding calculate_reference_score
reference_points_cases u bs ls = ground arith

narration_points_cases :
    (u : Unicode) (b : Option Text) (ls : List (Option Text))
    → (calculate_narration_score u b ls ≡ 5) ⊎ (calculate_narration_score u b ls ≡ 0)
unfolding calculate_narration_score
narration_points_cases u b ls = ground arith

abbrev pub Compatible : BankStatementEntryType → CashDirection → Type 0
Compatible e d = ((e ≡ credit) × (d ≡ inflow)) ⊎ ((e ≡ debit) × (d ≡ outflow))

-- What a score says of the two transactions, and between which bounds it lies.
pub record IsScoreOf (x : ScoreInput) (s : CandidateScore) : Type 0 where
  pub direction : Compatible x.bank_entry_type x.ledger_direction
  pub amount : (s.amount_exact ≡ true) ↔ (x.bank_amount ≡ x.ledger_amount)
  pub date : (s.date_exact ≡ true) ↔ (x.bank_date ≡ x.ledger_date)
  pub lower : 35 ≤ s.total
  pub upper : s.total ≤ max_score
  pub exact_high : is_exact_match s ≡ true → 95 ≤ s.total

-- A score exists only for a credit with an inflow or a debit with an outflow. It says that the
-- amounts (the dates) agree exactly when they do, lies between 35 and 100, and is 95 or more for an
-- exact match.
pub score_candidate-IsScoreOf :
    (u : Unicode) (x : ScoreInput) (s : CandidateScore)
    → score_candidate u x ≡ some s
    → IsScoreOf x s
unfolding score_candidate calculate_amount_score calculate_date_score is_exact_match
score_candidate-IsScoreOf u x s h = ground (
  arith,
  reference_points_cases u x.bank_references x.ledger_references,
  narration_points_cases u x.bank_narration x.ledger_texts,
)

-- Incompatible directions are refused outright, whatever else agrees.
pub score_candidate-none :
    (u : Unicode) (x : ScoreInput)
    → (score_candidate u x ≡ none) ↔ ¬ Compatible x.bank_entry_type x.ledger_direction
unfolding score_candidate
score_candidate-none u x = ground arith

-- A score that reaches the auto-match threshold with no reference points has the exact amount, the
-- exact date and the narration; and one that agrees exactly on neither amount nor date has the exact
-- reference and the narration, and is 70 points.
pub auto_match_evidence :
    (u : Unicode) (x : ScoreInput) (s : CandidateScore)
    → score_candidate u x ≡ some s
    → auto_match_threshold ≤ s.total
    → (s.reference_points ≡ 0
        → (s.amount_exact ≡ true) × (s.date_exact ≡ true) × (s.narration_points ≡ 5))
      × (s.amount_exact ≡ false
          → s.date_exact ≡ false
          → (s.reference_points ≡ reference_exact_points)
            × (s.narration_points ≡ 5)
            × (s.total ≡ 70))
unfolding score_candidate calculate_amount_score calculate_date_score
auto_match_evidence u x s h t = ground (
  arith,
  reference_points_cases u x.bank_references x.ledger_references,
  narration_points_cases u x.bank_narration x.ledger_texts,
)
