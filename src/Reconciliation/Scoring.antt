-- ===== src/Reconciliation/Scoring.antt =====
-- The score of a pair of transactions (backend/app/services/reconciliation_scoring.py), with the
-- normalization of texts (backend/app/services/reconciliation_normalization.py). Points are whole
-- numbers. A set of texts is a list; the code asks for common members, members and sizes.
pub mod Bounds
pub mod References
use treasury_os_app.Base.{
  ℕ, ◌+◌, ◌*◌, Bool, true, false, not, ◌&&◌, ◌||◌, Option, none, some, List, [], ◌∷◌, ◌==◌, leb,
  ltb, if◌then◌else◌, abs_diff, length, filter, any, map, collect,
}
use treasury_os_app.Text.{
  Text, Unicode, strip, is_empty, has_sub, same_text, collapse, split_words, codes, is_space,
}
use treasury_os_app.Reconciliation.Records.{
  BankStatementEntryType, debit, credit, CashDirection, inflow, outflow, ReasonPart, exact_amount,
  amount_within_tolerance, exact_date, date_within_tolerance, exact_reference, partial_reference,
  no_reference, compatible_direction, narration_overlap,
}

abbrev pub amount_exact_points : ℕ
amount_exact_points = 40

abbrev pub amount_tolerance_points : ℕ
amount_tolerance_points = 20

abbrev pub reference_exact_points : ℕ
reference_exact_points = 30

abbrev pub reference_partial_points : ℕ
reference_partial_points = 15

abbrev pub date_exact_points : ℕ
date_exact_points = 15

abbrev pub date_tolerance_points : ℕ
date_tolerance_points = 5

abbrev pub full_direction_points : ℕ
full_direction_points = 10

abbrev pub full_narration_points : ℕ
full_narration_points = 5

abbrev pub max_score : ℕ
max_score = 100

abbrev pub auto_match_threshold : ℕ
auto_match_threshold = 70

abbrev pub review_threshold : ℕ
review_threshold = 40

unfoldable pub calculate_amount_score : ℕ → ℕ → ℕ × Bool
calculate_amount_score bank_amount ledger_amount =
    if abs_diff bank_amount ledger_amount == 0
    then (amount_exact_points, true)
    else (amount_tolerance_points, false)

unfoldable pub calculate_date_score : ℕ → ℕ → ℕ × Bool
calculate_date_score bank_date ledger_date =
    if abs_diff bank_date ledger_date == 0
    then (date_exact_points, true)
    else (date_tolerance_points, false)

pub calculate_direction_score : BankStatementEntryType → CashDirection → Option ℕ
calculate_direction_score credit inflow = some full_direction_points
calculate_direction_score debit outflow = some full_direction_points
calculate_direction_score _ _ = none

-- `x in xs`, for texts
abbrev pub text_in : Text → List Text → Bool
text_in t = any (same_text t)

-- the texts of the list that are neither None nor empty
abbrev pub given : List (Option Text) → List Text
given [] = []
given (none ∷ xs) = given xs
given (some [] ∷ xs) = given xs
given (some (c ∷ s) ∷ xs) = (c ∷ s) ∷ given xs

-- `len(set(xs))` counts each text once.
abbrev pub distinct_texts : List Text → List Text
distinct_texts [] = []
distinct_texts (t ∷ ts) = let rest = distinct_texts ts in if text_in t rest then rest else t ∷ rest

-- the cosmetic punctuation that becomes a space
pub is_punctuation : ℕ → Bool
is_punctuation c = any (λ (p : ℕ). c == p) (codes ".,;:!?'\"()[]{}")

abbrev pub blank_punctuation : Text → Text
blank_punctuation = map (λ c. if is_punctuation c then 32 else c)

-- Whether some pair of one reference from each side passes the test.
abbrev pub some_pair : (Text → Text → Bool) → List Text → List Text → Bool
some_pair test bs ls = any (λ (b : Text). any (test b) ls) bs

abbrev pub overlaps : Text → Text → Bool
overlaps b l = not (is_empty b) && not (is_empty l) && (has_sub l b || has_sub b l)

-- `ratio >= 0.6`, of the common tokens in those of the bank's narration
abbrev pub covers_enough : List Text → List Text → Bool
covers_enough bank_tokens ledger_tokens =
    leb (3 * length bank_tokens)
      (5 * length (filter (λ (t : Text). text_in t ledger_tokens) bank_tokens))

abbrev pub no_texts : List Text → Bool
no_texts [] = true
no_texts _ = false

abbrev pub narration_of : Option Text → Text
narration_of none = []
narration_of (some t) = t

module _ (u : Unicode) where
  unfoldable pub normalize_reference : Text → Text
  normalize_reference value = u.to_upper (collapse false (strip value))

  pub normalize_narration : Text → Text
  normalize_narration value = strip (collapse false (blank_punctuation (u.to_lower (strip value))))

  -- `tokenize_narration(normalize_narration(value))`
  unfoldable pub narration_tokens : Text → List Text
  unfolding normalize_narration
  narration_tokens value =
      distinct_texts
        (filter (λ (t : Text). not (is_empty t)) (split_words (normalize_narration value)))

  unfoldable pub calculate_reference_score : List (Option Text) → List (Option Text) → ℕ
  calculate_reference_score bank_references ledger_references =
      let bs = map normalize_reference (given bank_references) in
      let ls = map normalize_reference (given ledger_references) in
      if some_pair same_text bs ls
      then reference_exact_points
      else if some_pair overlaps bs ls
      then reference_partial_points
      else 0

  abbrev pub text_matches : List Text → Text → Bool
  text_matches bank_tokens ledger_text =
      let ledger_tokens = narration_tokens ledger_text in
      not (no_texts ledger_tokens) && covers_enough bank_tokens ledger_tokens

  unfoldable pub calculate_narration_score : Option Text → List (Option Text) → ℕ
  calculate_narration_score bank_narration ledger_texts =
      let bank_tokens = narration_tokens (narration_of bank_narration) in
      if no_texts bank_tokens
      then 0
      else if any (text_matches bank_tokens) (given ledger_texts)
      then full_narration_points
      else 0

pub record CandidateScore : Type 0 where
  pub treasury_transaction_id : ℕ
  pub total : ℕ
  pub amount_exact : Bool
  pub date_exact : Bool
  pub reference_points : ℕ
  pub narration_points : ℕ
  pub direction_points : ℕ
  pub reason_parts : List ReasonPart

unfoldable pub is_exact_match : CandidateScore → Bool
is_exact_match s = s.amount_exact && s.date_exact && s.reference_points == reference_exact_points

-- what of the two transactions the score reads
pub record ScoreInput : Type 0 where
  pub bank_amount : ℕ
  pub ledger_amount : ℕ
  pub bank_date : ℕ
  pub ledger_date : ℕ
  pub bank_references : List (Option Text)
  pub ledger_references : List (Option Text)
  pub bank_entry_type : BankStatementEntryType
  pub ledger_direction : CashDirection
  pub bank_narration : Option Text
  pub ledger_texts : List (Option Text)
  pub treasury_transaction_id : ℕ

abbrev pub narration_reason : ℕ → List ReasonPart
narration_reason points = if ltb 0 points then narration_overlap ∷ [] else []

abbrev pub reasons : Bool → Bool → ℕ → ℕ → List ReasonPart
reasons amount_exact date_exact reference_points narration_points =
    (if amount_exact then exact_amount else amount_within_tolerance)
    ∷ (if date_exact then exact_date else date_within_tolerance)
    ∷ (if reference_points == reference_exact_points
        then exact_reference
        else if reference_points == reference_partial_points
        then partial_reference
        else no_reference)
    ∷ compatible_direction
    ∷ narration_reason narration_points

pub total_score : ScoreInput → ℕ × Bool → ℕ × Bool → ℕ → ℕ → ℕ → CandidateScore
total_score x (amount_points, amount_exact) (date_points, date_exact) reference_points
      narration_points direction_points =
    record {
      treasury_transaction_id = x.treasury_transaction_id;
      total = amount_points + date_points + reference_points + direction_points + narration_points;
      amount_exact = amount_exact;
      date_exact = date_exact;
      reference_points = reference_points;
      narration_points = narration_points;
      direction_points = direction_points;
      reason_parts = reasons amount_exact date_exact reference_points narration_points;
    }

unfoldable pub score_candidate : Unicode → ScoreInput → Option CandidateScore
unfolding calculate_direction_score total_score
score_candidate u x = elim (calculate_direction_score x.bank_entry_type x.ledger_direction) [
  | none ↦ none
  | some direction_points ↦ some (
      total_score x (calculate_amount_score x.bank_amount x.ledger_amount)
        (calculate_date_score x.bank_date x.ledger_date)
        (calculate_reference_score u x.bank_references x.ledger_references)
        (calculate_narration_score u x.bank_narration x.ledger_texts) direction_points)
]
