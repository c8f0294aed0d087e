-- ===== src/Tests/Matching.antt =====
-- The bank row and the ledger row that records it: scores, one pass of the engine, and the
-- exceptions of the run.
use treasury_os_app.Base.{
  ◌≡◌, refl, ◌↔◌, ◌⊎◌, true, false, Option, none, some, [], ◌∷◌, any, collect, In, here, arith,
}
use treasury_os_app.Text.{codes, strip, collapse, split_words}
use treasury_os_app.Reconciliation.Records.{credit, inflow, LedgerTransaction}
use treasury_os_app.Reconciliation.Store.{Store, evidence}
use treasury_os_app.Reconciliation.Scoring.{
  CandidateScore, ScoreInput, score_candidate, calculate_reference_score, calculate_narration_score,
  calculate_amount_score, calculate_date_score, normalize_reference, narration_tokens,
  is_exact_match, reference_exact_points,
}
use treasury_os_app.Reconciliation.Scoring.Bounds.{
  IsScoreOf, score_candidate-IsScoreOf, auto_match_evidence,
}
use treasury_os_app.Reconciliation.Scoring.References.{
  SharesReference, calculate_reference_score-SharesReference, blank_references_score,
}
use treasury_os_app.Reconciliation.Candidates.{
  already_claimed_treasury_transaction_ids, generate_candidates,
}
use treasury_os_app.Reconciliation.Engine.{
  score_input, bank_transaction_already_processed, existing_suggestion,
  run_matching_for_bank_transaction, rank,
}
use treasury_os_app.Reconciliation.Engine.Eligible.{
  Grows, IsProposal, run_matching_for_bank_transaction-Grows,
}
use treasury_os_app.Reconciliation.Engine.Suggestions.{IsClear, matched-IsClear}
use treasury_os_app.Reconciliation.MatchingRun.{scope_transactions, run_matching_for_run, in_scope}
use treasury_os_app.Reconciliation.Engine.Singles.{selected}
use treasury_os_app.Reconciliation.MatchingRun.Claims.{
  Stores, IsProposalFor, each_alone, run_matching_for_run-first,
}
use treasury_os_app.Reconciliation.Derivation.{scope_of}
use treasury_os_app.Reconciliation.Exceptions.{derive_open_item_specs}
use treasury_os_app.Reconciliation.Exceptions.Keys.{on_spec}
use treasury_os_app.Reconciliation.Exceptions.Unmatched.{IsUnmatched}
use treasury_os_app.Reconciliation.Exceptions.BankSide.{IsCovered, bank_key, derive-bank_accounted}
use treasury_os_app.Reconciliation.Exceptions.LedgerSide.{ledger_only_key, derive-ledger_only}
use treasury_os_app.Tests.{received, run, store, plain}

abbrev pair : ScoreInput
pair = record {
  bank_amount = 5000;
  ledger_amount = 5000;
  bank_date = 100;
  ledger_date = 100;
  bank_references = some (codes "INV-7") ∷ [];
  ledger_references = some (codes "INV-7") ∷ [];
  bank_entry_type = credit;
  ledger_direction = inflow;
  bank_narration = none;
  ledger_texts = [];
  treasury_transaction_id = 30;
}

abbrev or_else {ℓ} : {A : Type ℓ} → A → Option A → A
or_else a none = a
or_else a (some b) = b

abbrev no_score : CandidateScore
no_score = record {
  treasury_transaction_id = 0;
  total = 0;
  amount_exact = false;
  date_exact = false;
  reference_points = 0;
  narration_points = 0;
  direction_points = 0;
  reason_parts = [];
}

abbrev score : CandidateScore
score = or_else no_score (score_candidate plain pair)

score_candidate-IsScoreOf_example : IsScoreOf pair score
unfolding score_candidate
score_candidate-IsScoreOf_example = score_candidate-IsScoreOf plain pair score refl

auto_match_evidence_example :
    (score.reference_points ≡ 0
      → (score.amount_exact ≡ true) × (score.date_exact ≡ true) × (score.narration_points ≡ 5))
    × (score.amount_exact ≡ false
        → score.date_exact ≡ false
        → (score.reference_points ≡ reference_exact_points)
          × (score.narration_points ≡ 5)
          × (score.total ≡ 70))
unfolding score_candidate calculate_amount_score calculate_date_score calculate_reference_score
    calculate_narration_score normalize_reference collapse strip
auto_match_evidence_example = auto_match_evidence plain pair score refl (omega arith)

calculate_reference_score-SharesReference_example :
    (calculate_reference_score plain pair.bank_references pair.ledger_references
      ≡ reference_exact_points)
    ↔ SharesReference plain pair.bank_references pair.ledger_references
calculate_reference_score-SharesReference_example =
    calculate_reference_score-SharesReference plain pair.bank_references pair.ledger_references

blank_references_score_example :
    calculate_reference_score plain (some (codes " ") ∷ []) (some (codes "  ") ∷ [])
    ≡ reference_exact_points
unfolding strip
blank_references_score_example =
    blank_references_score plain (codes " ") (codes "  ") (some (codes " ") ∷ [])
      (some (codes "  ") ∷ []) (here refl) (here refl) refl refl

run_matching_for_bank_transaction-Grows_example :
    Grows
      (IsProposal plain store 40 received none [])
      store
      (run_matching_for_bank_transaction plain store 40 received none []).1
run_matching_for_bank_transaction-Grows_example =
    run_matching_for_bank_transaction-Grows plain store 40 received none []

matched-IsClear_example :
    (bank_transaction_already_processed store 40 20 ≡ false)
    × IsClear none received (rank plain received (generate_candidates store received 0 0 []))
unfolding run_matching_for_bank_transaction score_input score_candidate
    bank_transaction_already_processed is_exact_match calculate_amount_score calculate_date_score
    calculate_reference_score calculate_narration_score narration_tokens normalize_reference
    collapse strip split_words existing_suggestion
matched-IsClear_example = matched-IsClear plain store 40 received none [] refl

-- A second deposit like the first one, which one ledger row records.
abbrev two_deposits : Store
two_deposits = record store { banks = received ∷ record received { id = 21 } ∷ [] }

run_matching_for_run-first_example :
    Stores
      (IsProposalFor plain two_deposits 40 none
        (already_claimed_treasury_transaction_ids two_deposits 2)
        (λ b. In b two_deposits.banks × (in_scope (scope_of run) b ≡ true)))
      two_deposits
      (run_matching_for_run plain two_deposits 40 (scope_of run) none).1
    × (collect selected
          (run_matching_for_run plain two_deposits 40 (scope_of run) none).1.suggestions
        ≡ each_alone plain two_deposits 40 none
            (already_claimed_treasury_transaction_ids two_deposits 2)
            (scope_transactions (scope_of run) two_deposits.banks))
unfolding scope_transactions in_scope bank_transaction_already_processed
run_matching_for_run-first_example =
    run_matching_for_run-first plain two_deposits 40 (scope_of run) none (refl, (refl, tt))

both_selected :
    collect selected (run_matching_for_run plain two_deposits 40 (scope_of run) none).1.suggestions
    ≡ 30 ∷ 30 ∷ []
unfolding run_matching_for_run scope_transactions in_scope run_matching_for_bank_transaction
    score_input score_candidate bank_transaction_already_processed is_exact_match
    calculate_amount_score calculate_date_score calculate_reference_score calculate_narration_score
    narration_tokens normalize_reference collapse strip split_words existing_suggestion
    already_claimed_treasury_transaction_ids
both_selected = refl

derive-bank_accounted_example :
    IsCovered (evidence store) run received
    ⊎ (any (on_spec (bank_key 20)) (derive_open_item_specs (evidence store) run) ≡ true)
unfolding scope_transactions in_scope
derive-bank_accounted_example = derive-bank_accounted (evidence store) run received (here refl)

derive-ledger_only_example :
    (any (on_spec (ledger_only_key 31)) (derive_open_item_specs (evidence store) run) ≡ true) ↔ (
      (t : LedgerTransaction) × In t store.ledgers
      × (t.id ≡ 31)
      × IsUnmatched (evidence store) run t)
derive-ledger_only_example = derive-ledger_only (evidence store) run 31
