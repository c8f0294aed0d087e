-- ===== src/Reconciliation/Engine.antt =====
-- The one-to-one matching of a bank transaction
-- (backend/app/services/reconciliation_matching_engine.py: `run_matching_for_bank_transaction`).
pub mod Eligible
pub mod Suggestions
pub mod Singles
use treasury_os_app.Base.{
  ℕ, suc, ◌+◌, ◌*◌, Bool, true, false, not, ◌&&◌, ◌||◌, Option, none, some, List, [], ◌∷◌, ◌++◌,
  map, ◌==◌, leb, ltb, if◌then◌else◌, same_key, is_some, holds, length, filter, any, find, collect,
  contains, sort_by,
}
use treasury_os_app.Text.{Unicode}
use treasury_os_app.Reconciliation.Records.{
  BankStatementEntryType, debit, credit, BankStatementTransactionStatus, active, CashDirection,
  inflow, outflow, TransactionStatus, posted, MatchSuggestionStatus, MatchType, exact, tolerance,
  Tier, auto_match, review, SuggestionReason, no_candidate, tied_at, tiered, MatchSuggestion,
  BankTransaction, LedgerTransaction, ReconciliationConfiguration,
}
use treasury_os_app.Reconciliation.Store.{Store, get_ledger}
use treasury_os_app.Reconciliation.Scoring.{
  CandidateScore, ScoreInput, score_candidate, is_exact_match, review_threshold,
  auto_match_threshold,
}
use treasury_os_app.Reconciliation.Candidates.{generate_candidates}

pub record MatchingRunResult : Type 0 where
  pub candidate_count : ℕ
  pub suggestion_count : ℕ
  pub matched_count : ℕ
  pub ambiguous_count : ℕ
  pub unmatched_count : ℕ

abbrev pub no_result : MatchingRunResult
no_result = record {
  candidate_count = 0;
  suggestion_count = 0;
  matched_count = 0;
  ambiguous_count = 0;
  unmatched_count = 0;
}

-- the suggestions of a run for a bank transaction
abbrev pub is_of : ℕ → ℕ → MatchSuggestion → Bool
is_of run_id bank_id g = g.run_id == run_id && same_key g.bank_id (some bank_id)

-- `_existing_suggestion(...) is not None`
unfoldable pub existing_suggestion : Store → ℕ → ℕ → Option ℕ → Bool
existing_suggestion s run_id bank_id treasury_id =
    any (λ (g : MatchSuggestion). is_of run_id bank_id g && same_key g.treasury_id treasury_id)
      s.suggestions

unfoldable pub bank_transaction_already_processed : Store → ℕ → ℕ → Bool
bank_transaction_already_processed s run_id bank_id = any (is_of run_id bank_id) s.suggestions

-- `_add_suggestion`: the row is pending, and the queries below do not see it.
pub add_suggestion :
    ℕ → BankTransaction → Option ℕ → Option MatchType → Option ℕ → SuggestionReason → Store → Store
add_suggestion run_id b treasury_id match_type confidence reason s = record s {
  pending =
      s.pending
      ++ record {
        id = s.next_id;
        run_id = run_id;
        bank_id = some b.id;
        treasury_id = treasury_id;
        match_type = match_type;
        confidence = confidence;
        status = MatchSuggestionStatus.pending;
        reason = some reason;
      }
        ∷ [];
  next_id = suc s.next_id;
}

abbrev pub match_type_of : CandidateScore → MatchType
match_type_of score = if is_exact_match score then exact else tolerance

abbrev pub Scored : Type 0
Scored = CandidateScore × LedgerTransaction

unfoldable pub score_input : BankTransaction → LedgerTransaction → ScoreInput
score_input b t = record {
  bank_amount = b.amount;
  ledger_amount = t.transaction_amount;
  bank_date = b.transaction_date;
  ledger_date = t.event_date;
  bank_references = b.bank_reference ∷ b.external_transaction_id ∷ [];
  ledger_references = t.reference ∷ t.external_reference ∷ [];
  bank_entry_type = b.entry_type;
  ledger_direction = t.direction;
  bank_narration = b.narration;
  ledger_texts = t.narration ∷ t.counterparty ∷ [];
  treasury_transaction_id = t.id;
}

-- a candidate with its score, if there is one and it reaches the review threshold
abbrev pub reaching : LedgerTransaction → Option CandidateScore → Option Scored
reaching t none = none
reaching t (some score) = if leb review_threshold score.total then some (score, t) else none

abbrev pub scored_one : Unicode → BankTransaction → LedgerTransaction → Option Scored
scored_one u b t = reaching t (score_candidate u (score_input b t))

-- the sort key (-total, event_date, id)
abbrev pub ranks_before : Scored → Scored → Bool
ranks_before (x, t) (y, t') =
    if x.total == y.total
    then (if t.event_date == t'.event_date then leb t.id t'.id else ltb t.event_date t'.event_date)
    else ltb y.total x.total

pub rank : Unicode → BankTransaction → List LedgerTransaction → List Scored
rank u b candidates = sort_by ranks_before (collect (scored_one u b) candidates)

abbrev pub tied_with : ℕ → Scored → Bool
tied_with top (score, t) = score.total == top

-- The loop over the tied candidates: the count of suggestions added, and the store.
pub add_tied : ℕ → BankTransaction → ℕ → ℕ → List Scored → ℕ × Store → ℕ × Store
unfolding add_suggestion
add_tied run_id b count top [] (n, s) = (n, s)
add_tied run_id b count top ((score, t) ∷ rest) (n, s) = add_tied run_id b count top rest (
    if existing_suggestion s run_id b.id (some t.id) then (n, s) else (
      suc n,
      add_suggestion run_id b (some t.id) (some (match_type_of score)) (some score.total)
          (tied_at count top score.reason_parts) s,
    ))

-- the tier of a single top candidate, with the rule for high values
pub tier_of : Option ℕ → BankTransaction → CandidateScore → Tier
tier_of high_value b score =
    if leb auto_match_threshold score.total
      && not (holds (λ threshold. ltb threshold b.amount) high_value && score.reference_points == 0)
    then auto_match
    else review

abbrev pub is_auto : Tier → ℕ
is_auto auto_match = 1
is_auto review = 0

-- no candidate: one suggestion without a ledger side
pub suggest_none : ℕ → BankTransaction → ℕ → Store → MatchingRunResult × Store
unfolding add_suggestion
suggest_none run_id b n s =
    if existing_suggestion s run_id b.id none
    then (record no_result { candidate_count = n; unmatched_count = 1 }, s)
    else (
      record no_result { candidate_count = n; unmatched_count = 1; suggestion_count = 1 },
      add_suggestion run_id b none none none no_candidate s,
    )

-- a single top candidate
pub suggest_top : ℕ → BankTransaction → Option ℕ → ℕ → Scored → Store → MatchingRunResult × Store
unfolding add_suggestion tier_of
suggest_top run_id b high_value n (score, t) s =
    if existing_suggestion s run_id b.id (some t.id)
    then (record no_result { candidate_count = n }, s)
    else (
      record no_result {
        candidate_count = n;
        matched_count = is_auto (tier_of high_value b score);
        suggestion_count = 1;
      },
      add_suggestion run_id b (some t.id) (some (match_type_of score)) (some score.total)
          (tiered (tier_of high_value b score) score.reason_parts) s,
    )

-- several candidates with the top score
pub suggest_tied : ℕ → BankTransaction → ℕ → ℕ → List Scored → Store → MatchingRunResult × Store
unfolding add_tied
suggest_tied run_id b n top tied s =
    let (added, s') = add_tied run_id b (length tied) top tied (0, s) in
    (record no_result { candidate_count = n; ambiguous_count = 1; suggestion_count = added }, s')

pub suggest : ℕ → BankTransaction → Option ℕ → ℕ → List Scored → Store → MatchingRunResult × Store
unfolding suggest_none suggest_top suggest_tied
suggest run_id b high_value n [] s = suggest_none run_id b n s
suggest run_id b high_value n ((score, t) ∷ rest) s =
    let tied = filter (tied_with score.total) ((score, t) ∷ rest) in
    if ltb 1 (length tied)
    then suggest_tied run_id b n score.total tied s
    else suggest_top run_id b high_value n (score, t) s

-- the fields that a run without a configuration takes
abbrev pub amount_tolerance : Option ReconciliationConfiguration → ℕ
amount_tolerance none = 0
amount_tolerance (some c) = c.amount_tolerance_pct

abbrev pub date_tolerance : Option ReconciliationConfiguration → ℕ
date_tolerance none = 0
date_tolerance (some c) = c.date_tolerance_days

abbrev pub high_value_of : Option ReconciliationConfiguration → Option ℕ
high_value_of none = none
high_value_of (some c) = c.high_value_threshold

unfoldable pub run_matching_for_bank_transaction :
    Unicode
    → Store
    → ℕ
    → BankTransaction
    → Option ReconciliationConfiguration
    → List ℕ
    → MatchingRunResult × Store
unfolding generate_candidates rank suggest
run_matching_for_bank_transaction u s run_id b configuration claimed =
    let candidates =
      generate_candidates s b (date_tolerance configuration) (amount_tolerance configuration)
        claimed in
    if bank_transaction_already_processed s run_id b.id
    then (no_result, s)
    else suggest run_id b (high_value_of configuration) (length candidates) (rank u b candidates) s
