-- ===== src/Reconciliation/MatchingRun.antt =====
-- The matching pass of a run over its bank transactions
-- (backend/app/services/reconciliation_matching_engine.py: `run_matching_for_run`).
pub mod Claims
use treasury_os_app.Base.{
  ℕ, ◌+◌, Bool, true, false, ◌&&◌, ◌||◌, Option, none, some, List, [], ◌∷◌, ◌++◌, ◌==◌, leb, ltb,
  if◌then◌else◌, length, filter, collect, contains, sort_by,
}
use treasury_os_app.Text.{Unicode}
use treasury_os_app.Reconciliation.Records.{
  BankStatementTransactionStatus, active, BankTransaction, MatchSuggestion,
  ReconciliationConfiguration,
}
use treasury_os_app.Reconciliation.Store.{Store}
use treasury_os_app.Reconciliation.Candidates.{already_claimed_treasury_transaction_ids}
use treasury_os_app.Reconciliation.Engine.{
  MatchingRunResult, no_result, is_of, run_matching_for_bank_transaction,
}

abbrev pub is_active : BankStatementTransactionStatus → Bool
is_active active = true
is_active _ = false

-- the entity, the account and the period of a run
pub record RunScope : Type 0 where
  pub legal_entity_id : ℕ
  pub bank_account_id : ℕ
  pub period_start : ℕ
  pub period_end : ℕ

unfoldable pub in_scope : RunScope → BankTransaction → Bool
in_scope r b =
    b.legal_entity_id == r.legal_entity_id
    && b.bank_account_id == r.bank_account_id
    && leb r.period_start b.transaction_date
    && leb b.transaction_date r.period_end
    && is_active b.status

-- ORDER BY transaction_date, id
abbrev pub dated_before : BankTransaction → BankTransaction → Bool
dated_before a b =
    if a.transaction_date == b.transaction_date
    then leb a.id b.id
    else ltb a.transaction_date b.transaction_date

unfoldable pub scope_transactions : RunScope → List BankTransaction → List BankTransaction
scope_transactions r banks = sort_by dated_before (filter (in_scope r) banks)

pub add_results : MatchingRunResult → MatchingRunResult → MatchingRunResult
add_results a b = record {
  candidate_count = a.candidate_count + b.candidate_count;
  suggestion_count = a.suggestion_count + b.suggestion_count;
  matched_count = a.matched_count + b.matched_count;
  ambiguous_count = a.ambiguous_count + b.ambiguous_count;
  unmatched_count = a.unmatched_count + b.unmatched_count;
}

-- the set of the ids in a list
abbrev pub distinct : List ℕ → List ℕ
distinct [] = []
distinct (k ∷ ks) = let rest = distinct ks in if contains k rest then rest else k ∷ rest

-- `newly_claimed`: the ledger ids that the stored suggestions of the run have for the bank
-- transaction; those that this pass adds are pending, so the query does not see them
pub newly_claimed : Store → ℕ → ℕ → List ℕ
newly_claimed s run_id bank_id =
    distinct (
      collect (λ (g : MatchSuggestion). g.treasury_id)
        (filter (is_of run_id bank_id) s.suggestions))

abbrev pub claim_single : List ℕ → List ℕ → List ℕ
claim_single (k ∷ []) claimed = k ∷ claimed
claim_single _ claimed = claimed

pub match_all :
    Unicode
    → ℕ
    → Option ReconciliationConfiguration
    → List BankTransaction
    → List ℕ
    → MatchingRunResult × Store
    → MatchingRunResult × Store
unfolding add_results newly_claimed
match_all u run_id configuration [] claimed (total, s) = (total, s)
match_all u run_id configuration (b ∷ bs) claimed (total, s) =
    let (result, s') = run_matching_for_bank_transaction u s run_id b configuration claimed in
    match_all u run_id configuration bs (claim_single (newly_claimed s' run_id b.id) claimed)
      (add_results total result, s')

-- `await db.flush()`
abbrev pub flush : Store → Store
flush s = record s { suggestions = s.suggestions ++ s.pending; pending = [] }

-- The flush is after the loop.
unfoldable pub run_matching_for_run :
    Unicode → Store → ℕ → RunScope → Option ReconciliationConfiguration → MatchingRunResult × Store
unfolding scope_transactions match_all
run_matching_for_run u s run_id r configuration =
    let (total, t) =
      match_all u run_id configuration (scope_transactions r s.banks)
        (already_claimed_treasury_transaction_ids s r.legal_entity_id) (no_result, s) in
    (total, flush t)
