-- ===== src/Reconciliation/Candidates.antt =====
-- The candidates for a bank transaction
-- (backend/app/services/reconciliation_candidate_generation.py). The SQL condition on the rows of
-- the ledger is a test of one row.
use treasury_os_app.Base.{
  ℕ, ◌+◌, ◌*◌, Bool, true, false, not, ◌&&◌, Option, none, some, List, ◌==◌, leb, same_key, is_some,
  filter, collect, contains,
}
use treasury_os_app.Reconciliation.Records.{
  BankStatementEntryType, debit, credit, CashDirection, inflow, outflow, TransactionStatus, posted,
  MatchSuggestionStatus, MatchSuggestion, BankTransaction, LedgerTransaction,
}
use treasury_os_app.Reconciliation.Store.{Store, get_ledger}

-- a PENDING or ACCEPTED suggestion
abbrev pub is_live : MatchSuggestionStatus → Bool
is_live MatchSuggestionStatus.pending = true
is_live MatchSuggestionStatus.accepted = true
is_live _ = false

abbrev pub ledger_entity : Store → Option ℕ → Option ℕ
ledger_entity s none = none
ledger_entity s (some t) = elim (get_ledger t s.ledgers) [
  | none ↦ none
  | some row ↦ some row.legal_entity_id
]

unfoldable pub already_claimed_treasury_transaction_ids : Store → ℕ → List ℕ
already_claimed_treasury_transaction_ids s entity =
    collect (λ (g : MatchSuggestion). g.treasury_id)
      (filter
        (λ (g : MatchSuggestion).
          is_live g.status
          && is_some g.treasury_id
          && same_key (ledger_entity s g.treasury_id) (some entity))
        s.suggestions)

-- `_COMPATIBLE_DIRECTION[entry_type]`, tested against a row's direction
abbrev pub is_compatible : BankStatementEntryType → CashDirection → Bool
is_compatible credit inflow = true
is_compatible debit outflow = true
is_compatible _ _ = false

abbrev pub is_posted : TransactionStatus → Bool
is_posted posted = true
is_posted _ = false

-- The date window and the amount band, with the subtractions moved to the other side. A tolerance
-- of `pct` thousandths of a percent of an amount is `amount * pct / 100000`.
abbrev pub in_window : ℕ → ℕ → ℕ → Bool
in_window bank_date days date = leb bank_date (date + days) && leb date (bank_date + days)

abbrev pub in_band : ℕ → ℕ → ℕ → Bool
in_band bank_amount pct amount =
    leb (bank_amount * 100000) (amount * 100000 + bank_amount * pct)
    && leb (amount * 100000) (bank_amount * 100000 + bank_amount * pct)

unfoldable pub is_candidate : BankTransaction → ℕ → ℕ → List ℕ → LedgerTransaction → Bool
is_candidate b days pct excluded t =
    t.legal_entity_id == b.legal_entity_id
    && same_key t.bank_account_id (some b.bank_account_id)
    && t.transaction_currency_code == b.currency_code
    && is_compatible b.entry_type t.direction
    && is_posted t.status
    && in_window b.transaction_date days t.event_date
    && in_band b.amount pct t.transaction_amount
    && not (contains t.id excluded)

unfoldable pub generate_candidates :
    Store → BankTransaction → ℕ → ℕ → List ℕ → List LedgerTransaction
unfolding is_candidate
generate_candidates s b days pct excluded = filter (is_candidate b days pct excluded) s.ledgers
