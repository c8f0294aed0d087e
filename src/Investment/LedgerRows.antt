-- ===== src/Investment/LedgerRows.antt =====
-- Transactions of investments that are linked to rows of the cash ledger
-- (backend/app/services/investment_service.py: `_create_cash_transaction` and its callers).
use treasury_os_app.Base.{
  ℕ, ◌+◌, ◌<◌, ◌≡◌, refl, true, false, Option, none, some, List, [], ◌∷◌, ◌==◌, arith, filter, All,
  ◌⊎◌,
}
use treasury_os_app.Investment.Records.{InvestmentTransaction, CashMovement, InvestmentStore}

abbrev pub rows_of : ℕ → List CashMovement → List CashMovement
rows_of k ms = filter (λ (m : CashMovement). m.id == k) ms

-- The row is about the transaction's investment, or the one that it is related to.
abbrev pub SourceOf : CashMovement → InvestmentTransaction → Type 0
SourceOf m t =
    (m.source_record_id ≡ t.investment_id) ⊎ (some m.source_record_id ≡ t.related_investment_id)

-- One row of the ledger has the id that the transaction names, with its amount, its investment or the
-- related one, and its entity.
abbrev pub IsPaid : List CashMovement → InvestmentTransaction → Option ℕ → Type 0
IsPaid ms t none = Unit
IsPaid ms t (some k) =
    (m : CashMovement) × (rows_of k ms ≡ m ∷ [])
    × (m.amount ≡ t.amount)
    × SourceOf m t
    × (m.legal_entity_id ≡ t.legal_entity_id)

abbrev pub LinksBelow : ℕ → Option ℕ → Type 0
LinksBelow n none = Unit
LinksBelow n (some k) = k < n

-- Every linked transaction is paid by one row, and the next id is not in use.
abbrev pub IsReconciled : InvestmentStore → Type 0
IsReconciled s =
    All (λ (m : CashMovement). m.id < s.next_id) s.cash
    × All
        (λ (t : InvestmentTransaction).
          LinksBelow s.next_id t.cash_transaction_id × IsPaid s.cash t t.cash_transaction_id)
        s.transactions

pub no_rows :
    (n : ℕ) (ms : List CashMovement) → All (λ (m : CashMovement). m.id < n) ms → rows_of n ms ≡ []
no_rows n [] h = refl
no_rows n (m ∷ ms) h =
    let off : (m.id == n) ≡ false = ground (arith, h.0) in rw off (no_rows n ms h.1)

pub ids_below :
    (n : ℕ) (ms : List CashMovement)
    → All (λ (m : CashMovement). m.id < n) ms
    → All (λ (m : CashMovement). m.id < n + 1) ms
ids_below n [] h = tt
ids_below n (m ∷ ms) h = (omega arith, ids_below n ms h.1)

-- A new row leaves the links to earlier ones as they are.
IsPaid-before :
    (n : ℕ) (m : CashMovement) (ms : List CashMovement) (t : InvestmentTransaction) (o : Option ℕ)
    → m.id ≡ n
    → LinksBelow n o × IsPaid ms t o
    → LinksBelow (n + 1) o × IsPaid (m ∷ ms) t o
IsPaid-before n m ms t none e h = (tt, tt)
IsPaid-before n m ms t (some k) e (below, p) =
    let off : (m.id == k) ≡ false = ground (arith, below) in
    (omega arith, (p.0, rw off p.1, p.2, p.3, p.4))

All-IsPaid :
    (n : ℕ) (m : CashMovement) (ms : List CashMovement) (ts : List InvestmentTransaction)
    → m.id ≡ n
    → All
        (λ (t : InvestmentTransaction).
          LinksBelow n t.cash_transaction_id × IsPaid ms t t.cash_transaction_id)
        ts
    → All
        (λ (t : InvestmentTransaction).
          LinksBelow (n + 1) t.cash_transaction_id × IsPaid (m ∷ ms) t t.cash_transaction_id)
        ts
All-IsPaid n m ms [] e h = tt
All-IsPaid n m ms (t ∷ ts) e h =
    (IsPaid-before n m ms t t.cash_transaction_id e h.0, All-IsPaid n m ms ts e h.1)

-- A transaction that is added together with its row of the ledger.
pub link-IsReconciled :
    (n : ℕ) (m : CashMovement) (t : InvestmentTransaction) (ms : List CashMovement)
    (ts : List InvestmentTransaction)
    → m.id ≡ n
    → t.cash_transaction_id ≡ some n
    → m.amount ≡ t.amount
    → SourceOf m t
    → m.legal_entity_id ≡ t.legal_entity_id
    → All (λ (m : CashMovement). m.id < n) ms
    → All
        (λ (t : InvestmentTransaction).
          LinksBelow n t.cash_transaction_id × IsPaid ms t t.cash_transaction_id)
        ts
    → All (λ (m : CashMovement). m.id < n + 1) (m ∷ ms)
      × All
          (λ (t : InvestmentTransaction).
            LinksBelow (n + 1) t.cash_transaction_id × IsPaid (m ∷ ms) t t.cash_transaction_id)
          (t ∷ ts)
link-IsReconciled n m t ms ts named linked amount source entity ids paid =
    let own : (m.id == n) ≡ true = ground (arith, named) in
    (
      (omega arith, ids_below n ms ids),
      (
        rw linked (omega arith, (m, rw own (rw (no_rows n ms ids) refl), amount, source, entity)),
        All-IsPaid n m ms ts named paid,
      ),
    )

pub later_ids :
    (n : ℕ) (ms : List CashMovement) (ts : List InvestmentTransaction)
    → All
        (λ (t : InvestmentTransaction).
          LinksBelow n t.cash_transaction_id × IsPaid ms t t.cash_transaction_id)
        ts
    → All
        (λ (t : InvestmentTransaction).
          LinksBelow (n + 1) t.cash_transaction_id × IsPaid ms t t.cash_transaction_id)
        ts
later_ids n ms [] h = tt
later_ids n ms (t ∷ ts) h = (later t.cash_transaction_id h.0, later_ids n ms ts h.1)
  where
    later : (o : Option ℕ) → LinksBelow n o × IsPaid ms t o → LinksBelow (n + 1) o × IsPaid ms t o
    later none h = h
    later (some k) h = (omega arith, h.1)
