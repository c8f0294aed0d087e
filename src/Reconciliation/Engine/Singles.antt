-- ===== src/Reconciliation/Engine/Singles.antt =====
-- What the engine selects for a bank transaction: the suggestions that it adds with a tier.
use treasury_os_app.Base.{
  ℕ, suc, ◌≡◌, refl, inl, inr, Option, none, some, List, [], ◌∷◌, ◌++◌, Bool-cases, All,
  if◌then◌else◌, collect, filter, length, ltb,
}
use treasury_os_app.Text.{Unicode}
use treasury_os_app.Reconciliation.Records.{
  MatchSuggestion, SuggestionReason, no_candidate, tied_at, tiered, BankTransaction,
  ReconciliationConfiguration,
}
use treasury_os_app.Reconciliation.Store.{Store}
use treasury_os_app.Reconciliation.Candidates.{generate_candidates}
use treasury_os_app.Reconciliation.Engine.{
  Scored, rank, existing_suggestion, add_suggestion, add_tied, suggest_none, suggest_top, suggest,
  tied_with, match_type_of, bank_transaction_already_processed, run_matching_for_bank_transaction,
  high_value_of,
}
use treasury_os_app.Reconciliation.Engine.Eligible.{Grows, Grows-refl, add_tied-Grows, rows}

-- The ledger row that a suggestion selects: the engine gives a tier to a selected row alone.
abbrev pub selected_by : Option SuggestionReason → Option ℕ → Option ℕ
selected_by (some (tiered _ _)) k = k
selected_by (some no_candidate) k = none
selected_by (some (tied_at _ _ _)) k = none
selected_by none k = none

abbrev pub selected : MatchSuggestion → Option ℕ
selected g = selected_by g.reason g.treasury_id

-- Rows were added to the pending suggestions, and the ledger rows that they select are these.
abbrev pub Selects : List ℕ → Store → Store → Type 0
Selects ks s t =
    (added : List MatchSuggestion) × (n : ℕ) × (t
      ≡ record s { pending = s.pending ++ added; next_id = n })
    × (collect selected added ≡ ks)

-- The ledger row that the engine selects for a bank transaction: a single top candidate, if the run
-- has no stored suggestion for the transaction.
abbrev pub top_choice : ℕ → BankTransaction → List Scored → Store → List ℕ
top_choice run_id b [] s = []
top_choice run_id b (x ∷ rest) s =
    if ltb 1 (length (filter (tied_with x.0.total) (x ∷ rest)))
    then []
    else if existing_suggestion s run_id b.id (some x.1.id)
    then []
    else x.1.id ∷ []

abbrev pub choice :
    Unicode → Store → ℕ → BankTransaction → Option ReconciliationConfiguration → List ℕ → List ℕ
choice u s run_id b c claimed =
    if bank_transaction_already_processed s run_id b.id
    then []
    else top_choice run_id b (rank u b (rows u s run_id b c claimed)) s

abbrev Unselected : MatchSuggestion → Type 0
Unselected g = selected g ≡ none

none_selected : (xs : List MatchSuggestion) → All Unselected xs → collect selected xs ≡ []
none_selected [] h = refl
none_selected (x ∷ xs) h = rw h.0 (none_selected xs h.1)

Unselected-Selects : (s t : Store) → Grows Unselected s t → Selects [] s t
Unselected-Selects s t (added, n, e, h) = (added, n, e, none_selected added h)

suggest_none-Grows-Unselected :
    (run_id : ℕ) (b : BankTransaction) (n : ℕ) (s : Store)
    → Grows Unselected s (suggest_none run_id b n s).1
unfolding suggest_none add_suggestion
suggest_none-Grows-Unselected run_id b n s =
    elim (Bool-cases (existing_suggestion s run_id b.id none)) [
      | inl old ↦ rw old (Grows-refl Unselected s)
      | inr new ↦ rw new (_ ∷ [], suc s.next_id, refl, (refl, tt))
    ]

add-Unselected :
    (run_id : ℕ) (b : BankTransaction) (count top : ℕ) (t : Store) (x : Scored)
    → Grows Unselected t (
        add_suggestion run_id b
          (some x.1.id)
          (some (match_type_of x.0))
          (some x.0.total)
          (tied_at count top x.0.reason_parts)
          t)
unfolding add_suggestion
add-Unselected run_id b count top t x = (_ ∷ [], suc t.next_id, refl, (refl, tt))

All-units : (xs : List Scored) → All (λ _. Unit {0}) xs
All-units [] = tt
All-units (x ∷ xs) = (tt, All-units xs)

tied-Unselected :
    (run_id : ℕ) (b : BankTransaction) (s : Store) (count top : ℕ) (xs : List Scored)
    → Grows Unselected s (add_tied run_id b count top xs (0, s)).1
tied-Unselected run_id b s count top xs =
    add_tied-Grows Unselected (λ _. Unit {0}) run_id b count top
      (λ t x _. add-Unselected run_id b count top t x) xs 0 s (All-units xs)

suggest_top-Selects :
    (run_id : ℕ) (b : BankTransaction) (high : Option ℕ) (n : ℕ) (x : Scored) (s : Store)
    → Selects
        (if existing_suggestion s run_id b.id (some x.1.id) then [] else x.1.id ∷ [])
        s
        (suggest_top run_id b high n x s).1
unfolding suggest_top add_suggestion
suggest_top-Selects run_id b high n (score, r) s =
    elim (Bool-cases (existing_suggestion s run_id b.id (some r.id))) [
      | inl old ↦ rw old (Unselected-Selects s s (Grows-refl Unselected s))
      | inr new ↦ rw new (_ ∷ [], suc s.next_id, refl, refl)
    ]

suggest-Selects :
    (run_id : ℕ) (b : BankTransaction) (high : Option ℕ) (n : ℕ) (xs : List Scored) (s : Store)
    → Selects (top_choice run_id b xs s) s (suggest run_id b high n xs s).1
unfolding suggest
suggest-Selects run_id b high n [] s =
    Unselected-Selects s (suggest_none run_id b n s).1 (suggest_none-Grows-Unselected run_id b n s)
suggest-Selects run_id b high n ((score, r) ∷ rest) s =
    let tied = filter (tied_with score.total) ((score, r) ∷ rest) in
    elim (Bool-cases (ltb 1 (length tied))) [
      | inl several ↦ rw several (
          Unselected-Selects s (add_tied run_id b (length tied) score.total tied (0, s)).1
            (tied-Unselected run_id b s (length tied) score.total tied))
      | inr single ↦ rw single (suggest_top-Selects run_id b high n (score, r) s)
    ]

-- One bank transaction selects the row that is chosen for it, if there is one.
pub run_matching_for_bank_transaction-Selects :
    (u : Unicode) (s : Store) (run_id : ℕ) (b : BankTransaction)
    (c : Option ReconciliationConfiguration) (claimed : List ℕ)
    → Selects
        (choice u s run_id b c claimed)
        s
        (run_matching_for_bank_transaction u s run_id b c claimed).1
unfolding run_matching_for_bank_transaction
run_matching_for_bank_transaction-Selects u s run_id b c claimed =
    let rs = rows u s run_id b c claimed in
    elim (Bool-cases (bank_transaction_already_processed s run_id b.id)) [
      | inl done ↦ rw done (Unselected-Selects s s (Grows-refl Unselected s))
      | inr fresh ↦
          rw fresh (suggest-Selects run_id b (high_value_of c) (length rs) (rank u b rs) s)
    ]

top_choice-pending :
    (run_id : ℕ) (b : BankTransaction) (xs : List Scored) (s : Store) (p : List MatchSuggestion)
    (n : ℕ)
    → top_choice run_id b xs (record s { pending = p; next_id = n }) ≡ top_choice run_id b xs s
unfolding existing_suggestion
top_choice-pending run_id b [] s p n = refl
top_choice-pending run_id b (x ∷ rest) s p n = refl

-- The choice does not depend on what is pending.
pub choice-pending :
    (u : Unicode) (s : Store) (p : List MatchSuggestion) (n run_id : ℕ) (b : BankTransaction)
    (c : Option ReconciliationConfiguration) (claimed : List ℕ)
    → choice u (record s { pending = p; next_id = n }) run_id b c claimed
      ≡ choice u s run_id b c claimed
unfolding bank_transaction_already_processed generate_candidates
choice-pending u s p n run_id b c claimed =
    rw (top_choice-pending run_id b (rank u b (rows u s run_id b c claimed)) s p n) refl
