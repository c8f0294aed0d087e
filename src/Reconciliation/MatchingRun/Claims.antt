-- ===== src/Reconciliation/MatchingRun/Claims.antt =====
-- What one pass of a run adds, and what its set of claimed ledger rows comes to: the rows that the
-- pass adds are flushed after its loop, so the query for what a bank transaction has just claimed
-- does not see them.
use treasury_os_app.Base.{
  ℕ, ◌≡◌, refl, sym, ap, ◌∙◌, subst, true, false, Option, List, [], ◌∷◌, ◌++◌, arith, All, In,
  All-In, All-In_self, All-filter, filter-All, All-map_P, sort_by-All, inl, inr, filter,
  filter-none, collect, contains, collect-append,
}
use mathlib.Core.List.{append_assoc, append-nil}
use treasury_os_app.Text.{Unicode}
use treasury_os_app.Reconciliation.Records.{
  MatchSuggestion, BankTransaction, LedgerTransaction, ReconciliationConfiguration,
}
use treasury_os_app.Reconciliation.Store.{Store}
use treasury_os_app.Reconciliation.Candidates.{
  already_claimed_treasury_transaction_ids, is_candidate,
}
use treasury_os_app.Reconciliation.Engine.{
  MatchingRunResult, no_result, is_of, bank_transaction_already_processed,
  run_matching_for_bank_transaction, amount_tolerance, date_tolerance,
}
use treasury_os_app.Reconciliation.Engine.Eligible.{
  Grows, Grows-refl, Grows-trans, IsProposal, run_matching_for_bank_transaction-Grows,
}
use treasury_os_app.Reconciliation.Engine.Singles.{
  selected, Selects, choice, choice-pending, run_matching_for_bank_transaction-Selects,
}
use treasury_os_app.Reconciliation.MatchingRun.{
  RunScope, in_scope, dated_before, scope_transactions, add_results, newly_claimed, claim_single,
  match_all, flush, run_matching_for_run,
}

-- What is in the first list is in the second.
abbrev Within : List ℕ → List ℕ → Type 0
Within xs ys = (k : ℕ) → contains k ys ≡ false → contains k xs ≡ false

claim_single-Within :
    (first xs claimed : List ℕ) → Within first claimed → Within first (claim_single xs claimed)
claim_single-Within first [] claimed w k h = w k h
claim_single-Within first (x ∷ []) claimed w k h = w k (ground arith)
claim_single-Within first (x ∷ y ∷ xs) claimed w k h = w k h

is_candidate-Within :
    (b : BankTransaction) (days pct : ℕ) (first claimed : List ℕ) (t : LedgerTransaction)
    → Within first claimed
    → is_candidate b days pct claimed t ≡ true
    → is_candidate b days pct first t ≡ true
unfolding is_candidate
is_candidate-Within b days pct first claimed t w h =
    let out : contains t.id claimed ≡ false = ground arith in let out' = w t.id out in ground arith

-- A proposal from a later store with the same ledger and more claims is one from the first.
IsProposal-Within :
    (u : Unicode) (s t : Store) (run_id : ℕ) (b : BankTransaction)
    (c : Option ReconciliationConfiguration) (first claimed : List ℕ) (g : MatchSuggestion)
    → t.ledgers ≡ s.ledgers
    → Within first claimed
    → IsProposal u t run_id b c claimed g
    → IsProposal u s run_id b c first g
unfolding IsProposal
IsProposal-Within u s t run_id b c first claimed g e w (r, k, p, inl nothing) =
    (r, k, p, inl nothing)
IsProposal-Within u s t run_id b c first claimed g e w
      (r, k, p, inr (x, score, m, q, scored, big, id, confidence)) =
    let q' = is_candidate-Within b (date_tolerance c) (amount_tolerance c) first claimed x w q in
    (r, k, p, inr (x, score, rw (sym e) m, q', scored, big, id, confidence))

-- The suggestions of a pass over some bank transactions.
abbrev pub IsProposalFor :
    Unicode
    → Store
    → ℕ
    → Option ReconciliationConfiguration
    → List ℕ
    → (BankTransaction → Type 0)
    → MatchSuggestion
    → Type 0
IsProposalFor u s run_id c claimed P g =
    (b : BankTransaction) × P b × IsProposal u s run_id b c claimed g

match_all-Grows :
    (u : Unicode) (run_id : ℕ) (c : Option ReconciliationConfiguration) (s : Store)
    (first claimed : List ℕ) (P : BankTransaction → Type 0) (bs : List BankTransaction)
    (total : MatchingRunResult) (t : Store)
    → t.ledgers ≡ s.ledgers
    → Within first claimed
    → All P bs
    → Grows (IsProposalFor u s run_id c first P) t (match_all u run_id c bs claimed (total, t)).1
unfolding match_all
match_all-Grows u run_id c s first claimed P [] total t e w h =
    Grows-refl (IsProposalFor u s run_id c first P) t
match_all-Grows u run_id c s first claimed P (b ∷ bs) total t e w h =
    let (result, t') = run_matching_for_bank_transaction u t run_id b c claimed in
    let (added, n, e', all) = run_matching_for_bank_transaction-Grows u t run_id b c claimed in
    let next = claim_single (newly_claimed t' run_id b.id) claimed in
    let Q = IsProposalFor u s run_id c first P in
    Grows-trans Q t t' (match_all u run_id c bs next (add_results total result, t')).1
      (
        added,
        n,
        e',
        All-map_P (IsProposal u t run_id b c claimed) Q added
            (λ g p. (b, h.0, IsProposal-Within u s t run_id b c first claimed g e w p)) all,
      )
      (match_all-Grows u run_id c s first next P bs (add_results total result) t'
        (ap (λ (r : Store). r.ledgers) e' ∙ e)
        (claim_single-Within first (newly_claimed t' run_id b.id) claimed w) h.1)

scope_transactions-InScope :
    (r : RunScope) (banks : List BankTransaction)
    → All (λ (b : BankTransaction). In b banks × (in_scope r b ≡ true)) (scope_transactions r banks)
unfolding scope_transactions
scope_transactions-InScope r banks =
    let found = filter (in_scope r) banks in
    sort_by-All (λ (b : BankTransaction). In b banks × (in_scope r b ≡ true)) dated_before found
      (All-map_P (λ b. In b found) (λ (b : BankTransaction). In b banks × (in_scope r b ≡ true))
        found
        (λ b m. (
          All-In (λ x. In x banks) found
              (All-filter (λ x. In x banks) (in_scope r) banks (All-In_self banks)) m,
          All-In (λ x. in_scope r x ≡ true) found (filter-All (in_scope r) banks) m,
        ))
        (All-In_self found))

-- The store after a pass: the pending suggestions and new ones, which all satisfy `P`, are stored.
abbrev pub Stores : (MatchSuggestion → Type 0) → Store → Store → Type 0
Stores P s t =
    (added : List MatchSuggestion) × (n : ℕ) × (t
      ≡ record s { suggestions = s.suggestions ++ (s.pending ++ added); pending = []; next_id = n })
    × All P added

-- A pass of a run writes nothing but suggestions, and leaves none pending. Each that it adds is of the
-- run and awaits a decision; it is for a bank transaction of the table that is active, of the run's
-- entity and account and dated in its period; and it has no ledger side, or is for a ledger row that
-- passes the candidate query for that transaction, in no live suggestion of the entity before the
-- pass, with the row's score, of 40 or more, as its confidence.
run_matching_for_run-Stores :
    (u : Unicode) (s : Store) (run_id : ℕ) (r : RunScope) (c : Option ReconciliationConfiguration)
    → Stores
        (IsProposalFor u s run_id c
          (already_claimed_treasury_transaction_ids s r.legal_entity_id)
          (λ b. In b s.banks × (in_scope r b ≡ true)))
        s
        (run_matching_for_run u s run_id r c).1
unfolding run_matching_for_run
run_matching_for_run-Stores u s run_id r c =
    let first = already_claimed_treasury_transaction_ids s r.legal_entity_id in
    let (added, n, e, all) =
      match_all-Grows u run_id c s first first (λ b. In b s.banks × (in_scope r b ≡ true))
        (scope_transactions r s.banks) no_result s refl (λ k h. h)
        (scope_transactions-InScope r s.banks) in
    (added, n, ap flush e, all)

-- the first store with other pending suggestions
abbrev Pends : Store → Store → Type 0
Pends s t = t ≡ record s { pending = t.pending; next_id = t.next_id }

Pends-next :
    (s t t' : Store) (p : List MatchSuggestion) (n : ℕ)
    → Pends s t
    → t' ≡ record t { pending = p; next_id = n }
    → Pends s t'
Pends-next s t t' p n e e' =
    let known = e' ∙ ap (λ (r : Store). record r { pending = p; next_id = n }) e in
    known ∙ sym (ap (λ (r : Store). record s { pending = r.pending; next_id = r.next_id }) known)

newly_claimed_none :
    (s t : Store) (run_id bank_id : ℕ)
    → Pends s t
    → bank_transaction_already_processed s run_id bank_id ≡ false
    → newly_claimed t run_id bank_id ≡ []
unfolding newly_claimed bank_transaction_already_processed
newly_claimed_none s t run_id bank_id e fresh =
    ap (λ (r : Store). newly_claimed r run_id bank_id) e
    ∙ rw (filter-none (is_of run_id bank_id) s.suggestions fresh) refl

choices :
    Unicode
    → Store
    → ℕ
    → Option ReconciliationConfiguration
    → List ℕ
    → List BankTransaction
    → List ℕ
choices u s run_id c claimed [] = []
choices u s run_id c claimed (b ∷ bs) =
    choice u s run_id b c claimed ++ choices u s run_id c claimed bs

Selects-trans :
    (xs ys : List ℕ) (s t u : Store) → Selects xs s t → Selects ys t u → Selects (xs ++ ys) s u
Selects-trans xs ys s t u (first, n, e, h) (second, m, e', k) = (
  first ++ second,
  m,
  e'
      ∙ (ap (λ (r : Store). record r { pending = r.pending ++ second; next_id = m }) e
          ∙ ap (λ (l : List MatchSuggestion). record s { pending = l; next_id = m })
              (append_assoc s.pending first second)),
  collect-append selected first second ∙ rw h (rw k refl),
)

match_all-Selects :
    (u : Unicode) (run_id : ℕ) (c : Option ReconciliationConfiguration) (s : Store)
    (claimed : List ℕ) (bs : List BankTransaction) (total : MatchingRunResult) (t : Store)
    → Pends s t
    → All (λ (b : BankTransaction). bank_transaction_already_processed s run_id b.id ≡ false) bs
    → Selects (choices u s run_id c claimed bs) t (match_all u run_id c bs claimed (total, t)).1
unfolding match_all choices
match_all-Selects u run_id c s claimed [] total t e h = (
  [],
  t.next_id,
  ap (λ (l : List MatchSuggestion). record t { pending = l }) (sym (append-nil t.pending)),
  refl,
)
match_all-Selects u run_id c s claimed (b ∷ bs) total t e h =
    let (result, t') = run_matching_for_bank_transaction u t run_id b c claimed in
    let (added, n, e', sel) = run_matching_for_bank_transaction-Selects u t run_id b c claimed in
    let after = Pends-next s t t' (t.pending ++ added) n e e' in
    let same : choice u t run_id b c claimed ≡ choice u s run_id b c claimed =
      ap (λ (r : Store). choice u r run_id b c claimed) e
      ∙ choice-pending u s t.pending t.next_id run_id b c claimed in
    subst
      (λ (ks : List ℕ).
        Selects (choice u s run_id b c claimed ++ choices u s run_id c claimed bs) t
          (match_all u run_id c bs (claim_single ks claimed) (add_results total result, t')).1)
      (sym (newly_claimed_none s t' run_id b.id after h.0))
      (Selects-trans (choice u s run_id b c claimed) (choices u s run_id c claimed bs) t t'
        (match_all u run_id c bs claimed (add_results total result, t')).1
        (added, n, e', sel ∙ same)
        (match_all-Selects u run_id c s claimed bs (add_results total result) t' after h.1))

-- the ledger rows that the engine selects for a bank transaction with nothing pending
abbrev pub alone :
    Unicode → Store → ℕ → Option ReconciliationConfiguration → List ℕ → BankTransaction → List ℕ
alone u s run_id c claimed b =
    collect selected
      (run_matching_for_bank_transaction u (record s { pending = [] }) run_id b c claimed).1.pending

abbrev pub each_alone :
    Unicode
    → Store
    → ℕ
    → Option ReconciliationConfiguration
    → List ℕ
    → List BankTransaction
    → List ℕ
each_alone u s run_id c claimed [] = []
each_alone u s run_id c claimed (b ∷ bs) =
    alone u s run_id c claimed b ++ each_alone u s run_id c claimed bs

alone-choice :
    (u : Unicode) (s : Store) (run_id : ℕ) (c : Option ReconciliationConfiguration)
    (claimed : List ℕ) (b : BankTransaction)
    → alone u s run_id c claimed b ≡ choice u s run_id b c claimed
alone-choice u s run_id c claimed b =
    let (added, n, e, sel) =
      run_matching_for_bank_transaction-Selects u (record s { pending = [] }) run_id b c claimed in
    ap (λ (r : Store). collect selected r.pending) e
    ∙ (sel ∙ choice-pending u s [] s.next_id run_id b c claimed)

each_alone-choices :
    (u : Unicode) (s : Store) (run_id : ℕ) (c : Option ReconciliationConfiguration)
    (claimed : List ℕ) (bs : List BankTransaction)
    → each_alone u s run_id c claimed bs ≡ choices u s run_id c claimed bs
unfolding choices
each_alone-choices u s run_id c claimed [] = refl
each_alone-choices u s run_id c claimed (b ∷ bs) =
    rw (alone-choice u s run_id c claimed b) (rw (each_alone-choices u s run_id c claimed bs) refl)

-- A run without suggestions for the bank transactions of its scope selects for each of them the
-- ledger row that it selects for that one alone, on the claims from before the pass: a row that it
-- selects for one bank transaction is not taken from those that come later.
run_matching_for_run-each_alone :
    (u : Unicode) (s : Store) (run_id : ℕ) (r : RunScope) (c : Option ReconciliationConfiguration)
    → All
        (λ (b : BankTransaction). bank_transaction_already_processed s run_id b.id ≡ false)
        (scope_transactions r s.banks)
    → collect selected (run_matching_for_run u s run_id r c).1.suggestions
      ≡ collect selected (s.suggestions ++ s.pending)
        ++ each_alone u s run_id c
            (already_claimed_treasury_transaction_ids s r.legal_entity_id)
            (scope_transactions r s.banks)
unfolding run_matching_for_run
run_matching_for_run-each_alone u s run_id r c fresh =
    let claimed = already_claimed_treasury_transaction_ids s r.legal_entity_id in
    let bs = scope_transactions r s.banks in
    let (added, n, e, sel) = match_all-Selects u run_id c s claimed bs no_result s refl fresh in
    ap (λ (t : Store). collect selected (t.suggestions ++ t.pending)) e
    ∙ (ap (λ (l : List MatchSuggestion). collect selected l)
          (sym (append_assoc s.suggestions s.pending added))
        ∙ (collect-append selected (s.suggestions ++ s.pending) added
            ∙ rw sel (rw (each_alone-choices u s run_id c claimed bs) refl)))

-- The first pass of a run, without suggestions of the run for the bank transactions of its scope,
-- writes nothing but suggestions and leaves none pending. Each that it adds is of the run, awaits a
-- decision, is for an active bank transaction of the run's entity, account and period, and has no
-- ledger side or is for a ledger row that passes the candidate query for that transaction, was in no
-- live suggestion of the entity before, and has its score, of 40 or more, as its confidence. The
-- ledger rows that it selects are those that it selects for each bank transaction alone, so that a
-- row selected for one is not kept from the later ones.
pub run_matching_for_run-first :
    (u : Unicode) (s : Store) (run_id : ℕ) (r : RunScope) (c : Option ReconciliationConfiguration)
    → All
        (λ (b : BankTransaction). bank_transaction_already_processed s run_id b.id ≡ false)
        (scope_transactions r s.banks)
    → Stores
        (IsProposalFor u s run_id c
          (already_claimed_treasury_transaction_ids s r.legal_entity_id)
          (λ b. In b s.banks × (in_scope r b ≡ true)))
        s
        (run_matching_for_run u s run_id r c).1
      × (collect selected (run_matching_for_run u s run_id r c).1.suggestions
          ≡ collect selected (s.suggestions ++ s.pending)
            ++ each_alone u s run_id c
                (already_claimed_treasury_transaction_ids s r.legal_entity_id)
                (scope_transactions r s.banks))
run_matching_for_run-first u s run_id r c fresh = (
  run_matching_for_run-Stores u s run_id r c,
  run_matching_for_run-each_alone u s run_id r c fresh,
)
