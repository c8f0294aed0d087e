-- ===== src/Reconciliation/Engine/Eligible.antt =====
-- What the engine adds for a bank transaction: suggestions of that run and transaction alone, each
-- for an eligible ledger row with its score.
use treasury_os_app.Base.{
  ℕ, suc, ◌≤◌, ◌≡◌, refl, sym, ap, ◌∙◌, subst, ◌⊎◌, inl, inr, true, Option, none, some, List, [],
  ◌∷◌, ◌++◌, arith, Bool-cases, All, In, All-In, All-append, All-filter, filter-All, All-In_self,
  collect, collect-All, sort_by-All, filter, length, leb, ltb,
}
use mathlib.Core.Option.{some-injective}
use mathlib.Core.List.{append_assoc, append-nil}
use treasury_os_app.Text.{Unicode}
use treasury_os_app.Reconciliation.Records.{
  MatchSuggestion, MatchSuggestionStatus, MatchType, SuggestionReason, BankTransaction,
  LedgerTransaction, ReconciliationConfiguration, tied_at, tiered, no_candidate,
}
use treasury_os_app.Reconciliation.Store.{Store}
use treasury_os_app.Reconciliation.Scoring.{CandidateScore, score_candidate, review_threshold}
use treasury_os_app.Reconciliation.Candidates.{is_candidate, generate_candidates}
use treasury_os_app.Reconciliation.Engine.{
  Scored, score_input, scored_one, reaching, ranks_before, rank, existing_suggestion,
  add_suggestion, add_tied, suggest_none, suggest_top, suggest, tied_with, match_type_of, tier_of,
  bank_transaction_already_processed, run_matching_for_bank_transaction, amount_tolerance,
  date_tolerance, high_value_of,
}

-- Nothing changed but the pending suggestions, to whose end rows were added that all satisfy `P`.
abbrev pub Grows : (MatchSuggestion → Type 0) → Store → Store → Type 0
Grows P s t =
    (added : List MatchSuggestion) × (n : ℕ) × (t
      ≡ record s { pending = s.pending ++ added; next_id = n })
    × All P added

pub Grows-refl : (P : MatchSuggestion → Type 0) (s : Store) → Grows P s s
Grows-refl P s = (
  [],
  s.next_id,
  ap (λ (l : List MatchSuggestion). record s { pending = l }) (sym (append-nil s.pending)),
  tt,
)

pub Grows-trans :
    (P : MatchSuggestion → Type 0) (s t u : Store) → Grows P s t → Grows P t u → Grows P s u
Grows-trans P s t u (xs, n, e, h) (ys, m, e', k) = (
  xs ++ ys,
  m,
  e'
      ∙ (ap (λ (r : Store). record r { pending = r.pending ++ ys; next_id = m }) e
          ∙ ap (λ (l : List MatchSuggestion). record s { pending = l; next_id = m })
              (append_assoc s.pending xs ys)),
  All-append P xs ys h k,
)

-- The loop over tied candidates grows the store by rows that satisfy `P`, if each of its steps does.
pub add_tied-Grows :
    (P : MatchSuggestion → Type 0) (Q : Scored → Type 0) (run_id : ℕ) (b : BankTransaction)
    (count top : ℕ)
    → ((t : Store) (x : Scored)
        → Q x
        → Grows P t (
            add_suggestion run_id b
              (some x.1.id)
              (some (match_type_of x.0))
              (some x.0.total)
              (tied_at count top x.0.reason_parts)
              t))
    → (xs : List Scored) (n : ℕ) (t : Store) → All Q xs
    → Grows P t (add_tied run_id b count top xs (n, t)).1
unfolding add_tied
add_tied-Grows P Q run_id b count top step [] n t h = Grows-refl P t
add_tied-Grows P Q run_id b count top step ((score, r) ∷ rest) n t h =
    elim (Bool-cases (existing_suggestion t run_id b.id (some r.id))) [
      | inl old ↦ rw (old, add_tied) (add_tied-Grows P Q run_id b count top step rest n t h.1)
      | inr new ↦
          let t' =
            add_suggestion run_id b (some r.id) (some (match_type_of score)) (some score.total)
              (tied_at count top score.reason_parts) t in
          rw (new, add_tied)
            (Grows-trans P t t' (add_tied run_id b count top rest (suc n, t')).1
              (step t (score, r) h.0)
              (add_tied-Grows P Q run_id b count top step rest (suc n) t' h.1))
    ]

-- An eligible ledger row with its score.
abbrev pub IsScored : Unicode → BankTransaction → List LedgerTransaction → Scored → Type 0
IsScored u b rows x =
    In x.1 rows
    × (score_candidate u (score_input b x.1) ≡ some x.0)
    × (review_threshold ≤ x.0.total)

reaching-IsScored :
    (u : Unicode) (b : BankTransaction) (rows : List LedgerTransaction) (t : LedgerTransaction)
    (o : Option CandidateScore) (x : Scored)
    → In t rows
    → score_candidate u (score_input b t) ≡ o
    → reaching t o ≡ some x
    → IsScored u b rows x
reaching-IsScored u b rows t none x m q e = cc
reaching-IsScored u b rows t (some score) x m q e =
    elim (Bool-cases (leb review_threshold score.total)) [
      | inl big ↦
          subst (IsScored u b rows) (some-injective (score, t) x (rw big at e)) (m, q, ground arith)
      | inr small ↦ absurd (ground arith)
    ]

-- Every ranked candidate is an eligible row with its score.
pub rank-IsScored :
    (u : Unicode) (b : BankTransaction) (rows : List LedgerTransaction)
    → All (IsScored u b rows) (rank u b rows)
unfolding rank
rank-IsScored u b rows =
    sort_by-All (IsScored u b rows) ranks_before (collect (scored_one u b) rows) (
      collect-All (λ t. In t rows) (IsScored u b rows) (scored_one u b) rows
        (λ t x m e. reaching-IsScored u b rows t (score_candidate u (score_input b t)) x m refl e)
        (All-In_self rows))

-- A suggestion of the engine for a bank transaction: of this run and this transaction, awaiting a
-- decision, and either for no ledger row or for a row that passed the candidate query, with the
-- row's score as its confidence.
unfoldable pub IsProposal :
    Unicode
    → Store
    → ℕ
    → BankTransaction
    → Option ReconciliationConfiguration
    → List ℕ
    → MatchSuggestion
    → Type 0
IsProposal u s run_id b c claimed g =
    (g.run_id ≡ run_id)
    × (g.bank_id ≡ some b.id)
    × (g.status ≡ MatchSuggestionStatus.pending)
    × (((g.treasury_id ≡ none) × (g.confidence ≡ none))
        ⊎ ((t : LedgerTransaction) × (score : CandidateScore) × In t s.ledgers
            × (is_candidate b (date_tolerance c) (amount_tolerance c) claimed t ≡ true)
            × (score_candidate u (score_input b t) ≡ some score)
            × (review_threshold ≤ score.total)
            × (g.treasury_id ≡ some t.id)
            × (g.confidence ≡ some score.total)))

module _ (u : Unicode) (s : Store) (run_id : ℕ) (b : BankTransaction)
    (c : Option ReconciliationConfiguration) (claimed : List ℕ) where
  abbrev P : MatchSuggestion → Type 0
  P = IsProposal u s run_id b c claimed

  abbrev pub rows : List LedgerTransaction
  rows = generate_candidates s b (date_tolerance c) (amount_tolerance c) claimed

  pub row-eligible :
      (t : LedgerTransaction)
      → In t rows
      → In t s.ledgers × (is_candidate b (date_tolerance c) (amount_tolerance c) claimed t ≡ true)
  unfolding generate_candidates
  row-eligible t m = (
    All-In (λ x. In x s.ledgers) rows
        (All-filter (λ x. In x s.ledgers) _ s.ledgers (All-In_self s.ledgers)) m,
    All-In (λ x. is_candidate b (date_tolerance c) (amount_tolerance c) claimed x ≡ true) rows
        (filter-All (is_candidate b (date_tolerance c) (amount_tolerance c) claimed) s.ledgers) m,
  )

  add_suggestion-Grows :
      (t : Store) (treasury_id : Option ℕ) (m : Option MatchType) (confidence : Option ℕ)
      (reason : SuggestionReason)
      → P (record {
        id = t.next_id;
        run_id = run_id;
        bank_id = some b.id;
        treasury_id = treasury_id;
        match_type = m;
        confidence = confidence;
        status = MatchSuggestionStatus.pending;
        reason = some reason;
      })
      → Grows P t (add_suggestion run_id b treasury_id m confidence reason t)
  unfolding add_suggestion
  add_suggestion-Grows t treasury_id m confidence reason p = (_ ∷ [], suc t.next_id, refl, (p, tt))

  scored-IsProposal :
      (t : Store) (x : Scored) (m : Option MatchType) (reason : SuggestionReason)
      → IsScored u b rows x
      → Grows P t (add_suggestion run_id b (some x.1.id) m (some x.0.total) reason t)
  unfolding IsProposal
  scored-IsProposal t x m reason (here_it_is, scored, big) =
      let (known, eligible) = row-eligible x.1 here_it_is in
      add_suggestion-Grows t (some x.1.id) m (some x.0.total) reason
        (refl, refl, refl, inr (x.1, x.0, known, eligible, scored, big, refl, refl))

  suggest_none-Grows : (n : ℕ) (t : Store) → Grows P t (suggest_none run_id b n t).1
  unfolding suggest_none IsProposal
  suggest_none-Grows n t = elim (Bool-cases (existing_suggestion t run_id b.id none)) [
    | inl old ↦ rw old (Grows-refl P t)
    | inr new ↦
        rw new
          (add_suggestion-Grows t none none none no_candidate (refl, refl, refl, inl (refl, refl)))
  ]

  suggest_top-Grows :
      (high : Option ℕ) (n : ℕ) (x : Scored) (t : Store)
      → IsScored u b rows x
      → Grows P t (suggest_top run_id b high n x t).1
  unfolding suggest_top
  suggest_top-Grows high n (score, r) t h =
      elim (Bool-cases (existing_suggestion t run_id b.id (some r.id))) [
        | inl old ↦ rw old (Grows-refl P t)
        | inr new ↦ rw new (
            scored-IsProposal t (score, r) (some (match_type_of score))
              (tiered (tier_of high b score) score.reason_parts) h)
      ]

  suggest-Grows :
      (high : Option ℕ) (n : ℕ) (xs : List Scored) (t : Store)
      → All (IsScored u b rows) xs
      → Grows P t (suggest run_id b high n xs t).1
  unfolding suggest
  suggest-Grows high n [] t h = suggest_none-Grows n t
  suggest-Grows high n ((score, r) ∷ rest) t h =
      let tied = filter (tied_with score.total) ((score, r) ∷ rest) in
      elim (Bool-cases (ltb 1 (length tied))) [
        | inl several ↦ rw several (
            add_tied-Grows P (IsScored u b rows) run_id b (length tied) score.total
              (λ t' x.
                scored-IsProposal t' x (some (match_type_of x.0))
                  (tied_at (length tied) score.total x.0.reason_parts))
              tied 0 t
              (All-filter (IsScored u b rows) (tied_with score.total) ((score, r) ∷ rest) h))
        | inr single ↦ rw single (suggest_top-Grows high n (score, r) t h.0)
      ]

  -- The engine writes nothing but pending suggestions. It adds only suggestions of this run for
  -- this bank transaction, awaiting a decision, each without a ledger side or for a posted ledger row
  -- of the same entity, account and currency, in the compatible direction, within the tolerances and
  -- not claimed, with that row's score, of 40 or more, as its confidence.
  pub run_matching_for_bank_transaction-Grows :
      Grows P s (run_matching_for_bank_transaction u s run_id b c claimed).1
  unfolding run_matching_for_bank_transaction
  run_matching_for_bank_transaction-Grows =
      elim (Bool-cases (bank_transaction_already_processed s run_id b.id)) [
        | inl done ↦ rw done (Grows-refl P s)
        | inr fresh ↦ rw fresh (
            suggest-Grows (high_value_of c) (length rows) (rank u b rows) s
              (rank-IsScored u b rows))
      ]
