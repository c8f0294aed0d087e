-- ===== src/Reconciliation/Exceptions/BankSide.antt =====
-- Which bank rows become exceptions: every active row of the run's scope is either covered by a
-- proposal or the subject of an item.
use treasury_os_app.Base.{
  ℕ, ◌≡◌, refl, ◌∙◌, ◌⊎◌, inl, inr, Bool, true, false, ◌&&◌, ◌||◌, Option, none, some, List, [],
  ◌∷◌, ◌++◌, map, ◌==◌, same_key, arith, Bool-cases, Option-cases, any, any-append, any-collect, In,
  In-any, ==_refl, holds, filter, collect, sort_by,
}
use treasury_os_app.Reconciliation.Records.{
  BankTransaction, LedgerTransaction, ReconciliationRun, MatchGroup, MatchSuggestion,
}
use treasury_os_app.Reconciliation.Store.{Evidence}
use treasury_os_app.Reconciliation.Derivation.{
  ItemSpec, scope_of, is_auto_match_tier, is_ambiguous, covered_elsewhere, real_by_bank,
  bank_in_live_group, bank_in_ambiguous_group,
}
use treasury_os_app.Reconciliation.MatchingRun.{scope_transactions}
use treasury_os_app.Reconciliation.Exceptions.{
  is_accepted, ledger_of, review_spec, candidates_spec, bank_spec, group_spec, ledger_spec,
  threshold_of, run_configuration, raw_specs, posted_before, is_unmatched_ledger,
  derive_open_item_specs,
}
use treasury_os_app.Reconciliation.Exceptions.Keys.{KeyTest, on_spec, any-add_all}

-- keys that name the bank row
abbrev pub bank_key : ℕ → KeyTest
bank_key k category bank_id treasury_id = same_key bank_id (some k)

-- An item of a bank row names the row.
abbrev pub NamesBank : ℕ → Option ItemSpec → Type 0
NamesBank k none = Unit
NamesBank k (some x) = x.source_key.bank_id ≡ some k

review_spec-NamesBank :
    (s : Evidence) (threshold : Option ℕ) (b : BankTransaction) (g : MatchSuggestion)
    (o : Option LedgerTransaction)
    → NamesBank b.id (review_spec s threshold b g o)
unfolding review_spec
review_spec-NamesBank s threshold b g none = tt
review_spec-NamesBank s threshold b g (some t) = ground arith

candidates_spec-NamesBank :
    (s : Evidence) (run : ReconciliationRun) (threshold : Option ℕ) (b : BankTransaction)
    (gs : List MatchSuggestion)
    → NamesBank b.id (candidates_spec s run threshold b gs)
unfolding candidates_spec
candidates_spec-NamesBank s run threshold b [] = refl
candidates_spec-NamesBank s run threshold b (g ∷ []) =
    elim (Bool-cases (is_accepted g.status || is_auto_match_tier g.confidence g.reason)) [
      | inl e ↦ rw e tt
      | inr e ↦ rw e (review_spec-NamesBank s threshold b g (ledger_of s g.treasury_id))
    ]
candidates_spec-NamesBank s run threshold b (g ∷ h ∷ gs) = refl

pub bank_spec-NamesBank :
    (s : Evidence) (run : ReconciliationRun) (threshold : Option ℕ) (b : BankTransaction)
    → NamesBank b.id (bank_spec s run threshold b)
unfolding bank_spec
bank_spec-NamesBank s run threshold b =
    elim (Bool-cases (bank_in_live_group s run b.id || bank_in_ambiguous_group s run b.id)) [
      | inl e ↦ rw e tt
      | inr e ↦ elim (Bool-cases (covered_elsewhere s run b.id)) [
        | inl c ↦ rw (e, c) tt
        | inr c ↦ rw (e, c) (candidates_spec-NamesBank s run threshold b (real_by_bank s run b.id))
      ]
    ]

-- One live candidate that is decided or awaits a decision, or whose ledger row is gone.
abbrev pub IsProposed : Evidence → List MatchSuggestion → Type 0
IsProposed s gs =
    (g : MatchSuggestion) × (gs ≡ g ∷ [])
    × (((is_accepted g.status || is_auto_match_tier g.confidence g.reason) ≡ true)
        ⊎ (ledger_of s g.treasury_id ≡ none))

-- Why a bank row has no item of its own: a live group or an ambiguous group of the run has it, a
-- live proposal of another run covers it, or it has one live candidate that is accepted or of the
-- auto-match tier, or whose ledger row is gone.
abbrev pub IsCovered : Evidence → ReconciliationRun → BankTransaction → Type 0
IsCovered s run b =
    ((bank_in_live_group s run b.id || bank_in_ambiguous_group s run b.id) ≡ true)
    ⊎ ((covered_elsewhere s run b.id ≡ true) ⊎ IsProposed s (real_by_bank s run b.id))

review_spec-some :
    (s : Evidence) (threshold : Option ℕ) (b : BankTransaction) (g : MatchSuggestion)
    (t : LedgerTransaction)
    → (x : ItemSpec) × (review_spec s threshold b g (some t) ≡ some x)
unfolding review_spec
review_spec-some s threshold b g t = (_, refl)

candidates_spec-some :
    (s : Evidence) (run : ReconciliationRun) (threshold : Option ℕ) (b : BankTransaction)
    (gs : List MatchSuggestion)
    → IsProposed s gs ⊎ ((x : ItemSpec) × (candidates_spec s run threshold b gs ≡ some x))
unfolding candidates_spec
candidates_spec-some s run threshold b [] = inr (_, refl)
candidates_spec-some s run threshold b (g ∷ []) =
    elim (Bool-cases (is_accepted g.status || is_auto_match_tier g.confidence g.reason)) [
      | inl e ↦ inl (g, refl, inl e)
      | inr e ↦ elim (Option-cases (ledger_of s g.treasury_id)) [
        | inl gone ↦ inl (g, refl, inr gone)
        | inr (t, row) ↦ let (x, q) = review_spec-some s threshold b g t in inr (x, rw (e, row) q)
      ]
    ]
candidates_spec-some s run threshold b (g ∷ h ∷ gs) = inr (_, refl)

bank_spec-some :
    (s : Evidence) (run : ReconciliationRun) (threshold : Option ℕ) (b : BankTransaction)
    → IsCovered s run b ⊎ ((x : ItemSpec) × (bank_spec s run threshold b ≡ some x))
unfolding bank_spec
bank_spec-some s run threshold b =
    elim (Bool-cases (bank_in_live_group s run b.id || bank_in_ambiguous_group s run b.id)) [
      | inl e ↦ inl (inl e)
      | inr e ↦ elim (Bool-cases (covered_elsewhere s run b.id)) [
        | inl c ↦ inl (inr (inl c))
        | inr c ↦ elim (candidates_spec-some s run threshold b (real_by_bank s run b.id)) [
          | inl p ↦ inl (inr (inr p))
          | inr (x, q) ↦ inr (x, rw (e, c) q)
        ]
      ]
    ]

NamesBank-key :
    (k : ℕ) (o : Option ItemSpec) (x : ItemSpec)
    → NamesBank k o
    → o ≡ some x
    → holds (on_spec (bank_key k)) o ≡ true
NamesBank-key k none x h e = cc
NamesBank-key k (some y) x h e = rw h (==_refl k)

any_middle :
    (p : ItemSpec → Bool) (xs ys zs : List ItemSpec)
    → any p ys ≡ true
    → (any p (xs ++ (ys ++ zs)) || false) ≡ true
any_middle p xs ys zs h = ground (arith, any-append p xs (ys ++ zs), any-append p ys zs)

-- Nothing is hidden: an active bank row of the run's entity, account and period is covered by a
-- proposal or the run's exceptions have an item that names it.
pub derive-bank_accounted :
    (s : Evidence) (run : ReconciliationRun) (b : BankTransaction)
    → In b (scope_transactions (scope_of run) s.banks)
    → IsCovered s run b ⊎ (any (on_spec (bank_key b.id)) (derive_open_item_specs s run) ≡ true)
unfolding derive_open_item_specs raw_specs
derive-bank_accounted s run b m =
    let threshold = threshold_of (run_configuration s run) in
    let p = on_spec (bank_key b.id) in
    let banks = scope_transactions (scope_of run) s.banks in
    elim (bank_spec-some s run threshold b) [
      | inl c ↦ inl c
      | inr (x, e) ↦
          let found =
            any-collect p (bank_spec s run threshold) banks
            ∙ In-any (λ y. holds p (bank_spec s run threshold y)) banks b m
                (NamesBank-key b.id (bank_spec s run threshold b) x
                  (bank_spec-NamesBank s run threshold b) e) in
          let ledgers =
            map (ledger_spec s run threshold)
              (sort_by posted_before (filter (is_unmatched_ledger s run) s.ledgers)) in
          inr (
            any-add_all (bank_key b.id) (raw_specs s run) []
            ∙ any_middle p
                (collect (group_spec s run threshold) (
                  filter (λ (g : MatchGroup). g.run_id == run.id && is_ambiguous g.status)
                    s.groups))
                (collect (bank_spec s run threshold) banks) ledgers found)
    ]
