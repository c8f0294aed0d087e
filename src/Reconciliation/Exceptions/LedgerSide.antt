-- ===== src/Reconciliation/Exceptions/LedgerSide.antt =====
-- Which ledger rows become exceptions.
use treasury_os_app.Base.{
  ℕ, ◌≡◌, ◌↔◌, refl, sym, true, In, any-In, In-any, inl, inr, ◌∙◌, Bool, false, not, ◌&&◌, ◌||◌,
  Option, none, some, List, [], ◌++◌, map, ◌==◌, same_key, is_some, arith, Bool-cases, any,
  any-append, any-filter, any-map, any-collect, any-none, any-sort_by, holds, filter, sort_by,
  collect,
}
use treasury_os_app.Reconciliation.Records.{
  OpenItemCategory, BankTransaction, LedgerTransaction, ReconciliationRun, MatchGroup,
  MatchRelationshipType,
}
use treasury_os_app.Reconciliation.Store.{Evidence}
use treasury_os_app.Reconciliation.Derivation.{
  ItemSpec, scope_of, group_category, category_code, is_ambiguous,
}
use treasury_os_app.Reconciliation.MatchingRun.{scope_transactions}
use treasury_os_app.Reconciliation.Exceptions.{
  only, group_banks, is_many_to_one, bank_anchor, ledger_anchor, bank_spec, ledger_spec,
  is_unmatched_ledger, posted_before, group_spec, threshold_of, run_configuration, raw_specs,
  derive_open_item_specs,
}
use treasury_os_app.Reconciliation.Exceptions.Unmatched.{
  IsUnmatched, is_unmatched_ledger-IsUnmatched,
}
use treasury_os_app.Reconciliation.Exceptions.BankSide.{NamesBank, bank_spec-NamesBank}
use treasury_os_app.Reconciliation.Exceptions.Keys.{KeyTest, on_spec, any-add_all}

-- the key of the LEDGER_ONLY item of a ledger row
abbrev pub ledger_only_key : ℕ → KeyTest
ledger_only_key k category bank_id treasury_id =
    category == 1 && same_key bank_id none && same_key treasury_id (some k)

group_category-ledger_only :
    (r : MatchRelationshipType) → (category_code (group_category r) == 1) ≡ false
unfolding group_category
group_category-ledger_only r = ground arith

bank_anchor-ledger_only :
    (threshold : Option ℕ) (k : ℕ) (c : OpenItemCategory) (o : Option BankTransaction)
    → holds (on_spec (ledger_only_key k)) (bank_anchor threshold c o) ≡ false
bank_anchor-ledger_only threshold k c none = refl
bank_anchor-ledger_only threshold k c (some b) = ground arith

ledger_anchor-ledger_only :
    (threshold : Option ℕ) (k : ℕ) (c : OpenItemCategory) (o : Option LedgerTransaction)
    → (category_code c == 1) ≡ false
    → holds (on_spec (ledger_only_key k)) (ledger_anchor threshold c o) ≡ false
ledger_anchor-ledger_only threshold k c none h = refl
ledger_anchor-ledger_only threshold k c (some t) h = rw h

group_spec-ledger_only :
    (s : Evidence) (run : ReconciliationRun) (threshold : Option ℕ) (k : ℕ) (g : MatchGroup)
    → holds (on_spec (ledger_only_key k)) (group_spec s run threshold g) ≡ false
unfolding group_spec
group_spec-ledger_only s run threshold k g =
    elim (Bool-cases
      (is_some (only (group_banks s g)) && not (is_many_to_one g.relationship_type))) [
        | inl e ↦ rw e (bank_anchor-ledger_only threshold k (group_category g.relationship_type) _)
        | inr e ↦ rw e (
            ledger_anchor-ledger_only threshold k (group_category g.relationship_type) _
              (group_category-ledger_only g.relationship_type))
      ]

NamesBank-ledger_only :
    (j k : ℕ) (o : Option ItemSpec) → NamesBank j o → holds (on_spec (ledger_only_key k)) o ≡ false
NamesBank-ledger_only j k none h = refl
NamesBank-ledger_only j k (some x) h = ground arith

any_last :
    (p : ItemSpec → Bool) (xs ys zs : List ItemSpec)
    → any p xs ≡ false
    → any p ys ≡ false
    → (any p (xs ++ (ys ++ zs)) || false) ≡ any p zs
any_last p xs ys zs h k = ground (arith, any-append p xs (ys ++ zs), any-append p ys zs)

ledger_only-unmatched :
    (s : Evidence) (run : ReconciliationRun) (k : ℕ)
    → any (on_spec (ledger_only_key k)) (derive_open_item_specs s run)
      ≡ any (λ t. is_unmatched_ledger s run t && t.id == k) s.ledgers
unfolding derive_open_item_specs raw_specs ledger_spec
ledger_only-unmatched s run k =
    let threshold = threshold_of (run_configuration s run) in
    let p = on_spec (ledger_only_key k) in
    let groups =
      filter (λ (g : MatchGroup). g.run_id == run.id && is_ambiguous g.status) s.groups in
    let banks = scope_transactions (scope_of run) s.banks in
    let rows = filter (is_unmatched_ledger s run) s.ledgers in
    let no_group =
      any-collect p (group_spec s run threshold) groups
      ∙ any-none _ groups (group_spec-ledger_only s run threshold k) in
    let no_bank =
      any-collect p (bank_spec s run threshold) banks
      ∙ any-none _ banks (λ b.
        NamesBank-ledger_only b.id k (bank_spec s run threshold b)
          (bank_spec-NamesBank s run threshold b)) in
    let ledger =
      any-map p (ledger_spec s run threshold) (sort_by posted_before rows)
      ∙ (any-sort_by (λ t. p (ledger_spec s run threshold t)) posted_before rows
          ∙ (any-filter (λ t. p (ledger_spec s run threshold t)) (is_unmatched_ledger s run)
              s.ledgers)) in
    any-add_all (ledger_only_key k) (raw_specs s run) []
    ∙ (any_last p (collect (group_spec s run threshold) groups)
          (collect (bank_spec s run threshold) banks)
          (map (ledger_spec s run threshold) (sort_by posted_before rows)) no_group no_bank
        ∙ ledger)

-- A run derives a LEDGER_ONLY item with a ledger id exactly when a ledger row has that id which is
-- posted, lies in the run's entity, account and period, and is named by no pending or accepted
-- suggestion, by no member of a pending or accepted group of any run, and by no member of an
-- ambiguous group of this run.
pub derive-ledger_only :
    (s : Evidence) (run : ReconciliationRun) (k : ℕ)
    → (any (on_spec (ledger_only_key k)) (derive_open_item_specs s run) ≡ true)
      ↔ ((t : LedgerTransaction) × In t s.ledgers × (t.id ≡ k) × IsUnmatched s run t)
derive-ledger_only s run k = (
  λ h.
      let found : any (λ t. is_unmatched_ledger s run t && t.id == k) s.ledgers ≡ true =
        sym (ledger_only-unmatched s run k) ∙ h in
      let (t, m, e) = any-In _ s.ledgers found in
      let open_row : is_unmatched_ledger s run t ≡ true = ground arith in
      (t, m, ground arith, (is_unmatched_ledger-IsUnmatched s run t).0 open_row),
  λ (t, m, e, free).
      let open_row = (is_unmatched_ledger-IsUnmatched s run t).1 free in
      ledger_only-unmatched s run k ∙ In-any _ s.ledgers t m (rw open_row (ground arith)),
)
