-- ===== src/Reconciliation/Derivation.antt =====
-- Which exceptions a run has (backend/app/services/reconciliation_open_item_service.py:
-- `derive_open_item_specs`, the parts that read the tables, and what surrounds it).
use treasury_os_app.Base.{
  ℕ, Bool, true, false, not, ◌&&◌, ◌||◌, Option, none, some, List, [], ◌∷◌, ◌++◌, map, ◌==◌, leb,
  ltb, if◌then◌else◌, same_key, is_some, holds, filter, any, find,
}
use treasury_os_app.Text.{Text}
use treasury_os_app.Reconciliation.Records.{
  ReconciliationRun, MatchSuggestion, MatchGroup, MatchGroupMember, MatchGroupStatus,
  MatchRelationshipType, MatchDecision, MatchDecisionType, OpenItemCategory, OpenItemPriority,
  SourceKey, Description, ItemReason, SuggestionReason, tiered, tied_at, no_candidate, review,
  auto_match, medium, high,
}
use treasury_os_app.Reconciliation.Store.{Evidence}
use treasury_os_app.Reconciliation.Scoring.{auto_match_threshold}
use treasury_os_app.Reconciliation.Candidates.{is_live}
use treasury_os_app.Reconciliation.MatchingRun.{RunScope}

-- `ItemSpec`; its source key holds the category and the two ids.
pub record ItemSpec : Type 0 where
  pub source_key : SourceKey
  pub amount : ℕ
  pub currency_code : ℕ
  pub item_date : ℕ
  pub description : Description
  pub reason : ItemReason
  pub priority : OpenItemPriority

abbrev pub category_code : OpenItemCategory → ℕ
category_code OpenItemCategory.bank_only = 0
category_code OpenItemCategory.ledger_only = 1
category_code OpenItemCategory.amount_variance = 2
category_code OpenItemCategory.timing_difference = 3
category_code OpenItemCategory.ambiguous_match = 4
category_code OpenItemCategory.one_to_many = 5
category_code OpenItemCategory.many_to_one = 6
category_code OpenItemCategory.batch_payment = 7
category_code OpenItemCategory.exception_item = 8

-- equality of the texts of two source keys
unfoldable pub same_source : SourceKey → SourceKey → Bool
same_source a b =
    category_code a.category == category_code b.category
    && same_key a.bank_id b.bank_id
    && same_key a.treasury_id b.treasury_id

unfoldable pub priority_for : ℕ → Option ℕ → OpenItemPriority
priority_for amount threshold = if holds (λ t. ltb t amount) threshold then high else medium

-- whether the reason starts with "[review]"
abbrev pub is_review_reason : Option SuggestionReason → Bool
is_review_reason (some (tiered review _)) = true
is_review_reason (some (tiered auto_match _)) = false
is_review_reason (some (tied_at _ _ _)) = false
is_review_reason (some no_candidate) = false
is_review_reason none = false

unfoldable pub is_auto_match_tier : Option ℕ → Option SuggestionReason → Bool
is_auto_match_tier confidence reason =
    holds (λ c. leb auto_match_threshold c) confidence && not (is_review_reason reason)

abbrev pub is_live_group : MatchGroupStatus → Bool
is_live_group MatchGroupStatus.pending = true
is_live_group MatchGroupStatus.accepted = true
is_live_group _ = false

abbrev pub is_ambiguous : MatchGroupStatus → Bool
is_ambiguous MatchGroupStatus.ambiguous = true
is_ambiguous _ = false

-- `_GROUP_CATEGORY.get(rel, EXCEPTION)`
unfoldable pub group_category : MatchRelationshipType → OpenItemCategory
group_category MatchRelationshipType.one_to_many = OpenItemCategory.one_to_many
group_category MatchRelationshipType.many_to_one = OpenItemCategory.many_to_one
group_category MatchRelationshipType.batch = OpenItemCategory.batch_payment
group_category _ = OpenItemCategory.exception_item

abbrev pub scope_of : ReconciliationRun → RunScope
scope_of run = record {
  legal_entity_id = run.legal_entity_id;
  bank_account_id = run.bank_account_id;
  period_start = run.period_start;
  period_end = run.period_end;
}

-- Whether some member of a group that passes the test is the bank (the ledger) transaction.
abbrev pub bank_in_group : Evidence → (MatchGroup → Bool) → ℕ → Bool
bank_in_group s test bank_id =
    any
      (λ (g : MatchGroup).
        test g
        && any
            (λ (m : MatchGroupMember).
              m.match_group_id == g.id && same_key m.bank_id (some bank_id))
            s.members)
      s.groups

abbrev pub ledger_in_group : Evidence → (MatchGroup → Bool) → ℕ → Bool
ledger_in_group s test ledger_id =
    any
      (λ (g : MatchGroup).
        test g
        && any
            (λ (m : MatchGroupMember).
              m.match_group_id == g.id && same_key m.treasury_id (some ledger_id))
            s.members)
      s.groups

-- A live proposal of another run covers the bank transaction. (The joins to the bank rows of the
-- run's scope add nothing, since only rows of the scope are asked for.)
unfoldable pub covered_elsewhere : Evidence → ReconciliationRun → ℕ → Bool
covered_elsewhere s run bank_id =
    any
      (λ (g : MatchSuggestion).
        not (g.run_id == run.id)
        && is_some g.treasury_id
        && is_live g.status
        && same_key g.bank_id (some bank_id))
      s.suggestions
    || bank_in_group s (λ (g : MatchGroup). not (g.run_id == run.id) && is_live_group g.status)
        bank_id

-- `real_by_bank`: the live suggestions of the run for a bank row that name a ledger row
unfoldable pub real_by_bank : Evidence → ReconciliationRun → ℕ → List MatchSuggestion
real_by_bank s run bank_id =
    filter
      (λ (g : MatchSuggestion).
        g.run_id == run.id
        && same_key g.bank_id (some bank_id)
        && is_some g.treasury_id
        && is_live g.status)
      s.suggestions

abbrev pub bank_in_live_group : Evidence → ReconciliationRun → ℕ → Bool
bank_in_live_group s run =
    bank_in_group s (λ (g : MatchGroup). g.run_id == run.id && is_live_group g.status)

abbrev pub bank_in_ambiguous_group : Evidence → ReconciliationRun → ℕ → Bool
bank_in_ambiguous_group s run =
    bank_in_group s (λ (g : MatchGroup). g.run_id == run.id && is_ambiguous g.status)

-- The pairs of transactions that a rejected proposal of the run covered.
abbrev pub suggestion_pairs :
    Evidence → ReconciliationRun → Option ℕ → Option ℕ → List (Option ℕ × Option ℕ)
suggestion_pairs s run suggestion_id group_id =
    let members =
      map (λ (m : MatchGroupMember). (m.bank_id, m.treasury_id))
        (filter
          (λ (m : MatchGroupMember).
            same_key group_id (some m.match_group_id)
            && any (λ (g : MatchGroup). g.id == m.match_group_id && g.run_id == run.id) s.groups)
          s.members) in
    elim (find (λ (g : MatchSuggestion). g.run_id == run.id && same_key suggestion_id (some g.id))
      s.suggestions) [ none ↦ members | some g ↦ (g.bank_id, g.treasury_id) ∷ [] ]

abbrev pub is_rejection : MatchDecisionType → Bool
is_rejection MatchDecisionType.rejected = true
is_rejection MatchDecisionType.accepted = false

abbrev pub names_bank : ℕ → Option ℕ × Option ℕ → Bool
names_bank k (b, t) = same_key b (some k)

abbrev pub names_ledger : ℕ → Option ℕ × Option ℕ → Bool
names_ledger k (b, t) = same_key t (some k)

-- The reason recorded for a transaction: that of the last rejection that covered it.
unfoldable pub rejected_reason :
    Evidence
    → ReconciliationRun
    → (Option ℕ × Option ℕ → Bool)
    → List MatchDecision
    → Option (Option Text)
    → Option (Option Text)
rejected_reason s run names [] found = found
rejected_reason s run names (d ∷ ds) found = rejected_reason s run names ds (
    if d.run_id == run.id
      && is_rejection d.decision
      && any names (suggestion_pairs s run d.suggestion_id d.group_id)
    then some d.reason
    else found)

-- `add`, that is `specs.setdefault(spec.source_key, spec)`
unfoldable pub add_spec : ItemSpec → List ItemSpec → List ItemSpec
add_spec x specs =
    if any (λ (y : ItemSpec). same_source y.source_key x.source_key) specs
    then specs
    else specs ++ x ∷ []

abbrev pub add_all : List ItemSpec → List ItemSpec → List ItemSpec
add_all [] specs = specs
add_all (x ∷ xs) specs = add_all xs (add_spec x specs)

abbrev pub spec_for :
    OpenItemCategory
    → Option ℕ
    → Option ℕ
    → ℕ
    → ℕ
    → ℕ
    → Description
    → ItemReason
    → OpenItemPriority
    → ItemSpec
spec_for category bank_id treasury_id amount currency item_date description reason priority =
    record {
      source_key = record { category = category; bank_id = bank_id; treasury_id = treasury_id };
      amount = amount;
      currency_code = currency;
      item_date = item_date;
      description = description;
      reason = reason;
      priority = priority;
    }
