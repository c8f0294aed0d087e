-- ===== src/Reconciliation/Exceptions.antt =====
-- Which exceptions a run has (backend/app/services/reconciliation_open_item_service.py:
-- `derive_open_item_specs`): ambiguous groups, then the bank side, then the ledger side, with the
-- first specification kept for each source key.
pub mod Keys
pub mod BankSide
pub mod Unmatched
pub mod LedgerSide
use treasury_os_app.Base.{
  ℕ, suc, ◌+◌, Bool, true, false, not, ◌&&◌, ◌||◌, Option, none, some, List, [], ◌∷◌, ◌++◌, map,
  ◌==◌, leb, ltb, if◌then◌else◌, same_key, is_some, length, filter, any, find, collect, contains,
  sort_by, keep, abs_diff,
}
use treasury_os_app.Text.{Text}
use treasury_os_app.Reconciliation.Records.{
  BankTransaction, LedgerTransaction, ReconciliationRun, ReconciliationConfiguration,
  MatchSuggestion, MatchSuggestionStatus, MatchGroup, MatchGroupMember, MatchRelationshipType,
  OpenItemCategory, Description, ItemReason, SuggestionReason, competing_groups, tied_candidates,
  variance_of, dates_differ, weak_evidence, no_ledger_match, no_bank_match, ambiguous_group,
  tied_top, review_tier, proposal_rejected, below_threshold, unclaimed, engine_reason,
}
use treasury_os_app.Reconciliation.Store.{Evidence, get_ledger}
use treasury_os_app.Reconciliation.Candidates.{is_live, is_posted}
use treasury_os_app.Reconciliation.MatchingRun.{distinct, scope_transactions}
use treasury_os_app.Reconciliation.Derivation.{
  ItemSpec, priority_for, is_auto_match_tier, is_live_group, is_ambiguous, group_category, scope_of,
  bank_in_group, ledger_in_group, covered_elsewhere, real_by_bank, bank_in_live_group,
  bank_in_ambiguous_group, names_bank, names_ledger, rejected_reason, add_all, spec_for,
}

-- `s.reason or "Review-tier match"`
abbrev pub item_reason : Option SuggestionReason → ItemReason
item_reason none = review_tier
item_reason (some r) = engine_reason r

-- an amount, its currency, its date, the bank row and the ledger row, either of them absent
abbrev pub spec_of_bank :
    Option ℕ
    → BankTransaction
    → OpenItemCategory
    → Option ℕ
    → ℕ
    → Description
    → ItemReason
    → ItemSpec
spec_of_bank threshold b category treasury_id amount description reason =
    spec_for category (some b.id) treasury_id amount b.currency_code b.transaction_date description
      reason (priority_for b.amount threshold)

abbrev pub spec_of_ledger :
    Option ℕ → LedgerTransaction → OpenItemCategory → Description → ItemReason → ItemSpec
spec_of_ledger threshold t category description reason =
    spec_for category none (some t.id) t.transaction_amount t.transaction_currency_code t.event_date
      description reason (priority_for t.transaction_amount threshold)

-- A single live suggestion: no item if it is accepted or of the auto-match tier, and otherwise an
-- item that says how the two rows differ.
pub review_spec :
    Evidence
    → Option ℕ
    → BankTransaction
    → MatchSuggestion
    → Option LedgerTransaction
    → Option ItemSpec
review_spec s threshold b g none = none
review_spec s threshold b g (some t) = some (
    if not (b.amount == t.transaction_amount)
    then spec_of_bank threshold b OpenItemCategory.amount_variance (some t.id)
        (abs_diff b.amount t.transaction_amount)
        (variance_of b.amount t.transaction_amount b.currency_code
          (abs_diff b.amount t.transaction_amount))
        (item_reason g.reason)
    else if not (b.transaction_date == t.event_date)
    then spec_of_bank threshold b OpenItemCategory.timing_difference (some t.id) b.amount
        (dates_differ (abs_diff b.transaction_date t.event_date)) (item_reason g.reason)
    else spec_of_bank threshold b OpenItemCategory.exception_item (some t.id) b.amount weak_evidence
        (item_reason g.reason))

abbrev pub is_accepted : MatchSuggestionStatus → Bool
is_accepted MatchSuggestionStatus.accepted = true
is_accepted _ = false

abbrev pub ledger_of : Evidence → Option ℕ → Option LedgerTransaction
ledger_of s none = none
ledger_of s (some k) = get_ledger k s.ledgers

-- the reason of the BANK_ONLY and LEDGER_ONLY items
abbrev pub rejected_or : Option (Option Text) → ItemReason → ItemReason
rejected_or none other = other
rejected_or (some _) other = proposal_rejected

pub candidates_spec :
    Evidence
    → ReconciliationRun
    → Option ℕ
    → BankTransaction
    → List MatchSuggestion
    → Option ItemSpec
unfolding review_spec
candidates_spec s run threshold b [] =
    let rejected = rejected_reason s run (names_bank b.id) s.decisions none in
    some (
      spec_of_bank threshold b OpenItemCategory.bank_only none b.amount (no_ledger_match rejected)
        (rejected_or rejected below_threshold))
candidates_spec s run threshold b (g ∷ []) =
    if is_accepted g.status || is_auto_match_tier g.confidence g.reason
    then none
    else review_spec s threshold b g (ledger_of s g.treasury_id)
candidates_spec s run threshold b (g ∷ h ∷ gs) = some (
    spec_of_bank threshold b OpenItemCategory.ambiguous_match none b.amount
      (tied_candidates (length (g ∷ h ∷ gs))) tied_top)

-- The item of one bank row, if it has one.
pub bank_spec : Evidence → ReconciliationRun → Option ℕ → BankTransaction → Option ItemSpec
unfolding candidates_spec
bank_spec s run threshold b =
    if bank_in_live_group s run b.id || bank_in_ambiguous_group s run b.id
    then none
    else if covered_elsewhere s run b.id
    then none
    else candidates_spec s run threshold b (real_by_bank s run b.id)

-- The ledger rows of the scope that no live suggestion, no live group of any run and no ambiguous
-- group of this run names.
pub is_unmatched_ledger : Evidence → ReconciliationRun → LedgerTransaction → Bool
is_unmatched_ledger s run t =
    t.legal_entity_id == run.legal_entity_id
    && same_key t.bank_account_id (some run.bank_account_id)
    && is_posted t.status
    && leb run.period_start t.event_date
    && leb t.event_date run.period_end
    && not (
        any (λ (g : MatchSuggestion). same_key g.treasury_id (some t.id) && is_live g.status)
          s.suggestions)
    && not (ledger_in_group s (λ (g : MatchGroup). is_live_group g.status) t.id)
    && not
        (ledger_in_group s (λ (g : MatchGroup). g.run_id == run.id && is_ambiguous g.status) t.id)

abbrev pub posted_before : LedgerTransaction → LedgerTransaction → Bool
posted_before a b =
    if a.event_date == b.event_date then leb a.id b.id else ltb a.event_date b.event_date

pub ledger_spec : Evidence → ReconciliationRun → Option ℕ → LedgerTransaction → ItemSpec
ledger_spec s run threshold t =
    let rejected = rejected_reason s run (names_ledger t.id) s.decisions none in
    spec_of_ledger threshold t OpenItemCategory.ledger_only (no_bank_match rejected)
      (rejected_or rejected unclaimed)

-- the distinct bank rows and ledger rows of a group
abbrev pub group_banks : Evidence → MatchGroup → List ℕ
group_banks s g = distinct (
    collect (λ (m : MatchGroupMember). m.bank_id)
      (filter (λ (m : MatchGroupMember). m.match_group_id == g.id) s.members))

abbrev pub ledger_only_member : MatchGroupMember → Option ℕ
ledger_only_member m = if is_some m.bank_id then none else m.treasury_id

abbrev pub group_ledgers : Evidence → MatchGroup → List ℕ
group_ledgers s g = distinct (
    collect ledger_only_member
      (filter (λ (m : MatchGroupMember). m.match_group_id == g.id) s.members))

abbrev pub is_many_to_one : MatchRelationshipType → Bool
is_many_to_one MatchRelationshipType.many_to_one = true
is_many_to_one _ = false

abbrev pub only : List ℕ → Option ℕ
only (k ∷ []) = some k
only _ = none

abbrev pub bank_anchor : Option ℕ → OpenItemCategory → Option BankTransaction → Option ItemSpec
bank_anchor threshold category none = none
bank_anchor threshold category (some b) =
    some (spec_of_bank threshold b category none b.amount competing_groups ambiguous_group)

abbrev pub ledger_anchor : Option ℕ → OpenItemCategory → Option LedgerTransaction → Option ItemSpec
ledger_anchor threshold category none = none
ledger_anchor threshold category (some t) =
    some (spec_of_ledger threshold t category competing_groups ambiguous_group)

-- The item of one ambiguous group, on its one bank row or else on its one ledger row.
pub group_spec : Evidence → ReconciliationRun → Option ℕ → MatchGroup → Option ItemSpec
group_spec s run threshold g =
    let category = group_category g.relationship_type in
    if is_some (only (group_banks s g)) && not (is_many_to_one g.relationship_type)
    then bank_anchor threshold category (
        find (λ (b : BankTransaction). same_key (only (group_banks s g)) (some b.id))
          (scope_transactions (scope_of run) s.banks))
    else ledger_anchor threshold category (ledger_of s (only (group_ledgers s g)))

abbrev pub threshold_of : Option ReconciliationConfiguration → Option ℕ
threshold_of none = none
threshold_of (some c) = c.high_value_threshold

-- the run's configuration
abbrev pub run_configuration : Evidence → ReconciliationRun → Option ReconciliationConfiguration
run_configuration s run =
    find (λ (c : ReconciliationConfiguration). same_key run.configuration_id (some c.id))
      s.configurations

pub raw_specs : Evidence → ReconciliationRun → List ItemSpec
unfolding group_spec bank_spec ledger_spec is_unmatched_ledger
raw_specs s run =
    let threshold = threshold_of (run_configuration s run) in
    collect (group_spec s run threshold)
      (filter (λ (g : MatchGroup). g.run_id == run.id && is_ambiguous g.status) s.groups)
    ++ (collect (bank_spec s run threshold) (scope_transactions (scope_of run) s.banks)
        ++ map (ledger_spec s run threshold)
            (sort_by posted_before (filter (is_unmatched_ledger s run) s.ledgers)))

pub derive_open_item_specs : Evidence → ReconciliationRun → List ItemSpec
unfolding raw_specs
derive_open_item_specs s run = add_all (raw_specs s run) []
