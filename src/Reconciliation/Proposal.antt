-- ===== src/Reconciliation/Proposal.antt =====
-- Proposals, their claims, and whether one can be accepted
-- (backend/app/services/reconciliation_match_decision_service.py, up to `acceptance_blocker`).
-- A function of the source that returns a message or None is a Boolean: whether there is a message.
use treasury_os_app.Base.{
  ℕ, Bool, true, false, not, ◌&&◌, ◌||◌, Option, none, some, List, [], ◌∷◌, map, ◌==◌,
  if◌then◌else◌, same_key, is_some, any, filter, collect,
}
use treasury_os_app.Reconciliation.Records.{
  MatchProposalKind, MatchRelationshipType, internal_transfer, fx_match, MatchSuggestionStatus,
  MatchGroupStatus, ProposalStatus, AcceptedClaimKind, match, transfer, BankTransaction,
  LedgerTransaction, ReconciliationRun, MatchSuggestion, MatchGroup, MatchGroupMember,
  MatchDecision, AcceptedClaim,
}
use treasury_os_app.Reconciliation.Store.{Store, get_suggestion, get_group, get_bank, get_ledger}
use treasury_os_app.Reconciliation.Candidates.{is_live, is_posted}
use treasury_os_app.Reconciliation.MatchingRun.{is_active}
use treasury_os_app.Reconciliation.Derivation.{is_auto_match_tier}

-- A row of one of the two tables of proposals.
pub data Proposal : Type 0 where
  one_to_one : MatchSuggestion → Proposal
  grouped : MatchGroup → Proposal

abbrev pub kind_of : Proposal → MatchProposalKind
kind_of (one_to_one _) = MatchProposalKind.suggestion
kind_of (grouped _) = MatchProposalKind.group

abbrev pub id_of : Proposal → ℕ
id_of (one_to_one g) = g.id
id_of (grouped g) = g.id

abbrev pub run_of : Proposal → ℕ
run_of (one_to_one g) = g.run_id
run_of (grouped g) = g.run_id

abbrev pub suggestion_value : MatchSuggestionStatus → ProposalStatus
suggestion_value MatchSuggestionStatus.pending = ProposalStatus.pending
suggestion_value MatchSuggestionStatus.accepted = ProposalStatus.accepted
suggestion_value MatchSuggestionStatus.rejected = ProposalStatus.rejected
suggestion_value MatchSuggestionStatus.superseded = ProposalStatus.superseded

abbrev pub group_value : MatchGroupStatus → ProposalStatus
group_value MatchGroupStatus.pending = ProposalStatus.pending
group_value MatchGroupStatus.ambiguous = ProposalStatus.ambiguous
group_value MatchGroupStatus.accepted = ProposalStatus.accepted
group_value MatchGroupStatus.rejected = ProposalStatus.rejected

-- `proposal.status.value`
abbrev pub status_of : Proposal → ProposalStatus
status_of (one_to_one g) = suggestion_value g.status
status_of (grouped g) = group_value g.status

abbrev pub some_suggestion : Option MatchSuggestion → Option Proposal
some_suggestion none = none
some_suggestion (some g) = some (one_to_one g)

abbrev pub some_group : Option MatchGroup → Option Proposal
some_group none = none
some_group (some g) = some (grouped g)

unfoldable pub load_proposal : Store → MatchProposalKind → ℕ → Option Proposal
load_proposal s MatchProposalKind.suggestion k = some_suggestion (get_suggestion k s.suggestions)
load_proposal s MatchProposalKind.group k = some_group (get_group k s.groups)

pub has_other_live_candidate : Store → MatchSuggestion → Bool
has_other_live_candidate s g =
    any
      (λ (h : MatchSuggestion).
        h.run_id == g.run_id
        && same_key h.bank_id g.bank_id
        && is_some h.treasury_id
        && is_live h.status
        && not (h.id == g.id))
      s.suggestions

-- `suggestion_not_decidable_reason(...) is not None`
unfoldable pub suggestion_not_decidable_reason : Store → MatchSuggestion → Bool
unfolding has_other_live_candidate
suggestion_not_decidable_reason s g =
    not (is_some g.treasury_id)
    || not (is_some g.bank_id)
    || has_other_live_candidate s g
    || not (is_auto_match_tier g.confidence g.reason)

pub record ClaimSpec : Type 0 where
  pub kind : AcceptedClaimKind
  pub bank_id : Option ℕ
  pub treasury_id : Option ℕ

abbrev pub is_transfer : MatchRelationshipType → Bool
is_transfer internal_transfer = true
is_transfer _ = false

abbrev pub is_fx : MatchRelationshipType → Bool
is_fx fx_match = true
is_fx _ = false

abbrev pub namespace_of : MatchRelationshipType → AcceptedClaimKind
namespace_of r = if is_transfer r then transfer else match

unfoldable pub proposal_claims : Store → Proposal → List ClaimSpec
proposal_claims s (one_to_one g) =
    record { kind = match; bank_id = g.bank_id; treasury_id = none }
    ∷ record { kind = match; bank_id = none; treasury_id = g.treasury_id }
    ∷ []
proposal_claims s (grouped g) =
    map
      (λ (m : MatchGroupMember). record {
        kind = namespace_of g.relationship_type;
        bank_id = m.bank_id;
        treasury_id = m.treasury_id;
      })
      (filter (λ (m : MatchGroupMember). m.match_group_id == g.id) s.members)

-- the group is an INTERNAL_TRANSFER
abbrev pub between_accounts : Proposal → Bool
between_accounts (one_to_one _) = false
between_accounts (grouped g) = is_transfer g.relationship_type

-- An active bank row of the run's entity and account.
abbrev pub bank_eligible : ReconciliationRun → Option BankTransaction → Bool
bank_eligible run none = false
bank_eligible run (some b) =
    is_active b.status
    && b.legal_entity_id == run.legal_entity_id
    && b.bank_account_id == run.bank_account_id

-- A posted ledger row of the run's entity and, but for a transfer, of its account.
abbrev pub ledger_eligible : ReconciliationRun → Proposal → Option LedgerTransaction → Bool
ledger_eligible run p none = false
ledger_eligible run p (some t) =
    is_posted t.status
    && t.legal_entity_id == run.legal_entity_id
    && (between_accounts p || same_key t.bank_account_id (some run.bank_account_id))

-- A bank row of one suggestion and its ledger row differ in currency. (Each list has one row.)
abbrev pub currencies_differ : List BankTransaction → List LedgerTransaction → Bool
currencies_differ banks ledgers =
    any
      (λ (b : BankTransaction).
        any (λ (t : LedgerTransaction). not (b.currency_code == t.transaction_currency_code))
          ledgers)
      banks

-- Some bank row is not in the first currency, or some ledger row not in the second.
abbrev pub not_in : Option ℕ → Option ℕ → List BankTransaction → List LedgerTransaction → Bool
not_in source target banks ledgers =
    any (λ (b : BankTransaction). not (same_key (some b.currency_code) source)) banks
    || any (λ (t : LedgerTransaction). not (same_key (some t.transaction_currency_code) target))
        ledgers

pub currency_problem : Proposal → List BankTransaction → List LedgerTransaction → Bool
currency_problem (one_to_one _) banks ledgers = currencies_differ banks ledgers
currency_problem (grouped g) banks ledgers =
    if is_fx g.relationship_type
    then not_in g.fx_source_currency_code g.fx_target_currency_code banks ledgers
    else if is_transfer g.relationship_type
    then false
    else not_in (some g.currency_code) (some g.currency_code) banks ledgers

abbrev pub bank_ids : List ClaimSpec → List ℕ
bank_ids = collect (λ (c : ClaimSpec). c.bank_id)

abbrev pub ledger_ids : List ClaimSpec → List ℕ
ledger_ids = collect (λ (c : ClaimSpec). c.treasury_id)

-- `eligibility_problem(...) is not None`
unfoldable pub eligibility_problem : Store → Proposal → ReconciliationRun → List ClaimSpec → Bool
unfolding currency_problem
eligibility_problem s p run claims =
    any (λ k. not (bank_eligible run (get_bank k s.banks))) (bank_ids claims)
    || any (λ k. not (ledger_eligible run p (get_ledger k s.ledgers))) (ledger_ids claims)
    || currency_problem p (collect (λ k. get_bank k s.banks) (bank_ids claims))
        (collect (λ k. get_ledger k s.ledgers) (ledger_ids claims))

abbrev pub same_namespace : AcceptedClaimKind → AcceptedClaimKind → Bool
same_namespace match match = true
same_namespace transfer transfer = true
same_namespace _ _ = false

abbrev pub conflicts_with : ClaimSpec → AcceptedClaim → Bool
conflicts_with c a =
    same_namespace a.claim_kind c.kind
    && (if is_some c.bank_id
        then same_key a.bank_id c.bank_id
        else same_key a.treasury_id c.treasury_id)

-- `find_acceptance_conflict(...) is not None`, with the join of a claim and its decision
unfoldable pub find_acceptance_conflict : Store → List ClaimSpec → Bool
find_acceptance_conflict s claims =
    any
      (λ (a : AcceptedClaim).
        any (λ (d : MatchDecision). d.id == a.decision_id) s.decisions
        && any (λ c. conflicts_with c a) claims)
      s.claims
