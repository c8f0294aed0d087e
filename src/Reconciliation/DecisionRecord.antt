-- ===== src/Reconciliation/DecisionRecord.antt =====
-- The rows that a decision writes (backend/app/services/reconciliation_match_decision_service.py:
-- `decide_proposal`): the record, the claims, the status of the proposal and the audit row. The INSERT
-- of the claims is checked by the two partial unique indexes of their table.
use treasury_os_app.Base.{
  ℕ, suc, Bool, true, false, ◌&&◌, ◌||◌, Option, none, some, List, [], ◌∷◌, ◌++◌, ◌==◌,
  if◌then◌else◌, same_key, is_some, any, Outcome, ok, conflict, ◌>>◌, raise_if,
}
use treasury_os_app.Text.{Text}
use treasury_os_app.Reconciliation.Records.{
  MatchProposalKind, MatchDecisionType, ReconciliationRunStatus, ProposalStatus,
  MatchSuggestionStatus, MatchGroupStatus, ReconciliationRun, MatchSuggestion, MatchGroup,
  MatchDecision, AcceptedClaim,
}
use treasury_os_app.Reconciliation.Audit.{AuditAction, AuditEvent, AuditRecord, proposal_value}
use treasury_os_app.Reconciliation.Store.{Store}
use treasury_os_app.Reconciliation.Proposal.{
  Proposal, one_to_one, grouped, kind_of, id_of, status_of, ClaimSpec, same_namespace,
}

pub record DecisionResult : Type 0 where
  pub decision : MatchDecision
  pub already_decided : Bool

abbrev pub same_decision : MatchDecisionType → MatchDecisionType → Bool
same_decision MatchDecisionType.accepted MatchDecisionType.accepted = true
same_decision MatchDecisionType.rejected MatchDecisionType.rejected = true
same_decision _ _ = false

-- `decision.value`, as a status
abbrev pub target_status : MatchDecisionType → ProposalStatus
target_status MatchDecisionType.accepted = ProposalStatus.accepted
target_status MatchDecisionType.rejected = ProposalStatus.rejected

abbrev pub is_completed : ReconciliationRunStatus → Bool
is_completed ReconciliationRunStatus.completed = true
is_completed _ = false

abbrev pub is_pending : ProposalStatus → Bool
is_pending ProposalStatus.pending = true
is_pending _ = false

-- The decision names the proposal, by the column of its kind.
abbrev pub decides : MatchProposalKind → ℕ → MatchDecision → Bool
decides MatchProposalKind.suggestion k d = same_key d.suggestion_id (some k)
decides MatchProposalKind.group k d = same_key d.group_id (some k)

abbrev pub only_kind : MatchProposalKind → MatchProposalKind → ℕ → Option ℕ
only_kind MatchProposalKind.suggestion MatchProposalKind.suggestion k = some k
only_kind MatchProposalKind.group MatchProposalKind.group k = some k
only_kind _ _ k = none

abbrev pub or_none : Text → Option Text
or_none [] = none
or_none (c ∷ s) = some (c ∷ s)

unfoldable pub decision_record :
    ReconciliationRun → Proposal → MatchDecisionType → Text → ℕ → ℕ → MatchDecision
decision_record run p decision text actor id = record {
  id = id;
  run_id = run.id;
  legal_entity_id = run.legal_entity_id;
  kind = kind_of p;
  suggestion_id = only_kind MatchProposalKind.suggestion (kind_of p) (id_of p);
  group_id = only_kind MatchProposalKind.group (kind_of p) (id_of p);
  decision = decision;
  previous_status = status_of p;
  new_status = target_status decision;
  reason = or_none text;
  decided_by = actor;
}

-- The two rows violate one of the unique indexes.
abbrev pub clashes : AcceptedClaim → AcceptedClaim → Bool
clashes a b =
    same_namespace a.claim_kind b.claim_kind
    && (is_some a.bank_id && same_key a.bank_id b.bank_id
        || is_some a.treasury_id && same_key a.treasury_id b.treasury_id)

abbrev pub claim_row : ℕ → ℕ → ClaimSpec → AcceptedClaim
claim_row decision_id entity c = record {
  decision_id = decision_id;
  legal_entity_id = entity;
  claim_kind = c.kind;
  bank_id = c.bank_id;
  treasury_id = c.treasury_id;
}

-- The INSERT of the claims; a violation of a unique index is mapped to 409.
unfoldable pub insert_claims :
    ℕ → ℕ → List ClaimSpec → List AcceptedClaim → Outcome (List AcceptedClaim)
insert_claims decision_id entity [] claims = ok claims
insert_claims decision_id entity (c ∷ cs) claims = do
  raise_if (any (clashes (claim_row decision_id entity c)) claims) conflict
  insert_claims decision_id entity cs (claim_row decision_id entity c ∷ claims)

abbrev pub suggestion_status : MatchDecisionType → MatchSuggestionStatus
suggestion_status MatchDecisionType.accepted = MatchSuggestionStatus.accepted
suggestion_status MatchDecisionType.rejected = MatchSuggestionStatus.rejected

abbrev pub group_status : MatchDecisionType → MatchGroupStatus
group_status MatchDecisionType.accepted = MatchGroupStatus.accepted
group_status MatchDecisionType.rejected = MatchGroupStatus.rejected

abbrev pub set_suggestion : ℕ → MatchSuggestionStatus → List MatchSuggestion → List MatchSuggestion
set_suggestion k status [] = []
set_suggestion k status (g ∷ gs) =
    (if g.id == k then record g { status = status } else g) ∷ set_suggestion k status gs

abbrev pub set_group : ℕ → MatchGroupStatus → List MatchGroup → List MatchGroup
set_group k status [] = []
set_group k status (g ∷ gs) =
    (if g.id == k then record g { status = status } else g) ∷ set_group k status gs

-- `proposal.status = ...`
unfoldable pub set_status : Proposal → MatchDecisionType → Store → Store
set_status (one_to_one g) d s = record s {
  suggestions = set_suggestion g.id (suggestion_status d) s.suggestions;
}
set_status (grouped g) d s = record s { groups = set_group g.id (group_status d) s.groups }

abbrev pub decision_action : MatchDecisionType → AuditAction
decision_action MatchDecisionType.accepted = AuditAction.match_accepted
decision_action MatchDecisionType.rejected = AuditAction.match_rejected

unfoldable pub decision_audit : ReconciliationRun → Proposal → MatchDecision → AuditEvent
decision_audit run p d = record {
  action = decision_action d.decision;
  subject = AuditRecord.proposal (kind_of p) (id_of p);
  user_id = some d.decided_by;
  legal_entity_id = run.legal_entity_id;
  previous_value = some (proposal_value d.previous_status run.id none);
  new_value = some (proposal_value d.new_status run.id (some d.id));
  reason = d.reason;
}

-- The record, the claims, the proposal's status and the audit row.
unfoldable pub write_decision :
    Store → ReconciliationRun → Proposal → MatchDecision → List AcceptedClaim → Store
unfolding set_status decision_audit
write_decision s run p d claims = set_status p d.decision (record s {
  decisions = s.decisions ++ d ∷ [];
  claims = claims;
  audits = decision_audit run p d ∷ s.audits;
  next_id = suc s.next_id;
})
