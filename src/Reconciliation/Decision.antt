-- ===== src/Reconciliation/Decision.antt =====
-- The decision of a proposal (backend/app/services/reconciliation_match_decision_service.py:
-- `decide_proposal`). The row lock on the proposal makes decisions of it follow one another.
pub mod Claims
pub mod Effects
pub mod Final
pub mod Reload
pub mod Accepted
pub mod Rejected
pub mod History
use treasury_os_app.Base.{
  ℕ, suc, Bool, true, false, not, ◌&&◌, ◌||◌, Option, none, some, List, [], ◌∷◌, ◌++◌, ◌==◌,
  if◌then◌else◌, same_key, is_some, leb, ltb, length, any, find, Outcome, ok, raised, bad_request,
  not_found, conflict, unprocessable, ◌>>=◌, ◌>>◌, raise_if, require,
}
use treasury_os_app.Text.{Text, strip, or_empty, is_empty}
use treasury_os_app.Reconciliation.Records.{
  MatchProposalKind, MatchDecisionType, ReconciliationRunStatus, ProposalStatus,
  MatchSuggestionStatus, MatchGroupStatus, ReconciliationRun, MatchSuggestion, MatchGroup,
  MatchDecision, AcceptedClaim,
}
use treasury_os_app.Reconciliation.Audit.{AuditAction, AuditEvent, AuditRecord, proposal_value}
use treasury_os_app.Reconciliation.Store.{Store, get_run}
use treasury_os_app.Reconciliation.Proposal.{
  Proposal, one_to_one, grouped, kind_of, id_of, run_of, status_of, load_proposal, ClaimSpec,
  suggestion_not_decidable_reason, proposal_claims, eligibility_problem, find_acceptance_conflict,
  same_namespace,
}
use treasury_os_app.Reconciliation.DecisionRecord.{
  DecisionResult, same_decision, target_status, is_completed, is_pending, decides, only_kind,
  or_none, decision_record, clashes, claim_row, insert_claims, suggestion_status, group_status,
  set_suggestion, set_group, set_status, decision_action, decision_audit, write_decision,
}
use treasury_os_app.Reconciliation.Sync.{sync_open_items_for_run}

abbrev pub min_rejection_reason_length : ℕ
min_rejection_reason_length = 10

pub accept_proposal :
    Store → ReconciliationRun → Proposal → MatchDecision → Outcome (DecisionResult × Store)
unfolding write_decision
accept_proposal s run p d =
    let claims = proposal_claims s p in
    do
      raise_if (eligibility_problem s p run claims) conflict
      raise_if (find_acceptance_conflict s claims) conflict
      rows ← insert_claims d.id run.legal_entity_id claims s.claims
      ok (record { decision = d; already_decided = false }, write_decision s run p d rows)

pub reject_proposal : Store → ReconciliationRun → Proposal → MatchDecision → DecisionResult × Store
unfolding write_decision
reject_proposal s run p d = (
  record { decision = d; already_decided = false },
  (sync_open_items_for_run (write_decision s run p d s.claims) run (some d.decided_by)).1,
)

pub apply_decision :
    Store
    → ReconciliationRun
    → Proposal
    → ℕ
    → MatchDecisionType
    → Text
    → Outcome (DecisionResult × Store)
unfolding accept_proposal reject_proposal decision_record
apply_decision s run p actor MatchDecisionType.accepted text =
    accept_proposal s run p (decision_record run p MatchDecisionType.accepted text actor s.next_id)
apply_decision s run p actor MatchDecisionType.rejected text = ok (
    reject_proposal s run p (decision_record run p MatchDecisionType.rejected text actor s.next_id))

abbrev pub undecidable : Store → Proposal → Bool
undecidable s (one_to_one g) = suggestion_not_decidable_reason s g
undecidable s (grouped _) = false

-- `decision == REJECTED and len(text) < MIN_REJECTION_REASON_LENGTH`
abbrev pub reason_missing : MatchDecisionType → Text → Bool
reason_missing MatchDecisionType.accepted text = false
reason_missing MatchDecisionType.rejected text = ltb (length text) min_rejection_reason_length

-- the part of `decide_proposal` for a proposal without a decision
pub decide_first :
    Store
    → ReconciliationRun
    → Proposal
    → ℕ
    → MatchDecisionType
    → Option Text
    → Outcome (DecisionResult × Store)
unfolding apply_decision
decide_first s run p actor decision reason =
    let text = strip (or_empty reason) in
    do
      require (is_completed run.status) bad_request
      require (is_pending (status_of p)) bad_request
      raise_if (undecidable s p) bad_request
      raise_if (reason_missing decision text) unprocessable
      raise_if (ltb 4000 (length text)) unprocessable
      apply_decision s run p actor decision text

-- an existing decision: the same one is a no-op, another one is refused
pub decide_again : Store → MatchDecision → MatchDecisionType → Outcome (DecisionResult × Store)
decide_again s d decision =
    if same_decision d.decision decision
    then ok (record { decision = d; already_decided = true }, s)
    else raised conflict

pub decide_loaded :
    Store
    → ReconciliationRun
    → Proposal
    → ℕ
    → MatchDecisionType
    → Option Text
    → Option MatchDecision
    → Outcome (DecisionResult × Store)
unfolding decide_first decide_again
decide_loaded s run p actor decision reason none = decide_first s run p actor decision reason
decide_loaded s run p actor decision reason (some d) = decide_again s d decision

-- `x`, or a 404
abbrev pub or_not_found {ℓ} : {A : Type ℓ} → Option A → Outcome A
or_not_found none = raised not_found
or_not_found (some a) = ok a

unfoldable pub decide_proposal :
    Store
    → MatchProposalKind
    → ℕ
    → ℕ
    → MatchDecisionType
    → Option Text
    → Outcome (DecisionResult × Store)
unfolding decide_loaded
decide_proposal s kind proposal_id actor decision reason = do
  p ← or_not_found (load_proposal s kind proposal_id)
  run ← or_not_found (get_run (run_of p) s.runs)
  decide_loaded s run p actor decision reason (find (decides kind (id_of p)) s.decisions)
