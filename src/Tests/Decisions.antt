-- ===== src/Tests/Decisions.antt =====
-- The clerk synchronizes the run and accepts its proposal.
use treasury_os_app.Base.{
  ◌≡◌, refl, ◌⊎◌, true, false, ◌&&◌, none, some, List, [], ◌∷◌, ◌==◌, same_key, any, length, here,
  if◌then◌else◌, Outcome, ok, raised, conflict, arith,
}
use treasury_os_app.Text.{codes, strip}
use treasury_os_app.Reconciliation.Records.{
  MatchProposalKind, MatchDecisionType, ProposalStatus, OpenItem,
}
use treasury_os_app.Reconciliation.Store.{Store, evidence}
use treasury_os_app.Reconciliation.Workflow.{start, resolve}
use treasury_os_app.Reconciliation.Workflow.Disposition.{IsConsistent}
use treasury_os_app.Reconciliation.Derivation.{is_auto_match_tier}
use treasury_os_app.Reconciliation.Exceptions.{derive_open_item_specs}
use treasury_os_app.Reconciliation.Exceptions.BankSide.{IsCovered}
use treasury_os_app.Reconciliation.MatchingRun.{scope_transactions, in_scope}
use treasury_os_app.Reconciliation.Proposal.{
  one_to_one, load_proposal, proposal_claims, eligibility_problem, find_acceptance_conflict,
  suggestion_not_decidable_reason,
}
use treasury_os_app.Reconciliation.Sync.{sync_open_items_for_run}
use treasury_os_app.Reconciliation.Sync.Coverage.{
  Covers, all_existing, sync-Covers, sync_again, sync-bank_accounted,
}
use treasury_os_app.Reconciliation.DecisionRecord.{DecisionResult, same_decision, insert_claims}
use treasury_os_app.Reconciliation.Decision.{decide_proposal}
use treasury_os_app.Reconciliation.Decision.Claims.{
  HasUniqueClaims, Extends, decide_proposal-HasUniqueClaims,
}
use treasury_os_app.Reconciliation.Decision.Final.{decide_proposal-final}
use treasury_os_app.Reconciliation.Decision.Accepted.{IsAccepted, decide_proposal-IsAccepted}
use treasury_os_app.Reconciliation.Decision.Rejected.{Accounted, decide_proposal-Accounted}
use treasury_os_app.Reconciliation.Session.{Action, on_item, on_run, on_proposal, respond_all}
use treasury_os_app.Reconciliation.Session.Invariants.{Advances, respond_all-Advances}
use treasury_os_app.Tests.{clerk, stranger, received, run, store, with_proposal, proposed, plain}

abbrev suggestion : MatchProposalKind
suggestion = MatchProposalKind.suggestion

abbrev accepted : MatchDecisionType
accepted = MatchDecisionType.accepted

abbrev rejected : MatchDecisionType
rejected = MatchDecisionType.rejected

abbrev or_else {ℓ} : {A : Type ℓ} → A → Outcome A → A
or_else a (ok b) = b
or_else a (raised _) = a

abbrev nothing_decided : DecisionResult × Store
nothing_decided = (
  record {
    decision = record {
      id = 0;
      run_id = 0;
      legal_entity_id = 0;
      kind = suggestion;
      suggestion_id = none;
      group_id = none;
      decision = accepted;
      previous_status = ProposalStatus.pending;
      new_status = ProposalStatus.pending;
      reason = none;
      decided_by = 0;
    };
    already_decided = true;
  },
  store,
)

-- the acceptance of the proposal
abbrev acceptance : DecisionResult × Store
acceptance = or_else nothing_decided (decide_proposal with_proposal suggestion 45 5 accepted none)

accepts : decide_proposal with_proposal suggestion 45 5 accepted none ≡ ok acceptance
unfolding decide_proposal load_proposal suggestion_not_decidable_reason is_auto_match_tier strip
    eligibility_problem proposal_claims find_acceptance_conflict insert_claims
accepts = refl

accepts_now : acceptance.0.already_decided ≡ false
unfolding decide_proposal load_proposal suggestion_not_decidable_reason is_auto_match_tier strip
    eligibility_problem proposal_claims find_acceptance_conflict insert_claims
accepts_now = refl

sync-Covers_example :
    let t = (sync_open_items_for_run store run (some 5)).1 in
    (evidence t ≡ evidence store) × Covers t.items run (derive_open_item_specs (evidence t) run)
sync-Covers_example = sync-Covers store run (some 5)

sync_again_example :
    let t = (sync_open_items_for_run store run (some 5)).1 in
    sync_open_items_for_run t run (some 6)
    ≡ (all_existing (length (derive_open_item_specs (evidence store) run)), t)
sync_again_example = sync_again store run (some 5) (some 6)

sync-bank_accounted_example :
    IsCovered (evidence store) run received
    ⊎ (any
          (λ (i : OpenItem). i.run_id == run.id && same_key i.source_key.bank_id (some 20))
          (sync_open_items_for_run store run (some 5)).1.items
        ≡ true)
unfolding scope_transactions in_scope
sync-bank_accounted_example = sync-bank_accounted store run (some 5) received (here refl)

decide_proposal-HasUniqueClaims_example :
    HasUniqueClaims acceptance.1.claims × Extends [] acceptance.1.claims
decide_proposal-HasUniqueClaims_example =
    decide_proposal-HasUniqueClaims with_proposal suggestion 45 5 accepted none acceptance accepts
      tt

decide_proposal-final_example : decide_proposal acceptance.1 suggestion 45 6 rejected none ≡ (
    if same_decision accepted rejected
    then ok (record { decision = acceptance.0.decision; already_decided = true }, acceptance.1)
    else raised conflict)
decide_proposal-final_example =
    decide_proposal-final with_proposal suggestion 45 5 accepted none acceptance 6 rejected none
      accepts

decide_proposal-IsAccepted_example : IsAccepted with_proposal suggestion 45 none acceptance
decide_proposal-IsAccepted_example =
    decide_proposal-IsAccepted with_proposal suggestion 45 5 none acceptance accepts accepts_now

-- its rejection
abbrev rejection : DecisionResult × Store
rejection =
    or_else nothing_decided
      (decide_proposal with_proposal suggestion 45 5 rejected (some (codes "not our invoice")))

decide_proposal-Accounted_example : Accounted rejection.1 run received
unfolding decide_proposal load_proposal suggestion_not_decidable_reason is_auto_match_tier strip
    scope_transactions in_scope
decide_proposal-Accounted_example =
    decide_proposal-Accounted with_proposal suggestion 45 5 (some (codes "not our invoice"))
      rejection (one_to_one proposed) run received refl refl refl refl (here refl)

-- the clerk works on the item, accepts the proposal, and synchronizes; the stranger is refused
abbrev session : List Action
session =
    on_item (record { now = 9; user = clerk; item_id = 50; request = start })
    ∷ on_proposal stranger suggestion 45 rejected none
    ∷ on_proposal clerk suggestion 45 accepted none
    ∷ on_item (record { now = 10; user = clerk; item_id = 50; request = resolve none })
    ∷ on_run clerk 40
    ∷ []

respond_all-Advances_example :
    Advances with_proposal (respond_all plain.is_alpha with_proposal session)
unfolding IsConsistent
respond_all-Advances_example = respond_all-Advances plain.is_alpha with_proposal session (
  (
    record {
      tracked = ((refl, ((refl, refl, refl), (refl, refl), (refl, refl))), tt);
      chained = (refl, refl, tt);
    },
    (omega arith, tt),
  ),
  tt,
)
