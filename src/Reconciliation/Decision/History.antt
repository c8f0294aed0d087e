-- ===== src/Reconciliation/Decision/History.antt =====
-- A decision keeps the history of the open items complete.
use treasury_os_app.Base.{
  ℕ, suc, ◌<◌, ◌≡◌, sym, ap, inl, inr, subst, Option, some, List, ok, arith, All-map_P,
}
use treasury_os_app.Text.{Text, strip, or_empty}
use treasury_os_app.Reconciliation.Records.{
  MatchProposalKind, MatchDecisionType, ReconciliationRun, MatchDecision, AcceptedClaim, ItemEvent,
}
use treasury_os_app.Reconciliation.Store.{Store}
use treasury_os_app.Reconciliation.Proposal.{Proposal, one_to_one, grouped}
use treasury_os_app.Reconciliation.Sync.History.{HasFreshIds, IsRecorded, sync-IsRecorded}
use treasury_os_app.Reconciliation.DecisionRecord.{DecisionResult, write_decision, decision_record}
use treasury_os_app.Reconciliation.Decision.{reject_proposal, decide_proposal}
use treasury_os_app.Reconciliation.Decision.Effects.{IsApplied, decide_proposal-ok}

later_ids : (s : Store) → HasFreshIds s → HasFreshIds (record s { next_id = suc s.next_id })
later_ids s h =
    All-map_P (λ (e : ItemEvent). e.open_item_id < s.next_id)
      (λ (e : ItemEvent). e.open_item_id < suc s.next_id) s.events (λ e h. omega (arith, h)) h

write_decision-IsRecorded :
    (s : Store) (run : ReconciliationRun) (p : Proposal) (d : MatchDecision)
    (claims : List AcceptedClaim)
    → IsRecorded s
    → IsRecorded (write_decision s run p d claims)
unfolding write_decision
write_decision-IsRecorded s run (one_to_one g) d claims (l, f) =
    (record { tracked = l.tracked; chained = l.chained }, later_ids s f)
write_decision-IsRecorded s run (grouped g) d claims (l, f) =
    (record { tracked = l.tracked; chained = l.chained }, later_ids s f)

reject_proposal-IsRecorded :
    (s : Store) (run : ReconciliationRun) (p : Proposal) (d : MatchDecision)
    → IsRecorded s
    → IsRecorded (reject_proposal s run p d).1
unfolding reject_proposal
reject_proposal-IsRecorded s run p d h =
    sync-IsRecorded (write_decision s run p d s.claims) run (some d.decided_by)
      (write_decision-IsRecorded s run p d s.claims h)

IsApplied-IsRecorded :
    (s : Store) (run : ReconciliationRun) (p : Proposal) (actor : ℕ) (decision : MatchDecisionType)
    (text : Text) (out : DecisionResult × Store)
    → IsApplied s run p actor decision text out
    → IsRecorded s
    → IsRecorded out.1
IsApplied-IsRecorded s run p actor MatchDecisionType.accepted text out (rows, _, _, _, e) h =
    let d = decision_record run p MatchDecisionType.accepted text actor s.next_id in
    subst IsRecorded (sym (ap (λ (o : DecisionResult × Store). o.1) e))
      (write_decision-IsRecorded s run p d rows h)
IsApplied-IsRecorded s run p actor MatchDecisionType.rejected text out e h =
    let d = decision_record run p MatchDecisionType.rejected text actor s.next_id in
    subst IsRecorded (sym (ap (λ (o : DecisionResult × Store). o.1) e))
      (reject_proposal-IsRecorded s run p d h)

-- A decision keeps the history complete, with the items that a rejection adds.
pub decide_proposal-IsRecorded :
    (s : Store) (kind : MatchProposalKind) (k actor : ℕ) (decision : MatchDecisionType)
    (reason : Option Text) (out : DecisionResult × Store)
    → decide_proposal s kind k actor decision reason ≡ ok out
    → IsRecorded s
    → IsRecorded out.1
decide_proposal-IsRecorded s kind k actor decision reason out h r =
    let (p, run, _, _, how) = decide_proposal-ok s kind k actor decision reason out h in
    elim how [
      | inl (d, _, (_, e)) ↦ subst IsRecorded (sym (ap (λ (o : DecisionResult × Store). o.1) e)) r
      | inr (_, (_, applied)) ↦
          IsApplied-IsRecorded s run p actor decision (strip (or_empty reason)) out applied r
    ]
