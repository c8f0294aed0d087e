-- ===== src/Reconciliation/Decision/Rejected.antt =====
-- What becomes of the transactions of a rejected proposal.
use treasury_os_app.Base.{
  ℕ, ◌≡◌, refl, sym, ap, ◌∙◌, ◌⊎◌, inl, inr, subst, true, false, ◌&&◌, Option, some, ◌==◌, same_key,
  any, In, ok, arith,
}
use mathlib.Core.Option.{some-injective}
use treasury_os_app.Text.{Text, strip, or_empty}
use treasury_os_app.Reconciliation.Records.{
  MatchProposalKind, MatchDecisionType, ReconciliationRun, MatchDecision, OpenItem, BankTransaction,
}
use treasury_os_app.Reconciliation.Store.{Store, evidence, get_run}
use treasury_os_app.Reconciliation.Derivation.{scope_of}
use treasury_os_app.Reconciliation.MatchingRun.{scope_transactions}
use treasury_os_app.Reconciliation.Exceptions.BankSide.{IsCovered}
use treasury_os_app.Reconciliation.Proposal.{Proposal, one_to_one, grouped, run_of, load_proposal}
use treasury_os_app.Reconciliation.Sync.Coverage.{sync-Covers, sync-bank_accounted}
use treasury_os_app.Reconciliation.DecisionRecord.{DecisionResult, decision_record, write_decision}
use treasury_os_app.Reconciliation.Decision.{reject_proposal, decide_proposal}
use treasury_os_app.Reconciliation.Decision.Effects.{decide_proposal-ok}

-- The bank row is covered, or an item of the run names it.
abbrev pub Accounted : Store → ReconciliationRun → BankTransaction → Type 0
Accounted t run b =
    IsCovered (evidence t) run b
    ⊎ (any (λ (i : OpenItem). i.run_id == run.id && same_key i.source_key.bank_id (some b.id))
          t.items
        ≡ true)

write_decision-banks :
    (s : Store) (run : ReconciliationRun) (p : Proposal) (d : MatchDecision)
    → (write_decision s run p d s.claims).banks ≡ s.banks
unfolding write_decision
write_decision-banks s run (one_to_one g) d = refl
write_decision-banks s run (grouped g) d = refl

reject_proposal-Accounted :
    (s : Store) (run : ReconciliationRun) (p : Proposal) (d : MatchDecision) (b : BankTransaction)
    → In b (scope_transactions (scope_of run) s.banks)
    → Accounted (reject_proposal s run p d).1 run b
unfolding reject_proposal
reject_proposal-Accounted s run p d b m =
    let w = write_decision s run p d s.claims in
    let (kept, _) = sync-Covers w run (some d.decided_by) in
    elim (sync-bank_accounted w run (some d.decided_by) b (
      subst (λ l. In b (scope_transactions (scope_of run) l)) (sym (write_decision-banks s run p d))
        m)) [
          | inl covered ↦ inl (subst (λ e. IsCovered e run b) (sym kept) covered)
          | inr found ↦ inr found
        ]

-- A new rejection hides nothing: in the store that it leaves, where the proposal is rejected, every
-- active bank row of the run's entity, account and period is covered by what is left of the
-- proposals, or the work queue has an item of the run that names it.
pub decide_proposal-Accounted :
    (s : Store) (kind : MatchProposalKind) (k actor : ℕ) (reason : Option Text)
    (out : DecisionResult × Store) (p : Proposal) (run : ReconciliationRun) (b : BankTransaction)
    → decide_proposal s kind k actor MatchDecisionType.rejected reason ≡ ok out
    → out.0.already_decided ≡ false
    → load_proposal s kind k ≡ some p
    → get_run (run_of p) s.runs ≡ some run
    → In b (scope_transactions (scope_of run) s.banks)
    → Accounted out.1 run b
decide_proposal-Accounted s kind k actor reason out p run b h new loaded of_run m =
    let (p', run', loaded', of_run', how) =
      decide_proposal-ok s kind k actor MatchDecisionType.rejected reason out h in
    let same_p = some-injective p p' (sym loaded ∙ loaded') in
    let same : run' ≡ run =
      some-injective run' run
        (sym of_run' ∙ (ap (λ q. get_run (run_of q) s.runs) (sym same_p) ∙ of_run)) in
    elim how [
      | inl (d, _, (_, e)) ↦
          absurd (ground (arith, ap (λ (o : DecisionResult × Store). o.0.already_decided) e))
      | inr (_, (_, e)) ↦
          let d =
            decision_record run' p' MatchDecisionType.rejected (strip (or_empty reason)) actor
              s.next_id in
          let here_it_is =
            subst (λ r. In b (scope_transactions (scope_of r) s.banks)) (sym same) m in
          subst (λ r. Accounted out.1 r b) same
            (subst (λ t. Accounted t run' b) (sym (ap (λ (o : DecisionResult × Store). o.1) e))
              (reject_proposal-Accounted s run' p' d b here_it_is))
    ]
