-- ===== src/Reconciliation/Decision/Effects.antt =====
-- What a decision that goes through has found and written, on each of its three ways: the decision
-- existed, a proposal is accepted, a proposal is rejected.
use treasury_os_app.Base.{
  ℕ, ◌≤◌, ◌≡◌, ◌⊎◌, inl, inr, true, false, Option, none, some, List, ltb, length, find, Outcome, ok,
  conflict, arith, Option-cases, >>=-eq_ok, ◌>>=◌, raise_if, require, bad_request, unprocessable,
}
use treasury_os_app.Text.{Text, strip, or_empty}
use treasury_os_app.Reconciliation.Records.{
  MatchProposalKind, MatchDecisionType, ReconciliationRun, MatchDecision, AcceptedClaim,
}
use treasury_os_app.Reconciliation.Store.{Store, get_run}
use treasury_os_app.Reconciliation.Proposal.{
  Proposal, id_of, run_of, status_of, load_proposal, proposal_claims, eligibility_problem,
  find_acceptance_conflict,
}
use treasury_os_app.Reconciliation.DecisionRecord.{
  DecisionResult, same_decision, is_completed, is_pending, decides, decision_record, insert_claims,
  write_decision,
}
use treasury_os_app.Reconciliation.Decision.{
  accept_proposal, reject_proposal, apply_decision, undecidable, reason_missing, decide_first,
  decide_again, decide_loaded, or_not_found, decide_proposal,
}

-- The guards of a first decision.
abbrev pub IsDecidable : Store → ReconciliationRun → Proposal → MatchDecisionType → Text → Type 0
IsDecidable s run p decision text =
    (is_completed run.status ≡ true)
    × (is_pending (status_of p) ≡ true)
    × (undecidable s p ≡ false)
    × (reason_missing decision text ≡ false)
    × (length text ≤ 4000)

-- What an acceptance has checked, and written.
abbrev pub IsAcceptance :
    Store → ReconciliationRun → Proposal → MatchDecision → DecisionResult × Store → Type 0
IsAcceptance s run p d out =
    (rows : List AcceptedClaim) × (eligibility_problem s p run (proposal_claims s p) ≡ false)
    × (find_acceptance_conflict s (proposal_claims s p) ≡ false)
    × (insert_claims d.id run.legal_entity_id (proposal_claims s p) s.claims ≡ ok rows)
    × (out ≡ (record { decision = d; already_decided = false }, write_decision s run p d rows))

-- What a first decision writes, by its kind.
abbrev pub IsApplied :
    Store
    → ReconciliationRun
    → Proposal
    → ℕ
    → MatchDecisionType
    → Text
    → DecisionResult × Store
    → Type 0
IsApplied s run p actor MatchDecisionType.accepted text out =
    IsAcceptance s run p (decision_record run p MatchDecisionType.accepted text actor s.next_id) out
IsApplied s run p actor MatchDecisionType.rejected text out =
    out
    ≡ reject_proposal s run p
        (decision_record run p MatchDecisionType.rejected text actor s.next_id)

abbrev pub IsFirst :
    Store
    → ReconciliationRun
    → Proposal
    → ℕ
    → MatchDecisionType
    → Option Text
    → DecisionResult × Store
    → Type 0
IsFirst s run p actor decision reason out =
    IsDecidable s run p decision (strip (or_empty reason))
    × IsApplied s run p actor decision (strip (or_empty reason)) out

abbrev pub IsRepeat : Store → MatchDecision → MatchDecisionType → DecisionResult × Store → Type 0
IsRepeat s d decision out =
    (same_decision d.decision decision ≡ true)
    × (out ≡ (record { decision = d; already_decided = true }, s))

accept_proposal-ok :
    (s : Store) (run : ReconciliationRun) (p : Proposal) (d : MatchDecision)
    (out : DecisionResult × Store)
    → accept_proposal s run p d ≡ ok out
    → IsAcceptance s run p d out
unfolding accept_proposal
accept_proposal-ok s run p d out h =
    let claims = proposal_claims s p in
    let rest : List AcceptedClaim → Outcome (DecisionResult × Store) = λ rows.
      ok (record { decision = d; already_decided = false }, write_decision s run p d rows) in
    let (_, eligible, h₁) =
      >>=-eq_ok (raise_if (eligibility_problem s p run claims) conflict)
        (λ _. raise_if (find_acceptance_conflict s claims) conflict >>= λ _.
          insert_claims d.id run.legal_entity_id claims s.claims >>= rest)
        h in
    let (_, free, h₂) =
      >>=-eq_ok (raise_if (find_acceptance_conflict s claims) conflict)
        (λ _. insert_claims d.id run.legal_entity_id claims s.claims >>= rest) h₁ in
    let (rows, inserted, h₃) =
      >>=-eq_ok (insert_claims d.id run.legal_entity_id claims s.claims) rest h₂ in
    (rows, ground arith, ground arith, inserted, ground arith)

apply_decision-ok :
    (s : Store) (run : ReconciliationRun) (p : Proposal) (actor : ℕ) (decision : MatchDecisionType)
    (text : Text) (out : DecisionResult × Store)
    → apply_decision s run p actor decision text ≡ ok out
    → IsApplied s run p actor decision text out
unfolding apply_decision
apply_decision-ok s run p actor MatchDecisionType.accepted text out h =
    accept_proposal-ok s run p _ out h
apply_decision-ok s run p actor MatchDecisionType.rejected text out h = ground arith

decide_first-ok :
    (s : Store) (run : ReconciliationRun) (p : Proposal) (actor : ℕ) (decision : MatchDecisionType)
    (reason : Option Text) (out : DecisionResult × Store)
    → decide_first s run p actor decision reason ≡ ok out
    → IsFirst s run p actor decision reason out
unfolding decide_first
decide_first-ok s run p actor decision reason out h =
    let text = strip (or_empty reason) in
    let done = λ (_ : Unit {0}). apply_decision s run p actor decision text in
    let long = λ (_ : Unit {0}). raise_if (ltb 4000 (length text)) unprocessable >>= done in
    let missing =
      λ (_ : Unit {0}). raise_if (reason_missing decision text) unprocessable >>= long in
    let blocked = λ (_ : Unit {0}). raise_if (undecidable s p) bad_request >>= missing in
    let waiting = λ (_ : Unit {0}). require (is_pending (status_of p)) bad_request >>= blocked in
    let (_, a, h₁) = >>=-eq_ok (require (is_completed run.status) bad_request) waiting h in
    let (_, b, h₂) = >>=-eq_ok (require (is_pending (status_of p)) bad_request) blocked h₁ in
    let (_, c, h₃) = >>=-eq_ok (raise_if (undecidable s p) bad_request) missing h₂ in
    let (_, d, h₄) = >>=-eq_ok (raise_if (reason_missing decision text) unprocessable) long h₃ in
    let (_, e, h₅) = >>=-eq_ok (raise_if (ltb 4000 (length text)) unprocessable) done h₄ in
    (
      (ground arith, ground arith, ground arith, ground arith, ground arith),
      apply_decision-ok s run p actor decision text out h₅,
    )

-- What a decision that goes through has found: the proposal, its run, and a decision of it that is the
-- same, or none, and then the guards held and the decision was applied.
abbrev pub IsOutcome :
    Store
    → MatchProposalKind
    → ℕ
    → ℕ
    → MatchDecisionType
    → Option Text
    → DecisionResult × Store
    → Type 0
IsOutcome s kind k actor decision reason out =
    (p : Proposal) × (run : ReconciliationRun) × (load_proposal s kind k ≡ some p)
    × (get_run (run_of p) s.runs ≡ some run)
    × (((d : MatchDecision) × (find (decides kind (id_of p)) s.decisions ≡ some d)
          × IsRepeat s d decision out)
        ⊎ ((find (decides kind (id_of p)) s.decisions ≡ none)
            × IsFirst s run p actor decision reason out))

or_not_found-ok {ℓ} : {A : Type ℓ} (o : Option A) {a : A} → or_not_found o ≡ ok a → o ≡ some a
or_not_found-ok none h = cc
or_not_found-ok (some b) h = ground arith

pub decide_proposal-ok :
    (s : Store) (kind : MatchProposalKind) (k actor : ℕ) (decision : MatchDecisionType)
    (reason : Option Text) (out : DecisionResult × Store)
    → decide_proposal s kind k actor decision reason ≡ ok out
    → IsOutcome s kind k actor decision reason out
unfolding decide_proposal decide_loaded decide_again
decide_proposal-ok s kind k actor decision reason out h =
    let known : Proposal → ReconciliationRun → Outcome (DecisionResult × Store) = λ p run.
      decide_loaded s run p actor decision reason (find (decides kind (id_of p)) s.decisions) in
    let (p, loaded, h₁) =
      >>=-eq_ok (or_not_found (load_proposal s kind k))
        (λ p. or_not_found (get_run (run_of p) s.runs) >>= known p) h in
    let (run, of_run, h₂) = >>=-eq_ok (or_not_found (get_run (run_of p) s.runs)) (known p) h₁ in
    (
      p,
      run,
      or_not_found-ok (load_proposal s kind k) loaded,
      or_not_found-ok (get_run (run_of p) s.runs) of_run,
      elim (Option-cases (find (decides kind (id_of p)) s.decisions)) [
        | inl fresh ↦
            inr (fresh, decide_first-ok s run p actor decision reason out (rw fresh at h₂))
        | inr (d, old) ↦ inl (d, old, again d (rw old at h₂))
      ],
    )
  where
    again : (d : MatchDecision) → decide_again s d decision ≡ ok out → IsRepeat s d decision out
    again d e = ground arith
