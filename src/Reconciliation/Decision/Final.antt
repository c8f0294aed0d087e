-- ===== src/Reconciliation/Decision/Final.antt =====
-- The second decision of a proposal.
use treasury_os_app.Base.{
  ℕ, ◌≡◌, refl, sym, ap, ◌∙◌, inl, inr, subst, true, Option, none, some, [], ◌∷◌, ◌++◌,
  if◌then◌else◌, find, ok, raised, conflict, arith,
}
use treasury_os_app.Text.{Text, strip, or_empty}
use treasury_os_app.Reconciliation.Records.{
  MatchProposalKind, MatchDecisionType, ReconciliationRun, MatchDecision,
}
use treasury_os_app.Reconciliation.Store.{Store, get_run}
use treasury_os_app.Reconciliation.Proposal.{Proposal, id_of, run_of, load_proposal}
use treasury_os_app.Reconciliation.DecisionRecord.{
  DecisionResult, same_decision, decides, decision_record, set_status,
}
use treasury_os_app.Reconciliation.Decision.{decide_again, decide_loaded, decide_proposal}
use treasury_os_app.Reconciliation.Decision.Effects.{decide_proposal-ok}
use treasury_os_app.Reconciliation.Decision.Claims.{Written, IsFirst-Written}
use treasury_os_app.Reconciliation.Decision.Reload.{
  find-append, load_proposal-ext, set_status-Reloads, set_status-runs, decides-record,
}

-- A proposal with a decision is decided again.
decide_proposal-known :
    (s : Store) (kind : MatchProposalKind) (k actor : ℕ) (decision : MatchDecisionType)
    (reason : Option Text) (p : Proposal) (run : ReconciliationRun) (d : MatchDecision)
    → load_proposal s kind k ≡ some p
    → get_run (run_of p) s.runs ≡ some run
    → find (decides kind (id_of p)) s.decisions ≡ some d
    → decide_proposal s kind k actor decision reason ≡ decide_again s d decision
unfolding decide_proposal decide_loaded
decide_proposal-known s kind k actor decision reason p run d loaded of_run old =
    rw (loaded, of_run, old) refl

-- What a second call finds after a first: the proposal, its run and its decision.
abbrev pub IsDecided : Store → MatchProposalKind → ℕ → MatchDecision → Type 0
IsDecided t kind k d =
    (p : Proposal) × (run : ReconciliationRun) × (load_proposal t kind k ≡ some p)
    × (get_run (run_of p) t.runs ≡ some run)
    × (find (decides kind (id_of p)) t.decisions ≡ some d)

Written-IsDecided :
    (s t : Store) (kind : MatchProposalKind) (k : ℕ) (p : Proposal) (run : ReconciliationRun)
    (decision : MatchDecisionType) (text : Text) (actor : ℕ)
    → load_proposal s kind k ≡ some p
    → get_run (run_of p) s.runs ≡ some run
    → find (decides kind (id_of p)) s.decisions ≡ none
    → Written s p (decision_record run p decision text actor s.next_id) t
    → IsDecided t kind k (decision_record run p decision text actor s.next_id)
unfolding decision_record
Written-IsDecided s t kind k p run decision text actor loaded of_run fresh w =
    let d = decision_record run p decision text actor s.next_id in
    let ((p', loaded', same_id, same_run), same_kind) =
      set_status-Reloads s kind k decision p loaded in
    (
      p',
      run,
      load_proposal-ext (set_status p decision s) t kind k (ap (λ (u : Store). u.suggestions) w)
            (ap (λ (u : Store). u.groups) w)
          ∙ loaded',
      ap (get_run (run_of p')) (ap (λ (u : Store). u.runs) w ∙ set_status-runs p decision s)
          ∙ (ap (λ j. get_run j s.runs) same_run ∙ of_run),
      ap (find (decides kind (id_of p'))) (ap (λ (u : Store). u.decisions) w)
          ∙ (ap (λ j. find (decides kind j) (s.decisions ++ d ∷ [])) same_id
              ∙ find-append (decides kind (id_of p)) s.decisions d fresh
                  (decides-record kind run p decision text actor s.next_id same_kind)),
    )

decide_proposal-IsDecided :
    (s : Store) (kind : MatchProposalKind) (k actor : ℕ) (decision : MatchDecisionType)
    (reason : Option Text) (out : DecisionResult × Store)
    → decide_proposal s kind k actor decision reason ≡ ok out
    → IsDecided out.1 kind k out.0.decision
      × (same_decision out.0.decision.decision decision ≡ true)
unfolding decision_record
decide_proposal-IsDecided s kind k actor decision reason out h =
    let (p, run, loaded, of_run, how) = decide_proposal-ok s kind k actor decision reason out h in
    elim how [
      | inl (d, old, (same, e)) ↦
          subst
            (λ (o : DecisionResult × Store).
              IsDecided o.1 kind k o.0.decision
              × (same_decision o.0.decision.decision decision ≡ true))
            (sym e) ((p, run, loaded, of_run, old), same)
      | inr (fresh, first) ↦
          let (result, written, _) = IsFirst-Written s run p actor decision reason out first in
          subst
            (λ (r : DecisionResult).
              IsDecided out.1 kind k r.decision
              × (same_decision r.decision.decision decision ≡ true))
            (sym result)
            (
              Written-IsDecided s out.1 kind k p run decision (strip (or_empty reason)) actor loaded
                  of_run fresh written,
              same_decision_refl decision,
            )
    ]
  where
    same_decision_refl : (c : MatchDecisionType) → same_decision c c ≡ true
    same_decision_refl MatchDecisionType.accepted = refl
    same_decision_refl MatchDecisionType.rejected = refl

-- After a decision, a second call on the proposal with the same decision, by anyone and with any
-- reason, returns the recorded decision as already decided and changes nothing; with the other
-- decision it is a 409.
pub decide_proposal-final :
    (s : Store) (kind : MatchProposalKind) (k actor : ℕ) (decision : MatchDecisionType)
    (reason : Option Text) (out : DecisionResult × Store) (again : ℕ) (other : MatchDecisionType)
    (why : Option Text)
    → decide_proposal s kind k actor decision reason ≡ ok out
    → decide_proposal out.1 kind k again other why ≡ (
        if same_decision decision other
        then ok (record { decision = out.0.decision; already_decided = true }, out.1)
        else raised conflict)
unfolding decide_again
decide_proposal-final s kind k actor decision reason out again other why h =
    let ((p, run, loaded, of_run, found), same) =
      decide_proposal-IsDecided s kind k actor decision reason out h in
    decide_proposal-known out.1 kind k again other why p run out.0.decision loaded of_run found
    ∙ ap
        (λ b.
          if b
          then ok (record { decision = out.0.decision; already_decided = true }, out.1)
          else raised conflict)
        (swap out.0.decision.decision decision same)
  where
    swap :
        (a b : MatchDecisionType)
        → same_decision a b ≡ true
        → same_decision a other ≡ same_decision b other
    swap a b e = ground arith
