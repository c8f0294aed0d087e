-- ===== src/Reconciliation/Decision/Claims.antt =====
-- What a decision writes, and that no transaction is claimed twice.
use treasury_os_app.Base.{
  ℕ, ◌≡◌, refl, sym, ap, ◌∙◌, inl, inr, subst, false, Option, some, List, [], ◌∷◌, ◌++◌, any, ok,
  conflict, arith, >>=-eq_ok, raise_if,
}
use mathlib.Core.List.{append_assoc}
use treasury_os_app.Text.{Text, strip, or_empty}
use treasury_os_app.Reconciliation.Records.{
  MatchProposalKind, MatchDecisionType, ReconciliationRun, MatchDecision, AcceptedClaim,
}
use treasury_os_app.Reconciliation.Store.{Store}
use treasury_os_app.Reconciliation.Proposal.{Proposal, ClaimSpec, proposal_claims}
use treasury_os_app.Reconciliation.Sync.{sync_open_items_for_run}
use treasury_os_app.Reconciliation.Sync.Frame.{with_items, sync-frame}
use treasury_os_app.Reconciliation.DecisionRecord.{
  DecisionResult, clashes, claim_row, insert_claims, decision_record, set_status, write_decision,
}
use treasury_os_app.Reconciliation.Decision.{reject_proposal, decide_proposal}
use treasury_os_app.Reconciliation.Decision.Effects.{IsApplied, IsFirst, decide_proposal-ok}

-- The unique indexes: no claim clashes with an earlier one.
abbrev pub HasUniqueClaims : List AcceptedClaim → Type 0
HasUniqueClaims [] = Unit
HasUniqueClaims (c ∷ cs) = (any (clashes c) cs ≡ false) × HasUniqueClaims cs

-- The second list has all of the first, after some others.
abbrev pub Extends : List AcceptedClaim → List AcceptedClaim → Type 0
Extends old new = (added : List AcceptedClaim) × (new ≡ added ++ old)

insert_claims-HasUniqueClaims :
    (id entity : ℕ) (cs : List ClaimSpec) (claims rows : List AcceptedClaim)
    → insert_claims id entity cs claims ≡ ok rows
    → HasUniqueClaims claims
    → HasUniqueClaims rows × Extends claims rows
unfolding insert_claims
insert_claims-HasUniqueClaims id entity [] claims rows h u =
    let same : rows ≡ claims = ground arith in (subst HasUniqueClaims (sym same) u, ([], same))
insert_claims-HasUniqueClaims id entity (c ∷ cs) claims rows h u =
    let row = claim_row id entity c in
    let (_, free, h₁) =
      >>=-eq_ok (raise_if (any (clashes row) claims) conflict)
        (λ _. insert_claims id entity cs (row ∷ claims)) h in
    let (unique, (added, e)) =
      insert_claims-HasUniqueClaims id entity cs (row ∷ claims) rows h₁ (ground arith, u) in
    (unique, (added ++ row ∷ [], e ∙ sym (append_assoc added (row ∷ []) claims)))

-- The store that a first decision leaves: the proposal's status is set, the decision is the last of
-- the decisions, and apart from them only claims, items, logs and the counter may differ.
abbrev pub Written : Store → Proposal → MatchDecision → Store → Type 0
Written s p d t = t ≡ record (set_status p d.decision s) {
  decisions = s.decisions ++ d ∷ [];
  claims = t.claims;
  items = t.items;
  events = t.events;
  audits = t.audits;
  next_id = t.next_id;
}

write_decision-Written :
    (s : Store) (run : ReconciliationRun) (p : Proposal) (d : MatchDecision)
    (claims : List AcceptedClaim)
    → Written s p d (write_decision s run p d claims)
unfolding write_decision
write_decision-Written s run (Proposal.one_to_one g) d claims = refl
write_decision-Written s run (Proposal.grouped g) d claims = refl

pub write_decision-claims :
    (s : Store) (run : ReconciliationRun) (p : Proposal) (d : MatchDecision)
    (claims : List AcceptedClaim)
    → (write_decision s run p d claims).claims ≡ claims
unfolding write_decision
write_decision-claims s run (Proposal.one_to_one g) d claims = refl
write_decision-claims s run (Proposal.grouped g) d claims = refl

-- A rejection leaves the claims alone, and what it writes before the synchronization stays.
reject_proposal-Written :
    (s : Store) (run : ReconciliationRun) (p : Proposal) (d : MatchDecision)
    → Written s p d (reject_proposal s run p d).1
      × ((reject_proposal s run p d).1.claims ≡ s.claims)
unfolding reject_proposal
reject_proposal-Written s run p d =
    let w = write_decision s run p d s.claims in
    let t = (sync_open_items_for_run w run (some d.decided_by)).1 in
    let framed = sync-frame w run (some d.decided_by) in
    let kept = ap (λ (u : Store). u.claims) framed in
    (
      framed
          ∙ (ap (λ u. with_items u t) (write_decision-Written s run p d s.claims)
              ∙ ap
                  (λ (c : List AcceptedClaim). record (set_status p d.decision s) {
                    decisions = s.decisions ++ d ∷ [];
                    claims = c;
                    items = t.items;
                    events = t.events;
                    audits = t.audits;
                    next_id = t.next_id;
                  })
                  (sym kept)),
      kept ∙ write_decision-claims s run p d s.claims,
    )

-- What a decision does to the claims.
abbrev pub ClaimsGrow : Store → Store → Type 0
ClaimsGrow s t = HasUniqueClaims s.claims → HasUniqueClaims t.claims × Extends s.claims t.claims

ClaimsGrow-same : (s t : Store) → t.claims ≡ s.claims → ClaimsGrow s t
ClaimsGrow-same s t e u = (subst HasUniqueClaims (sym e) u, ([], e))

reject_proposal-result :
    (s : Store) (run : ReconciliationRun) (p : Proposal) (d : MatchDecision)
    → (reject_proposal s run p d).0 ≡ record { decision = d; already_decided = false }
unfolding reject_proposal
reject_proposal-result s run p d = refl

IsApplied-Written :
    (s : Store) (run : ReconciliationRun) (p : Proposal) (actor : ℕ) (decision : MatchDecisionType)
    (text : Text) (out : DecisionResult × Store)
    → IsApplied s run p actor decision text out
    → let d = decision_record run p decision text actor s.next_id in
      (out.0 ≡ record { decision = d; already_decided = false })
      × Written s p d out.1
      × ClaimsGrow s out.1
IsApplied-Written s run p actor MatchDecisionType.accepted text out (rows, _, _, inserted, e) =
    let d = decision_record run p MatchDecisionType.accepted text actor s.next_id in
    let now = ap (λ (o : DecisionResult × Store). o.1) e in
    (
      ap (λ (o : DecisionResult × Store). o.0) e,
      subst (Written s p d) (sym now) (write_decision-Written s run p d rows),
      λ u.
          subst (λ (t : Store). HasUniqueClaims t.claims × Extends s.claims t.claims) (sym now)
            (subst (λ (c : List AcceptedClaim). HasUniqueClaims c × Extends s.claims c)
              (sym (write_decision-claims s run p d rows))
              (insert_claims-HasUniqueClaims d.id run.legal_entity_id (proposal_claims s p) s.claims
                rows inserted u)),
    )
IsApplied-Written s run p actor MatchDecisionType.rejected text out e =
    let d = decision_record run p MatchDecisionType.rejected text actor s.next_id in
    let now = ap (λ (o : DecisionResult × Store). o.1) e in
    let (written, kept) = reject_proposal-Written s run p d in
    (
      ap (λ (o : DecisionResult × Store). o.0) e ∙ reject_proposal-result s run p d,
      subst (Written s p d) (sym now) written,
      ClaimsGrow-same s out.1 (ap (λ (t : Store). t.claims) now ∙ kept),
    )

-- A first decision gives its record, writes it, and does to the claims what it may.
pub IsFirst-Written :
    (s : Store) (run : ReconciliationRun) (p : Proposal) (actor : ℕ) (decision : MatchDecisionType)
    (reason : Option Text) (out : DecisionResult × Store)
    → IsFirst s run p actor decision reason out
    → let d = decision_record run p decision (strip (or_empty reason)) actor s.next_id in
      (out.0 ≡ record { decision = d; already_decided = false })
      × Written s p d out.1
      × ClaimsGrow s out.1
IsFirst-Written s run p actor decision reason out (_, applied) =
    IsApplied-Written s run p actor decision (strip (or_empty reason)) out applied

-- No transaction is accepted twice: if no two claims of one namespace name one bank row or one ledger
-- row before a decision, then neither do they after it; and no claim is released.
pub decide_proposal-HasUniqueClaims :
    (s : Store) (kind : MatchProposalKind) (k actor : ℕ) (decision : MatchDecisionType)
    (reason : Option Text) (out : DecisionResult × Store)
    → decide_proposal s kind k actor decision reason ≡ ok out
    → HasUniqueClaims s.claims
    → HasUniqueClaims out.1.claims × Extends s.claims out.1.claims
decide_proposal-HasUniqueClaims s kind k actor decision reason out h =
    let (p, run, _, _, how) = decide_proposal-ok s kind k actor decision reason out h in
    elim how [
      | inl (d, _, (_, e)) ↦
          ClaimsGrow-same s out.1 (ap (λ (o : DecisionResult × Store). o.1.claims) e)
      | inr (_, first) ↦ (IsFirst-Written s run p actor decision reason out first).2
    ]
