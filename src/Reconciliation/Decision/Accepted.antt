-- ===== src/Reconciliation/Decision/Accepted.antt =====
-- What stands behind an accepted proposal, and what becomes of a rejected one.
use treasury_os_app.Base.{
  ℕ, ◌≡◌, refl, sym, ap, inl, inr, subst, Bool, true, false, not, Option, some, List, [], ◌∷◌, any,
  collect, ok, conflict, arith, >>=-eq_ok, raise_if, All, In, here, there,
}
use treasury_os_app.Text.{Text, strip, or_empty}
use treasury_os_app.Reconciliation.Records.{
  MatchProposalKind, MatchDecisionType, ReconciliationRun, MatchDecision, AcceptedClaim,
}
use treasury_os_app.Reconciliation.Store.{Store, get_bank, get_ledger, get_run}
use treasury_os_app.Reconciliation.Proposal.{
  Proposal, run_of, load_proposal, ClaimSpec, proposal_claims, bank_ids, ledger_ids, bank_eligible,
  ledger_eligible, currency_problem, eligibility_problem,
}
use treasury_os_app.Reconciliation.DecisionRecord.{
  DecisionResult, clashes, claim_row, insert_claims,
}
use treasury_os_app.Reconciliation.Decision.{decide_proposal}
use treasury_os_app.Reconciliation.Decision.Effects.{IsDecidable, IsAcceptance, decide_proposal-ok}
use treasury_os_app.Reconciliation.Decision.Claims.{write_decision-claims}

any-not-All :
    (f : ℕ → Bool) (xs : List ℕ) → any (λ k. not (f k)) xs ≡ false → All (λ k. f k ≡ true) xs
any-not-All f [] h = tt
any-not-All f (x ∷ xs) h = (ground arith, any-not-All f xs (ground arith))

insert_claims-keeps :
    (id entity : ℕ) (cs : List ClaimSpec) (claims rows : List AcceptedClaim) (a : AcceptedClaim)
    → insert_claims id entity cs claims ≡ ok rows
    → In a claims
    → In a rows
unfolding insert_claims
insert_claims-keeps id entity [] claims rows a h m =
    let same : claims ≡ rows = ground arith in subst (In a) same m
insert_claims-keeps id entity (c ∷ cs) claims rows a h m =
    let (_, free, h₁) =
      >>=-eq_ok (raise_if (any (clashes (claim_row id entity c)) claims) conflict)
        (λ _. insert_claims id entity cs (claim_row id entity c ∷ claims)) h in
    insert_claims-keeps id entity cs (claim_row id entity c ∷ claims) rows a h₁ (there m)

insert_claims-In :
    (id entity : ℕ) (cs : List ClaimSpec) (claims rows : List AcceptedClaim)
    → insert_claims id entity cs claims ≡ ok rows
    → All (λ c. In (claim_row id entity c) rows) cs
unfolding insert_claims
insert_claims-In id entity [] claims rows h = tt
insert_claims-In id entity (c ∷ cs) claims rows h =
    let row = claim_row id entity c in
    let (_, free, h₁) =
      >>=-eq_ok (raise_if (any (clashes row) claims) conflict)
        (λ _. insert_claims id entity cs (row ∷ claims)) h in
    (
      insert_claims-keeps id entity cs (row ∷ claims) rows row h₁ (here refl),
      insert_claims-In id entity cs (row ∷ claims) rows h₁,
    )

-- A new acceptance: the run, the proposal's members, and their claims.
pub record IsAccepted (s : Store) (kind : MatchProposalKind) (k : ℕ) (reason : Option Text)
    (out : DecisionResult × Store) : Type 0 where
  pub p : Proposal
  pub run : ReconciliationRun
  pub loaded : load_proposal s kind k ≡ some p
  pub of_run : get_run (run_of p) s.runs ≡ some run
  pub decidable : IsDecidable s run p MatchDecisionType.accepted (strip (or_empty reason))
  pub banks :
      All (λ b. bank_eligible run (get_bank b s.banks) ≡ true) (bank_ids (proposal_claims s p))
  pub ledgers :
      All
        (λ t. ledger_eligible run p (get_ledger t s.ledgers) ≡ true)
        (ledger_ids (proposal_claims s p))
  pub currencies :
      currency_problem p
        (collect (λ b. get_bank b s.banks) (bank_ids (proposal_claims s p)))
        (collect (λ t. get_ledger t s.ledgers) (ledger_ids (proposal_claims s p)))
      ≡ false
  pub claimed :
      All
        (λ c. In (claim_row out.0.decision.id run.legal_entity_id c) out.1.claims)
        (proposal_claims s p)

eligible-parts :
    (s : Store) (p : Proposal) (run : ReconciliationRun) (claims : List ClaimSpec)
    → eligibility_problem s p run claims ≡ false
    → (any (λ k. not (bank_eligible run (get_bank k s.banks))) (bank_ids claims) ≡ false)
      × (any (λ k. not (ledger_eligible run p (get_ledger k s.ledgers))) (ledger_ids claims)
          ≡ false)
      × (currency_problem p
            (collect (λ k. get_bank k s.banks) (bank_ids claims))
            (collect (λ k. get_ledger k s.ledgers) (ledger_ids claims))
          ≡ false)
unfolding eligibility_problem
eligible-parts s p run claims h = (ground arith, ground arith, ground arith)

IsAcceptance-IsAccepted :
    (s : Store) (kind : MatchProposalKind) (k : ℕ) (reason : Option Text) (p : Proposal)
    (run : ReconciliationRun) (d : MatchDecision) (out : DecisionResult × Store)
    → load_proposal s kind k ≡ some p
    → get_run (run_of p) s.runs ≡ some run
    → IsDecidable s run p MatchDecisionType.accepted (strip (or_empty reason))
    → IsAcceptance s run p d out
    → IsAccepted s kind k reason out
IsAcceptance-IsAccepted s kind k reason p run d out loaded of_run g (rows, fit, _, inserted, e) =
    let claims = proposal_claims s p in
    let (b, t, c) = eligible-parts s p run claims fit in
    record {
      p = p;
      run = run;
      loaded = loaded;
      of_run = of_run;
      decidable = g;
      banks = any-not-All (λ j. bank_eligible run (get_bank j s.banks)) (bank_ids claims) b;
      ledgers =
          any-not-All (λ j. ledger_eligible run p (get_ledger j s.ledgers)) (ledger_ids claims) t;
      currencies = c;
      claimed =
          subst
            (λ (o : DecisionResult × Store).
              All (λ c. In (claim_row o.0.decision.id run.legal_entity_id c) o.1.claims) claims)
            (sym e)
            (rw (write_decision-claims s run p d rows)
              (insert_claims-In d.id run.legal_entity_id claims s.claims rows inserted));
    }

-- A proposal becomes accepted only if its run is completed, it is pending and decidable, every bank
-- row that it names is active and of the run's entity and account, every ledger row posted and of
-- the run's entity (and account, but for a transfer), the currencies fit, and each member is then
-- claimed by the decision.
pub decide_proposal-IsAccepted :
    (s : Store) (kind : MatchProposalKind) (k actor : ℕ) (reason : Option Text)
    (out : DecisionResult × Store)
    → decide_proposal s kind k actor MatchDecisionType.accepted reason ≡ ok out
    → out.0.already_decided ≡ false
    → IsAccepted s kind k reason out
decide_proposal-IsAccepted s kind k actor reason out h new =
    let (p, run, loaded, of_run, how) =
      decide_proposal-ok s kind k actor MatchDecisionType.accepted reason out h in
    elim how [
      | inl (d, _, (_, e)) ↦
          absurd (ground (arith, ap (λ (o : DecisionResult × Store). o.0.already_decided) e))
      | inr (_, (g, accepted)) ↦
          IsAcceptance-IsAccepted s kind k reason p run _ out loaded of_run g accepted
    ]
