-- ===== src/Funding/Backed.antt =====
-- Funding actions against the transactions that they are linked to.
use treasury_os_app.Base.{
  ℕ, ◌≡◌, refl, subst, Bool, true, false, not, ◌&&◌, ◌||◌, Option, none, some, List, [], ◌∷◌, ◌==◌,
  arith, All, All-append, All-map_P, find-All, get_row, put_row-All, Outcome, ok, raised,
  bad_request, conflict, >>=-eq_ok, require, require-ok, skip-ok, inl, inr, Bool-cases,
  Option-cases, &&_parts,
}
use treasury_os_app.Text.{Text}
use treasury_os_app.Auth.{TreasuryAction, User}
use treasury_os_app.Facility.Records.{DrawdownStatus, RepaymentStatus}
use treasury_os_app.Facility.Store.{FacilityStore, get_drawdown, get_repayment}
use treasury_os_app.Facility.Endpoints.{check_access}
use treasury_os_app.Facility.Session.{FacilityRequest, answer}
use treasury_os_app.Facility.Book.{book}
use treasury_os_app.Facility.Steps.{found-ok}
use treasury_os_app.Facility.Refinement.{answer-Move}
use treasury_os_app.Facility.Final.{Move-IsExecuted}
use treasury_os_app.Facility.Settled.{Move-IsPaid}
use treasury_os_app.Funding.Actions.{
  FundingActionStatus, executed, completed, FundingAction, FundingActionCreate,
  validate_funding_action,
}
use treasury_os_app.Funding.Workflow.{
  FundingStep, submit, review, approve, reject, execute, complete, cancel, step_status, permission,
  funding_allowed, FundingStore, refuse_on, new_action, create_funding_action, is_executed_status,
  is_paid_status, drawdown_done, repayment_done, check_executable, signed,
  transition_funding_action, FundingRequest, on_facility, propose, advance, FundingCall,
  with_facility_store, fund, fund_all, fund_all-keeps,
}

abbrev pub is_done : FundingActionStatus → Bool
is_done executed = true
is_done completed = true
is_done _ = false

-- The transactions that an action is linked to are executed and paid in full.
abbrev pub links_done : FacilityStore → FundingAction → Bool
links_done s a = drawdown_done s a.linked_drawdown_id && repayment_done s a.linked_repayment_id

-- An action that is executed or completed has them done.
abbrev pub backed : FacilityStore → FundingAction → Bool
backed s a = not (is_done a.status) || links_done s a

abbrev pub IsBacked : FundingStore → Type 0
IsBacked s = All (λ a. backed s.facility a ≡ true) s.actions

executed_of : (s : DrawdownStatus) → is_executed_status s ≡ true → s ≡ DrawdownStatus.executed
executed_of s h = ground arith

paid_of : (s : RepaymentStatus) → is_paid_status s ≡ true → s ≡ RepaymentStatus.paid
paid_of s h = ground arith

-- A request to the facilities undoes neither.
drawdown_done-kept :
    (upper : Text → Text) (s : FacilityStore) (user : User) (today now : ℕ) (r : FacilityRequest)
    (t : FacilityStore) (o : Option ℕ)
    → answer upper s user today now r ≡ ok t
    → drawdown_done s o ≡ true
    → drawdown_done t o ≡ true
drawdown_done-kept upper s user today now r t none e h = refl
drawdown_done-kept upper s user today now r t (some k) e h =
    elim (Option-cases (get_drawdown k s)) [
      | inl missing ↦ let wrong : false ≡ true = rw missing at h in cc
      | inr (d, there) ↦
          let finished : is_executed_status d.status ≡ true = rw there at h in
          let kept =
            Move-IsExecuted r (book s) (book t) k d (answer-Move upper s user today now r t e)
              (there, executed_of d.status finished) in
          rw kept.0 finished
    ]

repayment_done-kept :
    (upper : Text → Text) (s : FacilityStore) (user : User) (today now : ℕ) (r : FacilityRequest)
    (t : FacilityStore) (o : Option ℕ)
    → answer upper s user today now r ≡ ok t
    → repayment_done s o ≡ true
    → repayment_done t o ≡ true
repayment_done-kept upper s user today now r t none e h = refl
repayment_done-kept upper s user today now r t (some k) e h =
    elim (Option-cases (get_repayment k s)) [
      | inl missing ↦ let wrong : false ≡ true = rw missing at h in cc
      | inr (p, there) ↦
          let finished : is_paid_status p.status ≡ true = rw there at h in
          let kept =
            Move-IsPaid r (book s) (book t) k p (answer-Move upper s user today now r t e)
              (there, paid_of p.status finished) in
          rw kept.0 finished
    ]

backed-kept :
    (upper : Text → Text) (s : FacilityStore) (user : User) (today now : ℕ) (r : FacilityRequest)
    (t : FacilityStore)
    → answer upper s user today now r ≡ ok t
    → (a : FundingAction) → backed s a ≡ true
    → backed t a ≡ true
backed-kept upper s user today now r t e a h = elim (Bool-cases (is_done a.status)) [
  | inr other ↦ rw other refl
  | inl over ↦
      let both =
        &&_parts (drawdown_done s a.linked_drawdown_id) (repayment_done s a.linked_repayment_id)
          (rw over at h) in
      rw over (
        rw (drawdown_done-kept upper s user today now r t a.linked_drawdown_id e both.0)
          (repayment_done-kept upper s user today now r t a.linked_repayment_id e both.1))
]

required_true : (b : Bool) {u : Unit {0}} → require b conflict ≡ ok u → b ≡ true
required_true true h = refl
required_true false h = cc

completes_from : (s : FundingActionStatus) → funding_allowed s completed ≡ true → s ≡ executed
unfolding funding_allowed
completes_from s h = ground arith

-- The step to EXECUTED is made only when the links are done, and only it leads there.
signed-backed :
    (s : FacilityStore) (step : FundingStep) (a : FundingAction) (user_id : ℕ)
    → funding_allowed a.status (step_status step) ≡ true
    → (u : Unit {0}) → check_executable step s a ≡ ok u
    → backed s a ≡ true
    → backed s (signed step a user_id) ≡ true
unfolding funding_allowed
signed-backed s submit a user_id allowed u checked h = refl
signed-backed s review a user_id allowed u checked h = refl
signed-backed s approve a user_id allowed u checked h = refl
signed-backed s reject a user_id allowed u checked h = refl
signed-backed s cancel a user_id allowed u checked h = refl
signed-backed s execute a user_id allowed u checked h =
    let (one, rest) = require-ok (drawdown_done s a.linked_drawdown_id) conflict _ checked in
    rw one (rw (required_true (repayment_done s a.linked_repayment_id) rest) refl)
signed-backed s complete a user_id allowed u checked h = rw (completes_from a.status allowed) at h

done : (t u : FundingStore) → ok u ≡ ok t → IsBacked u → IsBacked t
done t u e k = let same : u ≡ t = ground arith in subst IsBacked same k

create-IsBacked :
    (upper : Text → Text) (s : FundingStore) (user : User) (p : FundingActionCreate)
    (t : FundingStore)
    → create_funding_action upper s user p ≡ ok t
    → IsBacked s
    → IsBacked t
unfolding create_funding_action
create-IsBacked upper s user p t h i =
    let h₁ = skip-ok (check_access s.facility user TreasuryAction.create p.legal_entity_id) _ h in
    let h₂ = skip-ok (refuse_on (validate_funding_action upper s.facility s.actions p)) _ h₁ in
    let a = new_action s.facility.next_id p user.id in
    done t _ h₂ (
      All-append (λ (a : FundingAction). backed s.facility a ≡ true) s.actions (a ∷ []) i
        (refl, tt))

transition-IsBacked :
    (s : FundingStore) (user : User) (k : ℕ) (step : FundingStep) (t : FundingStore)
    → transition_funding_action s user k step ≡ ok t
    → IsBacked s
    → IsBacked t
unfolding transition_funding_action
transition-IsBacked s user k step t h i =
    let (a, there, h₁) = found-ok (get_row (λ (a : FundingAction). a.id) k s.actions) _ h in
    let h₂ = skip-ok (check_access s.facility user (permission step) a.legal_entity_id) _ h₁ in
    let (allowed, h₃) = require-ok (funding_allowed a.status (step_status step)) bad_request _ h₂ in
    let (u, checked, h₄) = >>=-eq_ok (check_executable step s.facility a) _ h₃ in
    let old =
      find-All (λ (a : FundingAction). backed s.facility a ≡ true)
        (λ (a : FundingAction). a.id == k) s.actions i there in
    done t _ h₄ (
      put_row-All (λ (a : FundingAction). backed s.facility a ≡ true) (λ (a : FundingAction). a.id)
        (signed step a user.id) s.actions
        (signed-backed s.facility step a user.id allowed u checked old) i)

fund-IsBacked :
    (upper : Text → Text) (s : FundingStore) (user : User) (today now : ℕ) (r : FundingRequest)
    (t : FundingStore)
    → fund upper s user today now r ≡ ok t
    → IsBacked s
    → IsBacked t
unfolding fund
fund-IsBacked upper s user today now (on_facility r) t h i =
    go (answer upper s.facility user today now r) refl h
  where
    go :
        (o : Outcome FacilityStore)
        → answer upper s.facility user today now r ≡ o
        → with_facility_store s o ≡ ok t
        → IsBacked t
    go (ok f) e h' =
        let same : record s { facility = f } ≡ t = ground arith in
        subst IsBacked same (
          All-map_P (λ (a : FundingAction). backed s.facility a ≡ true)
            (λ (a : FundingAction). backed f a ≡ true) s.actions
            (backed-kept upper s.facility user today now r f e) i)
    go (raised _) e h' = cc
fund-IsBacked upper s user today now (propose p) t h i = create-IsBacked upper s user p t h i
fund-IsBacked upper s user today now (advance k step) t h i =
    transition-IsBacked s user k step t h i

-- In any session of requests to facilities and to funding actions, by whomever, in whatever order and
-- however many are refused, no funding action gets ahead of the money: if at the start the linked
-- drawdown of every executed or completed action is executed and its linked repayment paid in full,
-- then so it is after the session.
pub fund_all-IsBacked :
    (upper : Text → Text) (s : FundingStore) (session : List FundingCall)
    → IsBacked s
    → IsBacked (fund_all upper s session)
fund_all-IsBacked upper s session i =
    fund_all-keeps upper IsBacked
      (λ s c t e i. fund-IsBacked upper s c.user c.today c.now c.request t e i) s session i
