-- ===== src/Funding/Links.antt =====
-- No transaction has two funding actions
-- (backend/app/services/funding_action_validation.py: "one FundingAction per underlying
-- transaction").
use treasury_os_app.Base.{
  ℕ, ◌≤◌, ◌≡◌, refl, ap, subst, Bool, true, Option, none, some, List, [], ◌∷◌, ◌++◌, arith,
  same_key, length, filter, find, find-any, filter-none, filter-append, length-append, get_row,
  put_row, length-filter-write, Outcome, ok, raised, bad_request, >>=-eq_ok, require-ok, skip-ok,
  inl, inr, Bool-cases, Option-cases, ==_iff,
}
use treasury_os_app.Text.{Text}
use treasury_os_app.Auth.{TreasuryAction, User}
use treasury_os_app.Facility.Store.{FacilityStore, get_drawdown, get_repayment}
use treasury_os_app.Facility.Endpoints.{check_access}
use treasury_os_app.Facility.Session.{answer}
use treasury_os_app.Facility.Validation.{append-[]}
use treasury_os_app.Facility.Steps.{found-ok}
use treasury_os_app.Funding.Actions.{
  FundingAction, FundingActionCreate, FundingProblem, validate_funding_action, check_links,
  links_drawdown, links_repayment, taken, may_link_drawdown, may_link_repayment, check_drawdown,
  check_repayment,
}
use treasury_os_app.Funding.Workflow.{
  FundingStep, submit, review, approve, reject, execute, complete, cancel, step_status, permission,
  funding_allowed, FundingStore, refuse_on, new_action, create_funding_action, check_executable,
  signed, transition_funding_action, FundingRequest, on_facility, propose, advance, FundingCall,
  with_facility_store, fund, fund_all, fund_all-keeps,
}

-- At most one action is linked to each drawdown, and to each repayment.
abbrev pub HasUniqueLinks : List FundingAction → Type 0
HasUniqueLinks actions =
    (k : ℕ)
    → (length (filter (links_drawdown k) actions) ≤ 1)
      × (length (filter (links_repayment k) actions) ≤ 1)

taken-[] : (k : ℕ) (o : Option FundingAction) → taken k o ≡ [] → o ≡ none
taken-[] k none h = refl
taken-[] k (some a) h = cc

-- What a valid request says of the actions that are already there.
links-free :
    (upper : Text → Text) (s : FacilityStore) (actions : List FundingAction)
    (p : FundingActionCreate) (drawdown repayment : Option ℕ) (k : ℕ)
    → check_links upper s actions p drawdown repayment ≡ []
    → (drawdown ≡ some k → find (links_drawdown k) actions ≡ none)
      × (repayment ≡ some k → find (links_repayment k) actions ≡ none)
links-free upper s actions p none none k h = (λ e. cc, λ e. cc)
links-free upper s actions p (some j) (some i) k h = cc
links-free upper s actions p (some j) none k h = (
  λ e.
      let same : j ≡ k = ground arith in
      subst (λ k. find (links_drawdown k) actions ≡ none) same free,
  λ e. cc,
)
  where
    free : find (links_drawdown j) actions ≡ none
    free = elim (Bool-cases (may_link_drawdown p.action_type)) [
      | inr no_link ↦
          let wrong : FundingProblem.no_drawdown_allowed ∷ [] ≡ [] = rw no_link at h in cc
      | inl allowed ↦
          let checked : check_drawdown upper s actions p j (get_drawdown j s) ≡ [] =
            rw allowed at h in
          elim (Option-cases (get_drawdown j s)) [
            | inl missing ↦
                let wrong : FundingProblem.no_such_drawdown ∷ [] ≡ [] = rw missing at checked in cc
            | inr (d, there) ↦
                taken-[] j (find (links_drawdown j) actions)
                  ((append-[] _ (taken j (find (links_drawdown j) actions))).0
                    (rw there at checked)).1
          ]
    ]
links-free upper s actions p none (some j) k h = (
  λ e. cc,
  λ e.
      let same : j ≡ k = ground arith in
      subst (λ k. find (links_repayment k) actions ≡ none) same free,
)
  where
    free : find (links_repayment j) actions ≡ none
    free = elim (Bool-cases (may_link_repayment p.action_type)) [
      | inr no_link ↦
          let wrong : FundingProblem.no_repayment_allowed ∷ [] ≡ [] = rw no_link at h in cc
      | inl allowed ↦
          let checked : check_repayment upper s actions p j (get_repayment j s) ≡ [] =
            rw allowed at h in
          elim (Option-cases (get_repayment j s)) [
            | inl missing ↦
                let wrong : FundingProblem.no_such_repayment ∷ [] ≡ [] = rw missing at checked in cc
            | inr (d, there) ↦
                taken-[] j (find (links_repayment j) actions)
                  ((append-[] _ (taken j (find (links_repayment j) actions))).0
                    (rw there at checked)).1
          ]
    ]

-- One more row that passes a test that none has passed.
one_more :
    (p : FundingAction → Bool) (xs : List FundingAction) (a : FundingAction)
    → length (filter p xs) ≤ 1
    → (p a ≡ true → find p xs ≡ none)
    → length (filter p (xs ++ a ∷ [])) ≤ 1
one_more p xs a few free = elim (Bool-cases (p a)) [
  | inl passes ↦
      rw (filter-append p xs (a ∷ []))
        (rw passes (rw (filter-none p xs (find-any p xs (free passes))) (omega arith)))
  | inr fails ↦
      rw (filter-append p xs (a ∷ []))
        (rw fails (rw (length-append (filter p xs) []) (omega (arith, few))))
]

key_of : (o : Option ℕ) (k : ℕ) → same_key o (some k) ≡ true → o ≡ some k
key_of none k h = cc
key_of (some j) k h = ap (λ n. some n) ((==_iff j k).0 h)

refuse_on-ok : (ps : List FundingProblem) (u : Unit {0}) → refuse_on ps ≡ ok u → ps ≡ []
refuse_on-ok [] u h = refl
refuse_on-ok (p ∷ ps) u h = cc

create-HasUniqueLinks :
    (upper : Text → Text) (s : FundingStore) (user : User) (p : FundingActionCreate)
    (t : FundingStore)
    → create_funding_action upper s user p ≡ ok t
    → HasUniqueLinks s.actions
    → HasUniqueLinks t.actions
unfolding create_funding_action validate_funding_action
create-HasUniqueLinks upper s user p t h i =
    let h₁ = skip-ok (check_access s.facility user TreasuryAction.create p.legal_entity_id) _ h in
    let (u, valid, h₂) =
      >>=-eq_ok (refuse_on (validate_funding_action upper s.facility s.actions p)) _ h₁ in
    let a = new_action s.facility.next_id p user.id in
    let checked = refuse_on-ok (validate_funding_action upper s.facility s.actions p) u valid in
    let same : s.actions ++ a ∷ [] ≡ t.actions = ground arith in
    subst HasUniqueLinks same (λ k.
      let free =
        links-free upper s.facility s.actions p p.linked_drawdown_id p.linked_repayment_id k
          checked in
      (
        one_more (links_drawdown k) s.actions a (i k).0
            (λ e. free.0 (key_of p.linked_drawdown_id k e)),
        one_more (links_repayment k) s.actions a (i k).1
            (λ e. free.1 (key_of p.linked_repayment_id k e)),
      ))

-- A step keeps the id and the links of an action.
signed-links :
    (step : FundingStep) (a : FundingAction) (user_id : ℕ)
    → ((signed step a user_id).id ≡ a.id)
      × ((signed step a user_id).linked_drawdown_id ≡ a.linked_drawdown_id)
      × ((signed step a user_id).linked_repayment_id ≡ a.linked_repayment_id)
signed-links submit a user_id = (refl, refl, refl)
signed-links review a user_id = (refl, refl, refl)
signed-links approve a user_id = (refl, refl, refl)
signed-links reject a user_id = (refl, refl, refl)
signed-links execute a user_id = (refl, refl, refl)
signed-links complete a user_id = (refl, refl, refl)
signed-links cancel a user_id = (refl, refl, refl)

transition-HasUniqueLinks :
    (s : FundingStore) (user : User) (k : ℕ) (step : FundingStep) (t : FundingStore)
    → transition_funding_action s user k step ≡ ok t
    → HasUniqueLinks s.actions
    → HasUniqueLinks t.actions
unfolding transition_funding_action
transition-HasUniqueLinks s user k step t h i =
    let key : FundingAction → ℕ = λ a. a.id in
    let (a, there, h₁) = found-ok (get_row (λ (a : FundingAction). a.id) k s.actions) _ h in
    let h₂ = skip-ok (check_access s.facility user (permission step) a.legal_entity_id) _ h₁ in
    let (_, h₃) = require-ok (funding_allowed a.status (step_status step)) bad_request _ h₂ in
    let (_, _, h₄) = >>=-eq_ok (check_executable step s.facility a) _ h₃ in
    let b = signed step a user.id in
    let (named, drawdown, repayment) = signed-links step a user.id in
    let same : put_row key b s.actions ≡ t.actions = ground arith in
    subst HasUniqueLinks same (λ j. (
      rw
          (length-filter-write (links_drawdown j) key a b s.actions k there named
            (ap (λ o. same_key o (some j)) drawdown))
          (i j).0,
      rw
          (length-filter-write (links_repayment j) key a b s.actions k there named
            (ap (λ o. same_key o (some j)) repayment))
          (i j).1,
    ))

fund-HasUniqueLinks :
    (upper : Text → Text) (s : FundingStore) (c : FundingCall) (t : FundingStore)
    → fund upper s c.user c.today c.now c.request ≡ ok t
    → HasUniqueLinks s.actions
    → HasUniqueLinks t.actions
unfolding fund
fund-HasUniqueLinks upper s c t h i = go c.request h
  where
    on_store : (o : Outcome FacilityStore) → with_facility_store s o ≡ ok t → s.actions ≡ t.actions
    on_store (ok f) h = ground arith
    on_store (raised _) h = cc

    go :
        (r : FundingRequest) → fund upper s c.user c.today c.now r ≡ ok t → HasUniqueLinks t.actions
    go (on_facility r) h =
        subst HasUniqueLinks (on_store (answer upper s.facility c.user c.today c.now r) h) i
    go (propose p) h = create-HasUniqueLinks upper s c.user p t h i
    go (advance k step) h = transition-HasUniqueLinks s c.user k step t h i

-- In any session of requests to facilities and to funding actions, by whomever, in whatever order and
-- however many are refused, no drawdown and no repayment comes to have two funding actions: if at
-- most one action was linked to each at the start, then at most one is after the session.
pub fund_all-HasUniqueLinks :
    (upper : Text → Text) (s : FundingStore) (session : List FundingCall)
    → HasUniqueLinks s.actions
    → HasUniqueLinks (fund_all upper s session).actions
fund_all-HasUniqueLinks upper s session i =
    fund_all-keeps upper (λ s. HasUniqueLinks s.actions)
      (λ s c t e i. fund-HasUniqueLinks upper s c t e i) s session i
