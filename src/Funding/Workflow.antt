-- ===== src/Funding/Workflow.antt =====
-- The endpoints of funding actions (backend/app/api/v1/funding.py: `create_funding_action`,
-- `_transition_funding_action` and the endpoints that call it), and sessions of them and of the
-- endpoints of facilities.
use treasury_os_app.Base.{
  ℕ, ◌+◌, ◌≡◌, refl, Bool, true, false, Option, none, some, List, [], ◌∷◌, ◌++◌, Outcome, ok,
  raised, bad_request, conflict, ◌>>=◌, ◌>>◌, require, get_row, put_row, holds,
}
use treasury_os_app.Text.{Text}
use treasury_os_app.Auth.{TreasuryAction, User}
use treasury_os_app.Facility.Records.{
  FacilityDrawdown, DrawdownStatus, FacilityRepayment, RepaymentStatus,
}
use treasury_os_app.Facility.Store.{FacilityStore, get_drawdown, get_repayment}
use treasury_os_app.Facility.Endpoints.{found, check_access}
use treasury_os_app.Facility.Session.{FacilityRequest, answer}
use treasury_os_app.Funding.Actions.{
  FundingActionStatus, draft, submitted, under_review, approved, executed, completed, rejected,
  cancelled, FundingAction, FundingActionCreate, FundingProblem, validate_funding_action,
}

pub data FundingStep : Type 0 where
  submit review approve reject execute complete cancel : FundingStep

-- the statuses and permissions that the endpoints pass on
abbrev pub step_status : FundingStep → FundingActionStatus
step_status submit = submitted
step_status review = under_review
step_status approve = approved
step_status reject = rejected
step_status execute = executed
step_status complete = completed
step_status cancel = cancelled

abbrev pub permission : FundingStep → TreasuryAction
permission submit = TreasuryAction.submit
permission review = TreasuryAction.investigate
permission approve = TreasuryAction.approve
permission reject = TreasuryAction.approve
permission execute = TreasuryAction.execute
permission complete = TreasuryAction.close
permission cancel = TreasuryAction.edit

-- `FUNDING_ACTION_STATUS_TRANSITIONS`
unfoldable pub funding_allowed : FundingActionStatus → FundingActionStatus → Bool
funding_allowed draft submitted = true
funding_allowed draft cancelled = true
funding_allowed submitted under_review = true
funding_allowed submitted rejected = true
funding_allowed submitted cancelled = true
funding_allowed under_review approved = true
funding_allowed under_review rejected = true
funding_allowed under_review cancelled = true
funding_allowed approved executed = true
funding_allowed approved cancelled = true
funding_allowed executed completed = true
funding_allowed _ _ = false

pub data FundingAuditEntry : Type 0 where
  created : FundingActionCreate → FundingAuditEntry
  stepped : FundingStep → FundingActionStatus → FundingAuditEntry

pub record FundingAudit : Type 0 where
  pub entry : FundingAuditEntry
  pub action_id : ℕ
  pub user_id : ℕ
  pub legal_entity_id : ℕ

pub record FundingStore : Type 0 where
  pub facility : FacilityStore
  pub actions : List FundingAction
  pub audits : List FundingAudit

-- `if reasons: raise …`
abbrev pub refuse_on : List FundingProblem → Outcome (Unit {0})
refuse_on [] = ok tt
refuse_on (p ∷ ps) = raised bad_request

abbrev pub new_action : ℕ → FundingActionCreate → ℕ → FundingAction
new_action k p user_id = record {
  id = k;
  action_type = p.action_type;
  facility_id = p.facility_id;
  linked_drawdown_id = p.linked_drawdown_id;
  linked_repayment_id = p.linked_repayment_id;
  legal_entity_id = p.legal_entity_id;
  currency_code = p.currency_code;
  amount = p.amount;
  proposed_date = p.proposed_date;
  status = draft;
  rationale = p.rationale;
  created_by_user_id = some user_id;
  approved_by_user_id = none;
  executed_by_user_id = none;
}

unfoldable pub create_funding_action :
    (Text → Text) → FundingStore → User → FundingActionCreate → Outcome FundingStore
create_funding_action upper s user p = do
  _ ← check_access s.facility user TreasuryAction.create p.legal_entity_id
  refuse_on (validate_funding_action upper s.facility s.actions p)
  let a = new_action s.facility.next_id p user.id
  ok (record {
    facility = record s.facility { next_id = s.facility.next_id + 1 };
    actions = s.actions ++ a ∷ [];
    audits =
        record {
          entry = created p;
          action_id = a.id;
          user_id = user.id;
          legal_entity_id = a.legal_entity_id;
        }
        ∷ s.audits;
  })

abbrev pub is_executed_status : DrawdownStatus → Bool
is_executed_status DrawdownStatus.executed = true
is_executed_status _ = false

abbrev pub is_paid_status : RepaymentStatus → Bool
is_paid_status RepaymentStatus.paid = true
is_paid_status _ = false

-- The linked drawdown, if there is a link, exists and is executed.
abbrev pub drawdown_done : FacilityStore → Option ℕ → Bool
drawdown_done s none = true
drawdown_done s (some k) =
    holds (λ (d : FacilityDrawdown). is_executed_status d.status) (get_drawdown k s)

-- The linked repayment, if there is a link, exists and is paid in full.
abbrev pub repayment_done : FacilityStore → Option ℕ → Bool
repayment_done s none = true
repayment_done s (some k) =
    holds (λ (r : FacilityRepayment). is_paid_status r.status) (get_repayment k s)

-- The tests that only the step to EXECUTED makes.
abbrev pub check_executable : FundingStep → FacilityStore → FundingAction → Outcome (Unit {0})
check_executable execute s a = do
  require (drawdown_done s a.linked_drawdown_id) conflict
  require (repayment_done s a.linked_repayment_id) conflict
check_executable _ s a = ok tt

abbrev pub signed : FundingStep → FundingAction → ℕ → FundingAction
signed approve a user_id = record a { status = approved; approved_by_user_id = some user_id }
signed execute a user_id = record a { status = executed; executed_by_user_id = some user_id }
signed step a user_id = record a { status = step_status step }

unfoldable pub transition_funding_action :
    FundingStore → User → ℕ → FundingStep → Outcome FundingStore
transition_funding_action s user k step = do
  a ← found (get_row (λ (a : FundingAction). a.id) k s.actions)
  _ ← check_access s.facility user (permission step) a.legal_entity_id
  require (funding_allowed a.status (step_status step)) bad_request
  check_executable step s.facility a
  ok (record s {
    actions = put_row (λ (x : FundingAction). x.id) (signed step a user.id) s.actions;
    audits =
        record {
          entry = stepped step a.status;
          action_id = a.id;
          user_id = user.id;
          legal_entity_id = a.legal_entity_id;
        }
        ∷ s.audits;
  })

pub data FundingRequest : Type 0 where
  on_facility : FacilityRequest → FundingRequest
  propose : FundingActionCreate → FundingRequest
  advance : ℕ → FundingStep → FundingRequest

pub record FundingCall : Type 0 where
  pub user : User
  pub today : ℕ
  pub now : ℕ
  pub request : FundingRequest

abbrev pub with_facility_store : FundingStore → Outcome FacilityStore → Outcome FundingStore
with_facility_store s (ok t) = ok (record s { facility = t })
with_facility_store s (raised e) = raised e

unfoldable pub fund :
    (Text → Text) → FundingStore → User → ℕ → ℕ → FundingRequest → Outcome FundingStore
fund upper s user today now (on_facility r) =
    with_facility_store s (answer upper s.facility user today now r)
fund upper s user today now (propose p) = create_funding_action upper s user p
fund upper s user today now (advance k step) = transition_funding_action s user k step

abbrev pub funded_or : FundingStore → Outcome FundingStore → FundingStore
funded_or s (ok t) = t
funded_or s (raised e) = s

unfoldable pub fund_all : (Text → Text) → FundingStore → List FundingCall → FundingStore
fund_all upper s [] = s
fund_all upper s (c ∷ rest) =
    fund_all upper (funded_or s (fund upper s c.user c.today c.now c.request)) rest

-- What every answered request keeps, a session keeps.
pub fund_all-keeps {ℓ} :
    (upper : Text → Text) (P : FundingStore → Type ℓ)
    → ((s : FundingStore) (c : FundingCall) (t : FundingStore)
        → fund upper s c.user c.today c.now c.request ≡ ok t
        → P s
        → P t)
    → (s : FundingStore) (session : List FundingCall) → P s
    → P (fund_all upper s session)
unfolding fund_all
fund_all-keeps upper P step s [] i = i
fund_all-keeps upper P step s (c ∷ rest) i =
    fund_all-keeps upper P step (funded_or s (fund upper s c.user c.today c.now c.request)) rest
      (go (fund upper s c.user c.today c.now c.request) refl)
  where
    go :
        (o : Outcome FundingStore)
        → fund upper s c.user c.today c.now c.request ≡ o
        → P (funded_or s o)
    go (ok t) e = step s c t e i
    go (raised _) e = i
