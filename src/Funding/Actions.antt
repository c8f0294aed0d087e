-- ===== src/Funding/Actions.antt =====
-- Funding actions (backend/app/models/facility.py: `FundingAction`) and the check of a new one
-- (backend/app/services/funding_action_validation.py).
use treasury_os_app.Base.{
  ℕ, Bool, true, false, not, Option, none, some, List, [], ◌∷◌, ◌++◌, ◌==◌, same_key, find,
  if◌then◌else◌, ℤ, eqb_ℤ,
}
use treasury_os_app.Text.{Text, same_text}
use treasury_os_app.Facility.Records.{Facility, FacilityDrawdown, FacilityRepayment}
use treasury_os_app.Facility.Store.{FacilityStore, get_facility, get_drawdown, get_repayment}

pub data FundingActionType : Type 0 where
  propose_drawdown propose_repayment propose_refinancing : FundingActionType
  propose_renewal propose_limit_change : FundingActionType

pub data FundingActionStatus : Type 0 where
  draft submitted under_review approved executed : FundingActionStatus
  completed rejected cancelled : FundingActionStatus

-- The columns but the free payload.
pub record FundingAction : Type 0 where
  pub id : ℕ
  pub action_type : FundingActionType
  pub facility_id : Option ℕ
  pub linked_drawdown_id : Option ℕ
  pub linked_repayment_id : Option ℕ
  pub legal_entity_id : ℕ
  pub currency_code : Option Text
  pub amount : Option ℤ
  pub proposed_date : Option ℕ
  pub status : FundingActionStatus
  pub rationale : Option Text
  pub created_by_user_id : Option ℕ
  pub approved_by_user_id : Option ℕ
  pub executed_by_user_id : Option ℕ

pub record FundingActionCreate : Type 0 where
  pub action_type : FundingActionType
  pub facility_id : Option ℕ
  pub linked_drawdown_id : Option ℕ
  pub linked_repayment_id : Option ℕ
  pub legal_entity_id : ℕ
  pub currency_code : Option Text
  pub amount : Option ℤ
  pub proposed_date : Option ℕ
  pub rationale : Option Text

-- the reasons that `validate_funding_action` lists
pub data FundingProblem : Type 0 where
  two_links no_drawdown_allowed no_repayment_allowed : FundingProblem
  no_such_drawdown no_such_repayment : FundingProblem
  other_entity other_facility facility_of_other_entity : FundingProblem
  other_currency : Text → Text → FundingProblem
  other_amount : ℤ → ℤ → FundingProblem
  already_linked : ℕ → ℕ → FundingProblem

abbrev pub problem_if : Bool → FundingProblem → List FundingProblem
problem_if true p = p ∷ []
problem_if false p = []

-- `_ALLOWED_LINK_BY_ACTION_TYPE`
abbrev pub may_link_drawdown : FundingActionType → Bool
may_link_drawdown FundingActionType.propose_drawdown = true
may_link_drawdown _ = false

abbrev pub may_link_repayment : FundingActionType → Bool
may_link_repayment FundingActionType.propose_repayment = true
may_link_repayment _ = false

abbrev pub entity_problem : Option Facility → ℕ → List FundingProblem
entity_problem none entity = []
entity_problem (some f) entity =
    problem_if (not (f.legal_entity_id == entity)) facility_of_other_entity

abbrev pub link_currency_problem : (Text → Text) → Option Text → Text → List FundingProblem
link_currency_problem upper none txn = []
link_currency_problem upper (some c) txn =
    problem_if (not (same_text (upper c) (upper txn))) (other_currency c txn)

abbrev pub amount_problem : Option ℤ → ℤ → List FundingProblem
amount_problem none txn = []
amount_problem (some a) txn = problem_if (not (eqb_ℤ a txn)) (other_amount a txn)

abbrev pub facility_problem : Option ℕ → ℕ → List FundingProblem
facility_problem none txn = []
facility_problem (some k) txn = problem_if (not (txn == k)) other_facility

-- `_check_linked_transaction`, of the transaction's entity, facility, amount and currency
unfoldable pub check_linked_transaction :
    (Text → Text) → FacilityStore → ℕ → ℕ → ℤ → Text → FundingActionCreate → List FundingProblem
check_linked_transaction upper s entity facility amount currency p =
    problem_if (not (entity == p.legal_entity_id)) other_entity
    ++ (facility_problem p.facility_id facility
        ++ (entity_problem (get_facility facility s) p.legal_entity_id
            ++ (link_currency_problem upper p.currency_code currency
                ++ amount_problem p.amount amount)))

abbrev pub links_drawdown : ℕ → FundingAction → Bool
links_drawdown k a = same_key a.linked_drawdown_id (some k)

abbrev pub links_repayment : ℕ → FundingAction → Bool
links_repayment k a = same_key a.linked_repayment_id (some k)

abbrev pub taken : ℕ → Option FundingAction → List FundingProblem
taken k none = []
taken k (some a) = already_linked k a.id ∷ []

abbrev pub check_drawdown :
    (Text → Text)
    → FacilityStore
    → List FundingAction
    → FundingActionCreate
    → ℕ
    → Option FacilityDrawdown
    → List FundingProblem
check_drawdown upper s actions p k none = no_such_drawdown ∷ []
check_drawdown upper s actions p k (some d) =
    check_linked_transaction upper s d.legal_entity_id d.facility_id d.drawdown_amount
      d.currency_code p
    ++ taken k (find (links_drawdown k) actions)

abbrev pub check_repayment :
    (Text → Text)
    → FacilityStore
    → List FundingAction
    → FundingActionCreate
    → ℕ
    → Option FacilityRepayment
    → List FundingProblem
check_repayment upper s actions p k none = no_such_repayment ∷ []
check_repayment upper s actions p k (some r) =
    check_linked_transaction upper s r.legal_entity_id r.facility_id r.original_amount
      r.currency_code p
    ++ taken k (find (links_repayment k) actions)

abbrev pub check_links :
    (Text → Text)
    → FacilityStore
    → List FundingAction
    → FundingActionCreate
    → Option ℕ
    → Option ℕ
    → List FundingProblem
check_links upper s actions p none none = []
check_links upper s actions p (some k) (some j) = two_links ∷ []
check_links upper s actions p (some k) none =
    if may_link_drawdown p.action_type
    then check_drawdown upper s actions p k (get_drawdown k s)
    else no_drawdown_allowed ∷ []
check_links upper s actions p none (some j) =
    if may_link_repayment p.action_type
    then check_repayment upper s actions p j (get_repayment j s)
    else no_repayment_allowed ∷ []

unfoldable pub validate_funding_action :
    (Text → Text) → FacilityStore → List FundingAction → FundingActionCreate → List FundingProblem
validate_funding_action upper s actions p =
    check_links upper s actions p p.linked_drawdown_id p.linked_repayment_id
