-- ===== src/Facility/Drawdowns.antt =====
-- The endpoints of drawdowns (backend/app/api/v1/facilities.py: `create_drawdown`, `approve_drawdown`,
-- `execute_drawdown_endpoint`). Each is one transaction under the lock of its facility.
use treasury_os_app.Base.{
  ℕ, ◌+◌, Bool, true, false, Option, none, some, List, [], ◌∷◌, ◌++◌, ◌==◌, Outcome, ok, raised,
  bad_request, conflict, ◌>>=◌, ◌>>◌, require,
}
use treasury_os_app.Text.{Text}
use treasury_os_app.Auth.{TreasuryAction, User}
use treasury_os_app.Facility.Records.{Facility, FacilitySubLimit, FacilityDrawdown, DrawdownStatus}
use treasury_os_app.Facility.Utilization.{
  DrawdownProblem, validate_drawdown, effective_interest_rate,
}
use treasury_os_app.Facility.Store.{
  DrawdownCreate, FacilityStore, drawdown_create, drawdown_approve, drawdown_execute, get_facility,
  get_sub_limit, get_drawdown, put_drawdown, facility_audit,
}
use treasury_os_app.Facility.Balances.{execute_drawdown}
use treasury_os_app.Facility.Endpoints.{found, check_access}

-- The sub-limit that a new drawdown names must be the facility's.
abbrev pub of_facility : ℕ → Option FacilitySubLimit → Outcome (Option FacilitySubLimit)
of_facility k none = raised bad_request
of_facility k (some l) = require (l.facility_id == k) bad_request >>= λ _. ok (some l)

unfoldable pub named_sub_limit : FacilityStore → ℕ → Option ℕ → Outcome (Option FacilitySubLimit)
named_sub_limit s k none = ok none
named_sub_limit s k (some j) = of_facility k (get_sub_limit j s)

-- `if reasons: raise …`
abbrev pub reject_on : List DrawdownProblem → Outcome (Unit {0}) → Outcome (Unit {0})
reject_on [] error = ok tt
reject_on (p ∷ ps) error = error

unfoldable pub new_drawdown : ℕ → ℕ → Facility → DrawdownCreate → ℕ → FacilityDrawdown
new_drawdown k facility_id f p user_id = record {
  id = k;
  facility_id = facility_id;
  legal_entity_id = p.legal_entity_id;
  sub_limit_id = p.sub_limit_id;
  currency_code = p.currency_code;
  drawdown_amount = p.drawdown_amount;
  drawdown_date = p.drawdown_date;
  value_date = p.value_date;
  maturity_date = p.maturity_date;
  interest_rate_applicable = effective_interest_rate f;
  purpose = p.purpose;
  reference = p.reference;
  status = DrawdownStatus.submitted;
  created_by_user_id = some user_id;
  approved_by_user_id = none;
  executed_by_user_id = none;
}

unfoldable pub create_drawdown :
    (Text → Text) → FacilityStore → User → ℕ → DrawdownCreate → Outcome FacilityStore
create_drawdown upper s user k p = do
  f ← found (get_facility k s)
  _ ← check_access s user TreasuryAction.create p.legal_entity_id
  require (f.legal_entity_id == p.legal_entity_id) bad_request
  l ← named_sub_limit s k p.sub_limit_id
  reject_on (validate_drawdown upper f p.drawdown_amount p.currency_code p.drawdown_date l)
      (raised bad_request)
  let d = new_drawdown s.next_id k f p user.id
  ok (
      facility_audit user.id d.legal_entity_id (drawdown_create d.id p)
        (record s { drawdowns = s.drawdowns ++ d ∷ []; next_id = s.next_id + 1 }))

abbrev pub is_submitted : DrawdownStatus → Bool
is_submitted DrawdownStatus.submitted = true
is_submitted _ = false

abbrev pub is_approved : DrawdownStatus → Bool
is_approved DrawdownStatus.approved = true
is_approved _ = false

abbrev pub approved_by : FacilityDrawdown → ℕ → FacilityDrawdown
approved_by d user_id = record d {
  status = DrawdownStatus.approved;
  approved_by_user_id = some user_id;
}

unfoldable pub approve_drawdown : FacilityStore → User → ℕ → Outcome FacilityStore
approve_drawdown s user k = do
  d ← found (get_drawdown k s)
  _ ← check_access s user TreasuryAction.approve d.legal_entity_id
  require (is_submitted d.status) bad_request
  ok (
      facility_audit user.id d.legal_entity_id (drawdown_approve d.id)
        (put_drawdown (approved_by d user.id) s))

abbrev pub sub_limit_of : FacilityStore → Option ℕ → Option FacilitySubLimit
sub_limit_of s none = none
sub_limit_of s (some k) = get_sub_limit k s

-- The last test of `execute_drawdown_endpoint`, against the locked rows.
unfoldable pub still_valid :
    (Text → Text) → FacilityStore → Facility → FacilityDrawdown → Outcome (Unit {0})
still_valid upper s f d =
    reject_on
      (validate_drawdown upper f d.drawdown_amount d.currency_code d.drawdown_date
        (sub_limit_of s d.sub_limit_id))
      (raised conflict)

unfoldable pub execute_drawdown_endpoint :
    (Text → Text) → FacilityStore → User → ℕ → ℕ → Outcome FacilityStore
execute_drawdown_endpoint upper s user k now = do
  d ← found (get_drawdown k s)
  _ ← check_access s user TreasuryAction.execute d.legal_entity_id
  require (is_approved d.status) bad_request
  f ← found (get_facility d.facility_id s)
  still_valid upper s f d
  ok (
      facility_audit user.id d.legal_entity_id (drawdown_execute d.id d.drawdown_amount)
        (execute_drawdown s f d now user.id))
