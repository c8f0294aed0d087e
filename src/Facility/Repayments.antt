-- ===== src/Facility/Repayments.antt =====
-- The endpoints of repayments (backend/app/api/v1/facilities.py: `create_repayment`, `pay_repayment`).
use treasury_os_app.Base.{
  ℕ, ◌+◌, Bool, true, false, none, some, [], ◌∷◌, ◌++◌, ◌==◌, Outcome, ok, bad_request, ◌>>=◌, ◌>>◌,
  raise_if, require, ℤ, pos,
}
use treasury_os_app.Auth.{TreasuryAction, User}
use treasury_os_app.Facility.Records.{FacilityRepayment, RepaymentStatus}
use treasury_os_app.Facility.Store.{
  RepaymentCreate, FacilityStore, repayment_create, repayment_paid, get_facility, get_repayment,
  facility_audit,
}
use treasury_os_app.Facility.Balances.{record_repayment_payment}
use treasury_os_app.Facility.Endpoints.{found, check_access}

unfoldable pub new_repayment : ℕ → ℕ → RepaymentCreate → ℕ → FacilityRepayment
new_repayment k facility_id p user_id = record {
  id = k;
  facility_id = facility_id;
  legal_entity_id = p.legal_entity_id;
  drawdown_id = p.drawdown_id;
  currency_code = p.currency_code;
  repayment_type = p.repayment_type;
  original_amount = p.original_amount;
  paid_amount = pos 0;
  due_date = p.due_date;
  actual_payment_date = none;
  status = RepaymentStatus.scheduled;
  is_early_repayment = p.is_early_repayment;
  reference = p.reference;
  created_by_user_id = some user_id;
}

unfoldable pub create_repayment : FacilityStore → User → ℕ → RepaymentCreate → Outcome FacilityStore
create_repayment s user k p = do
  f ← found (get_facility k s)
  _ ← check_access s user TreasuryAction.create p.legal_entity_id
  require (f.legal_entity_id == p.legal_entity_id) bad_request
  let r = new_repayment s.next_id k p user.id
  ok (
      facility_audit user.id r.legal_entity_id (repayment_create r.id p)
        (record s { repayments = s.repayments ++ r ∷ []; next_id = s.next_id + 1 }))

-- `status in (PAID, CANCELLED)`
abbrev pub is_settled : RepaymentStatus → Bool
is_settled RepaymentStatus.paid = true
is_settled RepaymentStatus.cancelled = true
is_settled _ = false

unfoldable pub pay_repayment : FacilityStore → User → ℕ → ℤ → ℕ → ℕ → Outcome FacilityStore
pay_repayment s user k amount date now = do
  r ← found (get_repayment k s)
  _ ← check_access s user TreasuryAction.execute r.legal_entity_id
  raise_if (is_settled r.status) bad_request
  f ← found (get_facility r.facility_id s)
  t ← record_repayment_payment s f r amount date now user.id
  ok (facility_audit user.id r.legal_entity_id (repayment_paid r.id amount) t)
