-- ===== src/Facility/Endpoints.antt =====
-- The endpoints that change facilities and their sub-limits (backend/app/api/v1/facilities.py). Each
-- is one transaction, and the row locks make those on the same facility follow one another.
use treasury_os_app.Base.{
  ℕ, ◌+◌, Bool, true, ◌||◌, Option, none, some, [], ◌∷◌, ◌++◌, is_some, Outcome, ok, raised,
  bad_request, not_found, ◌>>=◌, ◌>>◌, raise_if, require, pos, ltb_ℤ,
}
use treasury_os_app.Text.{Text}
use treasury_os_app.Auth.{TreasuryAction, TreasuryModule, User, LegalEntity, assert_entity_access}
use treasury_os_app.Facility.Records.{Facility, FacilityStatus, FacilitySubLimit}
use treasury_os_app.Facility.Store.{
  FacilityCreate, FacilityChanges, SubLimitCreate, FacilityStore, create, update, status_change,
  sub_limit_create, get_facility, facility_audit,
}
use treasury_os_app.Facility.Service.{
  record_initial_version, apply_facility_update, transition_facility_status,
}

-- `if row is None: raise HTTPException(404)`
abbrev pub found {ℓ} : {A : Type ℓ} → Option A → Outcome A
found none = raised not_found
found (some a) = ok a

-- `assert_entity_access` for the module of the facilities
unfoldable pub check_access :
    FacilityStore → User → TreasuryAction → ℕ → Outcome (Option LegalEntity)
check_access s user action entity =
    assert_entity_access s.entities user TreasuryModule.facilities action (some entity)

unfoldable pub new_facility : ℕ → FacilityCreate → ℕ → Facility
new_facility k p user_id = record {
  id = k;
  facility_reference = p.facility_reference;
  facility_name = p.facility_name;
  facility_type_code = p.facility_type_code;
  commitment_type = p.commitment_type;
  lender_id = p.lender_id;
  legal_entity_id = p.legal_entity_id;
  currency_code = p.currency_code;
  approved_limit = p.approved_limit;
  committed_limit = p.committed_limit;
  current_drawn_amount = pos 0;
  covenant_restricted_amount = pos 0;
  interest_rate_type = p.interest_rate_type;
  benchmark_rate = p.benchmark_rate;
  spread = p.spread;
  fixed_rate = p.fixed_rate;
  day_count_convention = p.day_count_convention;
  arrangement_fee = p.arrangement_fee;
  commitment_fee_rate = p.commitment_fee_rate;
  processing_fee = p.processing_fee;
  start_date = p.start_date;
  availability_start_date = p.availability_start_date;
  availability_end_date = p.availability_end_date;
  maturity_date = p.maturity_date;
  renewal_date = p.renewal_date;
  repayment_frequency = p.repayment_frequency;
  repayment_method = p.repayment_method;
  next_repayment_date = p.next_repayment_date;
  status = FacilityStatus.draft;
  purpose = p.purpose;
  security_type = p.security_type;
  collateral_description = p.collateral_description;
  notice_period_days = p.notice_period_days;
  notes = p.notes;
  version = 1;
  refinanced_from_facility_id = none;
  created_by_user_id = some user_id;
  updated_by_user_id = none;
}

unfoldable pub create_facility : FacilityStore → User → FacilityCreate → ℕ → Outcome FacilityStore
create_facility s user p now = do
  _ ← check_access s user TreasuryAction.create p.legal_entity_id
  let f = new_facility s.next_id p user.id
  ok (
      facility_audit user.id f.legal_entity_id (create f.id p) (
        record_initial_version
          (record s { facilities = s.facilities ++ f ∷ []; next_id = s.next_id + 1 }) f now
          user.id))

-- `if not changes`
abbrev pub has_changes : FacilityChanges → Bool
has_changes c =
    is_some c.committed_limit
    || is_some c.fixed_rate
    || is_some c.benchmark_rate
    || is_some c.spread
    || is_some c.maturity_date
    || is_some c.repayment_method
    || is_some c.repayment_frequency

unfoldable pub update_facility :
    FacilityStore → User → ℕ → FacilityChanges → Text → ℕ → ℕ → Outcome FacilityStore
update_facility s user k changes reason today now = do
  f ← found (get_facility k s)
  _ ← check_access s user TreasuryAction.edit f.legal_entity_id
  require (has_changes changes) bad_request
  ok (
      facility_audit user.id f.legal_entity_id (update f.id reason f.committed_limit changes)
        (apply_facility_update s f changes reason today now user.id))

unfoldable pub change_facility_status :
    FacilityStore → User → ℕ → FacilityStatus → Option Text → ℕ → Outcome FacilityStore
change_facility_status s user k new reason now = do
  f ← found (get_facility k s)
  _ ← check_access s user TreasuryAction.approve f.legal_entity_id
  t ← transition_facility_status s f new reason now user.id
  ok (facility_audit user.id f.legal_entity_id (status_change f.id reason f.status new) t)

unfoldable pub create_sub_limit : FacilityStore → User → ℕ → SubLimitCreate → Outcome FacilityStore
create_sub_limit s user k p = do
  f ← found (get_facility k s)
  _ ← check_access s user TreasuryAction.configure f.legal_entity_id
  raise_if (ltb_ℤ f.committed_limit p.limit_amount) bad_request
  let l : FacilitySubLimit = record {
    id = s.next_id;
    facility_id = k;
    name = p.name;
    purpose_code = p.purpose_code;
    limit_amount = p.limit_amount;
    drawn_amount = pos 0;
    is_active = true;
  }
  ok (
      facility_audit user.id f.legal_entity_id (sub_limit_create l.id p)
        (record s { sub_limits = s.sub_limits ++ l ∷ []; next_id = s.next_id + 1 }))
