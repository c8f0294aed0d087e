-- ===== src/Facility/Covenants.antt =====
-- The endpoints of fees, collateral and covenants (backend/app/api/v1/facilities.py: `create_fee`,
-- `create_collateral`, `create_covenant`, `update_covenant`).
use treasury_os_app.Base.{
  ℕ, ◌+◌, Bool, false, not, Option, none, some, [], ◌∷◌, ◌++◌, ◌==◌, if◌then◌else◌, Outcome, ok,
  bad_request, ◌>>=◌, ◌>>◌, require, ℤ, ◌-ℤ◌,
}
use treasury_os_app.Auth.{TreasuryAction, User}
use treasury_os_app.Facility.Records.{
  FeeStatus, FacilityFee, CollateralStatus, FacilityCollateral, collateral_text, CovenantStatus,
  compliant, warning, breach, data_required, FacilityCovenant, FacilityEventType, FacilityEvent,
  RelatedRecord, covenant_value, fee_text, covenant_text, CovenantOperator,
}
use treasury_os_app.Facility.Utilization.{evaluate_covenant}
use treasury_os_app.Facility.Store.{
  FeeCreate, CovenantCreate, CollateralCreate, collateral_create, FacilityStore, fee_create,
  covenant_create, covenant_update, get_facility, get_covenant, put_covenant, add_event,
  facility_audit,
}
use treasury_os_app.Facility.Service.{set_option}
use treasury_os_app.Facility.Endpoints.{found, check_access}

unfoldable pub create_fee : FacilityStore → User → ℕ → FeeCreate → ℕ → Outcome FacilityStore
create_fee s user k p now = do
  f ← found (get_facility k s)
  _ ← check_access s user TreasuryAction.create p.legal_entity_id
  require (f.legal_entity_id == p.legal_entity_id) bad_request
  let fee : FacilityFee = record {
    id = s.next_id;
    facility_id = k;
    legal_entity_id = p.legal_entity_id;
    fee_type = p.fee_type;
    currency_code = p.currency_code;
    amount = p.amount;
    rate = p.rate;
    calculation_basis = p.calculation_basis;
    due_date = p.due_date;
    paid_date = none;
    status = FeeStatus.due;
  }
  let event : FacilityEvent = record {
    facility_id = k;
    event_type = FacilityEventType.fee_charged;
    event_date = now;
    description = fee_text fee.fee_type fee.amount fee.currency_code;
    related = some (RelatedRecord.fee fee.id);
    previous_value = none;
    new_value = none;
    created_by_user_id = none;
  }
  ok (
      facility_audit user.id fee.legal_entity_id (fee_create fee.id p)
        (add_event event (record s { fees = s.fees ++ fee ∷ []; next_id = s.next_id + 1 })))

unfoldable pub create_collateral :
    FacilityStore → User → ℕ → CollateralCreate → ℕ → Outcome FacilityStore
create_collateral s user k p now = do
  f ← found (get_facility k s)
  _ ← check_access s user TreasuryAction.create f.legal_entity_id
  let c : FacilityCollateral = record {
    id = s.next_id;
    facility_id = k;
    collateral_type = p.collateral_type;
    description = p.description;
    value = p.value;
    currency_code = p.currency_code;
    valuation_date = p.valuation_date;
    haircut_pct = p.haircut_pct;
    expiry_date = p.expiry_date;
    document_reference = p.document_reference;
    status = CollateralStatus.active;
  }
  let event : FacilityEvent = record {
    facility_id = k;
    event_type = FacilityEventType.collateral_added;
    event_date = now;
    description = collateral_text c.collateral_type c.value c.currency_code;
    related = some (RelatedRecord.collateral c.id);
    previous_value = none;
    new_value = none;
    created_by_user_id = none;
  }
  ok (
      facility_audit user.id f.legal_entity_id (collateral_create c.id p) (
        add_event event
          (record s { collateral = s.collateral ++ c ∷ []; next_id = s.next_id + 1 })))

unfoldable pub create_covenant : FacilityStore → User → ℕ → CovenantCreate → Outcome FacilityStore
create_covenant s user k p = do
  f ← found (get_facility k s)
  _ ← check_access s user TreasuryAction.configure f.legal_entity_id
  let c : FacilityCovenant = record {
    id = s.next_id;
    facility_id = k;
    name = p.name;
    covenant_type = p.covenant_type;
    description = p.description;
    threshold = p.threshold;
    operator = p.operator;
    measurement_frequency = p.measurement_frequency;
    measurement_date = none;
    current_value = none;
    headroom = none;
    status = data_required;
    warning_threshold = p.warning_threshold;
    breach_threshold = p.breach_threshold;
    cure_period_days = p.cure_period_days;
    notes = p.notes;
  }
  ok (
      facility_audit user.id f.legal_entity_id (covenant_create c.id p)
        (record s { covenants = s.covenants ++ c ∷ []; next_id = s.next_id + 1 }))

-- `warning_threshold is not None and not evaluate_covenant(…)`
abbrev pub warns : CovenantOperator → ℤ → Option ℤ → Bool
warns operator value none = false
warns operator value (some w) = not (evaluate_covenant operator value w)

abbrev pub assessed : FacilityCovenant → Option ℤ → Option ℤ → FacilityCovenant
assessed c (some value) (some threshold) = record c {
  headroom = some (value -ℤ threshold);
  status =
      if evaluate_covenant c.operator value threshold
      then if warns c.operator value c.warning_threshold then warning else compliant
      else breach;
}
assessed c _ _ = record c { status = data_required }

-- the covenant after the new measurement
unfoldable pub measured : FacilityCovenant → Option ℤ → Option ℕ → FacilityCovenant
measured c current_value measurement_date =
    let new = record c {
      current_value = set_option current_value c.current_value;
      measurement_date = set_option measurement_date c.measurement_date;
    } in
    assessed new new.current_value new.threshold

-- The event of a status that is new, and a warning or a breach.
abbrev pub covenant_event_type : CovenantStatus → CovenantStatus → Option FacilityEventType
covenant_event_type warning warning = none
covenant_event_type breach breach = none
covenant_event_type previous warning = some FacilityEventType.covenant_warning
covenant_event_type previous breach = some FacilityEventType.covenant_breach
covenant_event_type previous new = none

abbrev pub add_covenant_event :
    Option FacilityEventType
    → ℕ
    → CovenantStatus
    → FacilityCovenant
    → ℕ
    → FacilityStore
    → FacilityStore
add_covenant_event none k previous c now s = s
add_covenant_event (some event_type) k previous c now s =
    add_event
      (record {
        facility_id = k;
        event_type = event_type;
        event_date = now;
        description = covenant_text c.name c.status;
        related = some (RelatedRecord.covenant c.id);
        previous_value = some (covenant_value previous);
        new_value = some (covenant_value c.status);
        created_by_user_id = none;
      })
      s

unfoldable pub update_covenant :
    FacilityStore → User → ℕ → Option ℤ → Option ℕ → ℕ → Outcome FacilityStore
update_covenant s user k current_value measurement_date now = do
  c ← found (get_covenant k s)
  f ← found (get_facility c.facility_id s)
  _ ← check_access s user TreasuryAction.configure f.legal_entity_id
  let new = measured c current_value measurement_date
  ok (
      facility_audit user.id f.legal_entity_id (covenant_update c.id c.status new.status) (
        add_covenant_event (covenant_event_type c.status new.status) f.id c.status new now
          (put_covenant new s)))
