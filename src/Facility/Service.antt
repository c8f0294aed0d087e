-- ===== src/Facility/Service.antt =====
-- The life of a facility and the movements of its balances
-- (backend/app/services/facility_service.py).
use treasury_os_app.Base.{
  ℕ, ◌+◌, ◌≡◌, refl, Bool, true, false, not, ◌&&◌, ◌||◌, Option, none, some, ◌∷◌, if◌then◌else◌,
  is_some, Outcome, ok, bad_request, ◌>>◌, raise_if, ℤ, pos, eqb_ℤ,
}
use treasury_os_app.Text.{Text, codes}
use treasury_os_app.Facility.Records.{
  FacilityStatus, draft, active, suspended, expired, matured, renewal_pending, renewed, closed,
  cancelled, Facility, Terms, FacilityVersion, FacilityEventType, terms_value, status_value,
  EventText, given_text, created_text, status_text,
}
use treasury_os_app.Facility.Store.{FacilityChanges, FacilityStore, put_facility, add_event}
use mathlib.Core.Logic.{ite}

FacilityStatus-discrete : Discrete FacilityStatus
FacilityStatus-discrete = hlevel

unfoldable pub same_status : FacilityStatus → FacilityStatus → Bool
unfolding FacilityStatus-discrete
same_status a b = ite (FacilityStatus-discrete a b) true false

-- `FACILITY_STATUS_TRANSITIONS`
unfoldable pub transition_allowed : FacilityStatus → FacilityStatus → Bool
transition_allowed draft new = same_status new active || same_status new cancelled
transition_allowed active new =
    same_status new suspended
    || same_status new expired
    || same_status new matured
    || same_status new renewal_pending
    || same_status new closed
transition_allowed suspended new =
    same_status new active || same_status new closed || same_status new cancelled
transition_allowed renewal_pending new =
    same_status new renewed || same_status new expired || same_status new closed
transition_allowed renewed new = same_status new active
transition_allowed matured new = same_status new closed || same_status new renewal_pending
transition_allowed expired new = same_status new closed
transition_allowed closed new = false
transition_allowed cancelled new = false

-- The entries of the table that lead to an end.
pub ending_transitions :
    (transition_allowed draft cancelled ≡ true)
    × (transition_allowed active closed ≡ true)
    × (transition_allowed suspended closed ≡ true)
    × (transition_allowed expired closed ≡ true)
    × (transition_allowed matured closed ≡ true)
    × (transition_allowed renewal_pending closed ≡ true)
    × (transition_allowed renewed active ≡ true)
unfolding transition_allowed same_status FacilityStatus-discrete
ending_transitions = (refl, refl, refl, refl, refl, refl, refl)

-- `rate if rate else None`
abbrev pub nonzero : Option ℤ → Option ℤ
nonzero none = none
nonzero (some r) = if eqb_ℤ r (pos 0) then none else some r

pub facility_terms_snapshot : Facility → Terms
facility_terms_snapshot f = record {
  committed_limit = f.committed_limit;
  approved_limit = f.approved_limit;
  fixed_rate = nonzero f.fixed_rate;
  benchmark_rate = nonzero f.benchmark_rate;
  spread = nonzero f.spread;
  maturity_date = f.maturity_date;
  repayment_method = f.repayment_method;
  repayment_frequency = f.repayment_frequency;
}

abbrev pub add_version : FacilityVersion → FacilityStore → FacilityStore
add_version v s = record s { versions = v ∷ s.versions }

unfoldable pub record_initial_version : FacilityStore → Facility → ℕ → ℕ → FacilityStore
unfolding facility_terms_snapshot
record_initial_version s f now user_id =
    add_event
      (record {
        facility_id = f.id;
        event_type = FacilityEventType.facility_created;
        event_date = now;
        description = created_text f.facility_reference;
        related = none;
        previous_value = none;
        new_value = some (terms_value (facility_terms_snapshot f));
        created_by_user_id = some user_id;
      })
      (add_version
        (record {
          facility_id = f.id;
          version = 1;
          effective_date = f.start_date;
          terms = facility_terms_snapshot f;
          change_reason = some (codes "Initial facility creation");
          created_by_user_id = some user_id;
        })
        s)

-- `if value is not None: setattr(…)`
abbrev pub set_to {ℓ} : {A : Type ℓ} → Option A → A → A
set_to none old = old
set_to (some new) old = new

abbrev pub set_option {ℓ} : {A : Type ℓ} → Option A → Option A → Option A
set_option none old = old
set_option (some new) old = some new

unfoldable pub changed_facility : Facility → FacilityChanges → ℕ → Facility
changed_facility f changes user_id = record f {
  committed_limit = set_to changes.committed_limit f.committed_limit;
  fixed_rate = set_option changes.fixed_rate f.fixed_rate;
  benchmark_rate = set_option changes.benchmark_rate f.benchmark_rate;
  spread = set_option changes.spread f.spread;
  maturity_date = set_to changes.maturity_date f.maturity_date;
  repayment_method = set_to changes.repayment_method f.repayment_method;
  repayment_frequency = set_option changes.repayment_frequency f.repayment_frequency;
  version = f.version + 1;
  updated_by_user_id = some user_id;
}

pub change_event_type : FacilityChanges → FacilityEventType
change_event_type changes =
    if is_some changes.maturity_date
    then FacilityEventType.maturity_extended
    else if is_some changes.committed_limit
    then FacilityEventType.limit_changed
    else FacilityEventType.rate_changed

unfoldable pub apply_facility_update :
    FacilityStore → Facility → FacilityChanges → Text → ℕ → ℕ → ℕ → FacilityStore
unfolding facility_terms_snapshot change_event_type
apply_facility_update s f changes reason today now user_id =
    let new = changed_facility f changes user_id in
    add_event
      (record {
        facility_id = f.id;
        event_type = change_event_type changes;
        event_date = now;
        description = given_text reason;
        related = none;
        previous_value = some (terms_value (facility_terms_snapshot f));
        new_value = some (terms_value (facility_terms_snapshot new));
        created_by_user_id = some user_id;
      })
      (add_version
        (record {
          facility_id = f.id;
          version = new.version;
          effective_date = today;
          terms = facility_terms_snapshot new;
          change_reason = some reason;
          created_by_user_id = some user_id;
        })
        (put_facility new s))

pub status_event_type : FacilityStatus → FacilityStatus → FacilityEventType
status_event_type draft active = FacilityEventType.facility_activated
status_event_type previous suspended = FacilityEventType.facility_suspended
status_event_type previous closed = FacilityEventType.facility_closed
status_event_type previous renewed = FacilityEventType.renewed
status_event_type previous new = FacilityEventType.status_changed

-- `reason or …`
abbrev pub reason_or : Option Text → EventText → EventText
reason_or (some (c ∷ cs)) other = given_text (c ∷ cs)
reason_or _ other = other

unfoldable pub transition_facility_status :
    FacilityStore → Facility → FacilityStatus → Option Text → ℕ → ℕ → Outcome FacilityStore
unfolding status_event_type
transition_facility_status s f new reason now user_id = do
  raise_if (not (transition_allowed f.status new) && not (same_status new f.status)) bad_request
  ok (
      add_event
        (record {
          facility_id = f.id;
          event_type = status_event_type f.status new;
          event_date = now;
          description = reason_or reason (status_text f.status new);
          related = none;
          previous_value = some (status_value f.status);
          new_value = some (status_value new);
          created_by_user_id = some user_id;
        })
        (put_facility (record f { status = new }) s))
