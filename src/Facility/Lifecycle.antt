-- ===== src/Facility/Lifecycle.antt =====
-- Every facility can be brought to an end
-- (backend/app/models/facility.py: FACILITY_STATUS_TRANSITIONS).
use treasury_os_app.Base.{
  ℕ, ◌≡◌, refl, sym, subst, Bool, true, false, Option, none, some, List, [], ◌∷◌, map,
  get_row-put_row_same, get_row-key, Outcome, ok, raised, is_ok,
}
use treasury_os_app.Text.{Text}
use treasury_os_app.Auth.{User, TreasuryAction, LegalEntity}
use treasury_os_app.Facility.Records.{
  Facility, FacilityStatus, draft, active, suspended, expired, matured, renewal_pending, renewed,
  closed, cancelled,
}
use treasury_os_app.Facility.Store.{FacilityStore, get_facility, put_facility}
use treasury_os_app.Facility.Service.{
  transition_allowed, transition_facility_status, ending_transitions,
}
use treasury_os_app.Facility.Endpoints.{check_access, change_facility_status}
use treasury_os_app.Facility.Session.{change_status, FacilityCall, answer, answered_or, answer_all}

-- The statuses to go through until the facility is over.
abbrev pub closing_path : FacilityStatus → List FacilityStatus
closing_path draft = cancelled ∷ []
closing_path renewed = active ∷ closed ∷ []
closing_path closed = []
closing_path cancelled = []
closing_path _ = closed ∷ []

abbrev pub is_over : FacilityStatus → Bool
is_over closed = true
is_over cancelled = true
is_over _ = false

-- The user's requests to take the facility through the statuses.
abbrev pub closing_session : User → ℕ → ℕ → List FacilityStatus → List FacilityCall
closing_session user k now path =
    map (λ new. record { user = user; today = now; now = now; request = change_status k new none })
      path

-- The facility is in the table, and the user may approve for its entity.
abbrev pub MayEnd : User → ℕ → FacilityStatus → FacilityStore → Type 0
MayEnd user k status s =
    (f : Facility) × (get_facility k s ≡ some f)
    × (f.status ≡ status)
    × (is_ok (check_access s user TreasuryAction.approve f.legal_entity_id) ≡ true)

-- An allowed change of the status goes through, and what it needs still holds.
change-MayEnd :
    (user : User) (k now : ℕ) (old new : FacilityStatus) (s : FacilityStore)
    → transition_allowed old new ≡ true
    → MayEnd user k old s
    → MayEnd user k new (answered_or s (change_facility_status s user k new none now))
unfolding change_facility_status transition_facility_status check_access
change-MayEnd user k now old new s allowed (f, there, at, may) =
    go (check_access s user TreasuryAction.approve f.legal_entity_id) refl may
  where
    named : f.id ≡ k
    named = get_row-key (λ (f : Facility). f.id) k s.facilities {x = f} there

    written :
        get_facility k (put_facility (record f { status = new }) s)
        ≡ some (record f { status = new })
    written =
        subst
          (λ j.
            get_facility j (put_facility (record f { status = new }) s)
            ≡ some (record f { status = new }))
          named
          (get_row-put_row_same (λ (f : Facility). f.id) (record f { status = new }) s.facilities
            {x = f} (subst (λ j. get_facility j s ≡ some f) (sym named) there))

    go :
        (o : Outcome (Option LegalEntity))
        → check_access s user TreasuryAction.approve f.legal_entity_id ≡ o
        → is_ok o ≡ true
        → MayEnd user k new (answered_or s (change_facility_status s user k new none now))
    go (ok _) e may' =
        rw there (rw e (rw at (rw allowed (record f { status = new }, written, refl, rw e refl))))
    go (raised _) e may' = cc

-- A facility of any status that is in the table comes to an end: a user who may approve for its
-- entity takes it to closed or cancelled by at most two changes of its status.
pub closing_session-ends :
    (upper : Text → Text) (user : User) (k now : ℕ) (status : FacilityStatus) (s : FacilityStore)
    → MayEnd user k status s
    → (final : FacilityStatus) × (is_over final ≡ true)
      × MayEnd user k final (answer_all upper s (closing_session user k now (closing_path status)))
unfolding answer_all answer
closing_session-ends upper user k now draft s m =
    (cancelled, refl, change-MayEnd user k now draft cancelled s ending_transitions.0 m)
closing_session-ends upper user k now active s m =
    (closed, refl, change-MayEnd user k now active closed s ending_transitions.1 m)
closing_session-ends upper user k now suspended s m =
    (closed, refl, change-MayEnd user k now suspended closed s ending_transitions.2 m)
closing_session-ends upper user k now expired s m =
    (closed, refl, change-MayEnd user k now expired closed s ending_transitions.3 m)
closing_session-ends upper user k now matured s m =
    (closed, refl, change-MayEnd user k now matured closed s ending_transitions.4 m)
closing_session-ends upper user k now renewal_pending s m =
    (closed, refl, change-MayEnd user k now renewal_pending closed s ending_transitions.5 m)
closing_session-ends upper user k now renewed s m =
    let opened = change-MayEnd user k now renewed active s ending_transitions.6 m in
    (closed, refl, change-MayEnd user k now active closed _ ending_transitions.1 opened)
closing_session-ends upper user k now closed s m = (closed, refl, m)
closing_session-ends upper user k now cancelled s m = (cancelled, refl, m)
