-- ===== src/Facility/Session.antt =====
-- A session of the endpoints of facilities that write (backend/app/api/v1/facilities.py): a list of
-- requests, each of which is answered on the store that the ones before it left; a refused request
-- changes nothing.
use treasury_os_app.Base.{ℕ, ◌≡◌, refl, Option, List, [], ◌∷◌, Outcome, ok, raised, ℤ, All}
use treasury_os_app.Text.{Text}
use treasury_os_app.Auth.{User}
use treasury_os_app.Facility.Records.{FacilityStatus}
use treasury_os_app.Facility.Store.{
  FacilityCreate, FacilityChanges, SubLimitCreate, DrawdownCreate, RepaymentCreate, FeeCreate,
  CovenantCreate, CollateralCreate, FacilityStore,
}
use treasury_os_app.Facility.Endpoints.{
  create_facility, update_facility, change_facility_status, create_sub_limit,
}
use treasury_os_app.Facility.Repayments.{create_repayment, pay_repayment}
use treasury_os_app.Facility.Drawdowns.{
  create_drawdown, approve_drawdown, execute_drawdown_endpoint,
}
use treasury_os_app.Facility.Covenants.{
  create_fee, create_covenant, create_collateral, update_covenant,
}

pub data FacilityRequest : Type 0 where
  open_facility : FacilityCreate → FacilityRequest
  change_terms : ℕ → FacilityChanges → Text → FacilityRequest
  change_status : ℕ → FacilityStatus → Option Text → FacilityRequest
  add_sub_limit : ℕ → SubLimitCreate → FacilityRequest
  draw : ℕ → DrawdownCreate → FacilityRequest
  approve_draw : ℕ → FacilityRequest
  execute_draw : ℕ → FacilityRequest
  plan_repayment : ℕ → RepaymentCreate → FacilityRequest
  pay : ℕ → ℤ → ℕ → FacilityRequest
  charge_fee : ℕ → FeeCreate → FacilityRequest
  add_covenant : ℕ → CovenantCreate → FacilityRequest
  add_collateral : ℕ → CollateralCreate → FacilityRequest
  measure_covenant : ℕ → Option ℤ → Option ℕ → FacilityRequest

pub record FacilityCall : Type 0 where
  pub user : User
  pub today : ℕ
  pub now : ℕ
  pub request : FacilityRequest

unfoldable pub answer :
    (Text → Text) → FacilityStore → User → ℕ → ℕ → FacilityRequest → Outcome FacilityStore
answer upper s user today now (open_facility p) = create_facility s user p now
answer upper s user today now (change_terms k c reason) =
    update_facility s user k c reason today now
answer upper s user today now (change_status k new reason) =
    change_facility_status s user k new reason now
answer upper s user today now (add_sub_limit k p) = create_sub_limit s user k p
answer upper s user today now (draw k p) = create_drawdown upper s user k p
answer upper s user today now (approve_draw k) = approve_drawdown s user k
answer upper s user today now (execute_draw k) = execute_drawdown_endpoint upper s user k now
answer upper s user today now (plan_repayment k p) = create_repayment s user k p
answer upper s user today now (pay k amount date) = pay_repayment s user k amount date now
answer upper s user today now (charge_fee k p) = create_fee s user k p now
answer upper s user today now (add_covenant k p) = create_covenant s user k p
answer upper s user today now (add_collateral k p) = create_collateral s user k p now
answer upper s user today now (measure_covenant k value date) =
    update_covenant s user k value date now

abbrev pub answered_or : FacilityStore → Outcome FacilityStore → FacilityStore
answered_or s (ok t) = t
answered_or s (raised e) = s

unfoldable pub answer_all : (Text → Text) → FacilityStore → List FacilityCall → FacilityStore
answer_all upper s [] = s
answer_all upper s (c ∷ rest) =
    answer_all upper (answered_or s (answer upper s c.user c.today c.now c.request)) rest

-- What every answered request keeps, a session keeps.
pub answer_all-keeps {ℓ κ} :
    (upper : Text → Text) (Q : FacilityCall → Type κ) (P : FacilityStore → Type ℓ)
    → ((s : FacilityStore) (c : FacilityCall) (t : FacilityStore)
        → answer upper s c.user c.today c.now c.request ≡ ok t
        → Q c
        → P s
        → P t)
    → (s : FacilityStore) (session : List FacilityCall) → All Q session
    → P s
    → P (answer_all upper s session)
unfolding answer_all
answer_all-keeps upper Q P step s [] q i = i
answer_all-keeps upper Q P step s (c ∷ rest) q i =
    answer_all-keeps upper Q P step (answered_or s (answer upper s c.user c.today c.now c.request))
      rest q.1 (go (answer upper s c.user c.today c.now c.request) refl)
  where
    go :
        (o : Outcome FacilityStore)
        → answer upper s c.user c.today c.now c.request ≡ o
        → P (answered_or s o)
    go (ok t) e = step s c t e q.0 i
    go (raised _) e = i
