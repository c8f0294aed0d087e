-- ===== src/Facility/Refinement.antt =====
-- The endpoints of backend/app/api/v1/facilities.py implement the abstract machine of the balances.
use treasury_os_app.Base.{
  ℕ, ◌≡◌, refl, Option, none, some, ◌==◌, ℤ, ok, bad_request, conflict, >>=-eq_ok, require-ok,
  skip-ok,
}
use treasury_os_app.Text.{Text}
use treasury_os_app.Auth.{TreasuryAction, User}
use treasury_os_app.Facility.Records.{
  Facility, FacilityDrawdown, FacilityEventType, CovenantStatus, FacilityCovenant,
}
use treasury_os_app.Facility.Store.{
  FacilityStore, FeeCreate, CovenantCreate, CollateralCreate, get_covenant, put_covenant,
  get_facility, get_drawdown, put_facility, put_drawdown,
}
use treasury_os_app.Facility.Utilization.{validate_drawdown}
use treasury_os_app.Facility.Balances.{execute_drawdown, drawn_more, executed_by}
use treasury_os_app.Facility.Endpoints.{check_access}
use treasury_os_app.Facility.Drawdowns.{
  execute_drawdown_endpoint, is_approved, still_valid, sub_limit_of,
}
use treasury_os_app.Facility.Covenants.{
  create_fee, create_covenant, create_collateral, update_covenant, measured, covenant_event_type,
  add_covenant_event,
}
use treasury_os_app.Facility.Session.{
  FacilityRequest, open_facility, change_terms, change_status, add_sub_limit, draw, approve_draw,
  execute_draw, plan_repayment, pay, charge_fee, add_covenant, add_collateral, measure_covenant,
  answer,
}
use treasury_os_app.Facility.Book.{book, drawn_on, FitsSubLimit}
use treasury_os_app.Facility.Moves.{Move}
use treasury_os_app.Facility.Validation.{Drawable, validate_drawdown-Drawable, reject_on-ok}
use treasury_os_app.Facility.Steps.{
  found-ok, Steps, done, create_facility-Steps, update_facility-Steps, change_facility_status-Steps,
  create_sub_limit-Steps, create_drawdown-Steps, approve_drawdown-Steps, approved_of,
  draw_sub_limit-redrawn,
}
use treasury_os_app.Facility.RepaymentSteps.{done_at, create_repayment-Steps, pay_repayment-Steps}

execute_drawdown_endpoint-Steps :
    (upper : Text → Text) (s : FacilityStore) (user : User) (k now : ℕ) (t : FacilityStore)
    → execute_drawdown_endpoint upper s user k now ≡ ok t
    → Steps (execute_draw k) s t
unfolding execute_drawdown_endpoint execute_drawdown still_valid
execute_drawdown_endpoint-Steps upper s user k now t h =
    let (d, there, h₁) = found-ok (get_drawdown k s) _ h in
    let h₂ = skip-ok (check_access s user TreasuryAction.execute d.legal_entity_id) _ h₁ in
    let (waits, h₃) = require-ok (is_approved d.status) bad_request _ h₂ in
    let (f, owner, h₄) = found-ok (get_facility d.facility_id s) _ h₃ in
    let (u, valid, h₅) = >>=-eq_ok (still_valid upper s f d) _ h₄ in
    let fits = fit d f u valid in
    let s' =
      put_facility (drawn_more f d.drawdown_amount) (put_drawdown (executed_by d user.id) s) in
    done_at _ s t _ _ h₅ (draw_sub_limit-redrawn d.sub_limit_id d.drawdown_amount s') (
      Move.executes d (executed_by d user.id) f there (approved_of d.status waits)
        (refl, refl, refl, refl, refl) owner fits.0 fits.1.1.1.1.1.0
        (on_limit d.drawdown_amount d.sub_limit_id fits.1.1.1.1.1.1))
  where
    fit :
        (d : FacilityDrawdown) (f : Facility) (u : Unit {0})
        → still_valid upper s f d ≡ ok u
        → Drawable upper f d.drawdown_amount d.currency_code d.drawdown_date
            (sub_limit_of s d.sub_limit_id)
    fit d f u valid =
        let l = sub_limit_of s d.sub_limit_id in
        (validate_drawdown-Drawable upper f d.drawdown_amount d.currency_code d.drawdown_date l).0 (
          reject_on-ok
            (validate_drawdown upper f d.drawdown_amount d.currency_code d.drawdown_date l) conflict
            u valid)

    on_limit :
        (amount : ℤ) (o : Option ℕ)
        → FitsSubLimit (sub_limit_of s o) amount
        → FitsSubLimit (drawn_on o s.sub_limits) amount
    on_limit amount none fits = fits
    on_limit amount (some j) fits = fits

create_fee-Steps :
    (s : FacilityStore) (user : User) (k : ℕ) (p : FeeCreate) (now : ℕ) (t : FacilityStore)
    → create_fee s user k p now ≡ ok t
    → Steps (charge_fee k p) s t
unfolding create_fee
create_fee-Steps s user k p now t h =
    let (f, there, h₁) = found-ok (get_facility k s) _ h in
    let h₂ = skip-ok (check_access s user TreasuryAction.create p.legal_entity_id) _ h₁ in
    let (_, h₃) = require-ok (f.legal_entity_id == p.legal_entity_id) bad_request _ h₂ in
    done _ s t _ h₃ Move.charges

create_covenant-Steps :
    (s : FacilityStore) (user : User) (k : ℕ) (p : CovenantCreate) (t : FacilityStore)
    → create_covenant s user k p ≡ ok t
    → Steps (add_covenant k p) s t
unfolding create_covenant
create_covenant-Steps s user k p t h =
    let (f, there, h₁) = found-ok (get_facility k s) _ h in
    let h₂ = skip-ok (check_access s user TreasuryAction.configure f.legal_entity_id) _ h₁ in
    done _ s t _ h₂ Move.covenants

create_collateral-Steps :
    (s : FacilityStore) (user : User) (k : ℕ) (p : CollateralCreate) (now : ℕ) (t : FacilityStore)
    → create_collateral s user k p now ≡ ok t
    → Steps (add_collateral k p) s t
unfolding create_collateral
create_collateral-Steps s user k p now t h =
    let (f, there, h₁) = found-ok (get_facility k s) _ h in
    let h₂ = skip-ok (check_access s user TreasuryAction.create f.legal_entity_id) _ h₁ in
    done _ s t _ h₂ Move.secures

covenant_event-book :
    (o : Option FacilityEventType) (k : ℕ) (old : CovenantStatus) (c : FacilityCovenant) (now : ℕ)
    (s : FacilityStore)
    → book (add_covenant_event o k old c now s) ≡ book s
covenant_event-book none k old c now s = refl
covenant_event-book (some e) k old c now s = refl

update_covenant-Steps :
    (s : FacilityStore) (user : User) (k : ℕ) (value : Option ℤ) (date : Option ℕ) (now : ℕ)
    (t : FacilityStore)
    → update_covenant s user k value date now ≡ ok t
    → Steps (measure_covenant k value date) s t
unfolding update_covenant
update_covenant-Steps s user k value date now t h =
    let (c, there, h₁) = found-ok (get_covenant k s) _ h in
    let (f, owner, h₂) = found-ok (get_facility c.facility_id s) _ h₁ in
    let h₃ = skip-ok (check_access s user TreasuryAction.configure f.legal_entity_id) _ h₂ in
    let new = measured c value date in
    let event = covenant_event_type c.status new.status in
    done_at _ s t _ (book s) h₃
      (covenant_event-book event f.id c.status new now (put_covenant new s)) Move.measures

-- Every request that is answered is a move of the abstract machine of the four tables with balances.
pub answer-Move :
    (upper : Text → Text) (s : FacilityStore) (user : User) (today now : ℕ) (r : FacilityRequest)
    (t : FacilityStore)
    → answer upper s user today now r ≡ ok t
    → Move r (book s) (book t)
unfolding answer
answer-Move upper s user today now (open_facility p) t h = create_facility-Steps s user p now t h
answer-Move upper s user today now (change_terms k c reason) t h =
    update_facility-Steps s user k c reason today now t h
answer-Move upper s user today now (change_status k new reason) t h =
    change_facility_status-Steps s user k new reason now t h
answer-Move upper s user today now (add_sub_limit k p) t h = create_sub_limit-Steps s user k p t h
answer-Move upper s user today now (draw k p) t h = create_drawdown-Steps upper s user k p t h
answer-Move upper s user today now (approve_draw k) t h = approve_drawdown-Steps s user k t h
answer-Move upper s user today now (execute_draw k) t h =
    execute_drawdown_endpoint-Steps upper s user k now t h
answer-Move upper s user today now (plan_repayment k p) t h = create_repayment-Steps s user k p t h
answer-Move upper s user today now (pay k amount date) t h =
    pay_repayment-Steps s user k amount date now t h
answer-Move upper s user today now (charge_fee k p) t h = create_fee-Steps s user k p now t h
answer-Move upper s user today now (add_covenant k p) t h = create_covenant-Steps s user k p t h
answer-Move upper s user today now (add_collateral k p) t h =
    create_collateral-Steps s user k p now t h
answer-Move upper s user today now (measure_covenant k value date) t h =
    update_covenant-Steps s user k value date now t h
