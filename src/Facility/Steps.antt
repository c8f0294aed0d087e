-- ===== src/Facility/Steps.antt =====
-- The endpoints of backend/app/api/v1/facilities.py that open facilities, change their terms, add
-- sub-limits, and submit and approve drawdowns, as moves of the abstract machine.
use treasury_os_app.Base.{
  ℕ, ◌≡◌, refl, subst, true, not, ◌&&◌, Option, none, some, ◌==◌, arith, ℤ, ◌+ℤ◌, ◌-ℤ◌, ltb_ℤ,
  max_zero, Outcome, ok, raised, bad_request, ◌>>=◌, >>=-eq_ok, require-ok, raise_if-ok, skip-ok,
  inl, inr, Option-cases,
}
use treasury_os_app.Text.{Text}
use treasury_os_app.Auth.{TreasuryAction, User}
use treasury_os_app.Facility.Records.{FacilityStatus, DrawdownStatus}
use treasury_os_app.Facility.Store.{
  FacilityCreate, FacilityChanges, SubLimitCreate, DrawdownCreate, FacilityStore, get_facility,
  get_drawdown, get_sub_limit,
}
use treasury_os_app.Facility.Utilization.{validate_drawdown}
use treasury_os_app.Facility.Service.{
  record_initial_version, apply_facility_update, changed_facility, transition_facility_status,
  transition_allowed, same_status,
}
use treasury_os_app.Facility.Balances.{draw_sub_limit, free_sub_limit, free_sub_limit_of}
use treasury_os_app.Facility.Endpoints.{
  found, check_access, create_facility, new_facility, update_facility, change_facility_status,
  create_sub_limit, has_changes,
}
use treasury_os_app.Facility.Drawdowns.{
  create_drawdown, new_drawdown, approve_drawdown, is_submitted, is_approved, named_sub_limit,
  reject_on, approved_by,
}
use treasury_os_app.Facility.Session.{
  FacilityRequest, open_facility, change_terms, change_status, add_sub_limit, draw, approve_draw,
}
use treasury_os_app.Facility.Book.{book, redrawn, drawn_on, repaid_on}
use treasury_os_app.Facility.Moves.{Move}

-- A row that is found and a check that passes.
pub found-ok {ℓ κ} :
    {A : Type ℓ} {B : Type κ} (o : Option A) (k : A → Outcome B) {b : B}
    → (found o >>= k) ≡ ok b
    → (a : A) × (o ≡ some a) × (k a ≡ ok b)
found-ok none k h = cc
found-ok (some a) k h = (a, refl, h)

-- What becomes of a call that gives the store `t`.
abbrev pub Steps : FacilityRequest → FacilityStore → FacilityStore → Type 0
Steps r s t = Move r (book s) (book t)

-- A call whose last step is known.
pub done : (r : FacilityRequest) (s t u : FacilityStore) → ok u ≡ ok t → Steps r s u → Steps r s t
done r s t u h m = let e : u ≡ t = ground arith in subst (Steps r s) e m

pub create_facility-Steps :
    (s : FacilityStore) (user : User) (p : FacilityCreate) (now : ℕ) (t : FacilityStore)
    → create_facility s user p now ≡ ok t
    → Steps (open_facility p) s t
unfolding create_facility new_facility record_initial_version
create_facility-Steps s user p now t h =
    let h₁ = skip-ok (check_access s user TreasuryAction.create p.legal_entity_id) _ h in
    done _ s t _ h₁ (Move.opens (new_facility s.next_id p user.id) refl refl refl refl)

pub update_facility-Steps :
    (s : FacilityStore) (user : User) (k : ℕ) (c : FacilityChanges) (reason : Text) (today now : ℕ)
    (t : FacilityStore)
    → update_facility s user k c reason today now ≡ ok t
    → Steps (change_terms k c reason) s t
unfolding update_facility apply_facility_update changed_facility
update_facility-Steps s user k c reason today now t h =
    let (f, there, h₁) = found-ok (get_facility k s) _ h in
    let h₂ = skip-ok (check_access s user TreasuryAction.edit f.legal_entity_id) _ h₁ in
    let (_, h₃) = require-ok (has_changes c) bad_request _ h₂ in
    done _ s t _ h₃
      (Move.changes_terms f (changed_facility f c user.id) there (refl, refl, refl) refl)

pub change_facility_status-Steps :
    (s : FacilityStore) (user : User) (k : ℕ) (new : FacilityStatus) (reason : Option Text)
    (now : ℕ) (t : FacilityStore)
    → change_facility_status s user k new reason now ≡ ok t
    → Steps (change_status k new reason) s t
unfolding change_facility_status transition_facility_status
change_facility_status-Steps s user k new reason now t h =
    let (f, there, h₁) = found-ok (get_facility k s) _ h in
    let h₂ = skip-ok (check_access s user TreasuryAction.approve f.legal_entity_id) _ h₁ in
    let (u, h₃, h₄) = >>=-eq_ok (transition_facility_status s f new reason now user.id) _ h₂ in
    let (_, h₅) =
      raise_if-ok (not (transition_allowed f.status new) && not (same_status new f.status))
        bad_request _ h₃ in
    done _ s t _ h₄ (
      done _ s u _ h₅
        (Move.changes_status f (record f { status = new }) there (refl, refl, refl) refl))

pub create_sub_limit-Steps :
    (s : FacilityStore) (user : User) (k : ℕ) (p : SubLimitCreate) (t : FacilityStore)
    → create_sub_limit s user k p ≡ ok t
    → Steps (add_sub_limit k p) s t
unfolding create_sub_limit
create_sub_limit-Steps s user k p t h =
    let (f, there, h₁) = found-ok (get_facility k s) _ h in
    let h₂ = skip-ok (check_access s user TreasuryAction.configure f.legal_entity_id) _ h₁ in
    let (_, h₃) = raise_if-ok (ltb_ℤ f.committed_limit p.limit_amount) bad_request _ h₂ in
    done _ s t _ h₃ (Move.adds_sub_limit _ refl refl)

pub create_drawdown-Steps :
    (upper : Text → Text) (s : FacilityStore) (user : User) (k : ℕ) (p : DrawdownCreate)
    (t : FacilityStore)
    → create_drawdown upper s user k p ≡ ok t
    → Steps (draw k p) s t
unfolding create_drawdown new_drawdown
create_drawdown-Steps upper s user k p t h =
    let (f, there, h₁) = found-ok (get_facility k s) _ h in
    let h₂ = skip-ok (check_access s user TreasuryAction.create p.legal_entity_id) _ h₁ in
    let (_, h₃) = require-ok (f.legal_entity_id == p.legal_entity_id) bad_request _ h₂ in
    let (l, _, h₄) = >>=-eq_ok (named_sub_limit s k p.sub_limit_id) _ h₃ in
    let h₅ =
      skip-ok
        (reject_on (validate_drawdown upper f p.drawdown_amount p.currency_code p.drawdown_date l)
          (raised bad_request))
        _ h₄ in
    done _ s t _ h₅ (Move.submits f (new_drawdown s.next_id k f p user.id) there refl refl refl)

submitted_of : (s : DrawdownStatus) → is_submitted s ≡ true → s ≡ DrawdownStatus.submitted
submitted_of s h = ground arith

pub approved_of : (s : DrawdownStatus) → is_approved s ≡ true → s ≡ DrawdownStatus.approved
approved_of s h = ground arith

pub approve_drawdown-Steps :
    (s : FacilityStore) (user : User) (k : ℕ) (t : FacilityStore)
    → approve_drawdown s user k ≡ ok t
    → Steps (approve_draw k) s t
unfolding approve_drawdown
approve_drawdown-Steps s user k t h =
    let (d, there, h₁) = found-ok (get_drawdown k s) _ h in
    let h₂ = skip-ok (check_access s user TreasuryAction.approve d.legal_entity_id) _ h₁ in
    let (waits, h₃) = require-ok (is_submitted d.status) bad_request _ h₂ in
    done _ s t _ h₃ (
      Move.approves d (approved_by d user.id) there (submitted_of d.status waits)
        (refl, refl, refl, refl, refl))

-- The sub-limits in the two views.
pub draw_sub_limit-redrawn :
    (o : Option ℕ) (amount : ℤ) (s : FacilityStore)
    → book (draw_sub_limit o amount s)
      ≡ redrawn (λ n. n +ℤ amount) (drawn_on o s.sub_limits) (book s)
unfolding draw_sub_limit
draw_sub_limit-redrawn none amount s = refl
draw_sub_limit-redrawn (some k) amount s = elim (Option-cases (get_sub_limit k s)) [
  | inl e ↦ rw e refl
  | inr (l, e) ↦ rw e refl
]

pub free_sub_limit-redrawn :
    (o : Option ℕ) (amount : ℤ) (s : FacilityStore)
    → book (free_sub_limit o amount s)
      ≡ redrawn (λ n. max_zero (n -ℤ amount)) (repaid_on o s.drawdowns s.sub_limits) (book s)
unfolding free_sub_limit
free_sub_limit-redrawn none amount s = refl
free_sub_limit-redrawn (some k) amount s = elim (Option-cases (get_drawdown k s)) [
  | inl e ↦ rw e refl
  | inr (d, e) ↦ rw e (go d.sub_limit_id)
]
  where
    go :
        (o : Option ℕ)
        → book (free_sub_limit_of o amount s)
          ≡ redrawn (λ n. max_zero (n -ℤ amount)) (drawn_on o s.sub_limits) (book s)
    go none = refl
    go (some j) = elim (Option-cases (get_sub_limit j s)) [
      | inl e ↦ rw e refl
      | inr (l, e) ↦ rw e refl
    ]
