-- ===== src/Facility/RepaymentSteps.antt =====
-- The endpoints of repayments make steps of the abstract machine of balances.
use treasury_os_app.Base.{
  ℕ, ◌≡◌, refl, sym, subst, true, false, some, ◌==◌, ℤ, ◌+ℤ◌, ◌-ℤ◌, ◌≤ℤ◌, ltb_ℤ, max_zero, int_laws,
  ok, bad_request, >>=-eq_ok, require-ok, raise_if-ok, skip-ok, inl, inr, Bool-cases,
}
use treasury_os_app.Auth.{TreasuryAction, User}
use treasury_os_app.Facility.Records.{Facility, FacilityRepayment}
use treasury_os_app.Facility.Store.{
  RepaymentCreate, FacilityStore, get_facility, get_repayment, put_facility, put_repayment,
}
use treasury_os_app.Facility.Balances.{
  record_repayment_payment, repay_principal, paid_repayment, is_principal, drawn_less,
}
use treasury_os_app.Facility.Endpoints.{check_access}
use treasury_os_app.Facility.Repayments.{create_repayment, new_repayment, pay_repayment, is_settled}
use treasury_os_app.Facility.Session.{FacilityRequest, plan_repayment, pay}
use treasury_os_app.Facility.Book.{Book, book, redrawn, repaid_on, with_facility}
use treasury_os_app.Facility.Moves.{Move}
use treasury_os_app.Facility.Steps.{found-ok, Steps, done, free_sub_limit-redrawn}

-- A step whose book is known up to an equation.
pub done_at :
    (r : FacilityRequest) (s t u : FacilityStore) (b : Book)
    → ok u ≡ ok t
    → book u ≡ b
    → Move r (book s) b
    → Steps r s t
done_at r s t u b h e m = done r s t u h (subst (Move r (book s)) (sym e) m)

pub create_repayment-Steps :
    (s : FacilityStore) (user : User) (k : ℕ) (p : RepaymentCreate) (t : FacilityStore)
    → create_repayment s user k p ≡ ok t
    → Steps (plan_repayment k p) s t
unfolding create_repayment new_repayment
create_repayment-Steps s user k p t h =
    let (f, there, h₁) = found-ok (get_facility k s) _ h in
    let h₂ = skip-ok (check_access s user TreasuryAction.create p.legal_entity_id) _ h₁ in
    let (_, h₃) = require-ok (f.legal_entity_id == p.legal_entity_id) bad_request _ h₂ in
    done _ s t _ h₃ (Move.plans f (new_repayment s.next_id k p user.id) there refl refl refl)

-- A payment that is not more than what remains.
within :
    (original paid amount : ℤ)
    → ltb_ℤ (original -ℤ paid) amount ≡ false
    → (paid +ℤ amount) ≤ℤ original
within original paid amount h = grind int_laws

-- What a payment does to the balances, by the type of the repayment.
repay_principal-redrawn :
    (s : FacilityStore) (f : Facility) (r : FacilityRepayment) (amount : ℤ)
    → is_principal r.repayment_type ≡ true
    → book (repay_principal s f r amount)
      ≡ redrawn
          (λ n. max_zero (n -ℤ amount))
          (repaid_on r.drawdown_id s.drawdowns s.sub_limits)
          (with_facility (drawn_less f amount) (book s))
unfolding repay_principal
repay_principal-redrawn s f r amount e =
    rw e (free_sub_limit-redrawn r.drawdown_id amount (put_facility (drawn_less f amount) s))

repay_principal_other :
    (s : FacilityStore) (f : Facility) (r : FacilityRepayment) (amount : ℤ)
    → is_principal r.repayment_type ≡ false
    → book (repay_principal s f r amount) ≡ book s
unfolding repay_principal
repay_principal_other s f r amount e = rw e refl

record_repayment_payment-Steps :
    (s : FacilityStore) (f : Facility) (r : FacilityRepayment) (k : ℕ) (amount : ℤ)
    (date now user_id : ℕ) (t : FacilityStore)
    → get_repayment k s ≡ some r
    → is_settled r.status ≡ false
    → get_facility r.facility_id s ≡ some f
    → record_repayment_payment s f r amount date now user_id ≡ ok t
    → Steps (pay k amount date) s t
unfolding record_repayment_payment paid_repayment
record_repayment_payment-Steps s f r k amount date now user_id t there unsettled owner h =
    let (remains, last) =
      raise_if-ok (ltb_ℤ (r.original_amount -ℤ r.paid_amount) amount) bad_request _ h in
    let q = paid_repayment r amount date in
    let fits = within r.original_amount r.paid_amount amount remains in
    elim (Bool-cases (is_principal r.repayment_type)) [
      | inl principal ↦
          done_at _ s t _ _ last (repay_principal-redrawn (put_repayment q s) f r amount principal)
            (Move.pays_principal r q f there unsettled principal (refl, refl, refl, refl, refl) fits
              owner)
      | inr other ↦
          done_at _ s t _ _ last (repay_principal_other (put_repayment q s) f r amount other)
            (Move.pays_other r q there unsettled other (refl, refl, refl, refl, refl) fits)
    ]

pub pay_repayment-Steps :
    (s : FacilityStore) (user : User) (k : ℕ) (amount : ℤ) (date now : ℕ) (t : FacilityStore)
    → pay_repayment s user k amount date now ≡ ok t
    → Steps (pay k amount date) s t
unfolding pay_repayment
pay_repayment-Steps s user k amount date now t h =
    let (r, there, h₁) = found-ok (get_repayment k s) _ h in
    let h₂ = skip-ok (check_access s user TreasuryAction.execute r.legal_entity_id) _ h₁ in
    let (unsettled, h₃) = raise_if-ok (is_settled r.status) bad_request _ h₂ in
    let (f, owner, h₄) = found-ok (get_facility r.facility_id s) _ h₃ in
    let (u, h₅, h₆) = >>=-eq_ok (record_repayment_payment s f r amount date now user.id) _ h₄ in
    done _ s t _ h₆
      (record_repayment_payment-Steps s f r k amount date now user.id u there unsettled owner h₅)
