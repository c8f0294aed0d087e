-- ===== src/Facility/Moves.antt =====
-- The moves of the abstract machine of facilities, and what each may presume.
use treasury_os_app.Base.{
  ℕ, ◌+◌, ◌≡◌, true, false, Option, some, List, [], ◌∷◌, ◌++◌, ℤ, pos, ◌+ℤ◌, ◌-ℤ◌, ◌≤ℤ◌, max_zero,
}
use treasury_os_app.Facility.Records.{
  Facility, FacilitySubLimit, FacilityDrawdown, DrawdownStatus, FacilityRepayment, FacilityStatus,
}
use treasury_os_app.Facility.Store.{
  FacilityCreate, FacilityChanges, SubLimitCreate, DrawdownCreate, RepaymentCreate, FeeCreate,
  CovenantCreate, CollateralCreate,
}
use treasury_os_app.Facility.Service.{set_to}
use treasury_os_app.Facility.Balances.{is_principal}
use treasury_os_app.Facility.Repayments.{is_settled}
use treasury_os_app.Facility.Session.{
  FacilityRequest, open_facility, change_terms, change_status, add_sub_limit, draw, approve_draw,
  execute_draw, plan_repayment, pay, charge_fee, add_covenant, add_collateral, measure_covenant,
}
use treasury_os_app.Facility.Book.{
  Book, facility_at, drawdown_at, repayment_at, with_facility, with_drawdown, with_repayment, Fits,
  FitsSubLimit, redrawn, drawn_on, repaid_on, SameBalance, Advanced, Paid,
}

-- A request moves one book to another.
pub data Move : FacilityRequest → Book → Book → Type 0 where
  opens :
      {p : FacilityCreate} {b : Book} (f : Facility)
      → f.id ≡ b.next_id
      → f.committed_limit ≡ p.committed_limit
      → f.current_drawn_amount ≡ pos 0
      → f.covenant_restricted_amount ≡ pos 0
      → Move
          (open_facility p)
          b
          (record b { facilities = b.facilities ++ f ∷ []; next_id = b.next_id + 1 })
  changes_terms :
      {k : ℕ} {c : FacilityChanges} {reason : List ℕ} {b : Book} (f g : Facility)
      → facility_at k b ≡ some f
      → SameBalance f g
      → g.committed_limit ≡ set_to c.committed_limit f.committed_limit
      → Move (change_terms k c reason) b (with_facility g b)
  changes_status :
      {k : ℕ} {new : FacilityStatus} {reason : Option (List ℕ)} {b : Book} (f g : Facility)
      → facility_at k b ≡ some f
      → SameBalance f g
      → g.committed_limit ≡ f.committed_limit
      → Move (change_status k new reason) b (with_facility g b)
  adds_sub_limit :
      {k : ℕ} {p : SubLimitCreate} {b : Book} (l : FacilitySubLimit)
      → l.limit_amount ≡ p.limit_amount
      → l.drawn_amount ≡ pos 0
      → Move
          (add_sub_limit k p)
          b
          (record b { sub_limits = b.sub_limits ++ l ∷ []; next_id = b.next_id + 1 })
  submits :
      {k : ℕ} {p : DrawdownCreate} {b : Book} (f : Facility) (d : FacilityDrawdown)
      → facility_at k b ≡ some f
      → d.facility_id ≡ k
      → d.drawdown_amount ≡ p.drawdown_amount
      → d.status ≡ DrawdownStatus.submitted
      → Move (draw k p) b (record b { drawdowns = b.drawdowns ++ d ∷ []; next_id = b.next_id + 1 })
  approves :
      {k : ℕ} {b : Book} (d e : FacilityDrawdown)
      → drawdown_at k b ≡ some d
      → d.status ≡ DrawdownStatus.submitted
      → Advanced DrawdownStatus.approved d e
      → Move (approve_draw k) b (with_drawdown e b)
  executes :
      {k : ℕ} {b : Book} (d e : FacilityDrawdown) (f : Facility)
      → drawdown_at k b ≡ some d
      → d.status ≡ DrawdownStatus.approved
      → Advanced DrawdownStatus.executed d e
      → facility_at d.facility_id b ≡ some f
      → f.status ≡ FacilityStatus.active
      → Fits f d.drawdown_amount
      → FitsSubLimit (drawn_on d.sub_limit_id b.sub_limits) d.drawdown_amount
      → Move (execute_draw k) b (
          redrawn
            (λ n. n +ℤ d.drawdown_amount)
            (drawn_on d.sub_limit_id b.sub_limits)
            (with_facility
              (record f { current_drawn_amount = f.current_drawn_amount +ℤ d.drawdown_amount })
              (with_drawdown e b)))
  plans :
      {k : ℕ} {p : RepaymentCreate} {b : Book} (f : Facility) (r : FacilityRepayment)
      → facility_at k b ≡ some f
      → r.facility_id ≡ k
      → r.original_amount ≡ p.original_amount
      → r.paid_amount ≡ pos 0
      → Move
          (plan_repayment k p)
          b
          (record b { repayments = b.repayments ++ r ∷ []; next_id = b.next_id + 1 })
  pays_principal :
      {k : ℕ} {amount : ℤ} {date : ℕ} {b : Book} (r q : FacilityRepayment) (f : Facility)
      → repayment_at k b ≡ some r
      → is_settled r.status ≡ false
      → is_principal r.repayment_type ≡ true
      → Paid amount r q
      → q.paid_amount ≤ℤ q.original_amount
      → facility_at r.facility_id b ≡ some f
      → Move (pay k amount date) b (
          redrawn
            (λ n. max_zero (n -ℤ amount))
            (repaid_on r.drawdown_id b.drawdowns b.sub_limits)
            (with_facility
              (record f { current_drawn_amount = max_zero (f.current_drawn_amount -ℤ amount) })
              (with_repayment q b)))
  pays_other :
      {k : ℕ} {amount : ℤ} {date : ℕ} {b : Book} (r q : FacilityRepayment)
      → repayment_at k b ≡ some r
      → is_settled r.status ≡ false
      → is_principal r.repayment_type ≡ false
      → Paid amount r q
      → q.paid_amount ≤ℤ q.original_amount
      → Move (pay k amount date) b (with_repayment q b)
  charges :
      {k : ℕ} {p : FeeCreate} {b : Book}
      → Move (charge_fee k p) b (record b { next_id = b.next_id + 1 })
  covenants :
      {k : ℕ} {p : CovenantCreate} {b : Book}
      → Move (add_covenant k p) b (record b { next_id = b.next_id + 1 })
  secures :
      {k : ℕ} {p : CollateralCreate} {b : Book}
      → Move (add_collateral k p) b (record b { next_id = b.next_id + 1 })
  measures :
      {k : ℕ} {value : Option ℤ} {date : Option ℕ} {b : Book}
      → Move (measure_covenant k value date) b b
