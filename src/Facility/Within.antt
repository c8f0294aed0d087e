-- ===== src/Facility/Within.antt =====
-- Facilities, sub-limits and repayments whose balances are within their limits, and the changes of
-- one balance that keep them so.
use treasury_os_app.Base.{
  ℕ, ◌≡◌, none, some, List, ◌==◌, ℤ, pos, ◌+ℤ◌, ◌-ℤ◌, ◌≤ℤ◌, max_zero, get_row, int_laws, All,
  find-All, inl, inr, Bool-cases,
}
use treasury_os_app.Facility.Records.{
  Facility, FacilitySubLimit, FacilityDrawdown, FacilityRepayment,
}
use treasury_os_app.Facility.Utilization.{is_uncommitted}
use treasury_os_app.Facility.Session.{
  FacilityRequest, open_facility, change_terms, change_status, add_sub_limit, draw, approve_draw,
  execute_draw, plan_repayment, pay, charge_fee, add_covenant, add_collateral, measure_covenant,
}
use treasury_os_app.Facility.Book.{Book, SameBalance, Paid, Fits}

-- A request that names no negative amount and leaves the limit of a facility alone.
abbrev pub IsPlain : FacilityRequest → Type 0
IsPlain (open_facility p) = pos 0 ≤ℤ p.committed_limit
IsPlain (change_terms k c reason) = c.committed_limit ≡ none
IsPlain (change_status k new reason) = Unit
IsPlain (add_sub_limit k p) = pos 0 ≤ℤ p.limit_amount
IsPlain (draw k p) = pos 0 ≤ℤ p.drawdown_amount
IsPlain (approve_draw k) = Unit
IsPlain (execute_draw k) = Unit
IsPlain (plan_repayment k p) = pos 0 ≤ℤ p.original_amount
IsPlain (pay k amount date) = pos 0 ≤ℤ amount
IsPlain (charge_fee k p) = Unit
IsPlain (add_covenant k p) = Unit
IsPlain (add_collateral k p) = Unit
IsPlain (measure_covenant k value date) = Unit

abbrev pub FacilityWithin : Facility → Type 0
FacilityWithin f =
    (pos 0 ≤ℤ f.covenant_restricted_amount)
    × (pos 0 ≤ℤ f.current_drawn_amount)
    × (f.current_drawn_amount ≤ℤ f.committed_limit)

abbrev pub SubLimitWithin : FacilitySubLimit → Type 0
SubLimitWithin l = (pos 0 ≤ℤ l.drawn_amount) × (l.drawn_amount ≤ℤ l.limit_amount)

abbrev pub DrawsNothingBack : FacilityDrawdown → Type 0
DrawsNothingBack d = pos 0 ≤ℤ d.drawdown_amount

abbrev pub RepaymentWithin : FacilityRepayment → Type 0
RepaymentWithin r = (pos 0 ≤ℤ r.paid_amount) × (r.paid_amount ≤ℤ r.original_amount)

-- Nothing is overdrawn and nothing overpaid.
abbrev pub IsWithin : Book → Type 0
IsWithin b =
    All FacilityWithin b.facilities
    × All SubLimitWithin b.sub_limits
    × All DrawsNothingBack b.drawdowns
    × All RepaymentWithin b.repayments

pub row-All {ℓ κ} :
    {A : Type ℓ} (P : A → Type κ) (key : A → ℕ) (k : ℕ) (xs : List A) (x : A)
    → All P xs
    → get_row key k xs ≡ some x
    → P x
row-All P key k xs x h e = find-All P (λ x. key x == k) xs h e

pub Fits-Within :
    (f : Facility) (amount : ℤ)
    → FacilityWithin f
    → pos 0 ≤ℤ amount
    → Fits f amount
    → FacilityWithin (record f { current_drawn_amount = f.current_drawn_amount +ℤ amount })
Fits-Within f amount w positive fits = elim (Bool-cases (is_uncommitted f.commitment_type)) [
  | inl e ↦ (w.0, grind (int_laws, w), grind (int_laws, w, rw e at fits))
  | inr e ↦ (w.0, grind (int_laws, w), grind (int_laws, w, rw e at fits))
]

pub pays-Within :
    (f : Facility) (amount : ℤ)
    → FacilityWithin f
    → pos 0 ≤ℤ amount
    → FacilityWithin
        (record f { current_drawn_amount = max_zero (f.current_drawn_amount -ℤ amount) })
pays-Within f amount w positive = (w.0, grind int_laws, grind (int_laws, w))

pub draws-Within :
    (l : FacilitySubLimit) (amount : ℤ)
    → SubLimitWithin l
    → pos 0 ≤ℤ amount
    → amount ≤ℤ (l.limit_amount -ℤ l.drawn_amount)
    → SubLimitWithin (record l { drawn_amount = l.drawn_amount +ℤ amount })
draws-Within l amount w positive fits = (grind (int_laws, w), grind (int_laws, w))

pub frees-Within :
    (l : FacilitySubLimit) (amount : ℤ)
    → SubLimitWithin l
    → pos 0 ≤ℤ amount
    → SubLimitWithin (record l { drawn_amount = max_zero (l.drawn_amount -ℤ amount) })
frees-Within l amount w positive = (grind int_laws, grind (int_laws, w))

-- A facility with the balance of one that is within its limit, and that limit.
pub same-Within :
    (f g : Facility)
    → SameBalance f g
    → g.committed_limit ≡ f.committed_limit
    → FacilityWithin f
    → FacilityWithin g
same-Within f g (_, drawn, restricted) limit w =
    (rw restricted w.0, rw drawn w.1, rw drawn (rw limit w.2))

-- A repayment after a payment that it allows.
pub Paid-Within :
    (p q : FacilityRepayment) (amount : ℤ)
    → RepaymentWithin p
    → pos 0 ≤ℤ amount
    → Paid amount p q
    → q.paid_amount ≤ℤ q.original_amount
    → RepaymentWithin q
Paid-Within p q amount w positive a fits = (rw a.4 (grind (int_laws, w)), fits)
