-- ===== src/Facility/Book.antt =====
-- An abstract view of the facilities: the four tables with balances, without events, versions and
-- audit rows, and the moves that a request may make on them. It says what the endpoints of
-- backend/app/api/v1/facilities.py promise of the balances, and nothing of how.
use treasury_os_app.Base.{
  ℕ, ◌≡◌, Option, none, some, List, if◌then◌else◌, ℤ, ◌+ℤ◌, ◌-ℤ◌, ◌≤ℤ◌, max_zero, get_row, put_row,
}
use treasury_os_app.Facility.Records.{
  Facility, FacilitySubLimit, FacilityDrawdown, DrawdownStatus, FacilityRepayment,
}
use treasury_os_app.Facility.Utilization.{is_uncommitted}
use treasury_os_app.Facility.Store.{FacilityStore}

pub record Book : Type 0 where
  pub facilities : List Facility
  pub sub_limits : List FacilitySubLimit
  pub drawdowns : List FacilityDrawdown
  pub repayments : List FacilityRepayment
  pub next_id : ℕ

abbrev pub book : FacilityStore → Book
book s = record {
  facilities = s.facilities;
  sub_limits = s.sub_limits;
  drawdowns = s.drawdowns;
  repayments = s.repayments;
  next_id = s.next_id;
}

abbrev pub facility_at : ℕ → Book → Option Facility
facility_at k b = get_row (λ (f : Facility). f.id) k b.facilities

abbrev pub sub_limit_at : ℕ → Book → Option FacilitySubLimit
sub_limit_at k b = get_row (λ (l : FacilitySubLimit). l.id) k b.sub_limits

abbrev pub drawdown_at : ℕ → Book → Option FacilityDrawdown
drawdown_at k b = get_row (λ (d : FacilityDrawdown). d.id) k b.drawdowns

abbrev pub repayment_at : ℕ → Book → Option FacilityRepayment
repayment_at k b = get_row (λ (r : FacilityRepayment). r.id) k b.repayments

abbrev pub with_facility : Facility → Book → Book
with_facility f b = record b { facilities = put_row (λ (x : Facility). x.id) f b.facilities }

abbrev pub with_sub_limit : FacilitySubLimit → Book → Book
with_sub_limit l b = record b {
  sub_limits = put_row (λ (x : FacilitySubLimit). x.id) l b.sub_limits;
}

abbrev pub with_drawdown : FacilityDrawdown → Book → Book
with_drawdown d b = record b { drawdowns = put_row (λ (x : FacilityDrawdown). x.id) d b.drawdowns }

abbrev pub with_repayment : FacilityRepayment → Book → Book
with_repayment r b = record b {
  repayments = put_row (λ (x : FacilityRepayment). x.id) r b.repayments;
}

-- The amount fits into what the facility may still give: what is not drawn and, if the facility is
-- committed, not restricted.
abbrev pub Fits : Facility → ℤ → Type 0
Fits f amount = amount ≤ℤ (
    if is_uncommitted f.commitment_type
    then f.committed_limit -ℤ f.current_drawn_amount
    else max_zero (f.committed_limit -ℤ f.current_drawn_amount -ℤ f.covenant_restricted_amount))

abbrev pub FitsSubLimit : Option FacilitySubLimit → ℤ → Type 0
FitsSubLimit none amount = Unit
FitsSubLimit (some l) amount = amount ≤ℤ (l.limit_amount -ℤ l.drawn_amount)

-- A sub-limit that is found gets the new drawn amount.
abbrev pub redrawn : (ℤ → ℤ) → Option FacilitySubLimit → Book → Book
redrawn change none b = b
redrawn change (some l) b = with_sub_limit (record l { drawn_amount = change l.drawn_amount }) b

abbrev pub drawn_on : Option ℕ → List FacilitySubLimit → Option FacilitySubLimit
drawn_on none limits = none
drawn_on (some k) limits = get_row (λ (l : FacilitySubLimit). l.id) k limits

abbrev pub sub_limit_of_drawdown :
    Option FacilityDrawdown → List FacilitySubLimit → Option FacilitySubLimit
sub_limit_of_drawdown none limits = none
sub_limit_of_drawdown (some d) limits = drawn_on d.sub_limit_id limits

abbrev pub repaid_on :
    Option ℕ → List FacilityDrawdown → List FacilitySubLimit → Option FacilitySubLimit
repaid_on none drawdowns limits = none
repaid_on (some k) drawdowns limits =
    sub_limit_of_drawdown (get_row (λ (d : FacilityDrawdown). d.id) k drawdowns) limits

-- The second facility has the id, the drawn and the restricted amount of the first.
abbrev pub SameBalance : Facility → Facility → Type 0
SameBalance f g =
    (g.id ≡ f.id)
    × (g.current_drawn_amount ≡ f.current_drawn_amount)
    × (g.covenant_restricted_amount ≡ f.covenant_restricted_amount)

-- The second drawdown is the first in another status.
abbrev pub Advanced : DrawdownStatus → FacilityDrawdown → FacilityDrawdown → Type 0
Advanced status d e =
    (e.id ≡ d.id)
    × (e.facility_id ≡ d.facility_id)
    × (e.sub_limit_id ≡ d.sub_limit_id)
    × (e.drawdown_amount ≡ d.drawdown_amount)
    × (e.status ≡ status)

-- The second repayment is the first with the amount paid in addition.
abbrev pub Paid : ℤ → FacilityRepayment → FacilityRepayment → Type 0
Paid amount r q =
    (q.id ≡ r.id)
    × (q.facility_id ≡ r.facility_id)
    × (q.repayment_type ≡ r.repayment_type)
    × (q.original_amount ≡ r.original_amount)
    × (q.paid_amount ≡ r.paid_amount +ℤ amount)
