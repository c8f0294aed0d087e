-- ===== src/Facility/Accounts.antt =====
-- The drawn amount of a facility against its executed drawdowns and the principal that was paid back.
use treasury_os_app.Base.{
  ℕ, ◌<◌, ◌≡◌, refl, sym, ap, ◌∙◌, Bool, true, false, ◌&&◌, some, ◌==◌, ==_refl, if◌then◌else◌,
  arith, ℤ, pos, ◌+ℤ◌, ◌-ℤ◌, ◌≤ℤ◌, max_zero, get_row, int_laws, sum_ℤ, All, get_row-put_row,
  sum_ℤ-write, inl, inr, Bool-cases,
}
use treasury_os_app.Facility.Records.{Facility, FacilityDrawdown, DrawdownStatus, FacilityRepayment}
use treasury_os_app.Facility.Balances.{is_principal}
use treasury_os_app.Facility.Book.{
  Book, facility_at, with_facility, with_drawdown, with_repayment, Advanced, Paid,
}

abbrev is_executed : DrawdownStatus → Bool
is_executed DrawdownStatus.executed = true
is_executed _ = false

-- What a drawdown, and what a repayment, counts for the facility with the id.
abbrev pub drawn_by : ℕ → FacilityDrawdown → ℤ
drawn_by k d = if d.facility_id == k && is_executed d.status then d.drawdown_amount else pos 0

abbrev pub repaid_by : ℕ → FacilityRepayment → ℤ
repaid_by k r = if r.facility_id == k && is_principal r.repayment_type then r.paid_amount else pos 0

abbrev pub executed_total : ℕ → Book → ℤ
executed_total k b = sum_ℤ (drawn_by k) b.drawdowns

abbrev pub repaid_total : ℕ → Book → ℤ
repaid_total k b = sum_ℤ (repaid_by k) b.repayments

-- The ids in use are below the next one.
abbrev pub HasFreshRows : Book → Type 0
HasFreshRows b =
    All (λ (f : Facility). f.id < b.next_id) b.facilities
    × All (λ (d : FacilityDrawdown). d.facility_id < b.next_id) b.drawdowns
    × All (λ (r : FacilityRepayment). r.facility_id < b.next_id) b.repayments

-- The drawn amount covers the executed drawdowns less what was paid back.
abbrev pub Covered : Book → Type 0
Covered b =
    (k : ℕ) (f : Facility)
    → facility_at k b ≡ some f
    → executed_total k b ≤ℤ f.current_drawn_amount +ℤ repaid_total k b

-- Only the facilities change, and the drawn amount by an amount that one facility's totals account
-- for.
pub record Shift (b c : Book) (k : ℕ) (f g : Facility) : Type 0 where
  pub facilities_kept : c.facilities ≡ (with_facility g b).facilities
  pub there : facility_at k b ≡ some f
  pub named : g.id ≡ f.id
  pub here_covers :
      executed_total k b ≤ℤ f.current_drawn_amount +ℤ repaid_total k b
      → executed_total k c ≤ℤ g.current_drawn_amount +ℤ repaid_total k c
  pub executed_kept : (j : ℕ) → (k == j) ≡ false → executed_total j c ≡ executed_total j b
  pub repaid_kept : (j : ℕ) → (k == j) ≡ false → repaid_total j c ≡ repaid_total j b

pub Shift-Covered : (b c : Book) (k : ℕ) (f g : Facility) → Shift b c k f g → Covered b → Covered c
Shift-Covered b c k f g s h j z e =
    elim (get_row-put_row (λ (f : Facility). f.id) f g b.facilities k j {z = z} s.there s.named
      (ap (λ l. get_row (λ (f : Facility). f.id) j l) (sym s.facilities_kept) ∙ e)) [
        | inl (same, is) ↦ rw is (rw (← same) (s.here_covers (h k f s.there)))
        | inr (other, found) ↦
            rw (s.executed_kept j other) (rw (s.repaid_kept j other) (h j z found))
      ]

-- What a drawdown counts before and after it is executed.
drawn_by-executed :
    (j : ℕ) (d e : FacilityDrawdown)
    → d.status ≡ DrawdownStatus.approved
    → Advanced DrawdownStatus.executed d e
    → (drawn_by j d ≡ pos 0)
      × (drawn_by j e ≡ (if d.facility_id == j then d.drawdown_amount else pos 0))
drawn_by-executed j d e waits a = (rw waits (ground arith), rw a.4 (rw a.3 (rw a.1 (ground arith))))

executed_total-write :
    (j k : ℕ) (b : Book) (d e : FacilityDrawdown)
    → get_row (λ (d : FacilityDrawdown). d.id) k b.drawdowns ≡ some d
    → d.status ≡ DrawdownStatus.approved
    → Advanced DrawdownStatus.executed d e
    → executed_total j (with_drawdown e b)
      ≡ executed_total j b +ℤ (if d.facility_id == j then d.drawdown_amount else pos 0)
executed_total-write j k b d e there waits a =
    let (before, after) = drawn_by-executed j d e waits a in
    grind (
      int_laws,
      before,
      after,
      sum_ℤ-write (drawn_by j) (λ (d : FacilityDrawdown). d.id) d e b.drawdowns k there a.0,
    )

pub repaid_total-write :
    (j k : ℕ) (b : Book) (r q : FacilityRepayment) (amount : ℤ)
    → get_row (λ (r : FacilityRepayment). r.id) k b.repayments ≡ some r
    → Paid amount r q
    → repaid_total j (with_repayment q b)
      ≡ repaid_total j b
        +ℤ (if r.facility_id == j && is_principal r.repayment_type then amount else pos 0)
repaid_total-write j k b r q amount there a = grind (
  int_laws,
  counts,
  sum_ℤ-write (repaid_by j) (λ (r : FacilityRepayment). r.id) r q b.repayments k there a.0,
)
  where
    counts :
        repaid_by j q
        ≡ repaid_by j r
          +ℤ (if r.facility_id == j && is_principal r.repayment_type then amount else pos 0)
    counts = elim (Bool-cases (r.facility_id == j && is_principal r.repayment_type)) [
      | inl e ↦ rw a.4 (rw a.1 (rw a.2 (rw e refl)))
      | inr e ↦ rw a.1 (rw a.2 (rw e (grind int_laws)))
    ]

-- An executed drawdown shifts the totals and the drawn amount of its facility alike.
pub executes-Shift :
    (k : ℕ) (b : Book) (d e : FacilityDrawdown) (f : Facility)
    → get_row (λ (d : FacilityDrawdown). d.id) k b.drawdowns ≡ some d
    → d.status ≡ DrawdownStatus.approved
    → Advanced DrawdownStatus.executed d e
    → facility_at d.facility_id b ≡ some f
    → Shift b
        (with_facility
          (record f { current_drawn_amount = f.current_drawn_amount +ℤ d.drawdown_amount })
          (with_drawdown e b))
        d.facility_id
        f
        (record f { current_drawn_amount = f.current_drawn_amount +ℤ d.drawdown_amount })
executes-Shift k b d e f there waits a owner = record {
  facilities_kept = refl;
  there = owner;
  named = refl;
  here_covers = λ h. grind (int_laws, h, at d.facility_id, ==_refl d.facility_id);
  executed_kept = λ j other. at j ∙ rw other (grind int_laws);
  repaid_kept = λ j other. refl;
}
  where
    at :
        (j : ℕ)
        → executed_total j (with_drawdown e b)
          ≡ executed_total j b +ℤ (if d.facility_id == j then d.drawdown_amount else pos 0)
    at j = executed_total-write j k b d e there waits a

-- So does a payment of principal, but for what is cut off at zero.
pub pays-Shift :
    (k : ℕ) (b : Book) (r q : FacilityRepayment) (f : Facility) (amount : ℤ)
    → get_row (λ (r : FacilityRepayment). r.id) k b.repayments ≡ some r
    → is_principal r.repayment_type ≡ true
    → Paid amount r q
    → facility_at r.facility_id b ≡ some f
    → Shift b
        (with_facility
          (record f { current_drawn_amount = max_zero (f.current_drawn_amount -ℤ amount) })
          (with_repayment q b))
        r.facility_id
        f
        (record f { current_drawn_amount = max_zero (f.current_drawn_amount -ℤ amount) })
pays-Shift k b r q f amount there principal a owner = record {
  facilities_kept = refl;
  there = owner;
  named = refl;
  here_covers = λ h. grind (int_laws, h, at r.facility_id, ==_refl r.facility_id, principal);
  executed_kept = λ j other. refl;
  repaid_kept = λ j other. at j ∙ rw other (grind int_laws);
}
  where
    at :
        (j : ℕ)
        → repaid_total j (with_repayment q b)
          ≡ repaid_total j b
            +ℤ (if r.facility_id == j && is_principal r.repayment_type then amount else pos 0)
    at j = repaid_total-write j k b r q amount there a
