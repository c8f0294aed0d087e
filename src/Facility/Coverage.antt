-- ===== src/Facility/Coverage.antt =====
-- What single moves do to the totals of a facility.
use treasury_os_app.Base.{
  ℕ, ◌+◌, ◌<◌, ◌≡◌, refl, sym, ◌∙◌, false, Option, none, some, [], ◌∷◌, ◌++◌, ◌==◌, arith, ℤ, pos,
  get_row, int_laws, put_row, get_row-append_one, sum_ℤ-write, sum_ℤ-append_one, sum_ℤ-zero,
  All-map_P, inl, inr, Bool-cases,
}
use treasury_os_app.Facility.Records.{
  Facility, FacilitySubLimit, FacilityDrawdown, DrawdownStatus, FacilityRepayment,
}
use treasury_os_app.Facility.Balances.{is_principal}
use treasury_os_app.Facility.Book.{
  Book, facility_at, with_facility, with_drawdown, with_repayment, redrawn, SameBalance, Advanced,
  Paid,
}
use treasury_os_app.Facility.Accounts.{
  drawn_by, repaid_by, executed_total, repaid_total, HasFreshRows, Covered, Shift-Covered,
  repaid_total-write,
}

-- The change of a sub-limit concerns neither.
pub redrawn-kept {ℓ} :
    (P : Book → Type ℓ) (change : ℤ → ℤ) (o : Option FacilitySubLimit) (b : Book)
    → ((l : FacilitySubLimit)
        → P b
        → P (record b { sub_limits = put_row (λ (x : FacilitySubLimit). x.id) l b.sub_limits }))
    → P b
    → P (redrawn change o b)
redrawn-kept P change none b k h = h
redrawn-kept P change (some l) b k h = k (record l { drawn_amount = change l.drawn_amount }) h

pub terms-Covered :
    (k : ℕ) (b : Book) (f g : Facility)
    → facility_at k b ≡ some f
    → SameBalance f g
    → Covered b
    → Covered (with_facility g b)
terms-Covered k b f g there (named, drawn, _) = Shift-Covered b (with_facility g b) k f g (record {
  facilities_kept = refl;
  there = there;
  named = named;
  here_covers = λ h. rw drawn h;
  executed_kept = λ j other. refl;
  repaid_kept = λ j other. refl;
})

below-differs : (k n : ℕ) → k < n → (k == n) ≡ false
below-differs k n h = ground arith

-- The totals of an id that is not yet in use are zero.
fresh_totals :
    (b : Book)
    → HasFreshRows b
    → (executed_total b.next_id b ≡ pos 0) × (repaid_total b.next_id b ≡ pos 0)
fresh_totals b (_, ds, rs) = (
  sum_ℤ-zero (drawn_by b.next_id) b.drawdowns (
      All-map_P _ _ b.drawdowns
        (λ (d : FacilityDrawdown) h. rw (below-differs d.facility_id b.next_id h) refl) ds),
  sum_ℤ-zero (repaid_by b.next_id) b.repayments (
      All-map_P _ _ b.repayments
        (λ (r : FacilityRepayment) h. rw (below-differs r.facility_id b.next_id h) refl) rs),
)

pub opens-Covered :
    (b : Book) (f : Facility)
    → f.id ≡ b.next_id
    → f.current_drawn_amount ≡ pos 0
    → HasFreshRows b
    → Covered b
    → Covered (record b { facilities = b.facilities ++ f ∷ []; next_id = b.next_id + 1 })
opens-Covered b f named drawn fresh h j z e =
    elim (get_row-append_one (λ (f : Facility). f.id) b.facilities f j {z = z} e) [
      | inl old ↦ h j z old
      | inr (_, at, is) ↦
          let (none_drawn, none_paid) = fresh_totals b fresh in
          rw is (rw (sym at ∙ named) (rw none_drawn (rw none_paid (rw drawn (grind int_laws)))))
    ]

pub submits-Covered :
    (b : Book) (d : FacilityDrawdown)
    → d.status ≡ DrawdownStatus.submitted
    → Covered b
    → Covered (record b { drawdowns = b.drawdowns ++ d ∷ []; next_id = b.next_id + 1 })
submits-Covered b d waits h j z e =
    grind (int_laws, h j z e, sum_ℤ-append_one (drawn_by j) b.drawdowns d, nothing)
  where
    nothing : drawn_by j d ≡ pos 0
    nothing = rw waits (ground arith)

pub plans-Covered :
    (b : Book) (r : FacilityRepayment)
    → r.paid_amount ≡ pos 0
    → Covered b
    → Covered (record b { repayments = b.repayments ++ r ∷ []; next_id = b.next_id + 1 })
plans-Covered b r unpaid h j z e =
    grind (int_laws, h j z e, sum_ℤ-append_one (repaid_by j) b.repayments r, nothing)
  where
    nothing : repaid_by j r ≡ pos 0
    nothing = rw unpaid (ground arith)

pub approves-Covered :
    (k : ℕ) (b : Book) (d e : FacilityDrawdown)
    → get_row (λ (d : FacilityDrawdown). d.id) k b.drawdowns ≡ some d
    → d.status ≡ DrawdownStatus.submitted
    → Advanced DrawdownStatus.approved d e
    → Covered b
    → Covered (with_drawdown e b)
approves-Covered k b d e there waits a h j z found = grind (
  int_laws,
  h j z found,
  before,
  after,
  sum_ℤ-write (drawn_by j) (λ (d : FacilityDrawdown). d.id) d e b.drawdowns k there a.0,
)
  where
    before : drawn_by j d ≡ pos 0
    before = rw waits (ground arith)

    after : drawn_by j e ≡ pos 0
    after = rw a.4 (ground arith)

pub pays_other-Covered :
    (k : ℕ) (b : Book) (r q : FacilityRepayment) (amount : ℤ)
    → get_row (λ (r : FacilityRepayment). r.id) k b.repayments ≡ some r
    → is_principal r.repayment_type ≡ false
    → Paid amount r q
    → Covered b
    → Covered (with_repayment q b)
pays_other-Covered k b r q amount there other a h j z found = grind (int_laws, h j z found, same)
  where
    same : repaid_total j (with_repayment q b) ≡ repaid_total j b
    same =
        repaid_total-write j k b r q amount there a
        ∙ rw other (elim (Bool-cases (r.facility_id == j)) [
          | inl e ↦ rw e (grind int_laws)
          | inr e ↦ rw e (grind int_laws)
        ])
