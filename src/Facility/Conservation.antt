-- ===== src/Facility/Conservation.antt =====
-- Every move keeps the drawn amounts accounted for.
use treasury_os_app.Base.{
  ℕ, ◌+◌, ◌<◌, ◌≡◌, refl, subst, Option, none, some, List, [], ◌∷◌, ◌==◌, arith, ◌+ℤ◌, ◌-ℤ◌, ◌≤ℤ◌,
  max_zero, get_row, All, All-append, All-trivial, put_row-All, get_row-key, find-All, All-map_P,
  inl, inr, Option-cases,
}
use treasury_os_app.Text.{Text}
use treasury_os_app.Facility.Records.{Facility, FacilityDrawdown, FacilityRepayment}
use treasury_os_app.Facility.Store.{FacilityStore}
use treasury_os_app.Facility.Session.{FacilityRequest, FacilityCall, answer_all, answer_all-keeps}
use treasury_os_app.Facility.Book.{
  Book, book, facility_at, with_facility, with_drawdown, with_repayment,
}
use treasury_os_app.Facility.Moves.{
  Move, opens, changes_terms, changes_status, adds_sub_limit, submits, approves, executes, plans,
  pays_principal, pays_other, charges, covenants, secures, measures,
}
use treasury_os_app.Facility.Refinement.{answer-Move}
use treasury_os_app.Facility.Accounts.{
  executed_total, repaid_total, HasFreshRows, Covered, Shift-Covered, executes-Shift, pays-Shift,
}
use treasury_os_app.Facility.Coverage.{
  redrawn-kept, terms-Covered, opens-Covered, submits-Covered, plans-Covered, approves-Covered,
  pays_other-Covered,
}

-- A facility that is found has an id in use.
owner_below :
    (k : ℕ) (b : Book) (f : Facility)
    → facility_at k b ≡ some f
    → All (λ (f : Facility). f.id < b.next_id) b.facilities
    → k < b.next_id
owner_below k b f there fs =
    subst (λ j. j < b.next_id) (get_row-key (λ (f : Facility). f.id) k b.facilities {x = f} there)
      (find-All (λ (f : Facility). f.id < b.next_id) (λ (f : Facility). f.id == k) b.facilities fs
        there)

-- The ids in use are below the next one and the drawn amounts are covered.
abbrev IsCovered : Book → Type 0
IsCovered b = HasFreshRows b × Covered b

-- What is found at an id covers its totals.
abbrev pub CoversTotals : ℕ → Book → Option Facility → Type 0
CoversTotals k b none = Unit
CoversTotals k b (some f) = executed_total k b ≤ℤ f.current_drawn_amount +ℤ repaid_total k b

-- The drawn amounts are accounted for and the ids in use are below the next one.
abbrev pub IsAccounted : Book → Type 0
IsAccounted b = HasFreshRows b × ((k : ℕ) → CoversTotals k b (facility_at k b))

IsCovered-IsAccounted : (b : Book) → IsCovered b → IsAccounted b
IsCovered-IsAccounted b (fresh, h) = (fresh, at)
  where
    at : (k : ℕ) → CoversTotals k b (facility_at k b)
    at k = elim (Option-cases (facility_at k b)) [ inl e ↦ rw e tt | inr (f, e) ↦ rw e (h k f e) ]

IsAccounted-IsCovered : (b : Book) → IsAccounted b → IsCovered b
IsAccounted-IsCovered b (fresh, h) =
    (fresh, λ k f e. subst (λ (o : Option Facility). CoversTotals k b o) e (h k))

later {ℓ} :
    {A : Type ℓ} (id : A → ℕ) (n : ℕ) (xs : List A)
    → All (λ x. id x < n) xs
    → All (λ x. id x < n + 1) xs
later id n xs h = All-map_P _ _ xs (λ x p. omega arith) h

later_rows : (b : Book) → HasFreshRows b → HasFreshRows (record b { next_id = b.next_id + 1 })
later_rows b (fs, ds, rs) = (
  later (λ (f : Facility). f.id) b.next_id b.facilities fs,
  later (λ (d : FacilityDrawdown). d.facility_id) b.next_id b.drawdowns ds,
  later (λ (r : FacilityRepayment). r.facility_id) b.next_id b.repayments rs,
)

facility-HasFreshRows :
    (k : ℕ) (b : Book) (f g : Facility)
    → facility_at k b ≡ some f
    → g.id ≡ f.id
    → HasFreshRows b
    → HasFreshRows (with_facility g b)
facility-HasFreshRows k b f g there named (fs, ds, rs) = (
  put_row-All (λ (f : Facility). f.id < b.next_id) (λ (f : Facility). f.id) g b.facilities
      (rw named (
        find-All (λ (f : Facility). f.id < b.next_id) (λ (f : Facility). f.id == k) b.facilities fs
          there))
      fs,
  ds,
  rs,
)

drawdown-HasFreshRows :
    (k : ℕ) (b : Book) (d e : FacilityDrawdown)
    → get_row (λ (d : FacilityDrawdown). d.id) k b.drawdowns ≡ some d
    → e.facility_id ≡ d.facility_id
    → HasFreshRows b
    → HasFreshRows (with_drawdown e b)
drawdown-HasFreshRows k b d e there same (fs, ds, rs) = (
  fs,
  put_row-All (λ (d : FacilityDrawdown). d.facility_id < b.next_id) (λ (d : FacilityDrawdown). d.id)
      e b.drawdowns
      (rw same (
        find-All (λ (d : FacilityDrawdown). d.facility_id < b.next_id)
          (λ (d : FacilityDrawdown). d.id == k) b.drawdowns ds there))
      ds,
  rs,
)

repayment-HasFreshRows :
    (k : ℕ) (b : Book) (r q : FacilityRepayment)
    → get_row (λ (r : FacilityRepayment). r.id) k b.repayments ≡ some r
    → q.facility_id ≡ r.facility_id
    → HasFreshRows b
    → HasFreshRows (with_repayment q b)
repayment-HasFreshRows k b r q there same (fs, ds, rs) = (
  fs,
  ds,
  put_row-All (λ (r : FacilityRepayment). r.facility_id < b.next_id)
      (λ (r : FacilityRepayment). r.id) q b.repayments
      (rw same (
        find-All (λ (r : FacilityRepayment). r.facility_id < b.next_id)
          (λ (r : FacilityRepayment). r.id == k) b.repayments rs there))
      rs,
)

Move-IsCovered : (r : FacilityRequest) (b c : Book) → Move r b c → IsCovered b → IsCovered c
Move-IsCovered r b c (opens f named limit drawn restricted) (fresh, h) =
    let (fs, ds, rs) = later_rows b fresh in
    (
      (
        All-append (λ (f : Facility). f.id < b.next_id + 1) b.facilities (f ∷ []) fs
            (rw named (omega arith), tt),
        ds,
        rs,
      ),
      opens-Covered b f named drawn fresh h,
    )
Move-IsCovered r b c (changes_terms {k} f g there same limit) (fresh, h) =
    (facility-HasFreshRows k b f g there same.0 fresh, terms-Covered k b f g there same h)
Move-IsCovered r b c (changes_status {k} f g there same limit) (fresh, h) =
    (facility-HasFreshRows k b f g there same.0 fresh, terms-Covered k b f g there same h)
Move-IsCovered r b c (adds_sub_limit l limit drawn) (fresh, h) = (later_rows b fresh, h)
Move-IsCovered r b c (submits {k} f d there own amount waits) (fresh, h) =
    let (fs, ds, rs) = later_rows b fresh in
    let known = owner_below k b f there fresh.0 in
    (
      (
        fs,
        All-append (λ (d : FacilityDrawdown). d.facility_id < b.next_id + 1) b.drawdowns (d ∷ []) ds
            (rw own (omega arith), tt),
        rs,
      ),
      submits-Covered b d waits h,
    )
Move-IsCovered r b c (approves {k} d e there waits a) (fresh, h) =
    (drawdown-HasFreshRows k b d e there a.1 fresh, approves-Covered k b d e there waits a h)
Move-IsCovered r b c (executes {k} d e f there waits a owner _ _ _) (fresh, h) =
    let g = record f { current_drawn_amount = f.current_drawn_amount +ℤ d.drawdown_amount } in
    let rows =
      facility-HasFreshRows d.facility_id (with_drawdown e b) f g owner refl
        (drawdown-HasFreshRows k b d e there a.1 fresh) in
    let covered =
      Shift-Covered b (with_facility g (with_drawdown e b)) d.facility_id f g
        (executes-Shift k b d e f there waits a owner) h in
    redrawn-kept IsCovered _ _ _ (λ l p. p) (rows, covered)
Move-IsCovered r b c (plans {k} f p there own original unpaid) (fresh, h) =
    let (fs, ds, rs) = later_rows b fresh in
    let known = owner_below k b f there fresh.0 in
    (
      (
        fs,
        ds,
        All-append (λ (r : FacilityRepayment). r.facility_id < b.next_id + 1) b.repayments (p ∷ [])
            rs (rw own (omega arith), tt),
      ),
      plans-Covered b p unpaid h,
    )
Move-IsCovered r b c (pays_principal {k} {amount} p q f there _ principal a _ owner) (fresh, h) =
    let g = record f { current_drawn_amount = max_zero (f.current_drawn_amount -ℤ amount) } in
    let rows =
      facility-HasFreshRows p.facility_id (with_repayment q b) f g owner refl
        (repayment-HasFreshRows k b p q there a.1 fresh) in
    let covered =
      Shift-Covered b (with_facility g (with_repayment q b)) p.facility_id f g
        (pays-Shift k b p q f amount there principal a owner) h in
    redrawn-kept IsCovered _ _ _ (λ l p. p) (rows, covered)
Move-IsCovered r b c (pays_other {k} {amount} p q there _ other a _) (fresh, h) = (
  repayment-HasFreshRows k b p q there a.1 fresh,
  pays_other-Covered k b p q amount there other a h,
)
Move-IsCovered r b c charges (fresh, h) = (later_rows b fresh, h)
Move-IsCovered r b c covenants (fresh, h) = (later_rows b fresh, h)
Move-IsCovered r b c secures (fresh, h) = (later_rows b fresh, h)
Move-IsCovered r b c measures i = i

-- From a store whose drawn amounts are accounted for, any session of requests, whatever amounts they
-- name, by whomever and in whatever order, and however many are refused, leads to such a store: the
-- drawn amount of every facility is at least its executed drawdowns less the principal that was paid
-- back on its repayments, and the ids in use are below the next one.
pub answer_all-IsAccounted :
    (upper : Text → Text) (s : FacilityStore) (session : List FacilityCall)
    → IsAccounted (book s)
    → IsAccounted (book (answer_all upper s session))
answer_all-IsAccounted upper s session i =
    answer_all-keeps upper (λ c. Unit {0}) (λ s. IsAccounted (book s))
      (λ s c t e _ i. IsCovered-IsAccounted (book t) (
        Move-IsCovered c.request (book s) (book t)
          (answer-Move upper s c.user c.today c.now c.request t e)
          (IsAccounted-IsCovered (book s) i)))
      s session (All-trivial session) i
