-- ===== src/Facility/Limits.antt =====
-- No facility and no sub-limit is overdrawn by a session of plain requests.
use treasury_os_app.Base.{
  ℕ, ◌≡◌, refl, ◌∙◌, subst, Option, none, some, List, [], ◌∷◌, arith, ℤ, pos, ◌+ℤ◌, ◌-ℤ◌, ◌≤ℤ◌,
  max_zero, get_row, All, All-append, put_row-All, inl, inr, Option-cases,
}
use treasury_os_app.Text.{Text}
use treasury_os_app.Facility.Records.{
  Facility, FacilitySubLimit, FacilityDrawdown, FacilityRepayment,
}
use treasury_os_app.Facility.Store.{FacilityStore}
use treasury_os_app.Facility.Session.{FacilityRequest, FacilityCall, answer_all, answer_all-keeps}
use treasury_os_app.Facility.Book.{
  Book, book, facility_at, with_facility, with_drawdown, with_repayment, redrawn, drawn_on,
  repaid_on, Paid, FitsSubLimit,
}
use treasury_os_app.Facility.Moves.{
  Move, opens, changes_terms, changes_status, adds_sub_limit, submits, approves, executes, plans,
  pays_principal, pays_other, charges, covenants, secures, measures,
}
use treasury_os_app.Facility.Refinement.{answer-Move}
use treasury_os_app.Facility.Within.{
  IsPlain, FacilityWithin, SubLimitWithin, DrawsNothingBack, RepaymentWithin, IsWithin, row-All,
  Fits-Within, pays-Within, draws-Within, frees-Within, same-Within, Paid-Within,
}

-- The change of a sub-limit that is found, and of its table.
redrawn-IsWithin :
    (change : ℤ → ℤ) (o : Option FacilitySubLimit) (b : Book)
    → ((l : FacilitySubLimit)
        → o ≡ some l
        → SubLimitWithin (record l { drawn_amount = change l.drawn_amount }))
    → IsWithin b
    → IsWithin (redrawn change o b)
redrawn-IsWithin change none b keep h = h
redrawn-IsWithin change (some l) b keep (fs, ls, ds, rs) = (
  fs,
  put_row-All SubLimitWithin (λ (l : FacilitySubLimit). l.id) _ b.sub_limits (keep l refl) ls,
  ds,
  rs,
)

drawn_on-Within :
    (o : Option ℕ) (limits : List FacilitySubLimit) (l : FacilitySubLimit)
    → All SubLimitWithin limits
    → drawn_on o limits ≡ some l
    → SubLimitWithin l
drawn_on-Within none limits l h e = cc
drawn_on-Within (some k) limits l h e =
    row-All SubLimitWithin (λ (l : FacilitySubLimit). l.id) k limits l h e

repaid_on-Within :
    (o : Option ℕ) (drawdowns : List FacilityDrawdown) (limits : List FacilitySubLimit)
    (l : FacilitySubLimit)
    → All SubLimitWithin limits
    → repaid_on o drawdowns limits ≡ some l
    → SubLimitWithin l
repaid_on-Within none drawdowns limits l h e = cc
repaid_on-Within (some k) drawdowns limits l h e =
    elim (Option-cases (get_row (λ (d : FacilityDrawdown). d.id) k drawdowns)) [
      | inl missing ↦ let e' : none ≡ some l = rw missing at e in cc
      | inr (d, there) ↦ drawn_on-Within d.sub_limit_id limits l h (rw there at e)
    ]

facility-IsWithin :
    (b : Book) (g : Facility) → FacilityWithin g → IsWithin b → IsWithin (with_facility g b)
facility-IsWithin b g w (fs, ls, ds, rs) =
    (put_row-All FacilityWithin (λ (f : Facility). f.id) g b.facilities w fs, ls, ds, rs)

facility_at-Within :
    (k : ℕ) (b : Book) (f : Facility) → facility_at k b ≡ some f → IsWithin b → FacilityWithin f
facility_at-Within k b f there h =
    row-All FacilityWithin (λ (f : Facility). f.id) k b.facilities f h.0 there

fits_row :
    (d : FacilityDrawdown) (limits : List FacilitySubLimit) (l : FacilitySubLimit)
    → FitsSubLimit (drawn_on d.sub_limit_id limits) d.drawdown_amount
    → drawn_on d.sub_limit_id limits ≡ some l
    → d.drawdown_amount ≤ℤ (l.limit_amount -ℤ l.drawn_amount)
fits_row d limits l fits e =
    subst (λ (o : Option FacilitySubLimit). FitsSubLimit o d.drawdown_amount) e fits

repayment-IsWithin :
    (k : ℕ) (b : Book) (p q : FacilityRepayment) (amount : ℤ)
    → get_row (λ (r : FacilityRepayment). r.id) k b.repayments ≡ some p
    → pos 0 ≤ℤ amount
    → Paid amount p q
    → q.paid_amount ≤ℤ q.original_amount
    → IsWithin b
    → IsWithin (with_repayment q b)
repayment-IsWithin k b p q amount there positive a fits (fs, ls, ds, rs) =
    let w = row-All RepaymentWithin (λ (r : FacilityRepayment). r.id) k b.repayments p rs there in
    (
      fs,
      ls,
      ds,
      put_row-All RepaymentWithin (λ (r : FacilityRepayment). r.id) q b.repayments
          (Paid-Within p q amount w positive a fits) rs,
    )

drawdown-IsWithin :
    (k : ℕ) (b : Book) (d e : FacilityDrawdown)
    → get_row (λ (d : FacilityDrawdown). d.id) k b.drawdowns ≡ some d
    → e.drawdown_amount ≡ d.drawdown_amount
    → IsWithin b
    → (pos 0 ≤ℤ d.drawdown_amount) × IsWithin (with_drawdown e b)
drawdown-IsWithin k b d e there same (fs, ls, ds, rs) =
    let positive =
      row-All DrawsNothingBack (λ (d : FacilityDrawdown). d.id) k b.drawdowns d ds there in
    (
      positive,
      (
        fs,
        ls,
        put_row-All DrawsNothingBack (λ (d : FacilityDrawdown). d.id) e b.drawdowns
            (rw same positive) ds,
        rs,
      ),
    )

Move-IsWithin :
    (r : FacilityRequest) (b c : Book) → Move r b c → IsPlain r → IsWithin b → IsWithin c
Move-IsWithin r b c (opens f named limit drawn restricted) plain (fs, ls, ds, rs) = (
  All-append FacilityWithin b.facilities (f ∷ []) fs
      ((rw restricted (omega arith), rw drawn (omega arith), rw drawn (rw limit plain)), tt),
  ls,
  ds,
  rs,
)
Move-IsWithin r b c (changes_terms {k} f g there same limit) plain h =
    let w = facility_at-Within k b f there h in
    facility-IsWithin b g (same-Within f g same (limit ∙ rw plain refl) w) h
Move-IsWithin r b c (changes_status {k} f g there same limit) plain h =
    let w = facility_at-Within k b f there h in
    facility-IsWithin b g (same-Within f g same limit w) h
Move-IsWithin r b c (adds_sub_limit l limit drawn) plain (fs, ls, ds, rs) = (
  fs,
  All-append SubLimitWithin b.sub_limits (l ∷ []) ls
      ((rw drawn (omega arith), rw drawn (rw limit plain)), tt),
  ds,
  rs,
)
Move-IsWithin r b c (submits f d there own amount waits) plain (fs, ls, ds, rs) =
    (fs, ls, All-append DrawsNothingBack b.drawdowns (d ∷ []) ds (rw amount plain, tt), rs)
Move-IsWithin r b c (approves {k} d e there waits a) plain h =
    (drawdown-IsWithin k b d e there a.3 h).1
Move-IsWithin r b c (executes {k} d e f there waits a owner _ fits sub_fits) plain h =
    let (positive, h') = drawdown-IsWithin k b d e there a.3 h in
    let w = facility_at-Within d.facility_id b f owner h in
    let limit = drawn_on d.sub_limit_id b.sub_limits in
    redrawn-IsWithin (λ n. n +ℤ d.drawdown_amount) limit _
      (λ l e.
        draws-Within l d.drawdown_amount (drawn_on-Within d.sub_limit_id b.sub_limits l h.1 e)
          positive (fits_row d b.sub_limits l sub_fits e))
      (facility-IsWithin (with_drawdown _ b) _ (Fits-Within f d.drawdown_amount w positive fits) h')
Move-IsWithin r b c (plans f p there own original unpaid) plain (fs, ls, ds, rs) = (
  fs,
  ls,
  ds,
  All-append RepaymentWithin b.repayments (p ∷ []) rs
      ((rw unpaid (omega arith), rw unpaid (rw original plain)), tt),
)
Move-IsWithin r b c (pays_principal {k} {amount} p q f there _ principal a fits owner) plain h =
    let w = facility_at-Within p.facility_id b f owner h in
    let limit = repaid_on p.drawdown_id b.drawdowns b.sub_limits in
    redrawn-IsWithin (λ n. max_zero (n -ℤ amount)) limit _
      (λ l e.
        frees-Within l amount (repaid_on-Within p.drawdown_id b.drawdowns b.sub_limits l h.1 e)
          plain)
      (facility-IsWithin (with_repayment q b) _ (pays-Within f amount w plain)
        (repayment-IsWithin k b p q amount there plain a fits h))
Move-IsWithin r b c (pays_other {k} {amount} p q there _ other a fits) plain h =
    repayment-IsWithin k b p q amount there plain a fits h
Move-IsWithin r b c charges plain h = h
Move-IsWithin r b c covenants plain h = h
Move-IsWithin r b c secures plain h = h
Move-IsWithin r b c measures plain h = h

-- From a store in which every facility has a restricted amount of zero or more and is drawn between
-- zero and its limit, every sub-limit is drawn between zero and its limit, every drawdown is of zero
-- or more, and every repayment is paid between zero and its amount, a session of requests that name
-- no negative amount and do not change the limit of a facility, by whomever, in whatever order and
-- however many are refused, leads to such a store.
pub answer_all-IsWithin :
    (upper : Text → Text) (s : FacilityStore) (session : List FacilityCall)
    → All (λ (c : FacilityCall). IsPlain c.request) session
    → IsWithin (book s)
    → IsWithin (book (answer_all upper s session))
answer_all-IsWithin upper s session plain i =
    answer_all-keeps upper (λ c. IsPlain c.request) (λ s. IsWithin (book s))
      (λ s c t e p i.
        Move-IsWithin c.request (book s) (book t)
          (answer-Move upper s c.user c.today c.now c.request t e) p i)
      s session plain i
