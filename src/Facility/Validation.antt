-- ===== src/Facility/Validation.antt =====
-- What the check of a drawdown accepts
-- (backend/app/services/drawdown_validation_service.py: `validate_drawdown`).
use treasury_os_app.Base.{
  ℕ, ◌+◌, ◌≤◌, ◌≡◌, refl, ◌↔◌, Bool, true, false, not, Option, none, some, List, [], ◌∷◌, ◌++◌, ltb,
  arith, ℤ, ◌-ℤ◌, ◌≤ℤ◌, ltb_ℤ, max_zero, pos_part, neg_part, ok, raised, HttpError, Bool-cases, inl,
  inr,
}
use treasury_os_app.Text.{Text, same_text}
use treasury_os_app.Facility.Records.{Facility, FacilityStatus, FacilitySubLimit}
use treasury_os_app.Facility.Utilization.{
  DrawdownProblem, is_active_status, is_before, is_after, reason_if, capacity_problems,
  sub_limit_problems, validate_drawdown, calculate_utilization, is_uncommitted, exceeds_undrawn,
  exceeds_available,
}
use treasury_os_app.Facility.Drawdowns.{reject_on}
use treasury_os_app.Facility.Book.{Fits, FitsSubLimit}

-- No date is set, or the test of the date holds.
abbrev pub Unless {ℓ} : (ℕ → Type ℓ) → Option ℕ → Type ℓ
Unless P none = Unit
Unless P (some d) = P d

-- A drawdown that may go ahead.
abbrev pub Drawable : (Text → Text) → Facility → ℤ → Text → ℕ → Option FacilitySubLimit → Type 0
Drawable upper f amount currency date sub_limit =
    (f.status ≡ FacilityStatus.active)
    × ((same_text (upper currency) f.currency_code ≡ true)
        × (Unless (λ d. d ≤ date) f.availability_start_date
            × (Unless (λ d. date ≤ d) f.availability_end_date
                × ((date ≤ f.maturity_date) × (Fits f amount × FitsSubLimit sub_limit amount)))))

pub append-[] {ℓ} : {A : Type ℓ} (xs ys : List A) → (xs ++ ys ≡ []) ↔ ((xs ≡ []) × (ys ≡ []))
append-[] [] ys = (λ h. (refl, h), λ h. h.1)
append-[] (x ∷ xs) ys = (λ h. cc, λ h. cc)

reason_if-[] : (b : Bool) (p : DrawdownProblem) → (reason_if b p ≡ []) ↔ (b ≡ false)
reason_if-[] true p = (λ h. cc, λ h. cc)
reason_if-[] false p = (λ h. refl, λ h. refl)

active_iff : (s : FacilityStatus) → (not (is_active_status s) ≡ false) ↔ (s ≡ FacilityStatus.active)
active_iff s = ground arith

not-false : (b : Bool) → (not b ≡ false) ↔ (b ≡ true)
not-false b = ground arith

before_iff : (date : ℕ) (o : Option ℕ) → (is_before date o ≡ false) ↔ Unless (λ d. d ≤ date) o
before_iff date none = (λ _. tt, λ _. refl)
before_iff date (some d) = ground arith

after_iff : (date : ℕ) (o : Option ℕ) → (is_after date o ≡ false) ↔ Unless (λ d. date ≤ d) o
after_iff date none = (λ _. tt, λ _. refl)
after_iff date (some d) = ground arith

ltb_iff : (a b : ℕ) → (ltb a b ≡ false) ↔ (b ≤ a)
ltb_iff a b = ground arith

both {ℓ κ μ ν} :
    {A : Type ℓ} {B : Type κ} {C : Type μ} {D : Type ν} → A ↔ B → C ↔ D → (A × C) ↔ (B × D)
both f g = (λ p. (f.0 p.0, g.0 p.1), λ p. (f.1 p.0, g.1 p.1))

after {ℓ κ μ} : {A : Type ℓ} {B : Type κ} {C : Type μ} → A ↔ B → B ↔ C → A ↔ C
after f g = (λ a. g.0 (f.0 a), λ c. f.1 (g.1 c))

over_iff : (a b : ℤ) (p : DrawdownProblem) → (reason_if (ltb_ℤ a b) p ≡ []) ↔ (b ≤ℤ a)
over_iff a b p =
    after (reason_if-[] (ltb_ℤ a b) p) (ltb_iff (pos_part a + neg_part b) (pos_part b + neg_part a))

Fits-iff : (f : Facility) (amount : ℤ) → (capacity_problems f amount ≡ []) ↔ Fits f amount
unfolding capacity_problems calculate_utilization
Fits-iff f amount =
    let undrawn = f.committed_limit -ℤ f.current_drawn_amount in
    let available = max_zero (undrawn -ℤ f.covenant_restricted_amount) in
    elim (Bool-cases (is_uncommitted f.commitment_type)) [
      | inl e ↦ rw e (over_iff undrawn amount (exceeds_undrawn amount undrawn))
      | inr e ↦ rw e (over_iff available amount (exceeds_available amount available))
    ]

FitsSubLimit-iff :
    (o : Option FacilitySubLimit) (amount : ℤ)
    → (sub_limit_problems o amount ≡ []) ↔ FitsSubLimit o amount
unfolding sub_limit_problems
FitsSubLimit-iff none amount = (λ _. tt, λ _. refl)
FitsSubLimit-iff (some l) amount = over_iff (l.limit_amount -ℤ l.drawn_amount) amount _

-- The reasons of one check, and those after it.
reasons_iff {ℓ κ} :
    {A : Type ℓ} {B : Type κ} (c : Bool) (p : DrawdownProblem) (ps : List DrawdownProblem)
    → (c ≡ false) ↔ A
    → (ps ≡ []) ↔ B
    → (reason_if c p ++ ps ≡ []) ↔ (A × B)
reasons_iff c p ps f g = after (append-[] (reason_if c p) ps) (both (after (reason_if-[] c p) f) g)

-- The list of reasons is empty exactly when the facility is active, the currency in upper case is the
-- facility's, the date lies in the availability period where one is set and not after the maturity,
-- the amount fits into what is not drawn and, unless the facility is uncommitted, not restricted,
-- and it fits into what is left of the sub-limit, if one is named.
pub validate_drawdown-Drawable :
    (upper : Text → Text) (f : Facility) (amount : ℤ) (currency : Text) (date : ℕ)
    (sub_limit : Option FacilitySubLimit)
    → (validate_drawdown upper f amount currency date sub_limit ≡ [])
      ↔ Drawable upper f amount currency date sub_limit
unfolding validate_drawdown
validate_drawdown-Drawable upper f amount currency date l =
    reasons_iff _ _ _ (active_iff f.status) (
      reasons_iff _ _ _ (not-false (same_text (upper currency) f.currency_code)) (
        reasons_iff _ _ _ (before_iff date f.availability_start_date) (
          reasons_iff _ _ _ (after_iff date f.availability_end_date) (
            reasons_iff _ _ _ (ltb_iff f.maturity_date date) (
              after (append-[] (capacity_problems f amount) (sub_limit_problems l amount))
                (both (Fits-iff f amount) (FitsSubLimit-iff l amount)))))))

pub reject_on-ok :
    (ps : List DrawdownProblem) (e : HttpError) (u : Unit {0})
    → reject_on ps (raised e) ≡ ok u
    → ps ≡ []
reject_on-ok [] e u h = refl
reject_on-ok (p ∷ ps) e u h = cc
