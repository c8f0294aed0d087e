-- ===== src/Facility/Settled.antt =====
-- A repayment that is paid in full stays as it is.
use treasury_os_app.Base.{
  ℕ, ◌≡◌, sym, ap, ◌∙◌, true, false, some, ◌==◌, arith, get_row-put_row_other, get_row-key,
  get_row-append_kept, inl, inr, Bool-cases, ==_iff,
}
use treasury_os_app.Facility.Records.{FacilityRepayment, RepaymentStatus}
use treasury_os_app.Facility.Repayments.{is_settled}
use treasury_os_app.Facility.Session.{FacilityRequest}
use treasury_os_app.Facility.Book.{Book, repayment_at, with_repayment}
use treasury_os_app.Facility.Moves.{
  Move, opens, changes_terms, changes_status, adds_sub_limit, submits, approves, executes, plans,
  pays_principal, pays_other, charges, covenants, secures, measures,
}
use treasury_os_app.Facility.Coverage.{redrawn-kept}

-- The repayment is in the table, paid in full.
abbrev pub IsPaid : ℕ → FacilityRepayment → Book → Type 0
IsPaid k r b = (repayment_at k b ≡ some r) × (r.status ≡ RepaymentStatus.paid)

write-IsPaid :
    (n k : ℕ) (b : Book) (d q p : FacilityRepayment)
    → repayment_at k b ≡ some p
    → is_settled p.status ≡ false
    → q.id ≡ p.id
    → IsPaid n d b
    → IsPaid n d (with_repayment q b)
write-IsPaid n k b d q p there unsettled named (there', paid) = elim (Bool-cases (q.id == n)) [
  | inl same ↦
      let wrong : true ≡ false = impossible (rw (equal ((==_iff q.id n).0 same)) unsettled) in cc
  | inr other ↦ (
    get_row-put_row_other (λ (r : FacilityRepayment). r.id) q b.repayments n other ∙ there',
    paid,
  )
]
  where
    impossible : is_settled d.status ≡ false → true ≡ false
    impossible h = sym (ap is_settled paid) ∙ h

    at_k : p.id ≡ k
    at_k = get_row-key (λ (r : FacilityRepayment). r.id) k b.repayments {x = p} there

    equal : q.id ≡ n → d ≡ p
    equal at_n =
        let same : k ≡ n = sym at_k ∙ (sym named ∙ at_n) in
        let there'' : repayment_at n b ≡ some p = rw (← same) there in ground arith

pub Move-IsPaid :
    (r : FacilityRequest) (b c : Book) (n : ℕ) (d : FacilityRepayment)
    → Move r b c
    → IsPaid n d b
    → IsPaid n d c
Move-IsPaid r b c n d (opens _ _ _ _ _) h = h
Move-IsPaid r b c n d (changes_terms _ _ _ _ _) h = h
Move-IsPaid r b c n d (changes_status _ _ _ _ _) h = h
Move-IsPaid r b c n d (adds_sub_limit _ _ _) h = h
Move-IsPaid r b c n d (submits _ _ _ _ _ _) h = h
Move-IsPaid r b c n d (approves _ _ _ _ _) h = h
Move-IsPaid r b c n d (executes _ _ _ _ _ _ _ _ _ _) h =
    redrawn-kept (IsPaid n d) _ _ _ (λ l p. p) h
Move-IsPaid r b c n d (plans _ p _ _ _ _) (there, paid) =
    (get_row-append_kept (λ (r : FacilityRepayment). r.id) n b.repayments p d there, paid)
Move-IsPaid r b c n d (pays_principal {k} p q _ there unsettled _ a _ _) h =
    redrawn-kept (IsPaid n d) _ _ _ (λ l p. p) (write-IsPaid n k b d q p there unsettled a.0 h)
Move-IsPaid r b c n d (pays_other {k} p q there unsettled _ a _) h =
    write-IsPaid n k b d q p there unsettled a.0 h
Move-IsPaid r b c n d charges h = h
Move-IsPaid r b c n d covenants h = h
Move-IsPaid r b c n d secures h = h
Move-IsPaid r b c n d measures h = h
