-- ===== src/Facility/Final.antt =====
-- An executed drawdown stays as it is and is not executed again.
use treasury_os_app.Base.{
  ℕ, ◌≡◌, ◌≢◌, refl, sym, ◌∙◌, false, some, List, ◌==◌, arith, get_row-put_row_other,
  get_row-append_kept, get_row-key, Outcome, ok, raised, inl, inr, All-trivial, Bool-cases, ==_iff,
  is_ok,
}
use treasury_os_app.Text.{Text}
use treasury_os_app.Auth.{User, TreasuryAction}
use treasury_os_app.Facility.Records.{FacilityDrawdown, DrawdownStatus}
use treasury_os_app.Facility.Store.{FacilityStore}
use treasury_os_app.Facility.Endpoints.{check_access}
use treasury_os_app.Facility.Drawdowns.{execute_drawdown_endpoint}
use treasury_os_app.Facility.Session.{FacilityRequest, FacilityCall, answer_all, answer_all-keeps}
use treasury_os_app.Facility.Book.{Book, book, drawdown_at, with_drawdown}
use treasury_os_app.Facility.Moves.{
  Move, opens, changes_terms, changes_status, adds_sub_limit, submits, approves, executes, plans,
  pays_principal, pays_other, charges, covenants, secures, measures,
}
use treasury_os_app.Facility.Refinement.{answer-Move}
use treasury_os_app.Facility.Coverage.{redrawn-kept}

-- The drawdown is in the table, executed.
abbrev pub IsExecuted : ℕ → FacilityDrawdown → Book → Type 0
IsExecuted k d b = (drawdown_at k b ≡ some d) × (d.status ≡ DrawdownStatus.executed)

-- Writing a drawdown that was not executed leaves alone one that was.
write-IsExecuted :
    (k j : ℕ) (b : Book) (d e x : FacilityDrawdown)
    → drawdown_at j b ≡ some x
    → x.status ≢ DrawdownStatus.executed
    → e.id ≡ x.id
    → IsExecuted k d b
    → IsExecuted k d (with_drawdown e b)
write-IsExecuted k j b d e x there unlike named (there', executed) = elim (Bool-cases (e.id == k)) [
  | inl same ↦ absurd (unlike (rw (equal ((==_iff e.id k).0 same)) executed))
  | inr other ↦ (
    get_row-put_row_other (λ (d : FacilityDrawdown). d.id) e b.drawdowns k other ∙ there',
    executed,
  )
]
  where
    at_j : x.id ≡ j
    at_j = get_row-key (λ (d : FacilityDrawdown). d.id) j b.drawdowns {x = x} there

    equal : e.id ≡ k → x ≡ d
    equal at_k =
        let same : j ≡ k = sym at_j ∙ (sym named ∙ at_k) in
        let there'' : drawdown_at k b ≡ some x = rw (← same) there in ground arith

pub Move-IsExecuted :
    (r : FacilityRequest) (b c : Book) (n : ℕ) (d : FacilityDrawdown)
    → Move r b c
    → IsExecuted n d b
    → IsExecuted n d c
Move-IsExecuted r b c n d (opens _ _ _ _ _) h = h
Move-IsExecuted r b c n d (changes_terms _ _ _ _ _) h = h
Move-IsExecuted r b c n d (changes_status _ _ _ _ _) h = h
Move-IsExecuted r b c n d (adds_sub_limit _ _ _) h = h
Move-IsExecuted r b c n d (submits _ e _ _ _ _) (there, executed) =
    (get_row-append_kept (λ (d : FacilityDrawdown). d.id) n b.drawdowns e d there, executed)
Move-IsExecuted r b c n d (approves {k} x e there waits a) h =
    write-IsExecuted n k b d e x there (λ s. ground arith) a.0 h
Move-IsExecuted r b c n d (executes {k} x e f there waits a _ _ _ _) h =
    redrawn-kept (IsExecuted n d) _ _ _ (λ l p. p)
      (write-IsExecuted n k b d e x there (λ s. ground arith) a.0 h)
Move-IsExecuted r b c n d (plans _ _ _ _ _ _) h = h
Move-IsExecuted r b c n d (pays_principal _ _ _ _ _ _ _ _ _) h =
    redrawn-kept (IsExecuted n d) _ _ _ (λ l p. p) h
Move-IsExecuted r b c n d (pays_other _ _ _ _ _ _ _) h = h
Move-IsExecuted r b c n d charges h = h
Move-IsExecuted r b c n d covenants h = h
Move-IsExecuted r b c n d secures h = h
Move-IsExecuted r b c n d measures h = h

answer_all-IsExecuted :
    (upper : Text → Text) (s : FacilityStore) (session : List FacilityCall) (k : ℕ)
    (d : FacilityDrawdown)
    → IsExecuted k d (book s)
    → IsExecuted k d (book (answer_all upper s session))
answer_all-IsExecuted upper s session k d i =
    answer_all-keeps upper (λ c. Unit {0}) (λ s. IsExecuted k d (book s))
      (λ s c t e _ i.
        Move-IsExecuted c.request (book s) (book t) k d
          (answer-Move upper s c.user c.today c.now c.request t e) i)
      s session (All-trivial session) i

execute-refused :
    (upper : Text → Text) (s : FacilityStore) (user : User) (k now : ℕ) (d : FacilityDrawdown)
    → IsExecuted k d (book s)
    → is_ok (execute_drawdown_endpoint upper s user k now) ≡ false
unfolding execute_drawdown_endpoint
execute-refused upper s user k now d (there, executed) =
    go (check_access s user TreasuryAction.execute d.legal_entity_id) refl
  where
    go :
        (o : Outcome _)
        → check_access s user TreasuryAction.execute d.legal_entity_id ≡ o
        → is_ok (execute_drawdown_endpoint upper s user k now) ≡ false
    go (ok _) e = rw there (rw e (rw executed refl))
    go (raised _) e = rw there (rw e refl)

-- A drawdown that is executed stays in the table exactly as it is through any session of requests,
-- and after it, nobody's request to execute it again is answered with success.
pub answer_all-executed :
    (upper : Text → Text) (s : FacilityStore) (session : List FacilityCall) (k : ℕ)
    (d : FacilityDrawdown) (user : User) (now : ℕ)
    → IsExecuted k d (book s)
    → (drawdown_at k (book (answer_all upper s session)) ≡ some d)
      × (is_ok (execute_drawdown_endpoint upper (answer_all upper s session) user k now) ≡ false)
answer_all-executed upper s session k d user now h =
    let after = answer_all-IsExecuted upper s session k d h in
    (after.0, execute-refused upper (answer_all upper s session) user k now d after)
