-- ===== src/Investment/CashLinks.antt =====
-- The links between the transactions of investments and the cash ledger, and repeated requests
-- (backend/app/services/investment_service.py).
use treasury_os_app.Base.{
  ℕ, ◌+◌, ◌≡◌, refl, subst, true, Option, none, some, List, [], ◌∷◌, ◌==◌, arith, get_row, Outcome,
  ok, raised, conflict, raise_if-ok, ℤ, pos, eqb_ℤ, ◌+ℤ◌, ==_refl, Bool-cases, inl, inr,
}
use treasury_os_app.Text.{Text, same_text_refl}
use treasury_os_app.Dates.{Date}
use treasury_os_app.Investment.Records.{
  investment_rollover, rollover_into, Investment, placement, rebooking, maturity_settlement,
  settled_parts, plain_text, CashMovement, InvestmentStore,
}
use treasury_os_app.Reconciliation.Records.{non_cash}
use treasury_os_app.Investment.Rollover.{
  rollover_investment, replacement, rolled_out, placed_by_rollover,
}
use treasury_os_app.Investment.Service.{
  record_investment_version, linked_transaction, or_default, create_cash_transaction,
  apply_investment_update,
}
use treasury_os_app.Investment.Settlement.{
  has_transaction, is_placement, is_maturity_settlement, place_investment, settle_maturity,
  rebook_investment, fund_additional, was_rebooked, InvestmentOperation, place, settle, rebook,
  roll, operate, InvestmentCall, operate_row, call, store_or, call_all,
}
use treasury_os_app.Investment.LedgerRows.{
  rows_of, IsReconciled, no_rows, ids_below, link-IsReconciled, later_ids,
}

-- the store that is returned
returned : (s t : InvestmentStore) → ok s ≡ ok t → IsReconciled s → IsReconciled t
returned s t h r = let e : s ≡ t = ground arith in subst IsReconciled e r

place_investment-IsReconciled :
    (s t : InvestmentStore) (i : Investment) (user_id : ℕ) (account : Option ℕ) (today : Date)
    (now : ℕ)
    → place_investment s i user_id account today now ≡ ok t
    → IsReconciled s
    → IsReconciled t
unfolding place_investment create_cash_transaction
place_investment-IsReconciled s t i user_id account today now h r =
    let (_, e) = raise_if-ok (has_transaction is_placement i.id s.transactions) conflict _ h in
    returned _ t e (
      link-IsReconciled s.next_id _
        (linked_transaction i placement i.principal_amount (or_default i.placement_date today)
          user_id s.next_id none none)
        s.cash s.transactions refl refl refl (inl refl) refl r.0 r.1)

settle_maturity-IsReconciled :
    (s t : InvestmentStore) (i : Investment) (date : Date) (user_id : ℕ) (account : Option ℕ)
    (actual : Option ℤ) (now : ℕ)
    → settle_maturity s i date user_id account actual now ≡ ok t
    → IsReconciled s
    → IsReconciled t
unfolding settle_maturity create_cash_transaction
settle_maturity-IsReconciled s t i date user_id account actual now h r =
    let (_, e) =
      raise_if-ok (has_transaction is_maturity_settlement i.id s.transactions) conflict _ h in
    let interest = or_default actual i.expected_interest in
    returned _ t e (
      link-IsReconciled s.next_id _
        (linked_transaction i maturity_settlement (i.principal_amount +ℤ interest) date user_id
          s.next_id (some (settled_parts i.principal_amount interest)) none)
        s.cash s.transactions refl refl refl (inl refl) refl r.0 r.1)

rebook_investment-IsReconciled :
    (s : InvestmentStore) (i : Investment) (rate : Option ℤ) (maturity : Option Date)
    (additional : ℤ) (reason : Text) (user_id : ℕ) (account : Option ℕ) (key : Option Text)
    (today : Date) (now : ℕ)
    → IsReconciled s
    → IsReconciled
        (rebook_investment s i rate maturity additional reason user_id account key today now)
unfolding rebook_investment fund_additional apply_investment_update create_cash_transaction
rebook_investment-IsReconciled s i rate maturity additional reason user_id account key today now r =
    elim (Bool-cases (was_rebooked key i.id s.events)) [
      | inl again ↦ rw again r
      | inr first ↦ rw first (elim (Bool-cases (eqb_ℤ additional (pos 0))) [
        | inl nothing ↦ rw nothing r
        | inr some_more ↦ rw some_more (
            link-IsReconciled s.next_id _
              (linked_transaction i rebooking additional today user_id s.next_id
                (some (plain_text reason)) key)
              s.cash s.transactions refl refl refl (inl refl) refl r.0 r.1)
      ])
    ]

rollover_investment-IsReconciled :
    (s : InvestmentStore) (i : Investment) (amount rate : ℤ) (start maturity : Date)
    (reference : Text) (user_id now : ℕ)
    → IsReconciled s
    → IsReconciled (rollover_investment s i amount rate start maturity reference user_id now)
unfolding rollover_investment create_cash_transaction record_investment_version replacement
rollover_investment-IsReconciled s i amount rate start maturity reference user_id now r =
    let n = s.next_id in
    let paid : CashMovement = record {
      id = n;
      legal_entity_id = i.legal_entity_id;
      event_type_code = investment_rollover;
      direction = non_cash;
      value_date = start;
      currency_code = i.currency_code;
      amount = amount;
      bank_account_id = i.source_account_id;
      reference = reference;
      narration = rollover_into i.investment_reference reference;
      source_record_id = i.id;
      created_by_user_id = user_id;
    } in
    let new = replacement (n + 1) i amount rate start maturity reference user_id in
    let placed = placed_by_rollover new i amount start user_id n in
    let out = rolled_out new i amount start user_id n in
    let own : (n == n) ≡ true = ==_refl n in
    let row : rows_of n (paid ∷ s.cash) ≡ paid ∷ [] = rw own (rw (no_rows n s.cash r.0) refl) in
    let links =
      link-IsReconciled n paid out s.cash s.transactions refl refl refl (inl refl) refl r.0 r.1 in
    let later = later_ids (n + 1) (paid ∷ s.cash) (out ∷ s.transactions) links.1 in
    (
      ids_below (n + 1) (paid ∷ s.cash) links.0,
      (later.0, ((omega arith, (paid, row, refl, inr refl, refl)), later.1)),
    )

operate-IsReconciled :
    (s t : InvestmentStore) (i : Investment) (user_id : ℕ) (today : Date) (now : ℕ)
    (operation : InvestmentOperation)
    → operate s i user_id today now operation ≡ ok t
    → IsReconciled s
    → IsReconciled t
operate-IsReconciled s t i user_id today now (place account) h r =
    place_investment-IsReconciled s t i user_id account today now h r
operate-IsReconciled s t i user_id today now (settle date account actual) h r =
    settle_maturity-IsReconciled s t i date user_id account actual now h r
operate-IsReconciled s t i user_id today now (roll amount rate start maturity reference) h r =
    returned _ t h
      (rollover_investment-IsReconciled s i amount rate start maturity reference user_id now r)
operate-IsReconciled s t i user_id today now (rebook rate maturity additional reason account key) h
      r =
    returned _ t h (
      rebook_investment-IsReconciled s i rate maturity additional reason user_id account key today
        now r)

call-IsReconciled :
    (s : InvestmentStore) (c : InvestmentCall)
    → IsReconciled s
    → IsReconciled (store_or s (call s c))
call-IsReconciled s c r = at_row (get_row (λ (i : Investment). i.id) c.investment_id s.investments)
  where
    kept :
        (o : Outcome InvestmentStore)
        → ((t : InvestmentStore) → o ≡ ok t → IsReconciled t)
        → IsReconciled (store_or s o)
    kept (ok t) k = k t refl
    kept (raised e) k = r

    at_row : (o : Option Investment) → IsReconciled (store_or s (operate_row s o c))
    at_row none = r
    at_row (some i) =
        kept (operate s i c.user_id c.today c.now c.operation)
          (λ t h. operate-IsReconciled s t i c.user_id c.today c.now c.operation h r)

-- From a store in which all ids of the ledger's rows are below the next id, and each transaction that
-- names a row of the ledger names an id below the next one, that exactly one row has, with the
-- transaction's amount and entity and with its investment or the related one, any calls that place,
-- settle, roll over and rebook investments, refused calls included, lead to such a store.
pub call_all-IsReconciled :
    (s : InvestmentStore) (session : List InvestmentCall)
    → IsReconciled s
    → IsReconciled (call_all s session)
unfolding call_all
call_all-IsReconciled s [] r = r
call_all-IsReconciled s (c ∷ rest) r =
    call_all-IsReconciled (store_or s (call s c)) rest (call-IsReconciled s c r)

-- After a rebooking with a key, another one of the same investment with that key, whatever it asks
-- for and whoever asks, leaves the store exactly as it is.
pub rebook_investment_again :
    (s : InvestmentStore) (i j : Investment) (rate rate' : Option ℤ)
    (maturity maturity' : Option Date) (additional additional' : ℤ) (reason reason' : Text)
    (user_id user_id' : ℕ) (account account' : Option ℕ) (key : Text) (today today' : Date)
    (now now' : ℕ)
    → j.id ≡ i.id
    → (let t =
          rebook_investment s i rate maturity additional reason user_id account
            (some key)
            today
            now in
        rebook_investment t j rate' maturity' additional' reason' user_id' account'
          (some key)
          today'
          now'
        ≡ t)
unfolding rebook_investment
rebook_investment_again s i j rate rate' maturity maturity' additional additional' reason reason'
      user_id user_id' account account' key today today' now now' same =
    elim (Bool-cases (was_rebooked (some key) i.id s.events)) [
      | inl again ↦ rw again (rw same (rw again refl))
      | inr first ↦ rw first (rw same (rw (==_refl i.id) (rw (same_text_refl key) refl)))
    ]
