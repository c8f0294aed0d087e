-- ===== src/Reconciliation/WorkQueue/Hidden.antt =====
-- Which calls are answered as if the item did not exist.
use treasury_os_app.Base.{
  ℕ, ◌≡◌, ◌↔◌, ◌⊎◌, subst, ap, ◌∙◌, refl, inl, inr, Bool, true, false, none, some, Outcome, ok,
  raised, not_found, ◌>>=◌, require, is_missing, is_missing->>=, arith, Bool-cases, Option-cases,
}
use treasury_os_app.Auth.{
  User, TreasuryAction, LegalEntity, bank_reconciliation, view, get_entity, assert_entity_access,
}
use treasury_os_app.Auth.Grants.{assert_entity_access-granted}
use treasury_os_app.Reconciliation.Records.{OpenItem}
use treasury_os_app.Reconciliation.Store.{Store, get_item, get_user}
use treasury_os_app.Reconciliation.Workflow.{
  Request, start, assign, comment, evidence, resolve, close, reject, reopen, perform,
}
use treasury_os_app.Reconciliation.Workflow.Errors.{is_missing-perform, is_missing-require}
use treasury_os_app.Reconciliation.WorkQueue.{
  can_view, can_work, authorized_item, required, check_assignee, commit, serve,
}
use treasury_os_app.Reconciliation.WorkQueue.Access.{Permitted, access-Permitted}

can_view-Permitted :
    (s : Store) (user : User) (e : ℕ)
    → (can_view s.entities user e ≡ true) ↔ Permitted s user view e
unfolding can_view
can_view-Permitted s user e = (
  access-Permitted s user view e,
  λ (ent, row, may).
      ground (arith, assert_entity_access-granted s.entities user bank_reconciliation view e),
)

-- Of an entity that exists, the check is never a 404.
is_missing-access :
    (s : Store) (user : User) (a : TreasuryAction) (e : ℕ) (ent : LegalEntity)
    → get_entity s.entities e ≡ some ent
    → is_missing (assert_entity_access s.entities user bank_reconciliation a (some e)) ≡ false
is_missing-access s user a e ent row =
    ground (arith, assert_entity_access-granted s.entities user bank_reconciliation a e)

is_missing-check_assignee :
    (s : Store) (i : OpenItem) (q : Request) → is_missing (check_assignee s i q) ≡ false
unfolding check_assignee
is_missing-check_assignee s i (assign who reason due priority) =
    is_missing-require (can_work s i.legal_entity_id (get_user who s.users))
is_missing-check_assignee s i start = refl
is_missing-check_assignee s i (comment words) = refl
is_missing-check_assignee s i (evidence reference words) = refl
is_missing-check_assignee s i (resolve reason) = refl
is_missing-check_assignee s i (close words) = refl
is_missing-check_assignee s i (reject reason) = refl
is_missing-check_assignee s i (reopen reason) = refl

-- The item is found, and then the two permissions are asked for.
authorized_item-found :
    (s : Store) (user : User) (k : ℕ) (a : TreasuryAction) (i : OpenItem)
    → get_item k s.items ≡ some i
    → authorized_item s user k a ≡ (
        require (can_view s.entities user i.legal_entity_id) not_found >>= λ _.
        assert_entity_access s.entities user bank_reconciliation a (some i.legal_entity_id) >>= λ _.
        ok i)
unfolding authorized_item
authorized_item-found s user k a i row = ground arith

authorized_item-missing :
    (s : Store) (user : User) (k : ℕ) (a : TreasuryAction)
    → get_item k s.items ≡ none
    → authorized_item s user k a ≡ raised not_found
unfolding authorized_item
authorized_item-missing s user k a missing = ground arith

authorized_item-seen :
    (s : Store) (user : User) (k : ℕ) (a : TreasuryAction) (i : OpenItem)
    → get_item k s.items ≡ some i
    → Permitted s user view i.legal_entity_id
    → is_missing (authorized_item s user k a) ≡ false
authorized_item-seen s user k a i row may =
    let sees = (can_view-Permitted s user i.legal_entity_id).1 may in
    let known = is_missing-access s user a i.legal_entity_id may.0 may.1 in
    let access =
      assert_entity_access s.entities user bank_reconciliation a (some i.legal_entity_id) in
    let rest = is_missing->>= access (λ _. ok i) known (λ _. refl) in
    ap is_missing (authorized_item-found s user k a i row) ∙ rw sees rest

-- A call on an item that the caller may see is no 404.
serve-seen :
    (is_alpha : ℕ → Bool) (s : Store) (now : ℕ) (user : User) (k : ℕ) (q : Request) (i : OpenItem)
    → get_item k s.items ≡ some i
    → Permitted s user view i.legal_entity_id
    → is_missing (serve is_alpha s now user k q) ≡ false
unfolding serve
serve-seen f s now user k q i row may =
    is_missing->>= (authorized_item s user k (required q)) _
      (authorized_item-seen s user k (required q) i row may)
      (λ j. is_missing->>= (check_assignee s j q) _ (is_missing-check_assignee s j q) (λ _.
        is_missing->>= (perform f j now user.id q) _ (is_missing-perform f j now user.id q)
          (λ _. refl)))

serve-refused :
    (is_alpha : ℕ → Bool) (s : Store) (now : ℕ) (user : User) (k : ℕ) (q : Request)
    → authorized_item s user k (required q) ≡ raised not_found
    → serve is_alpha s now user k q ≡ raised not_found
unfolding serve
serve-refused f s now user k q e =
    ap
      (λ (o : Outcome OpenItem).
        o >>= λ i. check_assignee s i q >>= λ _. perform f i now user.id q >>= λ r. ok (commit s r))
      e

-- There is no such item, or there is one and the caller may not view it.
abbrev pub IsHidden : Store → User → ℕ → Type 0
IsHidden s user k =
    (get_item k s.items ≡ none)
    ⊎ ((i : OpenItem) × (get_item k s.items ≡ some i) × ¬ Permitted s user view i.legal_entity_id)

-- A call on an item, whatever it asks for, is answered with a 404 exactly when there is no item with
-- the id or the caller is neither a superuser nor granted to view items of its entity: the answer
-- does not tell the two apart, and no other call is a 404.
pub serve-IsHidden :
    (is_alpha : ℕ → Bool) (s : Store) (now : ℕ) (user : User) (k : ℕ) (q : Request)
    → (serve is_alpha s now user k q ≡ raised not_found) ↔ IsHidden s user k
serve-IsHidden f s now user k q = elim (Option-cases (get_item k s.items)) [
  | inl missing ↦ (
    λ h. inl missing,
    λ _. serve-refused f s now user k q (authorized_item-missing s user k (required q) missing),
  )
  | inr (i, row) ↦ (
    λ h. inr (
      i,
      row,
      λ may.
          let seen = serve-seen f s now user k q i row may in
          let answer : is_missing (serve f s now user k q) ≡ true = ap is_missing h in
          absurd (ground arith),
    ),
    λ hidden. elim (Bool-cases (can_view s.entities user i.legal_entity_id)) [
      | inl sees ↦ absurd (elim hidden [
        | inl missing ↦ ground arith
        | inr (j, row', never) ↦
            let same : i ≡ j = ground arith in
            never (
              subst (λ (x : OpenItem). Permitted s user view x.legal_entity_id) same
                ((can_view-Permitted s user i.legal_entity_id).0 sees))
      ])
      | inr unseen ↦
          serve-refused f s now user k q
            (authorized_item-found s user k (required q) i row ∙ rw unseen refl)
    ],
  )
]
