-- ===== src/Reconciliation/WorkQueue/Access.antt =====
-- Who can act on an open item, and what a call changes.
use treasury_os_app.Base.{
  ℕ, ◌≡◌, inl, inr, Bool, true, ◌||◌, some, ok, arith, Option-cases, >>=-eq_ok, ◌>>=◌, is_ok,
}
use treasury_os_app.Auth.{
  User, LegalEntity, TreasuryAction, bank_reconciliation, view, get_entity, assert_entity_access,
}
use treasury_os_app.Auth.Grants.{granted, assert_entity_access-granted}
use treasury_os_app.Reconciliation.Records.{OpenItem}
use treasury_os_app.Reconciliation.Store.{Store, get_item}
use treasury_os_app.Reconciliation.Workflow.{Recorded, Request, perform}
use treasury_os_app.Reconciliation.WorkQueue.{
  can_view, authorized_item, required, check_assignee, commit, serve,
}

-- The user is a superuser, or was granted the action on the entity.
abbrev pub Permitted : Store → User → TreasuryAction → ℕ → Type 0
Permitted s user a e =
    (ent : LegalEntity) × (get_entity s.entities e ≡ some ent)
    × ((user.is_superuser
          || granted bank_reconciliation a (some e) (some ent.group_id) user.role_assignments)
        ≡ true)

pub access-Permitted :
    (s : Store) (user : User) (a : TreasuryAction) (e : ℕ)
    → is_ok (assert_entity_access s.entities user bank_reconciliation a (some e)) ≡ true
    → Permitted s user a e
access-Permitted s user a e h = elim (Option-cases (get_entity s.entities e)) [
  | inl missing ↦
      absurd (ground (arith, assert_entity_access-granted s.entities user bank_reconciliation a e))
  | inr (ent, row) ↦ (
    ent,
    row,
    ground (arith, assert_entity_access-granted s.entities user bank_reconciliation a e),
  )
]

pub authorized_item-ok :
    (s : Store) (user : User) (k : ℕ) (a : TreasuryAction) (i : OpenItem)
    → authorized_item s user k a ≡ ok i
    → (get_item k s.items ≡ some i)
      × (can_view s.entities user i.legal_entity_id ≡ true)
      × (is_ok (assert_entity_access s.entities user bank_reconciliation a (some i.legal_entity_id))
          ≡ true)
unfolding authorized_item
authorized_item-ok s user k a i h = ground arith

-- A call that succeeds found the item, was allowed to, and wrote what the service recorded.
pub serve-ok :
    (is_alpha : ℕ → Bool) (s : Store) (now : ℕ) (user : User) (k : ℕ) (q : Request) (t : Store)
    → serve is_alpha s now user k q ≡ ok t
    → (i : OpenItem) × (r : Recorded) × (authorized_item s user k (required q) ≡ ok i)
      × (check_assignee s i q ≡ ok tt)
      × (perform is_alpha i now user.id q ≡ ok r)
      × (t ≡ commit s r)
unfolding serve
serve-ok f s now user k q t h =
    let (i, found, h₁) =
      >>=-eq_ok (authorized_item s user k (required q))
        (λ i. check_assignee s i q >>= λ _. perform f i now user.id q >>= λ r. ok (commit s r)) h in
    let (u, checked, h₂) =
      >>=-eq_ok (check_assignee s i q) (λ _. perform f i now user.id q >>= λ r. ok (commit s r))
        h₁ in
    let (r, done, h₃) = >>=-eq_ok (perform f i now user.id q) (λ r. ok (commit s r)) h₂ in
    (i, r, found, checked, done, ground arith)

-- Whoever gets a call through may see the item and has the permission of the endpoint, each as a
-- superuser or by an active role assignment over the item's entity.
pub serve-Permitted :
    (is_alpha : ℕ → Bool) (s : Store) (now : ℕ) (user : User) (k : ℕ) (q : Request) (t : Store)
    → serve is_alpha s now user k q ≡ ok t
    → (i : OpenItem) × (get_item k s.items ≡ some i)
      × Permitted s user view i.legal_entity_id
      × Permitted s user (required q) i.legal_entity_id
unfolding can_view
serve-Permitted f s now user k q t h =
    let (i, r, found, _, _, _) = serve-ok f s now user k q t h in
    let (row, sees, may) = authorized_item-ok s user k (required q) i found in
    (
      i,
      row,
      access-Permitted s user view i.legal_entity_id sees,
      access-Permitted s user (required q) i.legal_entity_id may,
    )
