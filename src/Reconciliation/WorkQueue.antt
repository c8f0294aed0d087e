-- ===== src/Reconciliation/WorkQueue.antt =====
-- The endpoints that act on an open item
-- (backend/app/api/v1/reconciliation_open_items.py: `_authorized_item`, `_act` and those below it):
-- find and lock the item, hide it from a caller who may not see it, check the permission, make the
-- service call, and commit. The row lock makes the calls on an item follow one another; a call that
-- raises rolls back.
pub mod Access
pub mod Hidden
pub mod Log
use treasury_os_app.Base.{
  ℕ, Bool, true, false, Option, none, some, List, [], ◌∷◌, if◌then◌else◌, Outcome, ok, raised,
  not_found, bad_request, ◌>>=◌, ◌>>◌, require, is_ok,
}
use treasury_os_app.Auth.{
  TreasuryAction, bank_reconciliation, view, investigate, User, LegalEntity, assert_entity_access,
}
use treasury_os_app.Reconciliation.Records.{OpenItem}
use treasury_os_app.Reconciliation.Store.{Store, get_item, get_user, set_item}
use treasury_os_app.Reconciliation.Workflow.{
  Recorded, Request, start, assign, comment, resolve, close, reject, reopen, evidence, perform,
}

-- `_can_view`
unfoldable pub can_view : List LegalEntity → User → ℕ → Bool
can_view entities user e =
    is_ok (assert_entity_access entities user bank_reconciliation view (some e))

-- `_authorized_item`, for an action other than VIEW
pub authorized_item : Store → User → ℕ → TreasuryAction → Outcome OpenItem
unfolding can_view
authorized_item s user item_id action = elim (get_item item_id s.items) [
  | none ↦ raised not_found
  | some i ↦ do
    require (can_view s.entities user i.legal_entity_id) not_found
    _ ← assert_entity_access s.entities user bank_reconciliation action (some i.legal_entity_id)
    ok i
]

-- The permission that each endpoint asks for.
unfoldable pub required : Request → TreasuryAction
required start = investigate
required (assign _ _ _ _) = TreasuryAction.assign
required (comment _) = TreasuryAction.comment
required (evidence _ _) = TreasuryAction.comment
required (resolve _) = TreasuryAction.resolve
required (close _) = TreasuryAction.close
required (reject _) = TreasuryAction.close
required (reopen _) = TreasuryAction.close

-- An assignee is an active user who may investigate items of the entity.
pub can_work : Store → ℕ → Option User → Bool
can_work s entity none = false
can_work s entity (some u) =
    if u.is_active
    then is_ok (assert_entity_access s.entities u bank_reconciliation investigate (some entity))
    else false

pub check_assignee : Store → OpenItem → Request → Outcome (Unit {0})
unfolding can_work
check_assignee s i (assign who _ _ _) =
    require (can_work s i.legal_entity_id (get_user who s.users)) bad_request
check_assignee s i _ = ok tt

-- the writes of a service call
unfoldable pub commit : Store → Recorded → Store
commit s r = record s {
  items = set_item r.item s.items;
  events = r.event ∷ s.events;
  audits = r.audit ∷ s.audits;
}

unfoldable pub serve : (ℕ → Bool) → Store → ℕ → User → ℕ → Request → Outcome Store
unfolding authorized_item check_assignee required commit
serve is_alpha s now user item_id q = do
  item ← authorized_item s user item_id (required q)
  check_assignee s item q
  r ← perform is_alpha item now user.id q
  ok (commit s r)

-- one call of a session: the time, the user, the item and what is asked
pub record Call : Type 0 where
  pub now : ℕ
  pub user : User
  pub item_id : ℕ
  pub request : Request

abbrev pub or_rollback : Store → Outcome Store → Store
or_rollback s (ok s') = s'
or_rollback s (raised _) = s
