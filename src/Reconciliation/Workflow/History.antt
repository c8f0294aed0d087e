-- ===== src/Reconciliation/Workflow/History.antt =====
-- The history row that each action adds.
use treasury_os_app.Base.{ℕ, ◌≡◌, Bool, some, ok, arith}
use treasury_os_app.Reconciliation.Records.{OpenItem}
use treasury_os_app.Reconciliation.Workflow.{
  Recorded, start_investigation, assign_item, add_comment, add_evidence, resolve_item, close_item,
  reject_item, reopen_item, Request, start, assign, comment, resolve, close, reject, reopen,
  evidence, perform,
}

-- The row names the item, its status before and its status after.
abbrev pub Describes : OpenItem → ℕ → Recorded → Type 0
Describes i actor r =
    (r.event.open_item_id ≡ i.id)
    × (r.event.from_status ≡ some i.status)
    × (r.event.to_status ≡ some r.item.status)
    × (r.event.actor_user_id ≡ some actor)
    × (r.item.id ≡ i.id)

-- The history row of an action that is accepted names the item and the user, and the item's status
-- before and after the action.
pub perform-Describes :
    (is_alpha : ℕ → Bool) (i : OpenItem) (now actor : ℕ) (q : Request) (r : Recorded)
    → perform is_alpha i now actor q ≡ ok r
    → Describes i actor r
unfolding perform start_investigation assign_item add_comment add_evidence resolve_item close_item
    reject_item reopen_item
perform-Describes f i now actor start r h = ground arith
perform-Describes f i now actor (assign who reason due priority) r h = ground arith
perform-Describes f i now actor (comment text) r h = ground arith
perform-Describes f i now actor (evidence ref text) r h = ground arith
perform-Describes f i now actor (resolve reason) r h = ground arith
perform-Describes f i now actor (close text) r h = ground arith
perform-Describes f i now actor (reject reason) r h = ground arith
perform-Describes f i now actor (reopen reason) r h = ground arith
