-- ===== src/Tests/Queue.antt =====
-- The clerk and the stranger act on the open item.
use treasury_os_app.Base.{
  ℕ, ◌≡◌, ◌↔◌, refl, Bool, Option, none, some, Outcome, ok, raised, not_found,
}
use treasury_os_app.Text.{Text, codes, strip}
use treasury_os_app.Auth.{
  view, investigate, get_entity, assert_entity_access, get_authorized_scope, has_perm, same_module,
  same_action,
}
use treasury_os_app.Reconciliation.Records.{
  OpenItem, OpenItemStatus, OpenItemEventType, under_review,
}
use treasury_os_app.Reconciliation.Audit.{AuditAction}
use treasury_os_app.Reconciliation.Store.{Store, get_item}
use treasury_os_app.Reconciliation.Workflow.{
  Recorded, perform, start, resolve, start_investigation, resolve_item, reopen_item, record_event,
}
use treasury_os_app.Reconciliation.Workflow.Disposition.{IsConsistent, perform-IsConsistent}
use treasury_os_app.Reconciliation.Workflow.Rules.{
  Moved, SameSubject, ResolveSpec, perform-Moved, resolve_item-ResolveSpec,
}
use treasury_os_app.Reconciliation.WorkQueue.{serve, required}
use treasury_os_app.Reconciliation.WorkQueue.Access.{Permitted, serve-Permitted}
use treasury_os_app.Reconciliation.WorkQueue.Hidden.{IsHidden, serve-IsHidden}
use treasury_os_app.Reconciliation.WorkQueue.Log.{IsLogged, serve-IsLogged}
use treasury_os_app.Tests.{clerk, stranger, item_in, store, plain}

abbrev reason : Option Text
reason = some (codes " bank charge booked twice ")

abbrev or_else {ℓ} : {A : Type ℓ} → A → Outcome A → A
or_else a (ok b) = b
or_else a (raised _) = a

abbrev reviewed : OpenItem
reviewed = item_in under_review

abbrev nothing_done : Recorded
nothing_done =
    record_event reviewed OpenItemEventType.comment 5 AuditAction.comment_added none under_review
      none none none

-- the resolution of the item under review, and a reopening of a closed one
abbrev done : Recorded
done = or_else nothing_done (resolve_item reviewed 9 5 reason)

abbrev reopened : Recorded
reopened = or_else nothing_done (reopen_item (item_in OpenItemStatus.closed) 5 reason)

abbrev is_alpha : ℕ → Bool
is_alpha = plain.is_alpha

abbrev started : Store
started = or_else store (serve is_alpha store 9 clerk 50 start)

perform-IsConsistent_example : IsConsistent done.item
unfolding perform resolve_item IsConsistent strip
perform-IsConsistent_example =
    perform-IsConsistent is_alpha reviewed 9 5 (resolve reason) done refl
      ((refl, refl, refl), (refl, refl), (refl, refl))

perform-Moved_example :
    Moved (some OpenItemStatus.resolved) reviewed done.item × SameSubject reviewed done.item
unfolding perform resolve_item strip
perform-Moved_example = perform-Moved is_alpha reviewed 9 5 (resolve reason) done refl

resolve_item-ResolveSpec_example :
    ResolveSpec reviewed 9 5 reason (resolve_item reviewed 9 5 reason)
resolve_item-ResolveSpec_example = resolve_item-ResolveSpec reviewed 9 5 reason

serve-Permitted_example :
    (i : OpenItem) × (get_item 50 store.items ≡ some i)
    × Permitted store clerk view i.legal_entity_id
    × Permitted store clerk investigate i.legal_entity_id
unfolding serve perform start_investigation assert_entity_access get_authorized_scope get_entity
    has_perm same_module same_action required
serve-Permitted_example = serve-Permitted is_alpha store 9 clerk 50 start started refl

serve-IsHidden_example :
    (serve is_alpha store 9 stranger 50 start ≡ raised not_found) ↔ IsHidden store stranger 50
serve-IsHidden_example = serve-IsHidden is_alpha store 9 stranger 50 start

serve-IsLogged_example : IsLogged started
unfolding serve perform start_investigation assert_entity_access get_authorized_scope get_entity
    has_perm same_module same_action required IsConsistent
serve-IsLogged_example = serve-IsLogged is_alpha store 9 clerk 50 start started refl (record {
  tracked = ((refl, ((refl, refl, refl), (refl, refl), (refl, refl))), tt);
  chained = (refl, refl, tt);
})
