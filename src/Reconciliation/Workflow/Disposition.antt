-- ===== src/Reconciliation/Workflow/Disposition.antt =====
-- The fields that describe how an item was settled agree with its status.
use treasury_os_app.Base.{
  ℕ, ◌≡◌, sym, subst, Bool, true, Option, none, length, leb, holds, is_some, ok, arith,
}
use treasury_os_app.Text.{Text}
use treasury_os_app.Reconciliation.Records.{
  OpenItemStatus, OpenItemPriority, OpenItem, open_status, under_review,
}
use treasury_os_app.Reconciliation.Notes.{min_reason_length}
use treasury_os_app.Reconciliation.Workflow.{
  Recorded, start_investigation, assign_item, add_comment, add_evidence, resolve_item, close_item,
  reject_item, reopen_item, Request, start, assign, comment, resolve, close, reject, reopen,
  evidence, perform,
}

abbrev pub is_reason : Option Text → Bool
is_reason = holds (λ (t : Text). leb min_reason_length (length t))

abbrev pub IsUnresolved : OpenItem → Type 0
IsUnresolved i = (i.resolved_at ≡ none) × (i.resolved_by ≡ none) × (i.resolution_reason ≡ none)

abbrev pub IsResolved : OpenItem → Type 0
IsResolved i =
    (is_some i.resolved_at ≡ true)
    × (is_some i.resolved_by ≡ true)
    × (is_reason i.resolution_reason ≡ true)

abbrev pub IsUnclosed : OpenItem → Type 0
IsUnclosed i = (i.closed_at ≡ none) × (i.closed_by ≡ none)

abbrev pub IsUnrejected : OpenItem → Type 0
IsUnrejected i = (i.rejected_at ≡ none) × (i.rejection_reason ≡ none)

-- What the fields say of an item in each status.
abbrev pub Settled : OpenItemStatus → OpenItem → Type 0
Settled open_status i = IsUnresolved i × IsUnclosed i × IsUnrejected i
Settled under_review i = IsUnresolved i × IsUnclosed i × IsUnrejected i
Settled OpenItemStatus.resolved i = IsResolved i × IsUnclosed i × IsUnrejected i
Settled OpenItemStatus.closed i =
    IsResolved i × ((is_some i.closed_at ≡ true) × (is_some i.closed_by ≡ true)) × IsUnrejected i
Settled OpenItemStatus.rejected i =
    IsUnresolved i
    × IsUnclosed i
    × ((is_some i.rejected_at ≡ true) × (is_reason i.rejection_reason ≡ true))

unfoldable pub IsConsistent : OpenItem → Type 0
IsConsistent i = Settled i.status i

start_investigation-IsConsistent :
    (i : OpenItem) (actor : ℕ) (r : Recorded)
    → start_investigation i actor ≡ ok r
    → IsConsistent i
    → IsConsistent r.item
unfolding start_investigation IsConsistent
start_investigation-IsConsistent i actor r h c = ground arith

resolve_item-IsConsistent :
    (i : OpenItem) (now actor : ℕ) (reason : Option Text) (r : Recorded)
    → resolve_item i now actor reason ≡ ok r
    → IsConsistent i
    → IsConsistent r.item
unfolding resolve_item IsConsistent
resolve_item-IsConsistent i now actor reason r h c = ground arith

close_item-IsConsistent :
    (i : OpenItem) (now actor : ℕ) (note : Option Text) (r : Recorded)
    → close_item i now actor note ≡ ok r
    → IsConsistent i
    → IsConsistent r.item
unfolding close_item IsConsistent
close_item-IsConsistent i now actor _ r h c = ground arith

reject_item-IsConsistent :
    (i : OpenItem) (now actor : ℕ) (reason : Option Text) (r : Recorded)
    → reject_item i now actor reason ≡ ok r
    → IsConsistent i
    → IsConsistent r.item
unfolding reject_item IsConsistent
reject_item-IsConsistent i now actor reason r h c = ground arith

reopen_item-IsConsistent :
    (i : OpenItem) (actor : ℕ) (reason : Option Text) (r : Recorded)
    → reopen_item i actor reason ≡ ok r
    → IsConsistent r.item
unfolding reopen_item IsConsistent
reopen_item-IsConsistent i actor reason r h = ground arith

assign_item-IsConsistent :
    (i : OpenItem) (now actor who : ℕ) (reason : Option Text) (due : Option ℕ)
    (priority : Option OpenItemPriority) (r : Recorded)
    → assign_item i now actor who reason due priority ≡ ok r
    → IsConsistent i
    → IsConsistent r.item
unfolding assign_item IsConsistent
assign_item-IsConsistent i now actor who reason due priority r h c = ground arith

pub add_comment-item :
    (i : OpenItem) (actor : ℕ) (note : Option Text) (r : Recorded)
    → add_comment i actor note ≡ ok r
    → r.item ≡ i
unfolding add_comment
add_comment-item i actor _ r h = ground arith

pub add_evidence-item :
    (f : ℕ → Bool) (i : OpenItem) (actor : ℕ) (ref note : Option Text) (r : Recorded)
    → add_evidence f i actor ref note ≡ ok r
    → r.item ≡ i
unfolding add_evidence
add_evidence-item f i actor ref _ r h = ground arith

-- Every action on an item keeps the agreement of its status with the fields that say how it was
-- settled: an open item or one under review has no time, user or reason of a resolution, a closure
-- or a rejection; a resolved one has those of the resolution, a closed one also those of the
-- closure, a rejected one those of the rejection alone, each with a reason of ten characters or more.
pub perform-IsConsistent :
    (is_alpha : ℕ → Bool) (i : OpenItem) (now actor : ℕ) (q : Request) (r : Recorded)
    → perform is_alpha i now actor q ≡ ok r
    → IsConsistent i
    → IsConsistent r.item
unfolding perform
perform-IsConsistent f i now actor start r h c = start_investigation-IsConsistent i actor r h c
perform-IsConsistent f i now actor (assign who reason due priority) r h c =
    assign_item-IsConsistent i now actor who reason due priority r h c
perform-IsConsistent f i now actor (comment text) r h c =
    subst IsConsistent (sym (add_comment-item i actor text r h)) c
perform-IsConsistent f i now actor (evidence ref text) r h c =
    subst IsConsistent (sym (add_evidence-item f i actor ref text r h)) c
perform-IsConsistent f i now actor (resolve reason) r h c =
    resolve_item-IsConsistent i now actor reason r h c
perform-IsConsistent f i now actor (close text) r h c =
    close_item-IsConsistent i now actor text r h c
perform-IsConsistent f i now actor (reject reason) r h c =
    reject_item-IsConsistent i now actor reason r h c
perform-IsConsistent f i now actor (reopen reason) r h c =
    reopen_item-IsConsistent i actor reason r h
