-- ===== src/Reconciliation/Workflow/Rules.antt =====
-- When an action on an item is accepted, on every branch.
use treasury_os_app.Base.{
  ℕ, ◌≡◌, refl, sym, subst, inl, ◌⊎◌, Bool, true, false, ◌&&◌, Option, none, some, length, leb,
  Outcome, ok, raised, bad_request, unprocessable, arith,
}
use treasury_os_app.Text.{Text, strip, or_empty}
use treasury_os_app.Reconciliation.Records.{
  OpenItemStatus, OpenItemPriority, OpenItem, open_status, under_review,
}
use treasury_os_app.Reconciliation.Notes.{min_reason_length, max_note_length}
use treasury_os_app.Reconciliation.Workflow.{
  allowed, Recorded, Request, start, assign, comment, resolve, close, reject, reopen, evidence,
  perform, start_investigation, assign_item, add_comment, add_evidence, resolve_item, close_item,
  reject_item, reopen_item,
}
use treasury_os_app.Reconciliation.Workflow.Disposition.{add_comment-item, add_evidence-item}

-- The status that a request asks for, if it asks for one.
abbrev pub target : Request → Option OpenItemStatus
target start = some under_review
target (resolve _) = some OpenItemStatus.resolved
target (close _) = some OpenItemStatus.closed
target (reject _) = some OpenItemStatus.rejected
target (reopen _) = some open_status
target _ = none

-- An accepted action moves the item along the table of transitions, or not at all if it asks for no
-- status; and it keeps the item's identity and what the engine said of it.
abbrev pub Moved : Option OpenItemStatus → OpenItem → OpenItem → Type 0
Moved none i j = j.status ≡ i.status
Moved (some s) i j = (j.status ≡ s) × (allowed i.status s ≡ true)

abbrev pub SameSubject : OpenItem → OpenItem → Type 0
SameSubject i j =
    (j.id ≡ i.id)
    × (j.run_id ≡ i.run_id)
    × (j.legal_entity_id ≡ i.legal_entity_id)
    × (j.bank_account_id ≡ i.bank_account_id)
    × (j.source_key ≡ i.source_key)
    × (j.amount ≡ i.amount)
    × (j.currency_code ≡ i.currency_code)
    × (j.description ≡ i.description)
    × (j.reason ≡ i.reason)
    × (j.item_date ≡ i.item_date)

start_investigation-SameSubject :
    (i : OpenItem) (actor : ℕ) (r : Recorded)
    → start_investigation i actor ≡ ok r
    → SameSubject i r.item
unfolding start_investigation
start_investigation-SameSubject i actor r h = ground arith

assign_item-SameSubject :
    (i : OpenItem) (now actor who : ℕ) (reason : Option Text) (due : Option ℕ)
    (priority : Option OpenItemPriority) (r : Recorded)
    → assign_item i now actor who reason due priority ≡ ok r
    → SameSubject i r.item
unfolding assign_item
assign_item-SameSubject i now actor who reason due priority r h = ground arith

resolve_item-SameSubject :
    (i : OpenItem) (now actor : ℕ) (reason : Option Text) (r : Recorded)
    → resolve_item i now actor reason ≡ ok r
    → SameSubject i r.item
unfolding resolve_item
resolve_item-SameSubject i now actor reason r h = ground arith

close_item-SameSubject :
    (i : OpenItem) (now actor : ℕ) (text : Option Text) (r : Recorded)
    → close_item i now actor text ≡ ok r
    → SameSubject i r.item
unfolding close_item
close_item-SameSubject i now actor text r h = ground arith

reject_item-SameSubject :
    (i : OpenItem) (now actor : ℕ) (reason : Option Text) (r : Recorded)
    → reject_item i now actor reason ≡ ok r
    → SameSubject i r.item
unfolding reject_item
reject_item-SameSubject i now actor reason r h = ground arith

reopen_item-SameSubject :
    (i : OpenItem) (actor : ℕ) (reason : Option Text) (r : Recorded)
    → reopen_item i actor reason ≡ ok r
    → SameSubject i r.item
unfolding reopen_item
reopen_item-SameSubject i actor reason r h = ground arith

SameSubject-refl : (i : OpenItem) → SameSubject i i
SameSubject-refl i = (refl, refl, refl, refl, refl, refl, refl, refl, refl, refl)

-- An action that is accepted moves the item to the status that it asks for, which the table of
-- transitions allows from the one it had, or leaves the status alone if it asks for none; and it
-- never touches the item's identity, its amount or what the engine recorded of it.
pub perform-Moved :
    (is_alpha : ℕ → Bool) (i : OpenItem) (now actor : ℕ) (q : Request) (r : Recorded)
    → perform is_alpha i now actor q ≡ ok r
    → Moved (target q) i r.item × SameSubject i r.item
unfolding perform start_investigation assign_item add_comment add_evidence resolve_item close_item
    reject_item reopen_item
perform-Moved f i now actor start r h = (ground arith, start_investigation-SameSubject i actor r h)
perform-Moved f i now actor (assign who reason due priority) r h =
    (ground arith, assign_item-SameSubject i now actor who reason due priority r h)
perform-Moved f i now actor (resolve reason) r h =
    (ground arith, resolve_item-SameSubject i now actor reason r h)
perform-Moved f i now actor (close text) r h =
    (ground arith, close_item-SameSubject i now actor text r h)
perform-Moved f i now actor (reject reason) r h =
    (ground arith, reject_item-SameSubject i now actor reason r h)
perform-Moved f i now actor (reopen reason) r h =
    (ground arith, reopen_item-SameSubject i actor reason r h)
perform-Moved f i now actor (comment text) r h =
    subst (λ j. (j.status ≡ i.status) × SameSubject i j) (sym (add_comment-item i actor text r h))
      (refl, SameSubject-refl i)
perform-Moved f i now actor (evidence ref text) r h =
    subst (λ j. (j.status ≡ i.status) × SameSubject i j)
      (sym (add_evidence-item f i actor ref text r h)) (refl, SameSubject-refl i)

-- An action that goes through on a closed or rejected item leaves the item exactly as it is, or
-- reopens it.
pub perform-settled :
    (is_alpha : ℕ → Bool) (i : OpenItem) (now actor : ℕ) (q : Request) (r : Recorded)
    → (i.status ≡ OpenItemStatus.closed) ⊎ (i.status ≡ OpenItemStatus.rejected)
    → perform is_alpha i now actor q ≡ ok r
    → (r.item ≡ i) ⊎ (r.item.status ≡ open_status)
unfolding perform start_investigation assign_item resolve_item close_item reject_item reopen_item
perform-settled f i now actor start r s h = ground arith
perform-settled f i now actor (assign who reason due priority) r s h = ground arith
perform-settled f i now actor (comment text) r s h = inl (add_comment-item i actor text r h)
perform-settled f i now actor (evidence ref text) r s h =
    inl (add_evidence-item f i actor ref text r h)
perform-settled f i now actor (resolve reason) r s h = ground arith
perform-settled f i now actor (close text) r s h = ground arith
perform-settled f i now actor (reject reason) r s h = ground arith
perform-settled f i now actor (reopen reason) r s h = ground arith

-- A reason that `clean_text` takes: after trimming, at least the minimum and at most 4000 long.
abbrev pub is_acceptable : Option Text → ℕ → Bool
is_acceptable value minimum =
    leb minimum (length (strip (or_empty value)))
    && leb (length (strip (or_empty value))) max_note_length

-- What a resolution may answer.
abbrev pub ResolveSpec : OpenItem → ℕ → ℕ → Option Text → Outcome Recorded → Type 0
ResolveSpec i now actor reason (raised e) =
    ((allowed i.status OpenItemStatus.resolved ≡ false) × (e ≡ bad_request))
    ⊎ ((allowed i.status OpenItemStatus.resolved ≡ true)
        × (is_acceptable reason min_reason_length ≡ false)
        × (e ≡ unprocessable))
ResolveSpec i now actor reason (ok r) =
    (i.status ≡ under_review)
    × (is_acceptable reason min_reason_length ≡ true)
    × (r.item ≡ record i {
      status = OpenItemStatus.resolved;
      resolved_at = some now;
      resolved_by = some actor;
      resolution_reason = some (strip (or_empty reason));
    })

-- A resolution of an item that is not under review is a 400; of one under review it is a 422 if the
-- reason, trimmed, has fewer than 10 or more than 4000 characters, and otherwise it sets the status,
-- the time, the user and the trimmed reason, and no other field.
pub resolve_item-ResolveSpec :
    (i : OpenItem) (now actor : ℕ) (reason : Option Text)
    → ResolveSpec i now actor reason (resolve_item i now actor reason)
unfolding resolve_item
resolve_item-ResolveSpec i now actor reason = ground arith
