-- ===== src/Reconciliation/Workflow/Errors.antt =====
-- The errors of the actions on an item.
use treasury_os_app.Base.{
  ℕ, ◌≡◌, refl, Bool, true, false, Option, none, some, [], ◌∷◌, Outcome, bad_request, ◌>>=◌, ◌>>◌,
  require, raise_if, same_key, is_missing, is_missing->>=, arith,
}
use treasury_os_app.Text.{Text}
use treasury_os_app.Reconciliation.Records.{OpenItem, OpenItemStatus, under_review, open_status}
use treasury_os_app.Reconciliation.Notes.{
  clean_text, optional_note, validate_evidence_reference, min_assignment_reason_length,
  min_reason_length,
}
use treasury_os_app.Reconciliation.Workflow.{
  is_actionable, Request, start, assign, comment, evidence, resolve, close, reject, reopen, perform,
  start_investigation, assign_item, add_comment, add_evidence, resolve_item, close_item,
  reject_item, reopen_item, require_transition,
}

pub is_missing-require : (b : Bool) → is_missing (require b bad_request) ≡ false
is_missing-require true = refl
is_missing-require false = refl

is_missing-raise_if : (b : Bool) → is_missing (raise_if b bad_request) ≡ false
is_missing-raise_if true = refl
is_missing-raise_if false = refl

is_missing-clean_text : (value : Option Text) (n : ℕ) → is_missing (clean_text value n) ≡ false
unfolding clean_text
is_missing-clean_text value n = ground arith

is_missing-optional_note : (value : Option Text) → is_missing (optional_note value) ≡ false
unfolding optional_note
is_missing-optional_note none = refl
is_missing-optional_note (some []) = refl
is_missing-optional_note (some (c ∷ t)) =
    is_missing->>= (clean_text (some (c ∷ t)) 0) _ (is_missing-clean_text (some (c ∷ t)) 0)
      (λ a. refl)

is_missing-validate :
    (is_alpha : ℕ → Bool) (value : Option Text)
    → is_missing (validate_evidence_reference is_alpha value) ≡ false
unfolding validate_evidence_reference
is_missing-validate is_alpha value = ground arith

is_missing-require_transition :
    (i : OpenItem) (target : OpenItemStatus) → is_missing (require_transition i target) ≡ false
unfolding require_transition
is_missing-require_transition i target = is_missing-require _

-- an action that moves the item and takes a text
is_missing-step :
    {A : Type 0} (i : OpenItem) (target : OpenItemStatus) (m : Outcome A) {B : Type 0}
    (f : A → Outcome B)
    → is_missing m ≡ false
    → ((a : A) → is_missing (f a) ≡ false)
    → is_missing (require_transition i target >> (m >>= f)) ≡ false
is_missing-step i target m f h k =
    is_missing->>= (require_transition i target) _ (is_missing-require_transition i target)
      (λ _. is_missing->>= m f h k)

-- No action on an item answers with a 404.
pub is_missing-perform :
    (is_alpha : ℕ → Bool) (i : OpenItem) (now actor : ℕ) (q : Request)
    → is_missing (perform is_alpha i now actor q) ≡ false
unfolding perform start_investigation assign_item add_comment add_evidence resolve_item close_item
    reject_item reopen_item
is_missing-perform f i now actor start =
    is_missing->>= (require_transition i under_review) _
      (is_missing-require_transition i under_review) (λ _. refl)
is_missing-perform f i now actor (assign who reason due priority) =
    is_missing->>= (require (is_actionable i.status) bad_request) _ (is_missing-require _) (λ _.
      is_missing->>= (raise_if (same_key i.assigned_to (some who)) bad_request) _
        (is_missing-raise_if _)
        (λ _.
          is_missing->>= (clean_text reason min_assignment_reason_length) _
            (is_missing-clean_text reason min_assignment_reason_length) (λ _. refl)))
is_missing-perform f i now actor (comment note) =
    is_missing->>= (clean_text note 1) _ (is_missing-clean_text note 1) (λ _. refl)
is_missing-perform f i now actor (evidence reference note) =
    is_missing->>= (validate_evidence_reference f reference) _ (is_missing-validate f reference)
      (λ _. is_missing->>= (optional_note note) _ (is_missing-optional_note note) (λ _. refl))
is_missing-perform f i now actor (resolve reason) =
    is_missing-step i OpenItemStatus.resolved (clean_text reason min_reason_length) _
      (is_missing-clean_text reason min_reason_length) (λ _. refl)
is_missing-perform f i now actor (close note) =
    is_missing-step i OpenItemStatus.closed (optional_note note) _ (is_missing-optional_note note)
      (λ _. refl)
is_missing-perform f i now actor (reject reason) =
    is_missing-step i OpenItemStatus.rejected (clean_text reason min_reason_length) _
      (is_missing-clean_text reason min_reason_length) (λ _. refl)
is_missing-perform f i now actor (reopen reason) =
    is_missing-step i open_status (clean_text reason min_reason_length) _
      (is_missing-clean_text reason min_reason_length) (λ _. refl)
