-- ===== src/Reconciliation/Notes.antt =====
-- The texts that users give with an action: reasons, notes and references to evidence
-- (backend/app/services/reconciliation_open_item_service.py: `_clean_text`,
-- `validate_evidence_reference`). `is_alpha` is the character test of Python's Unicode tables.
use treasury_os_app.Base.{
  ℕ, Bool, false, ◌&&◌, ◌||◌, Option, none, some, [], ◌∷◌, ◌==◌, ltb, if◌then◌else◌, length,
  Outcome, ok, raised, unprocessable, ◌>>=◌,
}
use treasury_os_app.Text.{Text, strip, or_empty, codes, starts_with, has_sub, lower, is_empty}

abbrev pub min_reason_length : ℕ
min_reason_length = 10

abbrev pub min_assignment_reason_length : ℕ
min_assignment_reason_length = 3

abbrev pub max_note_length : ℕ
max_note_length = 4000

unfoldable pub clean_text : Option Text → ℕ → Outcome Text
clean_text value minimum =
    let text_value = strip (or_empty value) in
    if ltb (length text_value) minimum
    then raised unprocessable
    else if ltb max_note_length (length text_value)
    then raised unprocessable
    else ok text_value

module _ (is_alpha : ℕ → Bool) where
  -- `len(value) >= 2 and value[1] == ":" and value[0].isalpha()`
  pub is_drive_path : Text → Bool
  is_drive_path (c ∷ d ∷ rest) = d == b':' && is_alpha c
  is_drive_path _ = false

  pub looks_like_path : Text → Bool
  unfolding is_drive_path
  looks_like_path value =
      has_sub value (codes "\\")
      || starts_with value (codes "/")
      || starts_with value (codes "~")
      || has_sub value (codes "..")
      || is_drive_path value

  unfoldable pub validate_evidence_reference : Option Text → Outcome Text
  unfolding looks_like_path
  validate_evidence_reference reference =
      let value = strip (or_empty reference) in
      if is_empty value || ltb 255 (length value)
      then raised unprocessable
      else if has_sub value (codes "://")
          || looks_like_path value
          || starts_with (lower value) (codes "file:")
          || starts_with (lower value) (codes "data:")
      then raised unprocessable
      else ok value

-- `_clean_text(note, minimum=0) if note else None`
unfoldable pub optional_note : Option Text → Outcome (Option Text)
unfolding clean_text
optional_note none = ok none
optional_note (some []) = ok none
optional_note (some (c ∷ s)) = do text ← clean_text (some (c ∷ s)) 0; ok (some text)
