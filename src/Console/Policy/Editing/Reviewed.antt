-- ===== src/Console/Policy/Editing/Reviewed.antt =====
-- What the editor of console/src/policy/editor.tsx leaves alone in the form: its call backs change
-- the draft and whether it counts as typed, and nothing of the review or the request.
use agentic_warden.Prelude.{
  ℕ, zero, suc, Bool, true, Option, none, some, List, [], ◌∷◌, Text, text_eq, nat_eq, ◌==◌,
  Bool-cases, is_some, ◌≡◌, inl, inr, refl, ◌∙◌,
}
use agentic_warden.Console.Types.{Json}
use agentic_warden.Console.Policy.Yaml.{Document}
use agentic_warden.Console.Policy.Draft.{DraftState, draft_step}
use agentic_warden.Console.Policy.Editing.{
  Editor, Moves, EditingState, EditingEvent, editor_loaded, typed, happened, edit_draft,
  dispatch_changes, value_effect, mount_editor, render_value, render_values, load_editor,
  render_form, type_in, editing_step, rounds,
}

abbrev pub review_of : DraftState → Bool × Bool × Json
review_of s = (s.is_pending, s.dialog_open, s.review_value)

module _ (line_count : Text → ℕ) (line_from : Text → ℕ → ℕ) (read_doc : Text → Text)
    (replaced : Text → Text → Moves) (to_yaml to_text : Json → Text)
    (parse_document : Text → Document) where
  abbrev edit : DraftState → List Text → DraftState
  edit = edit_draft to_yaml to_text parse_document

  abbrev render : ℕ → DraftState → Editor → DraftState × Editor
  render = render_values line_count line_from read_doc replaced to_yaml to_text parse_document

  abbrev render_once : DraftState → Editor → DraftState × Editor
  render_once = render_value line_count line_from read_doc replaced to_yaml to_text parse_document

  edit_draft-review : (s : DraftState) (ts : List Text) → review_of (edit s ts) ≡ review_of s
  unfolding edit_draft draft_step
  edit_draft-review s [] = refl
  edit_draft-review s (t ∷ ts) = edit_draft-review (record s { draft = t; touched = true }) ts

  render_value-review : (s : DraftState) (e : Editor) → review_of (render_once s e).0 ≡ review_of s
  unfolding render_value
  render_value-review s e =
      edit_draft-review s (value_effect line_count line_from read_doc replaced s.draft e).1

  render_values-review :
      (n : ℕ) (s : DraftState) (e : Editor) → review_of (render n s e).0 ≡ review_of s
  unfolding render_values
  render_values-review zero s e = refl
  render_values-review (suc n) s e =
      let once = render_value-review s e in
      let (s', e') = render_once s e in
      elim (Bool-cases (s'.draft == s.draft)) [
        | inl h ↦ rw (h) once
        | inr h ↦ rw (h) (render_values-review n s' e' ∙ once)
      ]

  load_editor-review :
      (s : DraftState)
      → review_of
          (load_editor line_count line_from read_doc replaced to_yaml to_text parse_document s).form
        ≡ review_of s
  unfolding load_editor
  load_editor-review s =
      let (e, calls) = mount_editor line_count line_from read_doc replaced s.draft s.error_line in
      render_values-review rounds (edit s calls) e ∙ edit_draft-review s calls

  render_form-review :
      (s s' : DraftState) (o : Option Editor)
      → review_of
          (render_form line_count line_from read_doc replaced to_yaml to_text parse_document s s'
            o).form
        ≡ review_of s'
  unfolding render_form
  render_form-review s s' none = refl
  render_form-review s s' (some e) = render_values-review rounds s' e

  type_in-review :
      (s : DraftState) (o : Option Editor) (t : Text) (moves : Moves)
      → review_of
          (type_in line_count line_from read_doc replaced to_yaml to_text parse_document s o t
            moves).form
        ≡ review_of s
  unfolding type_in
  type_in-review s none t moves = refl
  type_in-review s (some e) t moves =
      edit_draft-review s (dispatch_changes line_count line_from t moves e).1

  -- What `NewRevision` itself makes of an event.
  abbrev pub form_after : EditingState → EditingEvent → DraftState
  form_after s editor_loaded = s.form
  form_after s (typed t moves) = s.form
  form_after s (happened event) = (draft_step to_yaml to_text parse_document s.form event).0

  -- The review and the request of the form after an event are those that `NewRevision` made of it.
  pub editing_step-review :
      (s : EditingState) (event : EditingEvent)
      → review_of
          (editing_step line_count line_from read_doc replaced to_yaml to_text parse_document s
            event).0.form
        ≡ review_of (form_after s event)
  unfolding editing_step
  editing_step-review s editor_loaded = elim (Bool-cases (is_some s.editor)) [
    | inl h ↦ rw (h) refl
    | inr h ↦ rw (h) (load_editor-review s.form)
  ]
  editing_step-review s (typed t moves) = type_in-review s.form s.editor t moves
  editing_step-review s (happened event) =
      render_form-review s.form (form_after s (happened event)) s.editor
