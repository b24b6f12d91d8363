-- ===== src/Console/Policy/Editing/Marked.antt =====
-- Which line of the editor is marked after a review.
use agentic_warden.Prelude.{
  ℕ, suc, ◌≤◌, Option, none, some, ◌++◌, Text, units, text_eq, nat_eq, ◌==◌, ==_iff, ==_refl,
  Bool-cases, first?, ◌≡◌, ◌≢◌, inl, inr, refl, ap, ◌∙◌, arith,
}
use agentic_warden.Prelude.{min, max}
use agentic_warden.View.{decimal}
use agentic_warden.Console.Types.{Json}
use agentic_warden.Console.Policy.Yaml.{YamlError, Document, invalid, parse_policy}
use agentic_warden.Console.Policy.Yaml.Lines.{count_breaks, parse_policy-line}
use agentic_warden.Console.Policy.Draft.{DraftState, review_clicked, review, draft_step}
use agentic_warden.Console.Policy.Editing.Synced.{render-shown}
use agentic_warden.Console.Policy.Editing.{
  Editor, Moves, EditingState, happened, render_error_line, render_form, editing_step,
}

module _ (line_count : Text → ℕ) (line_from : Text → ℕ → ℕ) (read_doc : Text → Text)
    (replaced : Text → Text → Moves) (to_yaml to_text : Json → Text)
    (parse_document : Text → Document) where
  abbrev step_review : EditingState → EditingState
  step_review s =
      (editing_step line_count line_from read_doc replaced to_yaml to_text parse_document s
        (happened review_clicked)).0

  review-invalid :
      (s : DraftState) (message : Text) (line : ℕ)
      → parse_policy parse_document s.draft ≡ invalid message line
      → review to_yaml to_text parse_document s ≡ record s {
        error = some (units "Line " ++ decimal line ++ units ": " ++ message);
        error_line = some line;
      }
  unfolding review
  review-invalid s message line h = rw (h, review) refl

  abbrev rendered : DraftState → DraftState → Option Editor → EditingState
  rendered = render_form line_count line_from read_doc replaced to_yaml to_text parse_document

  step_review-render :
      (s : EditingState)
      → step_review s ≡ rendered s.form (review to_yaml to_text parse_document s.form) s.editor
  unfolding editing_step draft_step
  step_review-render s = refl

  -- A form that changes but for its draft leaves the editor's document as it is.
  render_form-shown :
      (f f' : DraftState) (e : Editor)
      → e.doc ≡ f'.draft
      → rendered f f' (some e) ≡ record {
        form = f';
        editor = some (
            render_error_line line_count line_from read_doc replaced to_yaml to_text parse_document
              f.error_line f'.error_line e);
      }
  unfolding render_form
  render_form-shown f f' e h =
      ap
        (λ r. record {
          form = r.0;
          editor = some (
              render_error_line line_count line_from read_doc replaced to_yaml to_text
                parse_document f.error_line f'.error_line r.1);
        })
        (render-shown line_count line_from read_doc replaced to_yaml to_text parse_document 1 f' e
          h)

  -- What a review of a text that is refused makes of the form and of an editor that shows the draft.
  step_review-invalid :
      (s : EditingState) (e : Editor) (message : Text) (line : ℕ)
      → s.editor ≡ some e
      → e.doc ≡ s.form.draft
      → parse_policy parse_document s.form.draft ≡ invalid message line
      → step_review s ≡ record {
        form = record s.form {
          error = some (units "Line " ++ decimal line ++ units ": " ++ message);
          error_line = some line;
        };
        editor = some (
            render_error_line line_count line_from read_doc replaced to_yaml to_text parse_document
              s.form.error_line
              (some line)
              e);
      }
  step_review-invalid s e message line there shown h =
      step_review-render s
      ∙ ap (λ o. rendered s.form (review to_yaml to_text parse_document s.form) o) there
      ∙ ap (λ f. rendered s.form f (some e)) (review-invalid s.form message line h)
      ∙ render_form-shown s.form _ e shown

  in-lines :
      (t : Text) (message : Text) (line : ℕ)
      → line_count t ≡ suc (count_breaks t)
      → ((err : YamlError) (n : ℕ)
          → err.line ≡ some n
          → first? (parse_document t).errors ≡ some err
          → 1 ≤ n)
      → parse_policy parse_document t ≡ invalid message line
      → min (max line 1) (line_count t) ≡ line
  in-lines t message line lines from_one h =
      ground (arith, parse_policy-line parse_document t message line from_one h)

  -- The mark on a line of a document.
  abbrev marked : Text → ℕ → Editor
  marked doc line = record { doc = doc; mark = some (line_from doc line) }

  changed-mark :
      (before : Option ℕ) (line : ℕ) (e : Editor)
      → before ≢ some line
      → render_error_line line_count line_from read_doc replaced to_yaml to_text parse_document
          before
          (some line)
          e
        ≡ marked e.doc (min (max line 1) (line_count e.doc))
  unfolding render_error_line
  changed-mark none line e h = refl
  changed-mark (some a) line e h = elim (Bool-cases (a == line)) [
    | inl same ↦ absurd (h (ap some ((==_iff a line).0 same)))
    | inr other ↦ rw (other) refl
  ]

  same-mark :
      (line : ℕ) (e : Editor)
      → render_error_line line_count line_from read_doc replaced to_yaml to_text parse_document
          (some line)
          (some line)
          e
        ≡ e
  unfolding render_error_line
  same-mark line e = rw (==_refl line) refl

  -- When a text is refused, the mark stands on the line that the message names, without any line
  -- being put back into the range, if the refusal before named another line or there was none. If it
  -- named the same line, the mark is not touched: it stays where the edits in between have moved it,
  -- or gone. This takes an editor that shows the draft and that has one line more than line feeds, and
  -- a parser that counts lines from 1.
  pub step_review-mark :
      (s : EditingState) (e : Editor) (message : Text) (line : ℕ)
      → s.editor ≡ some e
      → e.doc ≡ s.form.draft
      → line_count s.form.draft ≡ suc (count_breaks s.form.draft)
      → ((err : YamlError) (n : ℕ)
          → err.line ≡ some n
          → first? (parse_document s.form.draft).errors ≡ some err
          → 1 ≤ n)
      → parse_policy parse_document s.form.draft ≡ invalid message line
      → ((step_review s).form.error ≡ some (units "Line " ++ decimal line ++ units ": " ++ message))
        × (s.form.error_line ≢ some line
            → (step_review s).editor
              ≡ some (record { doc = s.form.draft; mark = some (line_from s.form.draft line) }))
        × (s.form.error_line ≡ some line → (step_review s).editor ≡ some e)
  step_review-mark s e message line there shown lines from_one h =
      let made = step_review-invalid s e message line there shown h in
      (
        ap (λ t. t.form.error) made,
        λ fresh.
            ap (λ t. t.editor) made
            ∙ ap some (
                changed-mark s.form.error_line line e fresh
                ∙ ap (λ d. marked d (min (max line 1) (line_count d))) shown
                ∙ ap (marked s.form.draft) (in-lines s.form.draft message line lines from_one h)),
        λ old. ap (λ t. t.editor) made ∙ rw old (ap some (same-mark line e)),
      )
