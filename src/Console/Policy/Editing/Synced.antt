-- ===== src/Console/Policy/Editing/Synced.antt =====
-- The draft and the editor's document: that they agree, that their call backs end, and what the
-- agreement costs when the current revision changes.
use agentic_warden.Prelude.{
  ℕ, suc, ◌+◌, Bool, true, false, Option, none, some, List, Text, text_eq, nat_eq, ◌==◌, ==_iff,
  ==_refl, if◌then◌else◌, Bool-cases, Option-cases, ◌≡◌, ◌≢◌, inl, inr, refl, sym, ap, ◌∙◌, subst,
  arith,
}
use agentic_warden.Console.Types.{Json, Revision}
use agentic_warden.Console.Policy.Yaml.{Document}
use agentic_warden.Console.Policy.Draft.{
  DraftState, DraftEvent, current_changed, DraftEffect, current_yaml, draft_step, reseed,
}
use agentic_warden.Console.Policy.Editing.{render_value, dispatch_changes}
use agentic_warden.Console.Policy.Editing.{
  Editor, Moves, EditingState, EditingEvent, editor_loaded, typed, happened, value_effect,
  mount_editor, edit_draft, render_values, render_error_line, rounds, load_editor, render_form,
  type_in, editing_step,
}

-- An editor that is loaded shows the draft.
abbrev pub Shows : Option Editor → Text → Type 0
Shows none draft = Unit
Shows (some e) draft = e.doc ≡ draft

module _ (line_count : Text → ℕ) (line_from : Text → ℕ → ℕ) (read_doc : Text → Text)
    (replaced : Text → Text → Moves) (to_yaml to_text : Json → Text)
    (parse_document : Text → Document) where
  abbrev render : ℕ → DraftState → Editor → DraftState × Editor
  render = render_values line_count line_from read_doc replaced to_yaml to_text parse_document

  abbrev step : EditingState → EditingEvent → EditingState × List DraftEffect
  step = editing_step line_count line_from read_doc replaced to_yaml to_text parse_document

  -- What rendering comes to.
  abbrev settled : DraftState → Editor → DraftState × Editor
  settled s e = if e.doc == s.draft then (s, e) else (
    record s { draft = read_doc s.draft; touched = true },
    (value_effect line_count line_from read_doc replaced s.draft e).0,
  )

  abbrev render_once : DraftState → Editor → DraftState × Editor
  render_once = render_value line_count line_from read_doc replaced to_yaml to_text parse_document

  -- A rendering that leaves the draft as it is is the last one.
  render-stops :
      (n : ℕ) (s : DraftState) (e : Editor) (r : DraftState × Editor)
      → render_once s e ≡ r
      → (r.0.draft == s.draft) ≡ true
      → render (suc n) s e ≡ r
  unfolding render_values
  render-stops n s e r made same =
      ap (λ x. if x.0.draft == s.draft then x else render n x.0 x.1) made ∙ rw (same) refl

  render-again :
      (n : ℕ) (s : DraftState) (e : Editor) (r : DraftState × Editor)
      → render_once s e ≡ r
      → (r.0.draft == s.draft) ≡ false
      → render (suc n) s e ≡ render n r.0 r.1
  unfolding render_values
  render-again n s e r made other =
      ap (λ x. if x.0.draft == s.draft then x else render n x.0 x.1) made ∙ rw (other) refl

  render_value-shown : (s : DraftState) (e : Editor) → e.doc ≡ s.draft → render_once s e ≡ (s, e)
  unfolding render_value value_effect edit_draft
  render_value-shown s e h = rw ((==_iff e.doc s.draft).1 h) refl

  -- An effect that finds the draft in the editor does nothing.
  pub render-shown :
      (n : ℕ) (s : DraftState) (e : Editor) → e.doc ≡ s.draft → render (suc n) s e ≡ (s, e)
  render-shown n s e h = render-stops n s e (s, e) (render_value-shown s e h) (==_refl s.draft)

  -- The form and the editor after the editor's document was replaced.
  abbrev replaced_once : DraftState → Editor → DraftState × Editor
  replaced_once s e = (
    record s { draft = read_doc s.draft; touched = true },
    (dispatch_changes line_count line_from (read_doc s.draft) (replaced e.doc s.draft) e).0,
  )

  render_value-other :
      (s : DraftState) (e : Editor)
      → (e.doc == s.draft) ≡ false
      → render_once s e ≡ replaced_once s e
  unfolding render_value value_effect edit_draft draft_step dispatch_changes
  render_value-other s e h = rw (h) refl

  replaced_once-doc :
      (s : DraftState) (e : Editor) → (replaced_once s e).1.doc ≡ (replaced_once s e).0.draft
  unfolding dispatch_changes
  replaced_once-doc s e = refl

  settled-other :
      (s : DraftState) (e : Editor) → (e.doc == s.draft) ≡ false → settled s e ≡ replaced_once s e
  unfolding value_effect
  settled-other s e h = rw (h) refl

  render-settled : (n : ℕ) (s : DraftState) (e : Editor) → render (suc (suc n)) s e ≡ settled s e
  render-settled n s e = elim (Bool-cases (e.doc == s.draft)) [
    | inl same ↦ render-shown (suc n) s e ((==_iff e.doc s.draft).0 same) ∙ rw (same) refl
    | inr other ↦
        let made = render_value-other s e other in
        let (s', e') = replaced_once s e in
        elim (Bool-cases (read_doc s.draft == s.draft)) [
          | inl kept ↦ render-stops (suc n) s e (s', e') made kept ∙ sym (settled-other s e other)
          | inr new ↦
              render-again (suc n) s e (s', e') made new
              ∙ render-shown n s' e' (replaced_once-doc s e)
              ∙ sym (settled-other s e other)
        ]
  ]

  settled-doc : (s : DraftState) (e : Editor) → (settled s e).1.doc ≡ (settled s e).0.draft
  unfolding value_effect
  settled-doc s e = elim (Bool-cases (e.doc == s.draft)) [
    | inl same ↦ rw (same) ((==_iff e.doc s.draft).0 same)
    | inr other ↦ rw (other) refl
  ]

  -- The call backs between the form and the editor end: after two renderings every further one
  -- leaves all as it is, and the editor shows the draft.
  pub render_values-ends :
      (n : ℕ) (s : DraftState) (e : Editor)
      → (render (rounds + n) s e ≡ render rounds s e)
        × ((render rounds s e).1.doc ≡ (render rounds s e).0.draft)
  render_values-ends n s e = (
    ap (λ k. render k s e) (omega arith) ∙ render-settled n s e ∙ sym (render-settled 0 s e),
    ap (λ r. r.1.doc) (render-settled 0 s e)
        ∙ settled-doc s e
        ∙ sym (ap (λ r. r.0.draft) (render-settled 0 s e)),
  )

  abbrev mounted : DraftState → Editor × List Text
  mounted s = mount_editor line_count line_from read_doc replaced s.draft s.error_line

  render_error_line-doc :
      (a b : Option ℕ) (e : Editor)
      → (render_error_line line_count line_from read_doc replaced to_yaml to_text parse_document a b
          e).doc
        ≡ e.doc
  unfolding render_error_line
  render_error_line-doc none none e = refl
  render_error_line-doc (some a) (some b) e = ground arith
  render_error_line-doc (some a) none e = refl
  render_error_line-doc none (some b) e = refl

  render_form-Shows :
      (s s' : DraftState) (o : Option Editor)
      → let t =
          render_form line_count line_from read_doc replaced to_yaml to_text parse_document s s'
            o in
        Shows t.editor t.form.draft
  unfolding render_form
  render_form-Shows s s' none = tt
  render_form-Shows s s' (some e) =
      render_error_line-doc s.error_line s'.error_line (render rounds s' e).1
      ∙ (render_values-ends 0 s' e).1

  type_in-Shows :
      (s : DraftState) (o : Option Editor) (t : Text) (moves : Moves)
      → let u =
          type_in line_count line_from read_doc replaced to_yaml to_text parse_document s o t
            moves in
        Shows u.editor u.form.draft
  unfolding type_in draft_step
  type_in-Shows s none t moves = tt
  type_in-Shows s (some e) t moves = refl

  -- Whatever happens, the editor, once it is loaded, shows the draft.
  pub editing_step-Shows :
      (s : EditingState) (event : EditingEvent)
      → Shows s.editor s.form.draft
      → Shows (step s event).0.editor (step s event).0.form.draft
  unfolding editing_step load_editor
  editing_step-Shows s editor_loaded h = elim (Option-cases s.editor) [
    | inl none_yet ↦
        rw (none_yet)
          (render_values-ends 0
            (edit_draft to_yaml to_text parse_document s.form (mounted s.form).1)
            (mounted s.form).0).1
    | inr (e, there) ↦ rw (there) (subst (λ o. Shows o s.form.draft) there h)
  ]
  editing_step-Shows s (typed t moves) h = type_in-Shows s.form s.editor t moves
  editing_step-Shows s (happened event) h =
      render_form-Shows s.form (draft_step to_yaml to_text parse_document s.form event).0 s.editor

  settled_same : (s : DraftState) (e : Editor) → e.doc ≡ s.draft → (settled s e).0 ≡ s
  settled_same s e h = rw ((==_iff e.doc s.draft).1 h) refl

  settled_other :
      (s : DraftState) (e : Editor)
      → e.doc ≢ s.draft
      → (settled s e).0 ≡ record s { draft = read_doc s.draft; touched = true }
  settled_other s e h = elim (Bool-cases (e.doc == s.draft)) [
    | inl same ↦ absurd (h ((==_iff e.doc s.draft).0 same))
    | inr off ↦ rw (off) refl
  ]

  happened-form :
      (s : EditingState) (e : Editor) (event : DraftEvent)
      → s.editor ≡ some e
      → (step s (happened event)).0.form
        ≡ (settled (draft_step to_yaml to_text parse_document s.form event).0 e).0
  unfolding editing_step render_form
  happened-form s e event loaded =
      rw (loaded, render_form)
        (ap (λ r. r.0)
          (render-settled 0 (draft_step to_yaml to_text parse_document s.form event).0 e))

  happened-editor :
      (s : EditingState) (e : Editor) (event : DraftEvent)
      → s.editor ≡ some e
      → (e' : Editor) × ((step s (happened event)).0.editor ≡ some e')
  unfolding editing_step render_form
  happened-editor s e event loaded =
      let form' = (draft_step to_yaml to_text parse_document s.form event).0 in
      (
        render_error_line line_count line_from read_doc replaced to_yaml to_text parse_document
            s.form.error_line form'.error_line (render rounds form' e).1,
        rw (loaded, render_form) refl,
      )

  current_changed-untouched :
      (s : DraftState) (c : Option Revision)
      → s.touched ≡ false
      → (draft_step to_yaml to_text parse_document s (current_changed c true)).0
        ≡ record s { draft = current_yaml to_yaml c }
  unfolding draft_step reseed
  current_changed-untouched s c h = ground arith

  current_changed-touched :
      (s : DraftState) (c : Option Revision) (loaded : Bool)
      → s.touched ≡ true
      → (draft_step to_yaml to_text parse_document s (current_changed c loaded)).0 ≡ s
  unfolding draft_step reseed
  current_changed-touched s c loaded h = ground arith

  -- An editor that shows a draft that counts as typed keeps it.
  touched-stays :
      (s : EditingState) (e : Editor) (c : Option Revision) (loaded : Bool)
      → s.editor ≡ some e
      → e.doc ≡ s.form.draft
      → s.form.touched ≡ true
      → (step s (happened (current_changed c loaded))).0.form ≡ s.form
  touched-stays s e c loaded there shown h =
      let same = current_changed-touched s.form c loaded h in
      happened-form s e (current_changed c loaded) there
      ∙ ap (λ f. (settled f e).0) same
      ∙ settled_same s.form e shown

  -- Once the editor is loaded, the first change of the current revision that changes the text is
  -- taken for the operator's own typing: the draft becomes the text of that revision, it counts as
  -- typed, and no later change of the current revision reaches the draft.
  pub reseed-touched :
      (s : EditingState) (e : Editor) (c : Option Revision)
      → s.editor ≡ some e
      → e.doc ≡ s.form.draft
      → s.form.touched ≡ false
      → current_yaml to_yaml c ≢ s.form.draft
      → let t = (step s (happened (current_changed c true))).0 in
        (t.form.draft ≡ read_doc (current_yaml to_yaml c))
        × (t.form.touched ≡ true)
        × ((c' : Option Revision) (loaded : Bool)
            → (step t (happened (current_changed c' loaded))).0.form.draft ≡ t.form.draft)
  reseed-touched s e c there shown untouched other =
      let new = current_yaml to_yaml c in
      let t = (step s (happened (current_changed c true))).0 in
      let first : t.form ≡ record s.form { draft = read_doc new; touched = true } =
        happened-form s e (current_changed c true) there
        ∙ ap (λ f. (settled f e).0) (current_changed-untouched s.form c untouched)
        ∙ settled_other (record s.form { draft = new }) e (λ same. other (sym same ∙ shown)) in
      let (e', there') = happened-editor s e (current_changed c true) there in
      let shows =
        editing_step-Shows s (happened (current_changed c true))
          (subst (λ o. Shows o s.form.draft) (sym there) shown) in
      (
        ap (λ f. f.draft) first,
        ap (λ f. f.touched) first,
        λ c' loaded.
            ap (λ f. f.draft)
              (touched-stays t e' c' loaded there' (subst (λ o. Shows o t.form.draft) there' shows)
                (ap (λ f. f.touched) first)),
      )
