-- ===== src/Console/Policy/Session/Typing.antt =====
-- What the operator has typed in console/src/screens/policy.tsx, while the screen goes on around it.
use agentic_warden.Prelude.{
  ℕ, Bool, true, false, Option, none, some, List, [], ◌∷◌, Text, text_eq, nat_eq, ==_refl,
  Bool-cases, Option-cases, All, ◌≡◌, inl, inr, refl, ap, ◌∙◌, subst, arith,
}
use agentic_warden.Console.Types.{Json, Revision, Query, is_success}
use agentic_warden.Console.Policy.Yaml.{Document}
use agentic_warden.Console.Policy.Draft.{
  DraftState, current_changed, DraftEffect, reseed, draft_step,
}
use agentic_warden.Console.Policy.Editing.{
  Editor, Moves, EditingState, EditingEvent, happened, render_form, render_error_line, editing_step,
  start_editing,
}
use agentic_warden.Console.Policy.Editing.Synced.{Shows, editing_step-Shows, render-shown}
use agentic_warden.Console.Policy.Session.{
  PolicySession, SessionEvent, opened, row_toggled, queried, inside, hear, mount_form, pass_current,
  inside_step, session_step, start_session, edit, current_of, unchanged,
}
use agentic_warden.Console.Policy.Diff.{Part}
use agentic_warden.Console.Policy.Session.Protocol.{Sight}
use agentic_warden.Console.Policy.Session.Phases.{SessionRun, loaded, onward}

module _ (line_count : Text → ℕ) (line_from : Text → ℕ → ℕ) (read_doc : Text → Text)
    (replaced : Text → Text → Moves) (to_yaml to_text : Json → Text)
    (parse_document : Text → Document) where
  abbrev edit_form : EditingState → EditingEvent → EditingState × List DraftEffect
  edit_form = edit line_count line_from read_doc replaced to_yaml to_text parse_document

  abbrev step : PolicySession → SessionEvent → PolicySession × List DraftEffect
  step = session_step line_count line_from read_doc replaced to_yaml to_text parse_document

  abbrev mounted_form : Bool → Query (List Revision) → Option EditingState → Option EditingState
  mounted_form = mount_form line_count line_from read_doc replaced to_yaml to_text parse_document

  abbrev passed :
      Query (List Revision) → Query (List Revision) → Option EditingState → Option EditingState
  passed = pass_current line_count line_from read_doc replaced to_yaml to_text parse_document

  -- The editor of a form shows its draft.
  abbrev ShowsDraft : Option EditingState → Type 0
  ShowsDraft none = Unit
  ShowsDraft (some form) = Shows form.editor form.form.draft

  edit-ShowsDraft :
      (form : EditingState) (e : EditingEvent)
      → ShowsDraft (some form)
      → ShowsDraft (some (edit_form form e).0)
  edit-ShowsDraft form e h =
      editing_step-Shows line_count line_from read_doc replaced to_yaml to_text parse_document form
        e h

  mount_form-ShowsDraft :
      (b : Bool) (q : Query (List Revision)) (o : Option EditingState)
      → ShowsDraft o
      → ShowsDraft (mounted_form b q o)
  unfolding mount_form start_editing
  mount_form-ShowsDraft false q o h = tt
  mount_form-ShowsDraft true q none h = tt
  mount_form-ShowsDraft true q (some form) h = h

  pass_current-ShowsDraft :
      (q q' : Query (List Revision)) (o : Option EditingState)
      → ShowsDraft o
      → ShowsDraft (passed q q' o)
  unfolding pass_current
  pass_current-ShowsDraft q q' none h = tt
  pass_current-ShowsDraft q q' (some form) h = elim (Bool-cases (unchanged to_yaml q q')) [
    | inl same ↦ rw (same) h
    | inr other ↦
        rw (other) (
          edit-ShowsDraft form (happened (current_changed (current_of q') (is_success q'.status)))
            h)
  ]

  step-ShowsDraft :
      (s : PolicySession) (e : SessionEvent)
      → ShowsDraft s.editing
      → ShowsDraft (step s e).0.editing
  unfolding session_step inside_step
  step-ShowsDraft s opened h = mount_form-ShowsDraft true s.revisions s.editing h
  step-ShowsDraft s (row_toggled seq) h = h
  step-ShowsDraft s (queried q) h = pass_current-ShowsDraft s.revisions q s.editing h
  step-ShowsDraft s (inside e) h = elim (Option-cases s.editing) [
    | inl gone ↦ rw (gone) (subst ShowsDraft gone h)
    | inr (form, there) ↦
        let (form', fx) = edit_form form e in
        rw (there) (
          mount_form-ShowsDraft (hear s.screen fx).creating s.revisions (some form')
            (edit-ShowsDraft form e (subst ShowsDraft there h)))
  ]

  Run-ShowsDraft :
      {diff : Text → Text → List Part} {s : PolicySession} {seen : List Sight}
      → SessionRun line_count line_from read_doc replaced to_yaml to_text parse_document diff s seen
      → ShowsDraft s.editing
  unfolding start_session
  Run-ShowsDraft loaded = tt
  Run-ShowsDraft (onward {s = s} r e can p) =
      subst (λ r'. ShowsDraft r'.0.editing) p (step-ShowsDraft s e (Run-ShowsDraft r))

  same_line :
      (o : Option ℕ) (e : Editor)
      → render_error_line line_count line_from read_doc replaced to_yaml to_text parse_document o o
          e
        ≡ e
  unfolding render_error_line
  same_line none e = refl
  same_line (some n) e = rw (==_refl n) refl

  -- A rendering of an unchanged form with its editor changes nothing.
  render_form-same :
      (s : DraftState) (o : Option Editor)
      → Shows o s.draft
      → render_form line_count line_from read_doc replaced to_yaml to_text parse_document s s o
        ≡ record { form = s; editor = o }
  unfolding render_form
  render_form-same s none h = refl
  render_form-same s (some e) h =
      let quiet =
        render-shown line_count line_from read_doc replaced to_yaml to_text parse_document 1 s e
          h in
      ap
        (λ r. record {
          form = r.0;
          editor = some (
              render_error_line line_count line_from read_doc replaced to_yaml to_text
                parse_document s.error_line s.error_line r.1);
        })
        quiet
      ∙ ap (λ e'. record { form = s; editor = some e' }) (same_line s.error_line e)

  reseed-typed :
      (c : Option Revision) (l : Bool) (s : DraftState)
      → s.touched ≡ true
      → reseed to_yaml to_text parse_document c l s ≡ s
  unfolding reseed
  reseed-typed c l s h = ground arith

  pass_current-typed :
      (q q' : Query (List Revision)) (form : EditingState)
      → form.form.touched ≡ true
      → ShowsDraft (some form)
      → passed q q' (some form) ≡ some form
  unfolding pass_current editing_step draft_step
  pass_current-typed q q' form typed_in h = elim (Bool-cases (unchanged to_yaml q q')) [
    | inl same ↦ rw (same) refl
    | inr other ↦ rw (other) (
        ap
          (λ f. some (
            render_form line_count line_from read_doc replaced to_yaml to_text parse_document
              form.form f form.editor))
          (reseed-typed (current_of q') (is_success q'.status) form.form typed_in)
        ∙ ap (λ f. some f) (render_form-same form.form form.editor h))
  ]

  -- What happens on the screen around the form.
  abbrev pub IsAround : SessionEvent → Type 0
  IsAround (inside e) = ⊥
  IsAround _ = Unit

  step-typed :
      (s : PolicySession) (form : EditingState) (e : SessionEvent)
      → IsAround e
      → form.form.touched ≡ true
      → ShowsDraft (some form)
      → s.editing ≡ some form
      → (step s e).0.editing ≡ some form
  unfolding session_step mount_form
  step-typed s form opened a t h there = rw (there) refl
  step-typed s form (row_toggled seq) a t h there = there
  step-typed s form (queried q) a t h there =
      ap (λ o. passed s.revisions q o) there ∙ pass_current-typed s.revisions q form t h
  step-typed s form (inside e) a t h there = absurd a

  -- The screen after some events.
  abbrev pub session_after : PolicySession → List SessionEvent → PolicySession
  session_after s [] = s
  session_after s (e ∷ es) = session_after (step s e).0 es

  after-typed :
      (s : PolicySession) (form : EditingState) (events : List SessionEvent)
      → All IsAround events
      → form.form.touched ≡ true
      → ShowsDraft (some form)
      → s.editing ≡ some form
      → (session_after s events).editing ≡ some form
  after-typed s form [] a t h there = there
  after-typed s form (e ∷ es) (a, as') t h there =
      after-typed (step s e).0 form es as' t h (step-typed s form e a t h there)

  -- In every run of the screen, a form in which the operator has typed stays as it is, with its
  -- draft, its messages, its dialog and its editor, whatever happens around it: another answer of
  -- the revisions query, or its failure, rows that are unfolded, and "New revision" once more.
  pub session_after-typed :
      {diff : Text → Text → List Part} {s : PolicySession} {seen : List Sight}
      → SessionRun line_count line_from read_doc replaced to_yaml to_text parse_document diff s seen
      → (form : EditingState) → s.editing ≡ some form
      → form.form.touched ≡ true
      → (events : List SessionEvent) → All IsAround events
      → (session_after s events).editing ≡ some form
  session_after-typed {diff} {s} r form there t events a =
      after-typed s form events a t (subst ShowsDraft there (Run-ShowsDraft r)) there
