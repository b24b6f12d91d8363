-- ===== src/Console/Policy/Session/Phases.antt =====
-- The runs of the policy screen of console/src/screens/policy.tsx: the phases that it goes through.
use agentic_warden.Prelude.{
  ℕ, Bool, true, false, Option, none, some, List, [], ◌∷◌, Text, text_eq, nat_eq, Bool-cases,
  is_some, ◌≡◌, inl, inr, refl, sym, subst, arith,
}
use agentic_warden.Console.Types.{Json, Revision, Query, is_success}
use agentic_warden.Console.Policy.Diff.{Part}
use agentic_warden.Console.Policy.Yaml.{ParsedPolicy, valid, invalid, Document, parse_policy}
use agentic_warden.Console.Policy.Draft.{
  DraftState, current_changed, edited, review_clicked, dialog_closed, apply_clicked, applied,
  refused, DraftEffect, posted, initial_draft, reseed, review, draft_step,
}
use agentic_warden.Console.Policy.Draft.Clicks.{apply_clicked-guard}
use agentic_warden.Console.Policy.Editing.{
  Moves, EditingState, EditingEvent, editor_loaded, typed, happened, editing_step, start_editing,
}
use agentic_warden.Console.Policy.Editing.Reviewed.{review_of, form_after, editing_step-review}
use agentic_warden.Console.Policy.Screen.{PolicyState, policy_step}
use agentic_warden.Console.Policy.Session.{
  PolicySession, SessionEvent, opened, row_toggled, queried, inside, hear, mount_form, pass_current,
  inside_step, session_step, start_session, CanHappenInside, CanHappenNow, edit, current_of,
  unchanged,
}
use agentic_warden.Console.Policy.Session.Protocol.{
  Phase, closed, writing, phase_in, phase_of, Sight, put_up, caused, seen_after, ScreenProtocol,
  quiet, opening, accepted, rejected, withdrawal, request, refusal, announcement,
}

module _ (line_count : Text → ℕ) (line_from : Text → ℕ → ℕ) (read_doc : Text → Text)
    (replaced : Text → Text → Moves) (to_yaml to_text : Json → Text)
    (parse_document : Text → Document) (diff : Text → Text → List Part) where
  abbrev edit_form : EditingState → EditingEvent → EditingState × List DraftEffect
  edit_form = edit line_count line_from read_doc replaced to_yaml to_text parse_document

  abbrev step : PolicySession → SessionEvent → PolicySession × List DraftEffect
  step = session_step line_count line_from read_doc replaced to_yaml to_text parse_document

  -- The runs of the screen.
  pub data SessionRun : PolicySession → List Sight → Type 0 where
    loaded : SessionRun start_session []
    onward :
        {s t : PolicySession} {seen : List Sight} {es : List DraftEffect}
        → SessionRun s seen
        → (e : SessionEvent) → CanHappenNow to_yaml to_text diff s e
        → step s e ≡ (t, es)
        → SessionRun t (seen_after s.editing e es seen)

  abbrev Seen : Phase → Option Text → List Sight → Type 0
  Seen = ScreenProtocol to_text parse_document

  -- Screen, form and what is seen fit together.
  abbrev Fits : PolicyState → Option EditingState → List Sight → Type 0
  Fits p none seen = (p.creating ≡ false) × Seen closed p.status seen
  Fits p (some form) seen =
      (p.creating ≡ true) × Seen (phase_in (review_of form.form)) p.status seen

  abbrev mounted_form : Bool → Query (List Revision) → Option EditingState → Option EditingState
  mounted_form = mount_form line_count line_from read_doc replaced to_yaml to_text parse_document

  abbrev after_event : EditingState → EditingEvent → DraftState
  after_event = form_after line_count line_from read_doc replaced to_yaml to_text parse_document

  -- The form stays as long as the screen does not hear that it is done.
  form-stays :
      (p : PolicyState) (q : Query (List Revision)) (form : EditingState) (e : EditingEvent)
      → (seen : List Sight) → p.creating ≡ true
      → Seen (phase_in (review_of (after_event form e))) p.status seen
      → Fits p (mounted_form p.creating q (some (edit_form form e).0)) seen
  unfolding mount_form
  form-stays p q form e seen c r =
      subst (λ b. Fits p (mounted_form b q (some (edit_form form e).0)) seen) (sym c)
        (
          c,
          subst (λ r'. Seen (phase_in r') p.status seen)
              (sym (
                editing_step-review line_count line_from read_doc replaced to_yaml to_text
                  parse_document form e))
              r,
        )

  review-Seen :
      (s : DraftState) (t : Option Text) (seen : List Sight)
      → (r : ParsedPolicy) → parse_policy parse_document s.draft ≡ r
      → Seen (phase_in (review_of s)) t seen
      → Seen
          (phase_in (review_of (review to_yaml to_text parse_document s)))
          t
          (put_up s.draft ∷ seen)
  unfolding review
  review-Seen s t seen (invalid m l) h r = rw (h, review) (rejected s.draft m l h r)
  review-Seen s t seen (valid v) h r = rw (h, review) (accepted s.draft v h r)

  inside-Fits :
      (p : PolicyState) (q : Query (List Revision)) (form : EditingState) (e : EditingEvent)
      → (seen : List Sight) → CanHappenInside to_yaml to_text diff (current_of q) form e
      → Fits p (some form) seen
      → let (form', fx) = edit_form form e in
        Fits
          (hear p fx)
          (mounted_form (hear p fx).creating q (some form'))
          (seen_after (some form) (inside e) fx seen)
  unfolding editing_step draft_step hear mount_form
  inside-Fits p q form editor_loaded seen can (c, r) = form-stays p q form editor_loaded seen c r
  inside-Fits p q form (typed t moves) seen can (c, r) =
      form-stays p q form (typed t moves) seen c r
  inside-Fits p q form (happened (current_changed x l)) seen can f = absurd can
  inside-Fits p q form (happened (edited t)) seen can f = absurd can
  inside-Fits p q form (happened review_clicked) seen can (c, r) =
      form-stays p q form (happened review_clicked) (put_up form.form.draft ∷ seen) c
        (review-Seen form.form p.status seen (parse_policy parse_document form.form.draft) refl r)
  inside-Fits p q form (happened dialog_closed) seen can (c, r) =
      form-stays p q form (happened dialog_closed) seen c (withdrawal r)
  inside-Fits p q form (happened apply_clicked) seen can (c, r) =
      let (shown, free) = apply_clicked-guard to_yaml to_text diff (current_of q) form.form can in
      let v = form.form.review_value in
      form-stays p q form (happened apply_clicked) (caused (posted v) ∷ seen) c (
        subst (λ b. Seen (writing v b true) p.status (caused (posted v) ∷ seen)) (sym shown)
          (request v (
            subst (λ b. Seen (writing v b false) p.status seen) shown
              (subst (λ b. Seen (writing v form.form.dialog_open b) p.status seen) free r))))
  inside-Fits p q form (happened applied) seen can (c, r) = (
    refl,
    announcement form.form.review_value (
        subst (λ b. Seen (writing form.form.review_value form.form.dialog_open b) p.status seen) can
          r),
  )
  inside-Fits p q form (happened (refused err)) seen can (c, r) =
      form-stays p q form (happened (refused err)) seen c (
        refusal (
          subst (λ b. Seen (writing form.form.review_value form.form.dialog_open b) p.status seen)
            can r))

  opened-Fits :
      (p : PolicyState) (q : Query (List Revision)) (o : Option EditingState)
      → (seen : List Sight) → Fits p o seen
      → Fits (record p { creating = true }) (mounted_form true q o) seen
  unfolding mount_form start_editing initial_draft
  opened-Fits p q none seen (c, r) = (refl, opening r)
  opened-Fits p q (some form) seen (c, r) = (refl, r)

  reseed-review :
      (c : Option Revision) (l : Bool) (s : DraftState)
      → review_of (reseed to_yaml to_text parse_document c l s) ≡ review_of s
  unfolding reseed
  reseed-review c l s = ground arith

  queried-Fits :
      (p : PolicyState) (q q' : Query (List Revision)) (o : Option EditingState)
      → (seen : List Sight) → Fits p o seen
      → Fits p
          (pass_current line_count line_from read_doc replaced to_yaml to_text parse_document q q'
            o)
          seen
  unfolding pass_current editing_step draft_step mount_form
  queried-Fits p q q' none seen f = f
  queried-Fits p q q' (some form) seen (c, r) =
      let e = happened (current_changed (current_of q') (is_success q'.status)) in
      let stays =
        subst (λ b. Fits p (mounted_form b q (some (edit_form form e).0)) seen) c
          (form-stays p q form e seen c (
            subst (λ r'. Seen (phase_in r') p.status seen)
              (sym (reseed-review (current_of q') (is_success q'.status) form.form)) r)) in
      elim (Bool-cases (unchanged to_yaml q q')) [
        | inl same ↦ rw (same) (c, r)
        | inr other ↦ rw (other) stays
      ]

  step-Fits :
      (s : PolicySession) (e : SessionEvent) (seen : List Sight)
      → CanHappenNow to_yaml to_text diff s e
      → Fits s.screen s.editing seen
      → Fits (step s e).0.screen (step s e).0.editing (seen_after s.editing e (step s e).1 seen)
  unfolding session_step inside_step policy_step
  step-Fits s opened seen can f = opened-Fits s.screen s.revisions s.editing seen f
  step-Fits s (row_toggled seq) seen can f = f
  step-Fits s (queried q) seen can f = queried-Fits s.screen s.revisions q s.editing seen f
  step-Fits s (inside e) seen (form, there, can) f =
      rw (there) (
        inside-Fits s.screen s.revisions form e seen can
          (subst (λ o. Fits s.screen o seen) there f))

  Run-Fits :
      {s : PolicySession} {seen : List Sight} → SessionRun s seen → Fits s.screen s.editing seen
  unfolding start_session
  Run-Fits loaded = (refl, quiet)
  Run-Fits (onward {s = s} {seen = seen} r e can p) =
      subst (λ r'. Fits r'.0.screen r'.0.editing (seen_after s.editing e r'.1 seen)) p
        (step-Fits s e seen can (Run-Fits r))

  Fits-protocol :
      (p : PolicyState) (o : Option EditingState) (seen : List Sight)
      → Fits p o seen
      → (p.creating ≡ is_some o) × Seen (phase_of o) p.status seen
  Fits-protocol p none seen f = f
  Fits-protocol p (some form) seen f = f

  -- Every run of the screen, with its form, its editor and its query, in which "Apply revision" is
  -- clicked only where the page offers it, is one of the protocol, whatever the order of the events:
  -- a request is made only from an open form, of the value that the dialog shows, which is the
  -- reading of the draft that was put up last with a valid text, and only one at a time; it is
  -- refused, and the form goes on, or it is announced once, with the two lists that it changes, and
  -- the form is gone until "New revision" is clicked. The announcement names the version of the value
  -- that was reviewed last, and the status line is the last announcement. The form is there exactly
  -- while `creating` holds.
  pub SessionRun-ScreenProtocol :
      {s : PolicySession} {seen : List Sight}
      → SessionRun s seen
      → (s.screen.creating ≡ is_some s.editing)
        × ScreenProtocol to_text parse_document (phase_of s.editing) s.screen.status seen
  SessionRun-ScreenProtocol {s} {seen} r = Fits-protocol s.screen s.editing seen (Run-Fits r)
