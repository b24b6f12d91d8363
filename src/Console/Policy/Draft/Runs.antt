-- ===== src/Console/Policy/Draft/Runs.antt =====
-- What becomes of the draft of `NewRevision` in console/src/screens/policy.tsx, whatever happens.
use agentic_warden.Prelude.{
  true, false, Option, List, [], ◌∷◌, Text, text_eq, nat_eq, All, ◌≡◌, refl, ◌∙◌, arith,
}
use agentic_warden.Console.Types.{Json, Revision}
use agentic_warden.Console.Policy.Yaml.{ParsedPolicy, valid, invalid, Document, parse_policy}
use agentic_warden.Console.Policy.Draft.{
  DraftState, DraftEvent, current_changed, edited, review_clicked, dialog_closed, apply_clicked,
  applied, refused, current_yaml, reseed, review, draft_step,
}

module _ (to_yaml to_text : Json → Text) (parse_document : Text → Document) where
  -- The state after some events.
  abbrev pub after_events : DraftState → List DraftEvent → DraftState
  after_events s [] = s
  after_events s (e ∷ es) = after_events (draft_step to_yaml to_text parse_document s e).0 es

  abbrev pub NotEdited : DraftEvent → Type 0
  NotEdited (edited value) = ⊥
  NotEdited _ = Unit

  review-draft :
      (s : DraftState)
      → ((review to_yaml to_text parse_document s).draft ≡ s.draft)
        × ((review to_yaml to_text parse_document s).touched ≡ s.touched)
  unfolding review
  review-draft s = go (parse_policy parse_document s.draft) refl
    where
      go :
          (r : ParsedPolicy)
          → parse_policy parse_document s.draft ≡ r
          → ((review to_yaml to_text parse_document s).draft ≡ s.draft)
            × ((review to_yaml to_text parse_document s).touched ≡ s.touched)
      go (invalid m l) e = (rw (e, review), rw (e, review))
      go (valid v) e = (rw (e, review), rw (e, review))

  step-draft :
      (s : DraftState) (e : DraftEvent)
      → s.touched ≡ true
      → NotEdited e
      → ((draft_step to_yaml to_text parse_document s e).0.draft ≡ s.draft)
        × ((draft_step to_yaml to_text parse_document s e).0.touched ≡ true)
  unfolding draft_step reseed
  step-draft s (current_changed current loaded) h n = ground arith
  step-draft s (edited value) h n = absurd n
  step-draft s review_clicked h n = let (a, b) = review-draft s in (a, b ∙ h)
  step-draft s dialog_closed h n = (refl, h)
  step-draft s apply_clicked h n = (refl, h)
  step-draft s applied h n = (refl, h)
  step-draft s (refused err) h n = (refl, h)

  after_events-draft :
      (s : DraftState) (es : List DraftEvent)
      → s.touched ≡ true
      → All NotEdited es
      → (after_events s es).draft ≡ s.draft
  after_events-draft s [] h n = refl
  after_events-draft s (e ∷ es) h (n, ns) =
      let (a, b) = step-draft s e h n in
      after_events-draft (draft_step to_yaml to_text parse_document s e).0 es b ns ∙ a

  -- What the operator has typed is never replaced: whatever happens after an edit, short of another
  -- edit, the draft is still the text of that edit.
  pub edited-draft :
      (s : DraftState) (value : Text) (es : List DraftEvent)
      → All NotEdited es
      → (after_events s (edited value ∷ es)).draft ≡ value
  unfolding draft_step
  edited-draft s value es n =
      after_events-draft (record s { draft = value; touched = true }) es refl n

  -- Until the operator types, the draft follows the current revision once that is loaded.
  pub current_changed-draft :
      (s : DraftState) (current : Option Revision)
      → s.touched ≡ false
      → (after_events s (current_changed current true ∷ [])).draft ≡ current_yaml to_yaml current
  unfolding draft_step reseed
  current_changed-draft s current h = ground arith
