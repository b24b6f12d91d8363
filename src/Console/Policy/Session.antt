-- ===== src/Console/Policy/Session.antt =====
-- console/src/screens/policy.tsx, `Policy` with the `NewRevision` in it: the screen's own state, the
-- query for the revisions, and the form, which is there while `creating` holds. What the form calls
-- back changes the screen.
pub mod Protocol
pub mod Phases
pub mod Typing
use agentic_warden.Prelude.{
  ℕ, Bool, true, false, not, Option, none, some, List, [], ◌∷◌, ◌&&◌, Text, text_eq, nat_eq, ◌==◌,
  if◌then◌else◌, first?, get_or, ◌≡◌,
}
use agentic_warden.Console.Types.{Json, Revision, Query, pending, is_success}
use agentic_warden.Console.Policy.Yaml.{Document}
use agentic_warden.Console.Policy.Draft.{
  DraftEvent, current_changed, edited, review_clicked, dialog_closed, apply_clicked, applied,
  refused, DraftEffect, posted, done, invalidated, current_yaml,
}
use agentic_warden.Console.Policy.Diff.{Part}
use agentic_warden.Console.Policy.Draft.Clicks.{CanHappen}
use agentic_warden.Console.Policy.Editing.{
  Moves, EditingState, EditingEvent, editor_loaded, typed, happened, editing_step, start_editing,
}
use agentic_warden.Console.Policy.Screen.{
  PolicyState, PolicyEvent, new_clicked, toggled, policy_step,
}

pub record PolicySession : Type 0 where
  pub screen : PolicyState
  pub revisions : Query (List Revision)
  pub editing : Option EditingState

pub data SessionEvent : Type 0 where
  -- the button "New revision"
  opened : SessionEvent
  row_toggled : ℕ → SessionEvent
  -- the query has another state
  queried : Query (List Revision) → SessionEvent
  -- in the form or its editor
  inside : EditingEvent → SessionEvent

-- `current={revisions[0]}`
unfoldable pub current_of : Query (List Revision) → Option Revision
current_of q = first? (get_or q.loaded [])

-- `onDone`, the effect of the form that the screen hears.
unfoldable pub hear : PolicyState → List DraftEffect → PolicyState
unfolding policy_step
hear p [] = p
hear p (done message ∷ es) = hear (policy_step p (PolicyEvent.done message)) es
hear p (posted v ∷ es) = hear p es
hear p (invalidated k ∷ es) = hear p es

-- Neither `currentLoaded` nor `currentYaml` has changed.
unfoldable pub unchanged : (Json → Text) → Query (List Revision) → Query (List Revision) → Bool
unfolding current_of current_yaml
unchanged to_yaml q q' =
    (if is_success q.status then is_success q'.status else not (is_success q'.status))
    && (current_yaml to_yaml (current_of q) == current_yaml to_yaml (current_of q'))

module _ (line_count : Text → ℕ) (line_from : Text → ℕ → ℕ) (read_doc : Text → Text)
    (replaced : Text → Text → Moves) (to_yaml to_text : Json → Text)
    (parse_document : Text → Document) where
  abbrev pub edit : EditingState → EditingEvent → EditingState × List DraftEffect
  edit = editing_step line_count line_from read_doc replaced to_yaml to_text parse_document

  -- `{creating && <NewRevision />}`: the form stays, is mounted, or goes.
  unfoldable pub mount_form :
      Bool → Query (List Revision) → Option EditingState → Option EditingState
  unfolding current_of start_editing
  mount_form false q form = none
  mount_form true q (some form) = some form
  mount_form true q none = some (
      start_editing line_count line_from read_doc replaced to_yaml to_text parse_document
        (current_of q))

  -- The form's effect on `[currentLoaded, currentYaml]` runs if one of them has changed.
  unfoldable pub pass_current :
      Query (List Revision) → Query (List Revision) → Option EditingState → Option EditingState
  unfolding current_of unchanged
  pass_current q q' none = none
  pass_current q q' (some form) =
      if unchanged to_yaml q q'
      then some form
      else some (edit form (happened (current_changed (current_of q') (is_success q'.status)))).0

  unfoldable pub inside_step :
      PolicySession → EditingEvent → EditingState → PolicySession × List DraftEffect
  unfolding hear mount_form
  inside_step s event form =
      let (form', effects) = edit form event in
      let screen' = hear s.screen effects in
      (
        record s {
          screen = screen';
          editing = mount_form screen'.creating s.revisions (some form');
        },
        effects,
      )

  unfoldable pub session_step : PolicySession → SessionEvent → PolicySession × List DraftEffect
  unfolding mount_form pass_current inside_step policy_step
  session_step s opened = (
    record s {
      screen = policy_step s.screen new_clicked;
      editing = mount_form true s.revisions s.editing;
    },
    [],
  )
  session_step s (row_toggled seq) = (record s { screen = policy_step s.screen (toggled seq) }, [])
  session_step s (queried q) =
      (record s { revisions = q; editing = pass_current s.revisions q s.editing }, [])
  session_step s (inside event) = elim s.editing [
    | none ↦ (s, [])
    | some form ↦ inside_step s event form
  ]

-- The screen when it is opened.
unfoldable pub start_session : PolicySession
start_session = record {
  screen = record { expanded = none; status = none; creating = false };
  revisions = record { status = pending; loaded = none };
  editing = none;
}

-- What can happen in the form: its props come from the screen alone, and its editor calls
-- `editDraft`.
module _ (to_yaml to_text : Json → Text) (diff : Text → Text → List Part) where
  abbrev pub CanHappenInside : Option Revision → EditingState → EditingEvent → Type 0
  CanHappenInside current s editor_loaded = Unit
  CanHappenInside current s (typed t moves) = Unit
  CanHappenInside current s (happened (current_changed c loaded)) = ⊥
  CanHappenInside current s (happened (edited t)) = ⊥
  CanHappenInside current s (happened event) = CanHappen to_yaml to_text diff current s.form event

  abbrev pub CanHappenNow : PolicySession → SessionEvent → Type 0
  CanHappenNow s (inside event) =
      (form : EditingState) × (s.editing ≡ some form)
      × CanHappenInside (current_of s.revisions) form event
  CanHappenNow s _ = Unit
