-- ===== src/Examples/Policy.antt =====
-- The form for a new revision and its editor, at concrete texts.
use agentic_warden.Prelude.{
  ℕ, suc, ◌+◌, ◌≤◌, Bool, true, Option, none, some, List, [], ◌∷◌, Text, units, text_beq, text_eq,
  nat_eq, first?, ◌≡◌, ◌≢◌, refl, arith,
}
use agentic_warden.Console.Types.{Json, null, Revision}
use agentic_warden.Prelude.{trim, ends_with}
use agentic_warden.View.{decimal}
use agentic_warden.Console.Policy.Yaml.{YamlError, Document, parse_policy, last_line}
use agentic_warden.Console.Policy.Yaml.Lines.{count_breaks}
use agentic_warden.Console.Policy.Draft.{
  DraftState, edited, review_clicked, apply_clicked, current_changed, version_of, initial_draft,
  current_yaml, draft_step, DraftEffect,
}
use agentic_warden.Console.Policy.Draft.Runs.{after_events, edited-draft}
use agentic_warden.Console.Policy.Editing.{
  Editor, Moves, EditingState, EditingEvent, happened, render_values, editing_step, start_editing,
  rounds,
}
use agentic_warden.Console.Policy.Editing.Synced.{render_values-ends, reseed-touched}
use agentic_warden.Console.Policy.Editing.Marked.{step_review-mark}

policy_code : Unit {0}
unfolding units text_beq parse_policy draft_step initial_draft current_yaml editing_step
    start_editing render_values version_of trim last_line ends_with decimal
policy_code = tt

abbrev quote : Json → Text
quote v = units "json"

abbrev accept_all : Text → Document
accept_all t = record { errors = []; value = null }

-- A parser that refuses every text at its line 2.
abbrev refuse_all : Text → Document
refuse_all t = record {
  errors = record { message = units "bad"; line = some 2 } ∷ [];
  value = null;
}

abbrev after_review : DraftState
after_review =
    (draft_step quote quote accept_all (initial_draft quote quote accept_all none) review_clicked).0

abbrev sent : DraftState
sent = (draft_step quote quote accept_all after_review apply_clicked).0

edited-draft_example :
    (after_events quote quote accept_all
      (initial_draft quote quote accept_all none)
      (edited (units "x") ∷ current_changed none true ∷ review_clicked ∷ [])).draft
    ≡ units "x"
edited-draft_example =
    edited-draft quote quote accept_all (initial_draft quote quote accept_all none) (units "x")
      (current_changed none true ∷ review_clicked ∷ []) (tt, (tt, tt))

-- An editor whose positions are lines.
abbrev lines_in : Text → ℕ
lines_in t = suc (count_breaks t)

abbrev at_line : Text → ℕ → ℕ
at_line t n = n

abbrev as_is : Text → Text
as_is t = t

abbrev all_gone : Text → Text → Moves
all_gone old new p = none

abbrev two_lines : Text
two_lines = units "a: [\nb\n"

abbrev refused_once : EditingState
refused_once = record {
  form = record (initial_draft quote quote refuse_all none) { draft = two_lines };
  editor = some (record { doc = two_lines; mark = none });
}

from_one :
    (err : YamlError) (n : ℕ)
    → err.line ≡ some n
    → first? (refuse_all two_lines).errors ≡ some err
    → 1 ≤ n
from_one err n h e = ground arith

abbrev first_revision : Revision
first_revision = record {
  seq = 1;
  version = units "v1";
  rule_set = null;
  created_at = [];
  created_by = none;
}

abbrev step : EditingState → EditingEvent → EditingState × List DraftEffect
step = editing_step lines_in at_line as_is all_gone quote quote refuse_all

abbrev step_review : EditingState
step_review = (step refused_once (happened review_clicked)).0

step_review-mark_example :
    (step_review.form.error ≡ some (units "Line 2: bad"))
    × (refused_once.form.error_line ≢ some 2
        → step_review.editor ≡ some (record { doc = two_lines; mark = some 2 }))
    × (refused_once.form.error_line ≡ some 2
        → step_review.editor ≡ some (record { doc = two_lines; mark = none }))
unfolding policy_code
step_review-mark_example =
    step_review-mark lines_in at_line as_is all_gone quote quote refuse_all refused_once
      (record { doc = two_lines; mark = none }) (units "bad") 2 refl refl refl from_one refl

abbrev shown : Editor
shown = record { doc = quote null; mark = some 1 }

abbrev fresh : EditingState
fresh = record {
  form = record (initial_draft quote quote refuse_all none) { draft = units "old" };
  editor = some (record { doc = units "old"; mark = none });
}

abbrev reseeded : EditingState
reseeded = (step fresh (happened (current_changed (some first_revision) true))).0

reseed-touched_example :
    (reseeded.form.draft ≡ units "json")
    × (reseeded.form.touched ≡ true)
    × ((c : Option Revision) (loaded : Bool)
        → (step reseeded (happened (current_changed c loaded))).0.form.draft ≡ reseeded.form.draft)
unfolding policy_code
reseed-touched_example =
    reseed-touched lines_in at_line as_is all_gone quote quote refuse_all fresh
      (record { doc = units "old"; mark = none }) (some first_revision) refl refl refl (λ e. cc)

render_values-ends_example :
    (render_values lines_in at_line as_is all_gone quote quote accept_all
        (rounds + 3)
        after_review
        shown
      ≡ render_values lines_in at_line as_is all_gone quote quote accept_all rounds after_review
          shown)
    × ((render_values lines_in at_line as_is all_gone quote quote accept_all rounds after_review
          shown).1.doc
        ≡ (render_values lines_in at_line as_is all_gone quote quote accept_all rounds after_review
            shown).0.draft)
render_values-ends_example =
    render_values-ends lines_in at_line as_is all_gone quote quote accept_all 3 after_review shown
