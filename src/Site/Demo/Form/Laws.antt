-- ===== src/Site/Demo/Form/Laws.antt =====
-- Where the focus goes, and that nothing typed is lost.
use agentic_warden.Prelude.{
  true, false, Option, none, some, List, ◌∷◌, ◌++◌, Text, units, text_eq, nat_eq, All, find?, ◌≡◌,
  ◌≢◌, refl, ap, arith,
}
use agentic_warden.Prelude.{find?-some}
use agentic_warden.Platform.{Platform}
use agentic_warden.Site.Demo.Schema.{DemoField, SafeParse}
use agentic_warden.Site.Demo.Submit.{
  FormData, get_entry, entry_text, get_all_texts, read_values, Values, FieldErrors, DemoState, ok,
  invalid, failed, SubmitDeps, submit_demo, idle,
}
use agentic_warden.Site.Demo.Submit.Errors.{submit_demo-invalid, submit_demo-failed}
use agentic_warden.Site.Demo.Form.{
  field_order, field_name, values_of, has_error, str, chosen_agents, Focus, nowhere, control,
  focus_after,
}

-- After a run with field errors the focus goes to a control whose field has an error, and in the
-- page's order no field before it has one.
pub focus_after-control :
    (errors : FieldErrors) (values : Values) (f : DemoField)
    → focus_after (invalid errors values) ≡ control f
    → (before after : List DemoField) × (field_order ≡ before ++ f ∷ after)
      × All (λ g. has_error errors g ≡ false) before
      × (has_error errors f ≡ true)
unfolding focus_after
focus_after-control errors values f h =
    find?-some (has_error errors) field_order f (found (find? (has_error errors) field_order) h)
  where
    found :
        (o : Option DemoField)
        → (elim o as (λ _. Focus) [ none ↦ nowhere | some g ↦ control g ]) ≡ control f
        → o ≡ some f
    found none e = cc
    found (some g) e = cc

-- The page of a run: a state in which the form is shown again.
abbrev pub IsShownAgain : DemoState → Type 0
IsShownAgain idle = ⊥
IsShownAgain ok = ⊥
IsShownAgain (invalid errors values) = Unit
IsShownAgain (failed inbox values) = Unit

values_of-submit_demo :
    (p : Platform) (safe_parse : SafeParse) (form : FormData) (deps : SubmitDeps p) (s : DemoState)
    → (submit_demo p safe_parse form deps).state ≡ s
    → IsShownAgain s
    → values_of s ≡ some (read_values form)
unfolding values_of
values_of-submit_demo p safe_parse form deps idle e h = absurd h
values_of-submit_demo p safe_parse form deps ok e h = absurd h
values_of-submit_demo p safe_parse form deps (invalid errors values) e _ =
    ap some (submit_demo-invalid p safe_parse form deps errors values e).3
values_of-submit_demo p safe_parse form deps (failed shown values) e _ =
    ap some (submit_demo-failed p safe_parse form deps shown values e).1

-- When the form is shown again after a run, each control but the check boxes starts with the text
-- that was posted for it, whatever its default, and the same agents are ticked.
pub str-submit_demo :
    (p : Platform) (safe_parse : SafeParse) (form : FormData) (deps : SubmitDeps p)
    → IsShownAgain (submit_demo p safe_parse form deps).state
    → ((f : DemoField) (fallback : Text)
        → f ≢ DemoField.agents
        → str (submit_demo p safe_parse form deps).state f fallback
          ≡ entry_text (get_entry form (field_name f)))
      × (chosen_agents (submit_demo p safe_parse form deps).state
          ≡ get_all_texts form (units "agents"))
unfolding str chosen_agents read_values
str-submit_demo p safe_parse form deps h =
    let e = values_of-submit_demo p safe_parse form deps _ refl h in (texts e, ground arith)
  where
    texts :
        values_of (submit_demo p safe_parse form deps).state ≡ some (read_values form)
        → (f : DemoField) (fallback : Text) → f ≢ DemoField.agents
        → str (submit_demo p safe_parse form deps).state f fallback
          ≡ entry_text (get_entry form (field_name f))
    texts e DemoField.name d n = ground arith
    texts e DemoField.email d n = ground arith
    texts e DemoField.company d n = ground arith
    texts e DemoField.size d n = ground arith
    texts e DemoField.agents d n = absurd (n refl)
    texts e DemoField.deployment d n = ground arith
    texts e DemoField.plan d n = ground arith
    texts e DemoField.message d n = ground arith
