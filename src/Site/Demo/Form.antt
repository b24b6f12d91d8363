-- ===== src/Site/Demo/Form.antt =====
-- web/components/demo/demo-form.tsx: the state behind the form. `useActionState` hands in the
-- state of the last run and whether one is under way; `webmail` is the component's own state.
pub mod Page
pub mod Laws
pub mod Browser
pub mod Posted
pub mod Again
pub mod Reposted
pub mod Retry
use agentic_warden.Prelude.{
  ℕ, Bool, true, false, not, ◌&&◌, String, Option, none, some, List, [], ◌∷◌, ◌++◌, map, flat_map,
  Text, units, truthy, get_or, if◌then◌else◌, contains, text_eq, ◌==◌, find?, join, is_empty,
  is_some,
}
use agentic_warden.Platform.{Platform}
use agentic_warden.View.{
  Attr, attr, number, flag, on_value, Token, text, Html, el, leaf, say, show, maybe_attr,
}
use agentic_warden.Site.Demo.Schema
use agentic_warden.Site.Demo.Schema.{
  DemoField, Choice, size_options, agent_options, deployment_options, is_webmail,
}
use agentic_warden.Site.Demo.Submit.{
  DemoState, idle, ok, invalid, failed, Values, FieldErrors, lookup_error,
}

abbrev pub field_order : List DemoField
field_order =
    DemoField.name ∷ DemoField.email ∷ DemoField.company ∷ DemoField.size ∷ DemoField.agents
    ∷ DemoField.deployment ∷ DemoField.plan ∷ DemoField.message ∷ []

abbrev pub field_name : DemoField → Text
field_name DemoField.name = units "name"
field_name DemoField.email = units "email"
field_name DemoField.company = units "company"
field_name DemoField.size = units "size"
field_name DemoField.agents = units "agents"
field_name DemoField.deployment = units "deployment"
field_name DemoField.plan = units "plan"
field_name DemoField.message = units "message"

-- The control loses the focus with this value.
pub data FormEvent : Type 0 where
  email_blurred : Text → FormEvent

unfoldable pub errors_of : DemoState → FieldErrors
errors_of (invalid errors values) = errors
errors_of _ = []

unfoldable pub values_of : DemoState → Option Values
values_of (invalid errors values) = some values
values_of (failed inbox values) = some values
values_of _ = none

-- `errors[f]` as a condition.
unfoldable pub has_error : FieldErrors → DemoField → Bool
unfolding lookup_error
has_error errors f = truthy (get_or (lookup_error errors f) [])

abbrev pub value_text : Values → DemoField → Option Text
value_text v DemoField.name = some v.name
value_text v DemoField.email = some v.email
value_text v DemoField.company = some v.company
value_text v DemoField.size = some v.size
value_text v DemoField.agents = none
value_text v DemoField.deployment = some v.deployment
value_text v DemoField.plan = some v.plan
value_text v DemoField.message = some v.message

-- `str(k, fallback)`
unfoldable pub str : DemoState → DemoField → Text → Text
unfolding values_of
str state f fallback = elim (values_of state) [
  | none ↦ fallback
  | some v ↦ get_or (value_text v f) fallback
]

unfoldable pub chosen_agents : DemoState → List Text
unfolding values_of
chosen_agents state = elim (values_of state) [ none ↦ [] | some v ↦ v.agents ]

-- What takes the focus after a run.
pub data Focus : Type 0 where
  nowhere status alert : Focus
  control : DemoField → Focus

unfoldable pub focus_after : DemoState → Focus
unfolding has_error errors_of
focus_after (invalid errors values) = elim (find? (has_error errors) field_order) [
  | none ↦ nowhere
  | some f ↦ control f
]
focus_after ok = status
focus_after (failed inbox values) = alert
focus_after idle = nowhere

-- The new value of `webmail`.
unfoldable pub webmail_after : Platform → FormEvent → Bool
unfolding is_webmail
webmail_after p (email_blurred value) = is_webmail p value

unfoldable pub error_text : FieldErrors → DemoField → Html FormEvent
unfolding has_error
error_text errors f =
    if has_error errors f
    then el "p" (attr "id" (field_name f ++ units "-error") ∷ [])
        (show (get_or (lookup_error errors f) []))
    else []

unfoldable pub described_by : FieldErrors → DemoField → Option Text
unfolding has_error
described_by errors f = if has_error errors f then some (field_name f ++ units "-error") else none

-- `[describedBy("email"), webmail ? "email-hint" : undefined].filter(Boolean).join(" ") || undefined`
unfoldable pub email_described_by : FieldErrors → Bool → Option Text
unfolding described_by
email_described_by errors webmail = elim (described_by errors DemoField.email) [
  | none ↦ if webmail then some (units "email-hint") else none
  | some d ↦ if webmail then some (join (units " ") (d ∷ units "email-hint" ∷ [])) else some d
]
