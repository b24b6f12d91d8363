-- ===== src/Site/Demo/Form/Page.antt =====
-- web/components/demo/demo-form.tsx: the page of the form, part by part.
use agentic_warden.Prelude.{
  ℕ, Bool, true, String, Option, List, [], ◌∷◌, ◌++◌, flat_map, Text, units, truthy, get_or,
  if◌then◌else◌, contains, text_eq, ◌==◌,
}
use agentic_warden.Prelude.{map}
use agentic_warden.Site.Pages.Pricing.Content.{pricing_tiers}
use agentic_warden.View.{attr, number, flag, on_value, Html, el, leaf, say, show, maybe_attr}
use agentic_warden.Site.Demo.Schema.{
  DemoField, Choice, size_options, agent_options, deployment_options,
}
use agentic_warden.Site.Demo.Submit.{DemoState, idle, ok, invalid, failed}
use agentic_warden.Site.Demo.Form.{
  FormEvent, email_blurred, errors_of, has_error, str, chosen_agents, error_text, described_by,
  email_described_by,
}

unfoldable pub failure_alert : Option Text → Html FormEvent
failure_alert inbox = el "div" (attr "tabIndex" (units "-1") ∷ attr "role" (units "alert") ∷ []) (
    say "Couldn't send your request. "
    ++ (if truthy (get_or inbox [])
        then say "Email us at "
          ++ el "a" (attr "href" (units "mailto:" ++ get_or inbox []) ∷ []) (show (get_or inbox []))
          ++ say "."
        else say "Please try again later."))

-- Text inputs under their labels; `attrs` are the attributes between the name and the value.
unfoldable pub labelled : String → String → Html FormEvent → Html FormEvent
labelled id caption inner =
    el "div" [] (el "Label" (attr "htmlFor" (units id) ∷ []) (say caption) ++ inner)

unfoldable pub name_part : DemoState → Html FormEvent
name_part state = labelled "name" "Name" (
    leaf "Input" (
      attr "id" (units "name")
      ∷ attr "name" (units "name")
      ∷ attr "autoComplete" (units "name")
      ∷ attr "defaultValue" (str state DemoField.name [])
      ∷ flag "aria-invalid" (has_error (errors_of state) DemoField.name)
      ∷ maybe_attr "aria-describedby" (described_by (errors_of state) DemoField.name))
    ++ error_text (errors_of state) DemoField.name)

unfoldable pub email_part : DemoState → Bool → Html FormEvent
email_part state webmail = labelled "email" "Work email" (
    leaf "Input" (
      attr "id" (units "email")
        ∷ attr "name" (units "email")
        ∷ attr "type" (units "email")
        ∷ attr "autoComplete" (units "email")
        ∷ attr "defaultValue" (str state DemoField.email [])
        ∷ flag "aria-invalid" (has_error (errors_of state) DemoField.email)
        ∷ maybe_attr "aria-describedby" (email_described_by (errors_of state) webmail)
      ++ on_value "blur" email_blurred ∷ [])
    ++ (if webmail
        then el "p" (attr "id" (units "email-hint") ∷ [])
            (say "A work address helps us reply faster, but this one works too.")
        else [])
    ++ error_text (errors_of state) DemoField.email)

unfoldable pub company_part : DemoState → Html FormEvent
company_part state = labelled "company" "Company" (
    leaf "Input" (
      attr "id" (units "company")
      ∷ attr "name" (units "company")
      ∷ attr "autoComplete" (units "organization")
      ∷ attr "defaultValue" (str state DemoField.company [])
      ∷ flag "aria-invalid" (has_error (errors_of state) DemoField.company)
      ∷ maybe_attr "aria-describedby" (described_by (errors_of state) DemoField.company))
    ++ error_text (errors_of state) DemoField.company)

unfoldable pub choice_option : Choice → Html FormEvent
choice_option o = el "option" (attr "value" o.value ∷ []) (show o.label)

unfoldable pub size_part : DemoState → Html FormEvent
size_part state = labelled "size" "Company size" (
    el "select"
      (attr "id" (units "size")
        ∷ attr "name" (units "size")
        ∷ attr "defaultValue" (str state DemoField.size [])
        ∷ flag "aria-invalid" (has_error (errors_of state) DemoField.size)
        ∷ maybe_attr "aria-describedby" (described_by (errors_of state) DemoField.size))
      (el "option" (attr "value" [] ∷ flag "disabled" true ∷ []) (say "Choose…")
        ++ flat_map choice_option size_options)
    ++ error_text (errors_of state) DemoField.size)

unfoldable pub agent_box : DemoState → Choice → Html FormEvent
agent_box state o = el "label" [] (
    leaf "input" (
      attr "type" (units "checkbox")
      ∷ attr "name" (units "agents")
      ∷ attr "value" o.value
      ∷ flag "defaultChecked" (contains (chosen_agents state) o.value)
      ∷ [])
    ++ show o.label)

unfoldable pub agents_part : DemoState → Html FormEvent
agents_part state =
    el "fieldset" (maybe_attr "aria-describedby" (described_by (errors_of state) DemoField.agents))
      (el "legend" [] (say "Agents your developers use")
        ++ flat_map (agent_box state) agent_options
        ++ error_text (errors_of state) DemoField.agents)

unfoldable pub deployment_box : DemoState → Choice → Html FormEvent
deployment_box state o = el "label" [] (
    leaf "input" (
      attr "type" (units "radio")
      ∷ attr "name" (units "deployment")
      ∷ attr "value" o.value
      ∷ flag "defaultChecked" (str state DemoField.deployment [] == o.value)
      ∷ [])
    ++ show o.label)

unfoldable pub deployment_part : DemoState → Html FormEvent
deployment_part state =
    el "fieldset"
      (maybe_attr "aria-describedby" (described_by (errors_of state) DemoField.deployment))
      (el "legend" [] (say "Deployment")
        ++ flat_map (deployment_box state) deployment_options
        ++ error_text (errors_of state) DemoField.deployment)

-- Each tier of `pricing.tiers`: its id and its name.
unfoldable pub tiers : List Choice
unfolding pricing_tiers
tiers = map (λ t. record { value = t.id; label = t.name }) pricing_tiers

unfoldable pub plan_part : DemoState → Option Text → Html FormEvent
plan_part state plan = labelled "plan" "Plan" (
    el "select"
      (attr "id" (units "plan")
        ∷ attr "name" (units "plan")
        ∷ attr "defaultValue" (str state DemoField.plan (get_or plan []))
        ∷ [])
      (el "option" (attr "value" [] ∷ []) (say "Not sure yet") ++ flat_map choice_option tiers))

unfoldable pub message_part : DemoState → Html FormEvent
message_part state = labelled "message" "Anything we should know? (optional)" (
    leaf "Textarea" (
      attr "id" (units "message")
      ∷ attr "name" (units "message")
      ∷ number "rows" 4
      ∷ number "maxLength" 2000
      ∷ attr "defaultValue" (str state DemoField.message [])
      ∷ flag "aria-invalid" (has_error (errors_of state) DemoField.message)
      ∷ maybe_attr "aria-describedby" (described_by (errors_of state) DemoField.message))
    ++ error_text (errors_of state) DemoField.message)

unfoldable pub thanks : Html FormEvent
thanks =
    el "p" (attr "tabIndex" (units "-1") ∷ attr "role" (units "status") ∷ [])
      (say "Thanks — we have your request and will reply by email.")

-- The two hidden controls: the time stamp and the trap for robots.
unfoldable pub hidden_parts : ℕ → Html FormEvent
hidden_parts started_at =
    leaf "input" (
      attr "type" (units "hidden")
      ∷ attr "name" (units "startedAt")
      ∷ number "value" started_at
      ∷ [])
    ++ el "div" (flag "aria-hidden" true ∷ []) (
        el "label" (attr "htmlFor" (units "website") ∷ []) (say "Website")
        ++ leaf "input" (
            attr "id" (units "website")
            ∷ attr "name" (units "website")
            ∷ attr "type" (units "text")
            ∷ attr "tabIndex" (units "-1")
            ∷ attr "autoComplete" (units "off")
            ∷ []))

unfoldable pub form_parts : Option Text → ℕ → DemoState → Bool → Bool → Html FormEvent
unfolding labelled choice_option agent_box deployment_box tiers name_part email_part company_part
    size_part agents_part deployment_part plan_part message_part hidden_parts
form_parts plan started_at state webmail pending =
    hidden_parts started_at
    ++ name_part state
    ++ email_part state webmail
    ++ company_part state
    ++ size_part state
    ++ agents_part state
    ++ deployment_part state
    ++ plan_part state plan
    ++ message_part state
    ++ el "Button" (attr "type" (units "submit") ∷ flag "disabled" pending ∷ [])
        (if pending then say "Sending…" else say "Request demo")

unfoldable pub demo_form : Option Text → ℕ → DemoState → Bool → Bool → Html FormEvent
unfolding form_parts thanks failure_alert
demo_form plan started_at ok webmail pending = thanks
demo_form plan started_at (failed inbox values) webmail pending =
    el "form" (flag "noValidate" true ∷ [])
      (failure_alert inbox ++ form_parts plan started_at (failed inbox values) webmail pending)
demo_form plan started_at (invalid errors values) webmail pending =
    el "form" (flag "noValidate" true ∷ [])
      (form_parts plan started_at (invalid errors values) webmail pending)
demo_form plan started_at idle webmail pending =
    el "form" (flag "noValidate" true ∷ []) (form_parts plan started_at idle webmail pending)
