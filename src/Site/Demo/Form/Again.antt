-- ===== src/Site/Demo/Form/Again.antt =====
-- The form of web/components/demo/demo-form.tsx, shown and posted as it stands, and what
-- web/lib/demo/submit.ts reads of it.
use agentic_warden.Prelude.{
  ℕ, Bool, true, false, Option, none, List, [], ◌∷◌, ◌++◌, Text, units, text_eq, nat_eq, ◌==◌,
  if◌then◌else◌, Bool-cases, get_or, contains, truthy, ◌≡◌, ◌≢◌, inl, inr, refl, ap, ◌∙◌,
  append_assoc,
}
use agentic_warden.View.{attr, flag, finish, Html, el, say, decimal}
use agentic_warden.Site.Demo.Schema.{
  DemoField, Choice, size_options, agent_options, deployment_options,
}
use agentic_warden.Site.Demo.Submit.{Entry, field, FormData, DemoState, ok, idle, invalid, failed}
use agentic_warden.Site.Demo.Form.Browser.{posted, picked}
use agentic_warden.Site.Demo.Form.Posted.{
  name_part-posted, email_part-posted, company_part-posted, size_part-posted, agents_part-posted,
  deployment_part-posted, plan_part-posted, message_part-posted, hidden_parts-posted,
}
use agentic_warden.Site.Demo.Form.{FormEvent, str, chosen_agents}
use agentic_warden.Site.Demo.Form.Page.{
  demo_form, form_parts, tiers, failure_alert, hidden_parts, name_part, email_part, company_part,
  size_part, agents_part, deployment_part, plan_part, message_part,
}

-- The choices of the plan, the first of which is none.
abbrev pub plan_options : List Choice
plan_options = record { value = []; label = units "Not sure yet" } ∷ tiers

-- Fragments that are put together from the left, read from the left.
assoc_parts :
    {E : Type 0} (a b c d e f g h i j k : Html E)
    → (((((((((a ++ b) ++ c) ++ d) ++ e) ++ f) ++ g) ++ h) ++ i) ++ j) ++ k
      ≡ a ++ (b ++ (c ++ (d ++ (e ++ (f ++ (g ++ (h ++ (i ++ (j ++ k)))))))))
assoc_parts a b c d e f g h i j k = simp append_assoc

module _ (clean : Text → Text → Text) (plan : Option Text) (started_at : ℕ)
    (state : DemoState) where
  abbrev pub text_entry : Text → DemoField → Text × Entry
  text_entry name f = (name, field (clean name (str state f [])))

  abbrev pub sizes : FormData → FormData
  sizes = picked (units "size") (λ v. v == str state DemoField.size []) size_options

  abbrev pub agents : FormData → FormData
  agents = picked (units "agents") (λ v. contains (chosen_agents state) v) agent_options

  abbrev pub deployments : FormData → FormData
  deployments =
      picked (units "deployment") (λ v. str state DemoField.deployment [] == v) deployment_options

  abbrev pub plans : FormData → FormData
  plans = picked (units "plan") (λ v. v == str state DemoField.plan (get_or plan [])) plan_options

  -- What the form posts, control by control.
  abbrev pub entries : FormData → FormData
  entries rest =
      (units "startedAt", field (decimal started_at))
      ∷ (units "website", field [])
      ∷ text_entry (units "name") DemoField.name
      ∷ text_entry (units "email") DemoField.email
      ∷ text_entry (units "company") DemoField.company
      ∷ sizes (agents (deployments (plans (text_entry (units "message") DemoField.message ∷ rest))))

  abbrev button : Bool → Html FormEvent
  button pending =
      el "Button" (attr "type" (units "submit") ∷ flag "disabled" pending ∷ [])
        (if pending then say "Sending…" else say "Request demo")

  button-posted :
      (pending : Bool) (rest : Html FormEvent)
      → posted clean none (button pending ++ rest) ≡ posted clean none rest
  button-posted true rest = refl
  button-posted false rest = refl

  parts-posted :
      (webmail pending : Bool) (rest : Html FormEvent)
      → posted clean none (
          hidden_parts started_at
          ++ (name_part state
              ++ (email_part state webmail
                  ++ (company_part state
                      ++ (size_part state
                          ++ (agents_part state
                              ++ (deployment_part state
                                  ++ (plan_part state plan
                                      ++ (message_part state ++ (button pending ++ rest))))))))))
        ≡ entries (posted clean none rest)
  parts-posted webmail pending rest =
      let r9 = button pending ++ rest in
      let r8 = message_part state ++ r9 in
      let r7 = plan_part state plan ++ r8 in
      let r6 = deployment_part state ++ r7 in
      let r5 = agents_part state ++ r6 in
      let r4 = size_part state ++ r5 in
      let r3 = company_part state ++ r4 in
      let r2 = email_part state webmail ++ r3 in
      let r1 = name_part state ++ r2 in
      hidden_parts-posted clean state r1 started_at
      ∙ ap (λ t. (units "startedAt", field (decimal started_at)) ∷ (units "website", field []) ∷ t)
          (name_part-posted clean state r2
            ∙ ap (λ t. text_entry (units "name") DemoField.name ∷ t)
                (email_part-posted clean state r3 webmail
                  ∙ ap (λ t. text_entry (units "email") DemoField.email ∷ t)
                      (company_part-posted clean state r4
                        ∙ ap (λ t. text_entry (units "company") DemoField.company ∷ t)
                            (size_part-posted clean state r5
                              ∙ ap sizes (
                                  agents_part-posted clean state r6
                                  ∙ ap agents (
                                      deployment_part-posted clean state r7
                                      ∙ ap deployments (
                                          plan_part-posted clean state r8 plan
                                          ∙ ap plans (
                                              message_part-posted clean state r9
                                              ∙ ap
                                                  (λ t.
                                                    text_entry (units "message") DemoField.message
                                                    ∷ t)
                                                  (button-posted pending rest)))))))))

  form_parts-posted :
      (webmail pending : Bool) (rest : Html FormEvent)
      → posted clean none (form_parts plan started_at state webmail pending ++ rest)
        ≡ entries (posted clean none rest)
  unfolding form_parts
  form_parts-posted webmail pending rest =
      ap (posted clean none) (
        assoc_parts (hidden_parts started_at) (name_part state) (email_part state webmail)
          (company_part state) (size_part state) (agents_part state) (deployment_part state)
          (plan_part state plan) (message_part state) (button pending) rest)
      ∙ parts-posted webmail pending rest

-- What the whole form posts as it stands.
pub demo_form-posted :
    (clean : Text → Text → Text) (plan : Option Text) (started_at : ℕ) (state : DemoState)
    → (webmail pending : Bool) → state ≢ ok
    → posted clean none (demo_form plan started_at state webmail pending)
      ≡ entries clean plan started_at state []
unfolding demo_form failure_alert
demo_form-posted clean plan at ok webmail pending h = absurd (h refl)
demo_form-posted clean plan at idle webmail pending h =
    form_parts-posted clean plan at idle webmail pending (finish "form" ∷ [])
demo_form-posted clean plan at (invalid errors values) webmail pending h =
    form_parts-posted clean plan at (invalid errors values) webmail pending (finish "form" ∷ [])
demo_form-posted clean plan at (failed inbox values) webmail pending h =
    let parts =
      form_parts-posted clean plan at (failed inbox values) webmail pending (finish "form" ∷ []) in
    elim (Bool-cases (truthy (get_or inbox []))) [ inl e ↦ rw (e) parts | inr e ↦ rw (e) parts ]
