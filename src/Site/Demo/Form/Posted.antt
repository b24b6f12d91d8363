-- ===== src/Site/Demo/Form/Posted.antt =====
-- What each part of the form of web/components/demo/demo-form.tsx posts as it stands.
use agentic_warden.Prelude.{
  ℕ, Bool, true, false, Option, none, [], ◌∷◌, ◌++◌, Text, units, text_beq, text_eq, nat_eq, ◌==◌,
  Bool-cases, get_or, contains, flat_map, ◌≡◌, inl, inr, refl,
}
use agentic_warden.View.{Html, decimal}
use agentic_warden.Site.Demo.Schema.{DemoField, size_options, agent_options, deployment_options}
use agentic_warden.Site.Demo.Submit.{field, DemoState}
use agentic_warden.Site.Demo.Form.Browser.{posted, picked}
use agentic_warden.Site.Demo.Form.{
  FormEvent, errors_of, has_error, str, chosen_agents, error_text, described_by, email_described_by,
}
use agentic_warden.Site.Demo.Form.Page.{
  hidden_parts, name_part, labelled, email_part, company_part, choice_option, size_part, agent_box,
  agents_part, deployment_box, deployment_part, tiers, plan_part, message_part,
}

module _ (clean : Text → Text → Text) (state : DemoState) (rest : Html FormEvent) where
  pub name_part-posted :
      posted clean none (name_part state ++ rest)
      ≡ (units "name", field (clean (units "name") (str state DemoField.name [])))
        ∷ posted clean none rest
  unfolding name_part labelled error_text described_by units text_beq
  name_part-posted = elim (Bool-cases (has_error (errors_of state) DemoField.name)) [
    | inl e ↦ rw (e) refl
    | inr e ↦ rw (e) refl
  ]

  pub email_part-posted :
      (webmail : Bool)
      → posted clean none (email_part state webmail ++ rest)
        ≡ (units "email", field (clean (units "email") (str state DemoField.email [])))
          ∷ posted clean none rest
  unfolding email_part labelled error_text described_by email_described_by units text_beq
  email_part-posted true = elim (Bool-cases (has_error (errors_of state) DemoField.email)) [
    | inl e ↦ rw (e) refl
    | inr e ↦ rw (e) refl
  ]
  email_part-posted false = elim (Bool-cases (has_error (errors_of state) DemoField.email)) [
    | inl e ↦ rw (e) refl
    | inr e ↦ rw (e) refl
  ]

  pub company_part-posted :
      posted clean none (company_part state ++ rest)
      ≡ (units "company", field (clean (units "company") (str state DemoField.company [])))
        ∷ posted clean none rest
  unfolding company_part labelled error_text described_by units text_beq
  company_part-posted = elim (Bool-cases (has_error (errors_of state) DemoField.company)) [
    | inl e ↦ rw (e) refl
    | inr e ↦ rw (e) refl
  ]

  pub size_part-posted :
      posted clean none (size_part state ++ rest)
      ≡ picked
          (units "size")
          (λ v. v == str state DemoField.size [])
          size_options
          (posted clean none rest)
  unfolding size_part labelled choice_option error_text described_by size_options flat_map units
      text_beq
  size_part-posted = elim (Bool-cases (has_error (errors_of state) DemoField.size)) [
    | inl e ↦ rw (e) refl
    | inr e ↦ rw (e) refl
  ]

  pub agents_part-posted :
      posted clean none (agents_part state ++ rest)
      ≡ picked
          (units "agents")
          (λ v. contains (chosen_agents state) v)
          agent_options
          (posted clean none rest)
  unfolding agents_part agent_box error_text described_by agent_options flat_map units text_beq
  agents_part-posted = elim (Bool-cases (has_error (errors_of state) DemoField.agents)) [
    | inl e ↦ rw (e) refl
    | inr e ↦ rw (e) refl
  ]

  pub deployment_part-posted :
      posted clean none (deployment_part state ++ rest)
      ≡ picked
          (units "deployment")
          (λ v. str state DemoField.deployment [] == v)
          deployment_options
          (posted clean none rest)
  unfolding deployment_part deployment_box error_text described_by deployment_options flat_map units
      text_beq
  deployment_part-posted = elim (Bool-cases (has_error (errors_of state) DemoField.deployment)) [
    | inl e ↦ rw (e) refl
    | inr e ↦ rw (e) refl
  ]

  pub plan_part-posted :
      (plan : Option Text)
      → posted clean none (plan_part state plan ++ rest)
        ≡ picked
            (units "plan")
            (λ v. v == str state DemoField.plan (get_or plan []))
            (record { value = []; label = units "Not sure yet" } ∷ tiers)
            (posted clean none rest)
  unfolding plan_part labelled choice_option tiers flat_map units text_beq
  plan_part-posted plan = refl

  pub message_part-posted :
      posted clean none (message_part state ++ rest)
      ≡ (units "message", field (clean (units "message") (str state DemoField.message [])))
        ∷ posted clean none rest
  unfolding message_part labelled error_text described_by units text_beq
  message_part-posted = elim (Bool-cases (has_error (errors_of state) DemoField.message)) [
    | inl e ↦ rw (e) refl
    | inr e ↦ rw (e) refl
  ]

  pub hidden_parts-posted :
      (started_at : ℕ)
      → posted clean none (hidden_parts started_at ++ rest)
        ≡ (units "startedAt", field (decimal started_at))
          ∷ (units "website", field [])
          ∷ posted clean none rest
  unfolding hidden_parts units text_beq
  hidden_parts-posted started_at = refl
