-- ===== src/Site/Demo/Email.antt =====
-- web/lib/demo/email.ts: the message that a request becomes.
pub mod Laws
use agentic_warden.Prelude.{
  ℕ, Bool, true, false, not, String, Option, none, some, List, [], ◌∷◌, ◌++◌, map, Text, units,
  text_eq, nat_eq, ◌==◌, truthy, or_else, get_or, if◌then◌else◌, contains, find?, Equality, join,
  ◌||◌,
}
use agentic_warden.Site.Demo.Schema.{
  Choice, DemoRequest, size_options, agent_options, deployment_options,
}

unfoldable pub label : List Choice → Text → Text
label opts value = elim (find? (λ o. o.value == value) opts) [ none ↦ value | some o ↦ o.label ]

abbrev pub line_feed : ℕ
line_feed = 10

abbrev pub carriage_return : ℕ
carriage_return = 13

-- `s.replace(/[\r\n]/g, " ")`
unfoldable pub one_line : Text → Text
one_line = map (λ c. if c == carriage_return || c == line_feed then b' ' else c)

pub record Email : Type 0 where
  pub subject : Text
  pub body : Text

unfoldable pub format_email : DemoRequest → Email
unfolding label one_line
format_email req = record {
  subject = one_line (
      units "Demo request: "
      ++ req.company
      ++ units " ("
      ++ get_or req.plan (units "no plan")
      ++ units ")");
  body = join (units "\n") (
      (units "Name: " ++ req.name)
      ∷ (units "Email: " ++ req.email)
      ∷ (units "Company: " ++ req.company)
      ∷ (units "Company size: " ++ label size_options req.size)
      ∷ (units "Agents: " ++ join (units ", ") (map (label agent_options) req.agents))
      ∷ (units "Deployment: " ++ label deployment_options req.deployment)
      ∷ (units "Plan: " ++ get_or req.plan (units "none"))
      ∷ []
      ∷ units "Message:"
      ∷ or_else (get_or req.message []) (units "(none)")
      ∷ []);
}
