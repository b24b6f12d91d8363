-- ===== src/Site/Demo/Action.antt =====
-- web/app/demo/actions.ts: the server action, which takes its dependencies from the environment.
pub mod Production
use agentic_warden.Prelude.{
  Bool, String, Option, none, some, List, Text, units, truthy, get_or, if◌then◌else◌,
}
use agentic_warden.Platform.{Platform}
use agentic_warden.Site.Env.{Env, is_value}
use agentic_warden.Site.Demo.Schema.{SafeParse}
use agentic_warden.Site.Demo.Sender.{ResendClient, sender_from_env}
use agentic_warden.Site.Demo.Submit.{FormData, DemoState, Outcome, SubmitDeps, submit_demo}

-- `value || null`
abbrev pub or_null : Option Text → Option Text
or_null none = none
or_null (some t) = if truthy t then some t else none

-- `value || other`, where `other` may be null
abbrev pub or_option : Option Text → Option Text → Option Text
or_option none d = d
or_option (some t) d = if truthy t then some t else d

unfoldable pub action_deps : (p : Platform) → ResendClient → Env → p.Number → SubmitDeps p
unfolding sender_from_env
action_deps p client env now = record {
  send = sender_from_env client env;
  inbox = or_null (env "DEMO_INBOX");
  sender = or_option (env "DEMO_FROM") (
      if is_value (env "DEMO_SENDER") (units "fake")
      then some (units "site@example.test")
      else none);
  now = now;
}

unfoldable pub submit_demo_action :
    (p : Platform) → SafeParse → ResendClient → Env → DemoState → FormData → p.Number → Outcome
unfolding action_deps
submit_demo_action p safe_parse client env prev form now =
    submit_demo p safe_parse form (action_deps p client env now)
