-- ===== src/Site/Demo/Action/Production.antt =====
-- A production deployment that has been built delivers through the mail service.
use agentic_warden.Prelude.{
  true, String, some, Text, text_eq, nat_eq, Option-cases, truthy, ◌≡◌, inl, inr, arith,
}
use agentic_warden.Prelude.{ok}
use agentic_warden.Platform.{Platform}
use agentic_warden.Site.Env.{Env, is_set, is_production_deploy, assert_build_env}
use agentic_warden.Site.Env.Laws.{assert_build_env-eq-ok_iff}
use agentic_warden.Site.Demo.Sender.{Sender, ResendClient, resend_sender}
use agentic_warden.Site.Demo.Action.{action_deps}

-- In production, once the build has started, the dependencies of the action are the mail service
-- with the configured key, never the test's sender, and the two configured addresses.
pub record IsConfigured (p : Platform) (client : ResendClient) (env : Env) (now : p.Number)
    : Type 0 where
  pub key : Text
  pub inbox : Text
  pub sender : Text
  pub with_key : env "RESEND_API_KEY" ≡ some key
  pub with_inbox : env "DEMO_INBOX" ≡ some inbox
  pub with_sender : env "DEMO_FROM" ≡ some sender
  pub inbox_given : truthy inbox ≡ true
  pub sender_given : truthy sender ≡ true
  pub deps : action_deps p client env now ≡ record {
    send = some (resend_sender client key);
    inbox = some inbox;
    sender = some sender;
    now = now;
  }

pub is_set-value :
    (env : Env) (key : String)
    → is_set env key ≡ true
    → (t : Text) × (env key ≡ some t) × (truthy t ≡ true)
is_set-value env key h = elim (Option-cases (env key)) [
  | inl e ↦ absurd (ground arith)
  | inr (t, e) ↦ (t, e, ground arith)
]

-- A production build that starts configures the action completely, with the mail service as sender.
pub action_deps-IsConfigured :
    (p : Platform) (client : ResendClient) (env : Env) (now : p.Number)
    → is_production_deploy env ≡ true
    → assert_build_env env ≡ ok tt
    → IsConfigured p client env now
unfolding action_deps is_production_deploy
action_deps-IsConfigured p client env now production built =
    elim ((assert_build_env-eq-ok_iff env).0 built) [
      | inl other ↦ absurd (ground arith)
      | inr (h, unset) ↦
          let (key, with_key, k) = is_set-value env "RESEND_API_KEY" h.1.0 in
          let (inbox, with_inbox, i) = is_set-value env "DEMO_INBOX" h.1.1.0 in
          let (sender, with_sender, f) = is_set-value env "DEMO_FROM" h.1.1.1.0 in
          record {
            key = key;
            inbox = inbox;
            sender = sender;
            with_key = with_key;
            with_inbox = with_inbox;
            with_sender = with_sender;
            inbox_given = i;
            sender_given = f;
            deps = ground arith;
          }
    ]
