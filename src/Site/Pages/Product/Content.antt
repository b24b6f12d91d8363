-- ===== src/Site/Pages/Product/Content.antt =====
-- web/content/product.ts
use agentic_warden.Prelude.{List, [], ◌∷◌, Text, units, text_eq, nat_eq}
use agentic_warden.Site.Pages.Home.Content.{LinkText}

pub record Feature : Type 0 where
  pub id : Text
  pub title : Text
  pub body : Text

pub record ConsoleTeaser : Type 0 where
  pub id : Text
  pub title : Text
  pub badge : Text
  pub body : Text
  pub cta : LinkText

unfoldable pub product_title : Text
product_title = units "Govern coding agents like the rest of your fleet"

unfoldable pub product_lede : Text
product_lede =
    units
      "Agentic Warden is a control plane, a sync agent and a launch-time helper. Together they turn one policy into the right settings for every developer, repository and agent."

unfoldable pub features : List Feature
features =
    record {
      id = units "targeting";
      title = units "Group and repository targeting";
      body =
          units
            "Rules match on identity-provider groups and on repository globs. Later rules override earlier ones per key, and permission lists union, so precedence is the order you write.";
    }
    ∷ record {
      id = units "signed-bundles";
      title = units "Signed bundles";
      body =
          units
            "When you configure a signing key, the control plane signs each machine's bundle and aw-sync verifies it against the key pinned at enrollment before writing anything, so tampering with a bundle is detected before it reaches an agent. Machines enrolled before the key was set pin nothing and need re-enrolling. Signing detects tampering; it cannot stop a root user. Details: /docs/security-model.";
    }
    ∷ record {
      id = units "scim";
      title = units "SCIM provisioning";
      body =
          units
            "A SCIM 2.0 endpoint accepts users and groups from Okta and Microsoft Entra ID. Provisioned groups join authored groups and snapshots when rules are resolved.";
    }
    ∷ record {
      id = units "sync";
      title = units "Scheduled sync on every OS";
      body =
          units
            "aw-sync install-timer installs a systemd timer on Linux, a launchd daemon on macOS or a scheduled task on Windows. On Linux and macOS it refuses to schedule a binary a non-root user could replace.";
    }
    ∷ record {
      id = units "fail-safe";
      title = units "Fails open by default, closed when you choose";
      body =
          units
            "The policy helper works offline from the last synced bundle and validates its output against Claude Code's settings schema, so a network outage never blocks a developer. On a missing or bad bundle it fails open and Claude Code falls back to the static managed files, unless you set requireBundle to refuse to start instead.";
    }
    ∷ record {
      id = units "doctor";
      title = units "aw doctor";
      body =
          units
            "One command shows each agent's compiled policy, which repository it was compiled for, when the machine last synced, and any setting that shadows the managed ones.";
    }
    ∷ []

unfoldable pub console_teaser : ConsoleTeaser
console_teaser = record {
  id = units "console";
  title = units "Hosted console";
  badge = units "Coming soon";
  body =
      units
        "Manage policy, groups and enrolled machines from a browser, without running the control plane yourself. Until it launches, self-host awd, whose /console/ is opt-in via AWD_PUBLIC_URL and AWD_CONSOLE_*.";
  cta = record { href = units "/demo?plan=team"; label = units "Join early access" };
}
