-- ===== src/Site/Pages/Home/Content.antt =====
-- web/content/home.ts.
use agentic_warden.Prelude.{List, [], ◌∷◌, Text, units, text_eq, nat_eq}

pub record LinkText : Type 0 where
  pub href : Text
  pub label : Text

pub record Item : Type 0 where
  pub title : Text
  pub body : Text

pub record TerminalLine : Type 0 where
  pub comment : Text
  pub command : Text

pub record HeroContent : Type 0 where
  pub eyebrow : Text
  pub title : Text
  pub lede : Text
  pub primary_cta : LinkText
  pub secondary_cta : LinkText
  pub terminal : List TerminalLine
  pub policy : Text

pub record StepItem : Type 0 where
  pub command : Text
  pub title : Text
  pub body : Text

pub record AgentItem : Type 0 where
  pub name : Text
  pub body : Text

pub record Closing : Type 0 where
  pub title : Text
  pub body : Text
  pub cta : LinkText

-- `home` of web/content/home.ts, one constant for each of its parts.
unfoldable pub hero_content : HeroContent
hero_content = record {
  eyebrow = units "Claude Code · Codex · Antigravity CLI";
  title = units "One policy for your coding agents";
  lede =
      units
        "Write your organization's rules once. Every developer session gets the slice that applies to their groups and the repository they are in. For Claude Code it applies at launch, even when nobody types the wrapper.";
  primary_cta = record { href = units "/demo"; label = units "Request demo" };
  secondary_cta = record { href = units "/product"; label = units "See how it works" };
  terminal =
      record {
        comment = units "# on the control plane";
        command = units "awd apply org-policy.yaml";
      }
      ∷ record {
        comment = units "# once per machine, as root";
        command = units "aw-sync install-timer";
      }
      ∷ record {
        comment = units "# developers keep typing what they type";
        command = units "claude";
      }
      ∷ [];
  policy =
      units
        "rules:\n  - name: baseline\n    agents:\n      claude:\n        managed:\n          permissions:\n            deny:\n              - Read(./.env)\n          allowManagedPermissionRulesOnly: true\n  - name: payments-repos\n    match:\n      repos: [\"github.com/acme/payments*\"]\n    agents:\n      claude:\n        managed:\n          permissions:\n            deny:\n              - Bash(curl *)";
}

unfoldable pub problem_title : Text
problem_title = units "What the vendor consoles leave uncovered"

unfoldable pub problem_items : List Item
problem_items =
    record {
      title = units "Rules per repository";
      body =
          units
            "Managed settings apply machine-wide. A payments repository and a sandbox get the same rules unless something targets the repository itself.";
    }
    ∷ record {
      title = units "Rules per group on Claude Code seats";
      body =
          units
            "Claude Code on claude.ai seats takes one policy for the whole organization; the console cannot target a group. Codex on ChatGPT plans can, through OpenAI's Agent Security.";
    }
    ∷ record {
      title = units "More than one agent";
      body =
          units
            "Teams run Claude Code, Codex and Antigravity CLI side by side. Each has its own settings format, and none reads the others'.";
    }
    ∷ []

unfoldable pub steps_title : Text
steps_title = units "How it works"

unfoldable pub steps_items : List StepItem
steps_items =
    record {
      command = units "awd";
      title = units "Author one policy";
      body =
          units
            "The control plane holds your rules, your groups and your SCIM-provisioned users, and builds a bundle for each enrolled machine — signed, when you configure a signing key.";
    }
    ∷ record {
      command = units "aw-sync";
      title = units "Deliver it to every machine";
      body =
          units
            "A root-owned timer fetches the machine's bundle, signed on machines enrolled after you set a signing key, and writes each agent's managed settings in the agent's own format.";
    }
    ∷ record {
      command = units "policyHelper";
      title = units "Enforce it at launch";
      body =
          units
            "Claude Code runs the helper on every start, including a bare claude, and the helper applies the rules for the repository the session is in.";
    }
    ∷ []

unfoldable pub agents_title : Text
agents_title = units "Governs the agents your developers use"

unfoldable pub agents_items : List AgentItem
agents_items =
    record {
      name = units "Claude Code";
      body = units "Managed settings and a policy helper computed per repository at every launch.";
    }
    ∷ record {
      name = units "Codex";
      body = units "A machine-wide requirements.toml, plus repository rules through aw codex.";
    }
    ∷ record {
      name = units "Antigravity CLI";
      body = units "Gateway and models only, from a machine-wide admin file when you enroll agy.";
    }
    ∷ []

unfoldable pub closing : Closing
closing = record {
  title = units "See it against your own policy";
  body =
      units
        "Bring the rules you enforce today. We will show you how they map to groups and repositories.";
  cta = record { href = units "/demo"; label = units "Request demo" };
}
