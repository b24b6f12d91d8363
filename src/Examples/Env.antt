-- ===== src/Examples/Env.antt =====
-- web/lib/env.ts at concrete environments.
use agentic_warden.Prelude.{
  text_beq, drop_while, drop_while_end, none, some, units, text_eq, nat_eq, if◌then◌else◌, join,
  ◌≡◌, refl,
}
use agentic_warden.Prelude.{throw}
use agentic_warden.Site.Env.{Env, is_production_deploy, assert_build_env, site_url}
use package.text.Mathlib.Text.{◌==◌ as str_eq}

abbrev production : Env
production key =
    if str_eq key "VERCEL_ENV"
    then some (units "production")
    else if str_eq key "NEXT_PUBLIC_SITE_URL"
    then some (units "https://x.test//")
    else if str_eq key "RESEND_API_KEY"
    then some (units "re_1")
    else none

env : Unit {0}
unfolding assert_build_env is_production_deploy units join site_url text_beq drop_while_end
    drop_while
env = tt

missing :
    assert_build_env production
    ≡ throw (units "missing required environment: DEMO_INBOX, DEMO_FROM")
unfolding env
missing = refl

trimmed : site_url production ≡ units "https://x.test"
unfolding env
trimmed = refl
