-- ===== src/Site/Env.antt =====
-- web/lib/env.ts: the deployment's environment variables.
pub mod Laws
use agentic_warden.Prelude.{
  ℕ, Bool, true, false, not, String, Option, none, some, List, [], ◌∷◌, ◌++◌, map, Text, units,
  text_eq, ◌==◌, truthy, or_else, get_or, if◌then◌else◌, filter, is_empty, join, drop_while_end,
  nat_eq, Result, ok, throw,
}

-- `Record<string, string | undefined>`
abbrev pub Env : Type 0
Env = String → Option Text

-- `env[key]` as a condition: neither missing nor empty.
abbrev pub is_set : Env → String → Bool
is_set env key = truthy (get_or (env key) [])

abbrev pub required_in_production : List String
required_in_production = "NEXT_PUBLIC_SITE_URL" ∷ "RESEND_API_KEY" ∷ "DEMO_INBOX" ∷ "DEMO_FROM" ∷ []

-- `value === literal`, false on `undefined`
abbrev pub is_value : Option Text → Text → Bool
is_value none t = false
is_value (some s) t = s == t

unfoldable pub is_production_deploy : Env → Bool
is_production_deploy env = is_value (env "VERCEL_ENV") (units "production")

abbrev pub slash : ℕ
slash = b'/'

unfoldable pub site_url : Env → Text
site_url env =
    drop_while_end (λ c. c == slash)
      (or_else (get_or (env "NEXT_PUBLIC_SITE_URL") []) (units "http://localhost:3000"))

unfoldable pub missing_keys : Env → List String
missing_keys env = filter (λ key. not (is_set env key)) required_in_production

unfoldable pub assert_build_env : Env → Result Text (Unit {0})
unfolding missing_keys
assert_build_env env =
    if not (is_production_deploy env)
    then ok tt
    else if not (is_empty (missing_keys env))
    then throw
        (units "missing required environment: " ++ join (units ", ") (map units (missing_keys env)))
    else if is_set env "DEMO_SENDER"
    then throw (units "DEMO_SENDER is test-only and must not be set in production")
    else ok tt
