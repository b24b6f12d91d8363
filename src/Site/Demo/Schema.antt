-- ===== src/Site/Demo/Schema.antt =====
-- web/lib/demo/schema.ts and the plan ids of web/content/pricing.ts. `z` is a library: the schema is
-- kept as the data that its builder calls spell, and what `safeParse` makes of it is a parameter.
use agentic_warden.Prelude.{
  ℕ, Bool, true, String, Option, none, some, List, [], ◌∷◌, map, Text, units, text_eq, ◌==◌,
  if◌then◌else◌, contains, Equality, split, trim, last?, ◌≡◌, zero, suc, nat_eq, refl, sym, ap, ◌∙◌,
  ◌↔◌, ==_iff, ==_refl,
}
use agentic_warden.Platform.{Platform}

pub record Choice : Type 0 where
  pub value : Text
  pub label : Text

abbrev choice : String → String → Choice
choice v l = record { value = units v; label = units l }

unfoldable pub size_options : List Choice
size_options = choice "1-50" "1–50" ∷ choice "51-500" "51–500" ∷ choice "500+" "500+" ∷ []

unfoldable pub agent_options : List Choice
agent_options =
    choice "claude-code" "Claude Code"
    ∷ choice "codex" "Codex"
    ∷ choice "agy" "agy (Antigravity CLI)"
    ∷ choice "other" "Other"
    ∷ []

unfoldable pub deployment_options : List Choice
deployment_options =
    choice "self-hosted" "Self-hosted"
    ∷ choice "hosted" "Hosted by us"
    ∷ choice "unsure" "Not sure yet"
    ∷ []

unfoldable pub plan_ids : List Text
plan_ids = units "team" ∷ units "enterprise" ∷ units "self-hosted" ∷ []

abbrev pub values : List Choice → List Text
values = map (λ o. o.value)

-- The keys of the schema, `DemoField` of submit.ts.
pub data DemoField : Type 0 where
  name email company size agents deployment plan message : DemoField

abbrev pub field_index : DemoField → ℕ
field_index name = 0
field_index email = 1
field_index company = 2
field_index size = 3
field_index agents = 4
field_index deployment = 5
field_index plan = 6
field_index message = 7

-- Keys of an object are compared as the texts that they are.
abbrev pub field_beq : DemoField → DemoField → Bool
field_beq f g = field_index f == field_index g

field_of : ℕ → DemoField
field_of zero = name
field_of (suc zero) = email
field_of (suc (suc zero)) = company
field_of (suc (suc (suc zero))) = size
field_of (suc (suc (suc (suc zero)))) = agents
field_of (suc (suc (suc (suc (suc zero))))) = deployment
field_of (suc (suc (suc (suc (suc (suc zero)))))) = plan
field_of (suc (suc (suc (suc (suc (suc (suc n))))))) = message

field_of-field_index : (f : DemoField) → field_of (field_index f) ≡ f
unfolding field_of
field_of-field_index name = refl
field_of-field_index email = refl
field_of-field_index company = refl
field_of-field_index size = refl
field_of-field_index agents = refl
field_of-field_index deployment = refl
field_of-field_index plan = refl
field_of-field_index message = refl

pub field_beq_iff : (f g : DemoField) → (field_beq f g ≡ true) ↔ (f ≡ g)
field_beq_iff f g = (
  λ h.
      sym (field_of-field_index f)
      ∙ ap field_of ((==_iff (field_index f) (field_index g)).0 h)
      ∙ field_of-field_index g,
  λ e. rw e (==_refl (field_index g)),
)

instance abbrev pub field_eq : Equality DemoField
field_eq = record { same = field_beq; same_iff = field_beq_iff }

-- A value of a form or of a query: missing, one text, or several.
pub data Value : Type 0 where
  undefined : Value
  text : Text → Value
  texts : List Text → Value

-- The calls on `z.string()`.
pub data StringCheck : Type 0 where
  trimmed : StringCheck
  min_length max_length : ℕ → Text → StringCheck
  pipe_email : Text → StringCheck

pub data FieldSchema : Type 0 where
  string : List StringCheck → FieldSchema
  enum : List Text → Option Text → FieldSchema
  array_of : List Text → ℕ → Text → FieldSchema
  optional : FieldSchema → FieldSchema

unfoldable pub demo_schema : List (DemoField × FieldSchema)
unfolding size_options agent_options deployment_options plan_ids
demo_schema =
    (
      name,
      string (
          trimmed
          ∷ min_length 1 (units "Enter your name.")
          ∷ max_length 100 (units "Use at most 100 characters.")
          ∷ []),
    )
    ∷ (
      email,
      string (
          trimmed
          ∷ max_length 254 (units "Use at most 254 characters.")
          ∷ pipe_email (units "Enter a valid email address.")
          ∷ []),
    )
    ∷ (
      company,
      string (
          trimmed
          ∷ min_length 1 (units "Enter your company.")
          ∷ max_length 100 (units "Use at most 100 characters.")
          ∷ []),
    )
    ∷ (size, enum (values size_options) (some (units "Choose a company size.")))
    ∷ (agents, array_of (values agent_options) 1 (units "Choose at least one agent."))
    ∷ (deployment, enum (values deployment_options) (some (units "Choose a deployment.")))
    ∷ (plan, optional (enum plan_ids none))
    ∷ (
      message,
      optional (string (trimmed ∷ max_length 2000 (units "Use at most 2000 characters.") ∷ [])),
    )
    ∷ []

-- `z.infer<typeof demoSchema>`
pub record DemoRequest : Type 0 where
  pub name : Text
  pub email : Text
  pub company : Text
  pub size : Text
  pub agents : List Text
  pub deployment : Text
  pub plan : Option Text
  pub message : Option Text

-- An issue of a failed parse; `field` is `issue.path[0]`.
pub record Issue : Type 0 where
  pub field : DemoField
  pub message : Text

pub data Parsed : Type 0 where
  success : DemoRequest → Parsed
  failure : List Issue → Parsed

-- `schema.safeParse(values)`, the library's.
abbrev pub SafeParse : Type 0
SafeParse = List (DemoField × FieldSchema) → (DemoField → Value) → Parsed

abbrev webmail : List Text
webmail =
    units "gmail.com"
    ∷ units "outlook.com"
    ∷ units "yahoo.com"
    ∷ units "icloud.com"
    ∷ units "proton.me"
    ∷ []

unfoldable pub is_webmail : Platform → Text → Bool
unfolding split trim
is_webmail p address =
    let domain : Text = elim (last? (split b'@' address)) [
      | none ↦ []
      | some part ↦ p.to_lower (trim part)
    ] in
    contains webmail domain

unfoldable pub parse_plan : Value → Option Text
parse_plan undefined = none
parse_plan (texts ts) = none
parse_plan (text t) = if contains plan_ids t then some t else none
