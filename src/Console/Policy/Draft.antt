-- ===== src/Console/Policy/Draft.antt =====
-- console/src/screens/policy.tsx, `NewRevision`: the component's state and its handlers. The props
-- come in by an event, the mutation of the query library by its two callbacks.
pub mod Runs
pub mod Page
pub mod Clicks
use agentic_warden.Prelude.{
  ℕ, zero, suc, ◌+◌, ◌-◌, ◌*◌, ◌≤◌, ◌<◌, Bool, true, false, not, ◌&&◌, ◌||◌, String, Option, none,
  some, List, [], ◌∷◌, ◌++◌, map, reverse, flat_map, append_assoc, append-nil, Text, units,
  text_beq, text_eq, nat_eq, Equality, ◌==◌, ==_iff, ==_refl, if◌then◌else◌, Bool-cases,
  Option-cases, All, All-append, All-reverse, length, filter, find?, is_empty, first?, last?,
  contains, is_some, get_or, truthy, or_else, split, join, ◌≡◌, ◌≢◌, ◌↔◌, ◌⊎◌, inl, inr, refl, sym,
  ap, ◌∙◌, subst, fun_ext, arith, ltb, leb, Result,
}
use agentic_warden.View.{decimal}
use agentic_warden.Console.Types.{
  Json, null, boolean, number, string, array, object, Items, nil, Members, end, member, get_member,
  Revision, Failure, api_message,
}
use agentic_warden.Console.Session.{Key}
use agentic_warden.Console.Policy.Yaml.{ParsedPolicy, valid, invalid, Document, parse_policy}

pub record DraftState : Type 0 where
  pub draft : Text
  pub error : Option Text
  pub error_line : Option ℕ
  pub review_value : Json
  pub dialog_open : Bool
  pub touched : Bool
  -- `mutation.isPending`
  pub is_pending : Bool

pub data DraftEvent : Type 0 where
  -- the props after a change of one of them
  current_changed : Option Revision → Bool → DraftEvent
  edited : Text → DraftEvent
  review_clicked dialog_closed apply_clicked applied : DraftEvent
  refused : Failure → DraftEvent

pub data DraftEffect : Type 0 where
  posted : Json → DraftEffect
  done : Text → DraftEffect
  invalidated : Key → DraftEffect

abbrev pub revisions_key : Key
revisions_key = units "revisions" ∷ []

abbrev pub audit_key : Key
audit_key = units "audit" ∷ []

-- `{ version: "", rules: [] }`
unfoldable pub empty_rule_set : Json
empty_rule_set =
    object (member (units "version") (string []) (member (units "rules") (array nil) end))

-- `value?.version ?? ""` in a template.
unfoldable pub version_of : (Json → Text) → Json → Text
unfolding get_member
version_of to_text (object ms) = elim (get_member ms (units "version")) [
  | none ↦ []
  | some null ↦ []
  | some (string t) ↦ t
  | some (boolean b) ↦ to_text (boolean b)
  | some (number n) ↦ to_text (number n)
  | some (array xs) ↦ to_text (array xs)
  | some (object xs) ↦ to_text (object xs)
]
version_of to_text _ = []

-- `toYaml` of yaml.ts is the package's `stringify`, a parameter.
unfoldable pub current_yaml : (Json → Text) → Option Revision → Text
current_yaml to_yaml none = to_yaml empty_rule_set
current_yaml to_yaml (some r) = to_yaml r.rule_set

module _ (to_yaml to_text : Json → Text) (parse_document : Text → Document) where
  unfoldable pub initial_draft : Option Revision → DraftState
  unfolding current_yaml
  initial_draft current = record {
    draft = current_yaml to_yaml current;
    error = none;
    error_line = none;
    review_value = null;
    dialog_open = false;
    touched = false;
    is_pending = false;
  }

  -- The effect on `[currentLoaded, currentYaml]`.
  unfoldable pub reseed : Option Revision → Bool → DraftState → DraftState
  unfolding current_yaml
  reseed current loaded s =
      if loaded && not s.touched then record s { draft = current_yaml to_yaml current } else s

  -- `review`
  unfoldable pub review : DraftState → DraftState
  review s = elim (parse_policy parse_document s.draft) [
    | invalid message line ↦ record s {
      error = some (units "Line " ++ decimal line ++ units ": " ++ message);
      error_line = some line;
    }
    | valid value ↦ record s {
      error = none;
      error_line = none;
      review_value = value;
      dialog_open = true;
    }
  ]

  unfoldable pub draft_step : DraftState → DraftEvent → DraftState × List DraftEffect
  unfolding reseed review
  draft_step s (current_changed current loaded) = (reseed current loaded s, [])
  draft_step s (edited value) = (record s { draft = value; touched = true }, [])
  draft_step s review_clicked = (review s, [])
  draft_step s dialog_closed = (record s { dialog_open = false }, [])
  draft_step s apply_clicked = (record s { is_pending = true }, posted s.review_value ∷ [])
  draft_step s applied = (
    record s { dialog_open = false; is_pending = false },
    done (units "Applied " ++ version_of to_text s.review_value)
        ∷ invalidated revisions_key
        ∷ invalidated audit_key
        ∷ [],
  )
  draft_step s (refused err) = (
    record s {
      dialog_open = false;
      is_pending = false;
      error = some (api_message err (units "Could not create the revision."));
    },
    [],
  )
