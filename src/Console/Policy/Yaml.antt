-- ===== src/Console/Policy/Yaml.antt =====
-- console/src/policy/yaml.ts. The parser is the package yaml's: `parse_document` is a parameter.
pub mod Lines
use agentic_warden.Prelude.{
  ℕ, zero, suc, ◌+◌, ◌-◌, ◌*◌, ◌≤◌, ◌<◌, Bool, true, false, not, ◌&&◌, ◌||◌, String, Option, none,
  some, List, [], ◌∷◌, ◌++◌, map, reverse, flat_map, append_assoc, append-nil, Text, units,
  text_beq, text_eq, nat_eq, Equality, ◌==◌, ==_iff, ==_refl, if◌then◌else◌, Bool-cases,
  Option-cases, All, All-append, All-reverse, length, filter, find?, is_empty, first?, last?,
  contains, is_some, get_or, truthy, or_else, split, join, ◌≡◌, ◌≢◌, ◌↔◌, ◌⊎◌, inl, inr, refl, sym,
  ap, ◌∙◌, subst, fun_ext, arith, ltb, leb, Result,
}
use agentic_warden.Prelude.{trim, ends_with, min, max}
use agentic_warden.Console.Types.{Json}

-- `err.message` and `err.linePos?.[0]?.line` of an error of the parser.
pub record YamlError : Type 0 where
  pub message : Text
  pub line : Option ℕ

-- `doc.errors` and `doc.toJS()` of a parsed document.
pub record Document : Type 0 where
  pub errors : List YamlError
  pub value : Json

pub data ParsedPolicy : Type 0 where
  valid : Json → ParsedPolicy
  invalid : Text → ℕ → ParsedPolicy

-- `text.split("\n").length - (text.endsWith("\n") ? 1 : 0)`
unfoldable pub last_line : Text → ℕ
unfolding split
last_line t = length (split 10 t) - (if ends_with t (units "\n") then 1 else 0)

unfoldable pub error_line : YamlError → Text → ℕ
error_line err t = min (get_or err.line 1) (max (last_line t) 1)

unfoldable pub parse_policy : (Text → Document) → Text → ParsedPolicy
unfolding error_line
parse_policy parse_document t =
    if trim t == []
    then invalid (units "The document is empty.") 1
    else elim (first? (parse_document t).errors) [
      | some err ↦ invalid err.message (error_line err t)
      | none ↦ valid (parse_document t).value
    ]
