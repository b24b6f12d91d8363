-- ===== src/Console/Policy/Draft/Page.antt =====
-- What `NewRevision` of console/src/screens/policy.tsx shows.
use agentic_warden.Prelude.{
  Option, none, some, List, [], ◌∷◌, ◌++◌, Text, units, text_eq, nat_eq, get_or,
}
use agentic_warden.Console.Types.{Json, Revision}
use agentic_warden.Console.Policy.Diff.{Part, line_diff}
use agentic_warden.Console.Policy.Draft.{
  DraftState, DraftEvent, edited, review_clicked, dialog_closed, apply_clicked, version_of,
  current_yaml,
}
use agentic_warden.Console.Parts.{alert_if}
use agentic_warden.View.{attr, number, flag, on, on_value, Html, el, leaf, say, show}

-- `diff` is `diffLines` of the package diff.
module _ (to_yaml to_text : Json → Text) (diff : Text → Text → List Part) where
  unfoldable pub new_revision : Option Revision → DraftState → Html DraftEvent
  unfolding current_yaml version_of line_diff
  new_revision current s = el "div" [] (
      el "h2" [] (say "New revision")
      ++ el "p" [] (say "Comments are not kept: revisions are stored as JSON.")
      ++ alert_if (get_or s.error [])
      ++ leaf "YamlEditor" (
          attr "value" s.draft
          ∷ on_value "change" edited
          ∷ attr "ariaLabel" (units "Policy YAML")
          ∷ (elim s.error_line [ none ↦ [] | some line ↦ number "errorLine" line ∷ [] ]))
      ++ el "div" [] (
          el "Button" (attr "type" (units "button") ∷ on "click" review_clicked ∷ [])
            (say "Review changes"))
      ++ el "Dialog" (flag "open" s.dialog_open ∷ on "close" dialog_closed ∷ []) (
          el "DialogContent" [] (
            el "DialogHeader" [] (
              el "DialogTitle" []
                (show (units "Apply revision " ++ version_of to_text s.review_value))
              ++ el "DialogDescription" []
                  (say "Review the changes before applying this revision."))
            ++ line_diff (diff (current_yaml to_yaml current) (to_yaml s.review_value))
            ++ el "DialogFooter" [] (
                el "Button"
                  (attr "type" (units "button")
                    ∷ flag "disabled" s.is_pending
                    ∷ on "click" apply_clicked
                    ∷ [])
                  (say "Apply revision")))))
