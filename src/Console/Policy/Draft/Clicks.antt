-- ===== src/Console/Policy/Draft/Clicks.antt =====
-- What can happen in `NewRevision` of console/src/screens/policy.tsx: a click on "Apply revision"
-- needs a button that the page offers, and an answer a request that is under way.
use agentic_warden.Prelude.{
  ℕ, Bool, true, false, Option, none, some, List, [], ◌∷◌, ◌++◌, append_assoc, flat_map, Text,
  units, text_eq, nat_eq, get_or, ◌≡◌, Bool-cases, inl, inr, refl, subst,
}
use agentic_warden.Prelude.{Occurs}
use agentic_warden.Console.Types.{Json, Revision}
use agentic_warden.Console.Policy.Diff.{Part, Mark, mark_class, mark_text, diff_rows, line_diff}
use agentic_warden.Console.Policy.Draft.{
  DraftState, DraftEvent, current_changed, edited, review_clicked, dialog_closed, apply_clicked,
  applied, refused, version_of, current_yaml,
}
use agentic_warden.Console.Policy.Draft.Page.{new_revision}
use agentic_warden.View.{Attr, attr, number, flag, on, on_value, Html, el, leaf, say, show}
use agentic_warden.Console.Parts.{alert_if}
use agentic_warden.View.Offers.{is_disabled, handlers}
use agentic_warden.View.Reach.{in_reach}

-- No event in what a difference shows, nor in an alert.
abbrev IsQuiet : {E : Type 0} → Html E → Type 0
IsQuiet {E = E} ts =
    (hidden : Bool) (rest : Html E) → in_reach hidden (ts ++ rest) ≡ in_reach hidden rest

rows-IsQuiet :
    {E : Type 0} (rows : List (Mark × Text))
    → IsQuiet {E = E} (
        flat_map
          (λ (mark, line).
            el "div" (attr "className" (mark_class mark) ∷ []) (show (mark_text mark ++ line)))
          rows)
unfolding flat_map
rows-IsQuiet [] hidden rest = refl
rows-IsQuiet (r ∷ rows) true rest = rows-IsQuiet rows true rest
rows-IsQuiet (r ∷ rows) false rest = rows-IsQuiet rows false rest

line_diff-IsQuiet : {E : Type 0} (parts : List Part) → IsQuiet {E = E} (line_diff parts)
unfolding line_diff
line_diff-IsQuiet parts hidden rest = elim (Bool-cases hidden) [
  | inl h ↦ rw (h) (simp (append_assoc, rows-IsQuiet (diff_rows parts)))
  | inr h ↦ rw (h) (simp (append_assoc, rows-IsQuiet (diff_rows parts)))
]

alert_if-IsQuiet : {E : Type 0} (message : Text) → IsQuiet {E = E} (alert_if message)
alert_if-IsQuiet [] hidden rest = refl
alert_if-IsQuiet (c ∷ t) true rest = refl
alert_if-IsQuiet (c ∷ t) false rest = refl

abbrev buttons : Bool → Bool → List DraftEvent
buttons true false = dialog_closed ∷ apply_clicked ∷ []
buttons true true = dialog_closed ∷ []
buttons false pending = []

-- The page around an alert and a difference.
abbrev framed :
    Html DraftEvent
    → List (Attr DraftEvent)
    → Html DraftEvent
    → Text
    → Bool
    → Bool
    → Html DraftEvent
framed a ats d title shown pending = el "div" [] (
    el "h2" [] (say "New revision")
    ++ el "p" [] (say "Comments are not kept: revisions are stored as JSON.")
    ++ a
    ++ leaf "YamlEditor" ats
    ++ el "div" [] (
        el "Button" (attr "type" (units "button") ∷ on "click" review_clicked ∷ [])
          (say "Review changes"))
    ++ el "Dialog" (flag "open" shown ∷ on "close" dialog_closed ∷ []) (
        el "DialogContent" [] (
          el "DialogHeader" [] (
            el "DialogTitle" [] (show title)
            ++ el "DialogDescription" [] (say "Review the changes before applying this revision."))
          ++ d
          ++ el "DialogFooter" [] (
              el "Button"
                (attr "type" (units "button")
                  ∷ flag "disabled" pending
                  ∷ on "click" apply_clicked
                  ∷ [])
                (say "Apply revision")))))

framed-in_reach :
    (a d : Html DraftEvent) (ats : List (Attr DraftEvent)) (title : Text) (shown pending : Bool)
    → IsQuiet a
    → IsQuiet d
    → is_disabled ats ≡ false
    → handlers ats ≡ []
    → in_reach false (framed a ats d title shown pending) ≡ review_clicked ∷ buttons shown pending
framed-in_reach a d ats title true true qa qd na nh = simp (append_assoc, qa, qd, na, nh)
framed-in_reach a d ats title true false qa qd na nh = simp (append_assoc, qa, qd, na, nh)
framed-in_reach a d ats title false true qa qd na nh = simp (append_assoc, qa, qd, na, nh)
framed-in_reach a d ats title false false qa qd na nh = simp (append_assoc, qa, qd, na, nh)

abbrev line_attrs : Option ℕ → List (Attr DraftEvent)
line_attrs o = elim o [ none ↦ [] | some line ↦ number "errorLine" line ∷ [] ]

line_attrs-quiet :
    (o : Option ℕ) → (is_disabled (line_attrs o) ≡ false) × (handlers (line_attrs o) ≡ [])
line_attrs-quiet none = (refl, refl)
line_attrs-quiet (some line) = (refl, refl)

buttons-apply :
    (shown pending : Bool)
    → Occurs apply_clicked (review_clicked ∷ buttons shown pending)
    → (shown ≡ true) × (pending ≡ false)
buttons-apply true false o = (refl, refl)
buttons-apply true true (inl e) = absurd (cc e)
buttons-apply true true (inr (inl e)) = absurd (cc e)
buttons-apply true true (inr (inr o)) = absurd o
buttons-apply false pending (inl e) = absurd (cc e)
buttons-apply false pending (inr o) = absurd o

module _ (to_yaml to_text : Json → Text) (diff : Text → Text → List Part) where
  abbrev pub CanHappen : Option Revision → DraftState → DraftEvent → Type 0
  CanHappen current s apply_clicked =
      Occurs apply_clicked (in_reach false (new_revision to_yaml to_text diff current s))
  CanHappen current s applied = s.is_pending ≡ true
  CanHappen current s (refused err) = s.is_pending ≡ true
  CanHappen current s (current_changed c loaded) = Unit
  CanHappen current s (edited t) = Unit
  CanHappen current s review_clicked = Unit
  CanHappen current s dialog_closed = Unit

  -- The clicks that the page offers.
  new_revision-in_reach :
      (current : Option Revision) (s : DraftState)
      → in_reach false (new_revision to_yaml to_text diff current s)
        ≡ review_clicked ∷ buttons s.dialog_open s.is_pending
  unfolding new_revision
  new_revision-in_reach current s =
      framed-in_reach (alert_if (get_or s.error []))
        (line_diff (diff (current_yaml to_yaml current) (to_yaml s.review_value)))
        (attr "value" s.draft
          ∷ on_value "change" edited
          ∷ attr "ariaLabel" (units "Policy YAML")
          ∷ line_attrs s.error_line)
        (units "Apply revision " ++ version_of to_text s.review_value) s.dialog_open s.is_pending
        (alert_if-IsQuiet (get_or s.error []))
        (line_diff-IsQuiet (diff (current_yaml to_yaml current) (to_yaml s.review_value)))
        (line_attrs-quiet s.error_line).0 (line_attrs-quiet s.error_line).1

  pub apply_clicked-guard :
      (current : Option Revision) (s : DraftState)
      → CanHappen current s apply_clicked
      → (s.dialog_open ≡ true) × (s.is_pending ≡ false)
  apply_clicked-guard current s can =
      buttons-apply s.dialog_open s.is_pending
        (subst (Occurs apply_clicked) (new_revision-in_reach current s) can)
