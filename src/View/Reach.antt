-- ===== src/View/Reach.antt =====
-- What a click can reach of a page: the controls that are not disabled and do not stand in a dialog
-- that is closed.
use agentic_warden.Prelude.{Bool, false, not, ◌&&◌, ◌||◌, List, [], ◌∷◌, ◌++◌, if◌then◌else◌}
use package.text.Mathlib.Text.{◌==◌ as str_eq}
use agentic_warden.View.{Attr, attr, number, flag, on, on_value, start, text, finish, Html}
use agentic_warden.View.Offers.{is_disabled, handlers}

abbrev pub is_closed : {E : Type 0} → List (Attr E) → Bool
is_closed [] = false
is_closed (flag name b ∷ ats) = (str_eq name "open" && not b) || is_closed ats
is_closed (attr name t ∷ ats) = is_closed ats
is_closed (number name n ∷ ats) = is_closed ats
is_closed (on name e ∷ ats) = is_closed ats
is_closed (on_value name f ∷ ats) = is_closed ats

-- The events that a click can send, in what stands in a closed dialog or not.
abbrev pub in_reach : {E : Type 0} → Bool → Html E → List E
in_reach hidden [] = []
in_reach hidden (text t ∷ ts) = in_reach hidden ts
in_reach hidden (finish tag ∷ ts) = in_reach (hidden && not (str_eq tag "Dialog")) ts
in_reach hidden (start tag ats ∷ ts) =
    let inside = hidden || (str_eq tag "Dialog" && is_closed ats) in
    (if inside || is_disabled ats then [] else handlers ats) ++ in_reach inside ts
