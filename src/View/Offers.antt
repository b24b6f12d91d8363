-- ===== src/View/Offers.antt =====
-- The events that a page offers: those of the controls that are not disabled.
use agentic_warden.Prelude.{
  Bool, false, ◌&&◌, ◌||◌, List, [], ◌∷◌, ◌++◌, append_assoc, Text, text_eq, nat_eq, ◌==◌,
  if◌then◌else◌, ◌≡◌, refl,
}
use package.text.Mathlib.Text.{◌==◌ as str_eq}
use agentic_warden.View.{Attr, attr, number, flag, on, on_value, start, text, finish, Html}

abbrev pub is_disabled : {E : Type 0} → List (Attr E) → Bool
is_disabled [] = false
is_disabled (flag name b ∷ ats) = (str_eq name "disabled" && b) || is_disabled ats
is_disabled (attr name t ∷ ats) = is_disabled ats
is_disabled (number name n ∷ ats) = is_disabled ats
is_disabled (on name e ∷ ats) = is_disabled ats
is_disabled (on_value name f ∷ ats) = is_disabled ats

abbrev pub handlers : {E : Type 0} → List (Attr E) → List E
handlers [] = []
handlers (on name e ∷ ats) = e ∷ handlers ats
handlers (flag name b ∷ ats) = handlers ats
handlers (attr name t ∷ ats) = handlers ats
handlers (number name n ∷ ats) = handlers ats
handlers (on_value name f ∷ ats) = handlers ats

-- The events that a click or a key can send.
abbrev pub offered : {E : Type 0} → Html E → List E
offered [] = []
offered (text t ∷ ts) = offered ts
offered (finish tag ∷ ts) = offered ts
offered (start tag ats ∷ ts) = (if is_disabled ats then [] else handlers ats) ++ offered ts

pub offered-append : {E : Type 0} (xs ys : Html E) → offered (xs ++ ys) ≡ offered xs ++ offered ys
offered-append [] ys = refl
offered-append (text t ∷ xs) ys = offered-append xs ys
offered-append (finish tag ∷ xs) ys = offered-append xs ys
offered-append (start tag ats ∷ xs) ys = simp (offered-append xs ys, append_assoc)

-- The alerts of a page: the elements with `role="alert"`.
abbrev pub has_role : {E : Type 0} → Text → List (Attr E) → Bool
has_role r [] = false
has_role r (attr name t ∷ ats) = (str_eq name "role" && t == r) || has_role r ats
has_role r (flag name b ∷ ats) = has_role r ats
has_role r (number name n ∷ ats) = has_role r ats
has_role r (on name e ∷ ats) = has_role r ats
has_role r (on_value name f ∷ ats) = has_role r ats
