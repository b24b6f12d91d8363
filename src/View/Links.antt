-- ===== src/View/Links.antt =====
-- What can be read off a page: where its links lead, and what its controls start with.
use agentic_warden.Prelude.{List, [], ◌∷◌, ◌++◌, Text, text_eq, Option, none, some, ◌==◌}
use package.text.Mathlib.Text.{◌==◌ as str_eq}
use agentic_warden.Prelude.{Bool, false, String, if◌then◌else◌}
use agentic_warden.View.{Attr, attr, number, flag, on, on_value, start, text, finish, Html}

abbrev pub href_of : {E : Type 0} → List (Attr E) → List Text
href_of [] = []
href_of (attr name t ∷ ats) = (if str_eq name "href" then t ∷ [] else []) ++ href_of ats
href_of (number name n ∷ ats) = href_of ats
href_of (flag name b ∷ ats) = href_of ats
href_of (on name e ∷ ats) = href_of ats
href_of (on_value name f ∷ ats) = href_of ats

abbrev pub hrefs : {E : Type 0} → Html E → List Text
hrefs [] = []
hrefs (start tag ats ∷ ts) = href_of ats ++ hrefs ts
hrefs (text t ∷ ts) = hrefs ts
hrefs (finish tag ∷ ts) = hrefs ts

abbrev pub get_attr : {E : Type 0} → String → List (Attr E) → Option Text
get_attr name [] = none
get_attr name (attr n t ∷ ats) = if str_eq n name then some t else get_attr name ats
get_attr name (number n v ∷ ats) = get_attr name ats
get_attr name (flag n b ∷ ats) = get_attr name ats
get_attr name (on n e ∷ ats) = get_attr name ats
get_attr name (on_value n f ∷ ats) = get_attr name ats

abbrev has_name : Text → Option Text → Bool
has_name name none = false
has_name name (some t) = t == name

-- What the first control with this name starts with.
abbrev pub default_of : {E : Type 0} → Text → Html E → Option Text
default_of name [] = none
default_of name (start tag ats ∷ ts) =
    if has_name name (get_attr "name" ats) then get_attr "defaultValue" ats else default_of name ts
default_of name (text t ∷ ts) = default_of name ts
default_of name (finish tag ∷ ts) = default_of name ts
