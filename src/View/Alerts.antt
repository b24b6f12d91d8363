-- ===== src/View/Alerts.antt =====
-- The alerts of a page: what stands first in each element with `role="alert"`.
use agentic_warden.Prelude.{List, [], ◌∷◌, ◌++◌, Text, units, text_eq, if◌then◌else◌}
use agentic_warden.View.{start, text, finish, Html}
use agentic_warden.View.Offers.{has_role}

abbrev first_text : {E : Type 0} → Html E → Text
first_text [] = []
first_text (text t ∷ ts) = t
first_text (start tag ats ∷ ts) = []
first_text (finish tag ∷ ts) = []

abbrev pub alert_texts : {E : Type 0} → Html E → List Text
alert_texts [] = []
alert_texts (text t ∷ ts) = alert_texts ts
alert_texts (finish tag ∷ ts) = alert_texts ts
alert_texts (start tag ats ∷ ts) =
    (if has_role (units "alert") ats then first_text ts ∷ [] else []) ++ alert_texts ts
