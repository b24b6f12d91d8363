-- ===== src/View.antt =====
-- What a React component returns, as the list of its tokens, and what the user can do with it. An
-- element's event handlers are values of the component's own event type; the handlers themselves
-- are the component's functions on its state. Class names and React keys are left out.
pub mod Offers
pub mod Reach
pub mod Alerts
pub mod Links
pub mod Decimal
use agentic_warden.Prelude.{
  ℕ, zero, suc, ◌+◌, ◌/◌, ◌%◌, Bool, true, false, String, Option, none, some, List, [], ◌∷◌, ◌++◌,
  Text, units, ltb,
}

pub data Attr (E : Type 0) : Type 0 where
  attr : String → Text → Attr E
  number : String → ℕ → Attr E
  flag : String → Bool → Attr E
  -- a handler, and a handler that is given the value of the control
  on : String → E → Attr E
  on_value : String → (Text → E) → Attr E

pub data Token (E : Type 0) : Type 0 where
  start : String → List (Attr E) → Token E
  text : Text → Token E
  finish : String → Token E

abbrev pub Html : Type 0 → Type 0
Html E = List (Token E)

-- `<tag …>…</tag>`
abbrev pub el : {E : Type 0} → String → List (Attr E) → Html E → Html E
el tag attrs children = start tag attrs ∷ children ++ finish tag ∷ []

abbrev pub leaf : {E : Type 0} → String → List (Attr E) → Html E
leaf tag attrs = start tag attrs ∷ finish tag ∷ []

abbrev pub say : {E : Type 0} → String → Html E
say s = text (units s) ∷ []

abbrev pub show : {E : Type 0} → Text → Html E
show t = text t ∷ []

-- An attribute that is given or `undefined`.
abbrev pub maybe_attr : {E : Type 0} → String → Option Text → List (Attr E)
maybe_attr name none = []
maybe_attr name (some t) = attr name t ∷ []

-- A number as text.
digits : ℕ → ℕ → Text → Text
digits zero n out = out
digits (suc fuel) n out =
    let rest = digits fuel (n / 10) ((b'0' + n % 10) ∷ out) in
    elim (ltb n 10) [ true ↦ (b'0' + n) ∷ out | false ↦ rest ]

unfoldable pub decimal : ℕ → Text
unfolding digits
decimal n = digits (suc n) n []
