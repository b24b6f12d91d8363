-- ===== src/Site/Demo/Form/Browser.antt =====
-- What a browser posts for a form as it stands. What a text control makes of a default value (line
-- breaks, blanks of an address) is the browser's, by the name of the control.
use agentic_warden.Prelude.{
  Bool, true, false, ◌||◌, String, Option, none, some, List, [], ◌∷◌, ◌++◌, map, filter, Text,
  units, text_eq, nat_eq, ◌==◌, ==_refl, if◌then◌else◌, Bool-cases, get_or, ◌≡◌, ◌⊎◌, inl, inr,
  refl, sym, ap,
}
use agentic_warden.Prelude.{Occurs}
use package.text.Mathlib.Text.{◌==◌ as str_eq}
use agentic_warden.View.{
  Attr, attr, number, flag, on, on_value, Token, start, text, finish, Html, decimal,
}
use agentic_warden.View.Links.{get_attr}
use agentic_warden.Site.Demo.Schema.{Choice}
use agentic_warden.Site.Demo.Submit.{field, FormData, get_entry, get_all_texts, entry_text}

abbrev pub is_set : {E : Type 0} → String → List (Attr E) → Bool
is_set name [] = false
is_set name (flag n b ∷ ats) = if str_eq n name then b else is_set name ats
is_set name (attr n t ∷ ats) = is_set name ats
is_set name (number n v ∷ ats) = is_set name ats
is_set name (on n e ∷ ats) = is_set name ats
is_set name (on_value n f ∷ ats) = is_set name ats

abbrev pub get_number : {E : Type 0} → String → List (Attr E) → Text
get_number name [] = []
get_number name (number n v ∷ ats) = if str_eq n name then decimal v else get_number name ats
get_number name (attr n t ∷ ats) = get_number name ats
get_number name (flag n b ∷ ats) = get_number name ats
get_number name (on n e ∷ ats) = get_number name ats
get_number name (on_value n f ∷ ats) = get_number name ats

-- The list of choices that is open: its name and the value that it shows.
abbrev pub Choosing : Type 0
Choosing = Option (Text × Text)

abbrev pub choosing_after : {E : Type 0} → Choosing → Token E → Choosing
choosing_after c (start tag ats) =
    if str_eq tag "select"
    then some (get_or (get_attr "name" ats) [], get_or (get_attr "defaultValue" ats) [])
    else c
choosing_after c (text t) = c
choosing_after c (finish tag) = if str_eq tag "select" then none else c

-- The option that a list shows, unless it is disabled.
abbrev pub posted_option : {E : Type 0} → Choosing → List (Attr E) → FormData
posted_option none ats = []
posted_option (some (name, shown)) ats =
    let value = get_or (get_attr "value" ats) [] in
    if is_set "disabled" ats then [] else if value == shown then (name, field value) ∷ [] else []

module _ (clean : Text → Text → Text) where
  abbrev pub posted_control : {E : Type 0} → Text → List (Attr E) → FormData
  posted_control name ats =
      let type = get_or (get_attr "type" ats) [] in
      if type == units "hidden"
      then (name, field (get_number "value" ats)) ∷ []
      else if (type == units "checkbox") || (type == units "radio")
      then if is_set "defaultChecked" ats
        then (name, field (get_or (get_attr "value" ats) [])) ∷ []
        else []
      else (name, field (elim (get_attr "defaultValue" ats) [ none ↦ [] | some t ↦ clean name t ]))
        ∷ []

  abbrev pub posted_token : {E : Type 0} → Choosing → Token E → FormData
  posted_token c (start tag ats) =
      if str_eq tag "option"
      then posted_option c ats
      else if str_eq tag "select"
      then []
      else elim (get_attr "name" ats) [ none ↦ [] | some name ↦ posted_control name ats ]
  posted_token c (text t) = []
  posted_token c (finish tag) = []

  abbrev pub posted : {E : Type 0} → Choosing → Html E → FormData
  posted c [] = []
  posted c (t ∷ ts) = posted_token c t ++ posted (choosing_after c t) ts

-- The choices of a list or a group that are picked, in their order.
abbrev pub picked : Text → (Text → Bool) → List Choice → FormData → FormData
picked name test [] rest = rest
picked name test (o ∷ os) rest =
    (if test o.value then (name, field o.value) ∷ [] else []) ++ picked name test os rest

-- Under another name a group posts nothing.
pub get_entry-picked-other :
    (name key : Text) (test : Text → Bool) (os : List Choice) (rest : FormData)
    → (name == key) ≡ false
    → get_entry (picked name test os rest) key ≡ get_entry rest key
unfolding get_entry
get_entry-picked-other name key test [] rest h = refl
get_entry-picked-other name key test (o ∷ os) rest h =
    let ih = get_entry-picked-other name key test os rest h in
    elim (Bool-cases (test o.value)) [ inl e ↦ rw (e, h) ih | inr e ↦ rw (e) ih ]

pub get_all_texts-picked-other :
    (name key : Text) (test : Text → Bool) (os : List Choice) (rest : FormData)
    → (name == key) ≡ false
    → get_all_texts (picked name test os rest) key ≡ get_all_texts rest key
unfolding get_all_texts
get_all_texts-picked-other name key test [] rest h = refl
get_all_texts-picked-other name key test (o ∷ os) rest h =
    let ih = get_all_texts-picked-other name key test os rest h in
    elim (Bool-cases (test o.value)) [ inl e ↦ rw (e, h) ih | inr e ↦ rw (e) ih ]

-- Under its own name, the values that are picked.
pub get_all_texts-picked :
    (name : Text) (test : Text → Bool) (os : List Choice) (rest : FormData)
    → get_all_texts (picked name test os rest) name
      ≡ filter test (map (λ o. o.value) os) ++ get_all_texts rest name
unfolding get_all_texts
get_all_texts-picked name test [] rest = refl
get_all_texts-picked name test (o ∷ os) rest =
    let ih = get_all_texts-picked name test os rest in
    elim (Bool-cases (test o.value)) [
      | inl e ↦ rw (e, ==_refl name) (ap (λ ts. o.value ∷ ts) ih)
      | inr e ↦ rw (e) ih
    ]

-- A group of which one value at most is picked posts that value.
pub get_entry-picked :
    (name shown : Text) (test : Text → Bool) (os : List Choice) (rest : FormData)
    → ((t : Text) → test t ≡ true → t ≡ shown)
    → test shown ≡ true
    → (shown ≡ []) ⊎ Occurs shown (map (λ o. o.value) os)
    → get_entry rest name ≡ none
    → entry_text (get_entry (picked name test os rest) name) ≡ shown
unfolding get_entry
get_entry-picked name shown test [] rest only here (inl e) quiet = rw (quiet) (sym e)
get_entry-picked name shown test [] rest only here (inr o) quiet = absurd o
get_entry-picked name shown test (o ∷ os) rest only here can quiet =
    elim (Bool-cases (test o.value)) [
      | inl e ↦ rw (e, ==_refl name) (only o.value e)
      | inr e ↦ rw (e) (
          get_entry-picked name shown test os rest only here
            (elim can [
              | inl empty ↦ inl empty
              | inr (inl same) ↦ absurd (cc (ap test same, here, e))
              | inr (inr later) ↦ inr later
            ])
            quiet)
    ]
