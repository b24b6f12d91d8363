-- ===== src/Console/Parts.antt =====
-- The pieces of markup that the screens of the console share: console/src/components/ui names
-- its parts, and a part is an element of that name.
use agentic_warden.Prelude.{
  String, Option, List, [], ◌∷◌, ◌++◌, flat_map, Text, units, text_eq, nat_eq, if◌then◌else◌,
  get_or, truthy, or_else,
}
use agentic_warden.View.{attr, on_value, Html, el, leaf, say, show}

abbrev pub dash : Text
dash = units "—"

-- `text || "—"`
abbrev pub shown_or_dash : Option Text → Text
shown_or_dash t = or_else (get_or t []) dash

abbrev pub cell : {E : Type 0} → Html E → Html E
cell content = el "TableCell" [] content

abbrev pub row : {E : Type 0} → Html E → Html E
row content = el "TableRow" [] content

abbrev pub heads : {E : Type 0} → List String → Html E
heads names = el "TableHeader" [] (row (flat_map (λ name. el "TableHead" [] (say name)) names))

abbrev pub table : {E : Type 0} → List String → Html E → Html E
table names rows = el "Table" [] (heads names ++ el "TableBody" [] rows)

abbrev pub alert : {E : Type 0} → Text → Html E
alert message = el "p" (attr "role" (units "alert") ∷ []) (show message)

-- `message && <p role="alert">…</p>`
abbrev pub alert_if : {E : Type 0} → Text → Html E
alert_if message = if truthy message then alert message else []

abbrev pub status_line : {E : Type 0} → Option Text → Html E
status_line status = el "div" (attr "role" (units "status") ∷ []) (show (get_or status []))

abbrev pub labelled : {E : Type 0} → Text → Html E → Html E → Html E
labelled id label control = el "div" [] (el "Label" (attr "htmlFor" id ∷ []) label ++ control)

abbrev pub input : {E : Type 0} → Text → Text → (Text → E) → Html E
input id value event =
    leaf "Input" (attr "id" id ∷ attr "value" value ∷ on_value "change" event ∷ [])
