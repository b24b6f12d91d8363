-- ===== src/Console/Api/Replies.antt =====
-- What a caller learns from a request.
use agentic_warden.Prelude.{Option, some, Text, units, text_eq, nat_eq, ◌≡◌, ◌≢◌, ◌⊎◌}
use agentic_warden.Console.Types.{Json, null, string, object, Members, get_member}

-- The text that `Error` makes of a message.
abbrev pub spelled : (Json → Text) → Json → Text
spelled to_text (string t) = t
spelled to_text x = to_text x

-- The body is an object with a member `error` of that value.
abbrev pub HasError : Option Json → Json → Type 0
HasError body x =
    (ms : Members) × (body ≡ some (object ms)) × (get_member ms (units "error") ≡ some x)

-- The message of an `ApiError`, by the body and the text of the status: what the server says, or the
-- text of the status if it says nothing.
abbrev pub IsMessage : (Json → Text) → Option Json → Text → Text → Type 0
IsMessage to_text body status_text m =
    ((x : Json) × HasError body x × (x ≢ null) × (m ≡ spelled to_text x))
    ⊎ (((x : Json) → HasError body x → x ≡ null) × (m ≡ status_text))
