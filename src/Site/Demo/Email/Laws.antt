-- ===== src/Site/Demo/Email/Laws.antt =====
-- The subject of a message holds no line break, whatever the visitor typed.
use agentic_warden.Prelude.{[], ◌∷◌, Text, ◌≡◌, ◌≢◌, All, arith, refl}
use agentic_warden.Site.Demo.Schema.{DemoRequest}
use agentic_warden.Site.Demo.Email.{one_line, carriage_return, line_feed, format_email}

abbrev pub IsOneLine : Text → Type 0
IsOneLine = All (λ c. (c ≢ carriage_return) × (c ≢ line_feed))

pub one_line-IsOneLine : (s : Text) → IsOneLine (one_line s)
unfolding one_line
one_line-IsOneLine [] = tt
one_line-IsOneLine (c ∷ s) = (ground arith, one_line-IsOneLine s)

-- A text without line breaks is kept as it is.
pub one_line_of_IsOneLine : (s : Text) → IsOneLine s → one_line s ≡ s
unfolding one_line
one_line_of_IsOneLine [] h = refl
one_line_of_IsOneLine (c ∷ s) (p, h) = ground (arith, one_line_of_IsOneLine s h)

-- The subject of a message is one line, whatever the company and the plan.
pub format_email-IsOneLine : (req : DemoRequest) → IsOneLine (format_email req).subject
unfolding format_email
format_email-IsOneLine req = one_line-IsOneLine _
