-- ===== src/Site/Demo/Submit/Outcomes.antt =====
-- What a run can end in: each result with the form, the configuration and the effects behind it.
use agentic_warden.Prelude.{
  Bool, true, false, Option, none, some, List, [], ◌∷◌, Text, text_eq, nat_eq, Bool-cases, truthy,
  ◌≡◌, ◌↔◌, ◌⊎◌, inl, inr, refl, arith,
}
use agentic_warden.Platform.{Platform}
use agentic_warden.Site.Demo.Schema.{DemoRequest, Parsed, success, failure, SafeParse, demo_schema}
use agentic_warden.Site.Demo.Email.Laws.{IsOneLine, format_email-IsOneLine}
use agentic_warden.Site.Demo.Sender.{Message, Sender, delivered}
use agentic_warden.Site.Demo.Submit.{
  FormData, read_values, parse_input, Values, ok, Effect, handed_over, logged, SubmitDeps, is_spam,
  message_of, send_request, submit_demo,
}

-- The messages among the effects of a run.
abbrev pub handed : List Effect → List Message
handed [] = []
handed (handed_over m ∷ es) = m ∷ handed es
handed (logged t d ∷ es) = handed es

module _ (p : Platform) (safe_parse : SafeParse) where
  -- What stands behind a thank-you page that is no pretence: a parsed request, a complete
  -- configuration, and a sender that took the message.
  abbrev pub IsDelivered : FormData → SubmitDeps p → Type 0
  IsDelivered form deps =
      (req : DemoRequest) × (send : Sender) × (inbox : Text) × (sender : Text) × (safe_parse
          demo_schema (parse_input (read_values form))
        ≡ success req)
      × (deps.send ≡ some send)
      × (deps.inbox ≡ some inbox)
      × (deps.sender ≡ some sender)
      × (truthy inbox ≡ true)
      × (truthy sender ≡ true)
      × (send (message_of inbox sender req) ≡ delivered)

send_request-ok :
    (s : Option Sender) (i f : Option Text) (v : Values) (req : DemoRequest)
    → (send_request s i f v req).state ≡ ok
    → (send : Sender) × (inbox : Text) × (sender : Text) × (s ≡ some send)
      × (i ≡ some inbox)
      × (f ≡ some sender)
      × (truthy inbox ≡ true)
      × (truthy sender ≡ true)
      × (send (message_of inbox sender req) ≡ delivered)
unfolding send_request
send_request-ok none i f v req h = cc
send_request-ok (some s) none f v req h = cc
send_request-ok (some s) (some i) none v req h = cc
send_request-ok (some s) (some i) (some f) v req h =
    (s, i, f, refl, refl, refl, ground arith, ground arith, ground arith)

module _ (p : Platform) (safe_parse : SafeParse) where
  ok→delivered :
      (form : FormData) (deps : SubmitDeps p)
      → is_spam p form deps.now ≡ false
      → (submit_demo p safe_parse form deps).state ≡ ok
      → IsDelivered p safe_parse form deps
  unfolding submit_demo
  ok→delivered form deps real h = go (safe_parse demo_schema (parse_input (read_values form))) refl
    where
      go :
          (r : Parsed)
          → safe_parse demo_schema (parse_input (read_values form)) ≡ r
          → IsDelivered p safe_parse form deps
      go (failure is) e = absurd (ground arith)
      go (success req) e =
          let (send, inbox, sender, a, b, c, d, t, u) =
            send_request-ok deps.send deps.inbox deps.sender (read_values form) req
              (ground arith) in
          (req, send, inbox, sender, e, a, b, c, d, t, u)

  delivered→ok :
      (form : FormData) (deps : SubmitDeps p)
      → IsDelivered p safe_parse form deps
      → (submit_demo p safe_parse form deps).state ≡ ok
  unfolding submit_demo
  delivered→ok form deps (req, send, inbox, sender, e, a, b, c, d, t, u) =
      ground (arith, a, b, c, d, t, u, e)

  -- The page says thanks exactly when the form is taken for spam, or when it parses, the sender and
  -- both addresses are configured, and the sender has taken the message made of the parsed request.
  pub submit_demo-ok_iff :
      (form : FormData) (deps : SubmitDeps p)
      → ((submit_demo p safe_parse form deps).state ≡ ok)
        ↔ ((is_spam p form deps.now ≡ true) ⊎ IsDelivered p safe_parse form deps)
  submit_demo-ok_iff form deps = (
    λ h. elim (Bool-cases (is_spam p form deps.now)) [
      | inl spam ↦ inl spam
      | inr real ↦ inr (ok→delivered form deps real h)
    ],
    λ h. elim h [
      | inl spam ↦ unfold submit_demo in ground arith
      | inr d ↦ delivered→ok form deps d
    ],
  )

  -- A form that is taken for spam leaves no trace: no message, no line in the log.
  submit_demo_spam :
      (form : FormData) (deps : SubmitDeps p)
      → is_spam p form deps.now ≡ true
      → submit_demo p safe_parse form deps ≡ record { state = ok; effects = [] }
  unfolding submit_demo
  submit_demo_spam form deps h = ground arith

send_request-handed :
    (s : Option Sender) (i f : Option Text) (v : Values) (req : DemoRequest) (m : Message)
    → (rest : List Message) → handed (send_request s i f v req).effects ≡ m ∷ rest
    → (inbox : Text) × (sender : Text) × (i ≡ some inbox)
      × (f ≡ some sender)
      × (m ≡ message_of inbox sender req)
      × (rest ≡ [])
unfolding send_request
send_request-handed none i f v req m rest h = cc
send_request-handed (some s) none f v req m rest h = cc
send_request-handed (some s) (some i) none v req m rest h = cc
send_request-handed (some s) (some i) (some f) v req m rest h =
    (i, f, refl, refl, ground arith, ground arith)

module _ (p : Platform) (safe_parse : SafeParse) where
  -- What a message stands for: a form that is no spam and parses, mailed to the configured inbox
  -- from the configured address, with the parsed e-mail address to reply to and a subject of one
  -- line.
  pub record IsGenuine (form : FormData) (deps : SubmitDeps p) (m : Message) : Type 0 where
    pub req : DemoRequest
    pub real : is_spam p form deps.now ≡ false
    pub parsed : safe_parse demo_schema (parse_input (read_values form)) ≡ success req
    pub to_inbox : deps.inbox ≡ some m.to
    pub from_sender : deps.sender ≡ some m.sender
    pub reply : m.reply_to ≡ req.email
    pub one_line : IsOneLine m.subject

  -- At most one message is handed over. The form behind it is no spam and parses, it is mailed to the
  -- configured inbox from the configured address, with the parsed e-mail address to reply to, and its
  -- subject is one line.
  pub submit_demo-handed :
      (form : FormData) (deps : SubmitDeps p) (m : Message) (rest : List Message)
      → handed (submit_demo p safe_parse form deps).effects ≡ m ∷ rest
      → IsGenuine form deps m × (rest ≡ [])
  unfolding submit_demo
  submit_demo-handed form deps m rest h =
      go (is_spam p form deps.now) refl (safe_parse demo_schema (parse_input (read_values form)))
        refl
    where
      go :
          (b : Bool)
          → is_spam p form deps.now ≡ b
          → (r : Parsed) → safe_parse demo_schema (parse_input (read_values form)) ≡ r
          → IsGenuine form deps m × (rest ≡ [])
      go true spam r e = absurd (ground arith)
      go false real (failure is) e = absurd (ground arith)
      go false real (success req) e =
          let (inbox, sender, i, f, made, alone) =
            send_request-handed deps.send deps.inbox deps.sender (read_values form) req m rest
              (ground arith) in
          (
            record {
              req = req;
              real = real;
              parsed = e;
              to_inbox = rw made i;
              from_sender = rw made f;
              reply = rw made;
              one_line = rw made (format_email-IsOneLine req);
            },
            alone,
          )
