-- ===== src/Site/Demo/Sender.antt =====
-- web/lib/demo/sender.ts: who delivers the message.
use agentic_warden.Prelude.{
  ℕ, not, Option, none, some, Text, units, truthy, if◌then◌else◌, includes, ◌&&◌,
}
use agentic_warden.Site.Env.{Env, is_value}

pub record Message : Type 0 where
  pub to : Text
  pub sender : Text
  pub reply_to : Text
  pub subject : Text
  pub body : Text

-- The `status` property of a thrown value.
pub data Status : Type 0 where
  absent : Status
  number : ℕ → Status
  other : Status

-- What a `catch` receives: the name of an `Error`, or a value that is none.
pub record Thrown : Type 0 where
  pub error_name : Option Text
  pub status : Status

unfoldable pub send_error : Option ℕ → Thrown
send_error none = record { error_name = some (units "SendError"); status = other }
send_error (some n) = record { error_name = some (units "SendError"); status = number n }

pub data Sent : Type 0 where
  delivered : Sent
  threw : Thrown → Sent

abbrev pub Sender : Type 0
Sender = Message → Sent

unfoldable pub fake_sender : Sender
unfolding send_error includes
fake_sender msg =
    if includes msg.subject (units "Demo request: __fail__ ")
    then threw (send_error (some 503))
    else delivered

-- What a call of `resend.emails.send` comes to: a reply whose error is null or has a status code or
-- none, or a rejected promise.
pub data ResendReply : Type 0 where
  accepted : ResendReply
  refused : Option ℕ → ResendReply
  rejected : Thrown → ResendReply

-- The client of the package `resend`, for an API key.
abbrev pub ResendClient : Type 0
ResendClient = Text → Message → ResendReply

unfoldable pub resend_sender : ResendClient → Text → Sender
unfolding send_error
resend_sender client api_key msg = elim (client api_key msg) [
  | accepted ↦ delivered
  | refused code ↦ threw (send_error code)
  | rejected err ↦ threw err
]

unfoldable pub sender_from_env : ResendClient → Env → Option Sender
unfolding fake_sender resend_sender
sender_from_env client env =
    if is_value (env "DEMO_SENDER") (units "fake")
      && not (is_value (env "VERCEL_ENV") (units "production"))
    then some fake_sender
    else elim (env "RESEND_API_KEY") [
      | none ↦ none
      | some key ↦ if truthy key then some (resend_sender client key) else none
    ]
