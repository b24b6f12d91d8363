-- ===== src/Console/Api.antt =====
-- console/src/api.ts: one request to the control plane. `fetch` is a parameter.
pub mod Replies
use agentic_warden.Prelude.{
  ℕ, zero, suc, ◌+◌, ◌-◌, ◌*◌, ◌≤◌, ◌<◌, Bool, true, false, not, ◌&&◌, ◌||◌, String, Option, none,
  some, List, [], ◌∷◌, ◌++◌, map, reverse, flat_map, append_assoc, append-nil, Text, units,
  text_beq, text_eq, nat_eq, Equality, ◌==◌, ==_iff, ==_refl, if◌then◌else◌, Bool-cases,
  Option-cases, All, All-append, All-reverse, length, filter, find?, is_empty, first?, last?,
  contains, is_some, get_or, truthy, or_else, split, join, ◌≡◌, ◌≢◌, ◌↔◌, ◌⊎◌, inl, inr, refl, sym,
  ap, ◌∙◌, subst, fun_ext, arith, ltb, leb, Result,
}
use agentic_warden.Prelude.{ok, throw}
use agentic_warden.Console.Types.{
  Json, null, boolean, number, string, array, object, get_member, Failure, api_error, error,
  Members,
}

pub record Request : Type 0 where
  pub method : Text
  pub path : Text
  -- `Content-Type: application/json` is sent
  pub json_header : Bool
  pub body : Option Json

-- `text` is the body read as JSON, if it is JSON.
pub record Response : Type 0 where
  pub status : ℕ
  pub status_text : Text
  pub json : Option Json

-- `fetch` rejects with an error, or resolves.
pub data Fetched : Type 0 where
  rejected : Text → Fetched
  responded : Response → Fetched

-- `res.ok`
abbrev pub is_ok : ℕ → Bool
is_ok status = leb 200 status && ltb status 300

-- `data.error ?? res.statusText`, where the property of null throws a `TypeError`; `to_text` is
-- what `Error` makes of a message that is no text.
unfoldable pub error_text : (Json → Text) → Json → Text → Result Failure Text
unfolding get_member
error_text to_text null status_text = throw (error (units "TypeError"))
error_text to_text (object ms) status_text = elim (get_member ms (units "error")) [
  | none ↦ ok status_text
  | some (string t) ↦ ok t
  | some null ↦ ok status_text
  | some (boolean b) ↦ ok (to_text (boolean b))
  | some (number n) ↦ ok (to_text (number n))
  | some (array xs) ↦ ok (to_text (array xs))
  | some (object xs) ↦ ok (to_text (object xs))
]
error_text to_text (boolean b) status_text = ok status_text
error_text to_text (number n) status_text = ok status_text
error_text to_text (string t) status_text = ok status_text
error_text to_text (array xs) status_text = ok status_text

module _ (to_text : Json → Text) where
  -- What `request` makes of a response; `none` is `undefined`.
  unfoldable pub read_response : Response → Result Failure (Option Json)
  unfolding error_text
  read_response res =
      let body = get_or res.json (object Members.end) in
      if res.status == 204
      then ok none
      else if not (is_ok res.status)
      then elim (error_text to_text body res.status_text) [
        | ok message ↦ throw (api_error res.status message)
        | throw e ↦ throw e
      ]
      else ok (some body)

  module _ (fetch : Request → Fetched) where
    unfoldable pub request : Text → Text → Option Json → Result Failure (Option Json)
    unfolding read_response
    request method path body =
        elim (fetch
          (record { method = method; path = path; json_header = is_some body; body = body })) [
            | rejected message ↦ throw (error message)
            | responded res ↦ read_response res
          ]

    unfoldable pub get : Text → Result Failure (Option Json)
    unfolding request
    get path = request (units "GET") path none

    unfoldable pub post : Text → Option Json → Result Failure (Option Json)
    unfolding request
    post path body = request (units "POST") path body

    unfoldable pub put : Text → Option Json → Result Failure (Option Json)
    unfolding request
    put path body = request (units "PUT") path body

    unfoldable pub del : Text → Result Failure (Option Json)
    unfolding request
    del path = request (units "DELETE") path none
