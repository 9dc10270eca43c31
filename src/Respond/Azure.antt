-- ===== src/Respond/Azure.antt =====
-- autorest/azure/azure.go: `WithErrorUnlessStatusCode`, which decodes a `RequestError`.
use Prim.Native.String.{◌++◌}
use go_autorest.Prelude.{
  ℕ, String, Bool, Option, none, some, List, [], ◌∷◌, ◌⊎◌, inl, inr, if◌then◌else◌, is_empty,
}
use go_autorest.Json.{Json, null, str, Fields, end, field, has_no_fields}
use go_autorest.Http.{contains_int}
use go_autorest.Errors.{ServiceError}
use go_autorest.Platform.{Decoded, decoded, malformed}
use go_autorest.Respond.Body.{
  Server, Body, nil_body, server_body, memory, Answer, Failure, plain, request_error, done, fails,
  panics, Responder, RespondDecorator, then_if_done, with_body, copy_read, close_body,
}

-- What is decoded from the body into the `RequestError`: its service error, nil or not, and its
-- status code, an `interface{}`.
pub record Decoding : Type 0 where
  pub service_error : Option ServiceError
  pub status_code : Json

-- Decoders of JSON, or of XML where the first argument holds. A decoder of a stream is given its
-- text and the error at its end, and says how much of the text it read.
pub record Decoders : Type 0 where
  pub request_error : Bool → String → Option String → Decoded Decoding × String
  pub service_error : Bool → String → Decoded (Option ServiceError)
  pub raw_body : Bool → String → Decoded Fields
  -- strings.Contains; the text of %q
  pub contains : String → String → Bool
  pub quote : String → String

-- what can be read of a body
abbrev pub body_text : Body → Server → String × Option String
body_text nil_body v = ("", none)
body_text server_body v =
    if v.closed then ("", some "http: read on closed response body") else (v.left, v.fails)
body_text (memory text) v = (text, none)

abbrev pub unknown_error : Option (List Fields) → ServiceError
unknown_error details = record {
  code = "Unknown";
  message = "Unknown service error";
  target = none;
  details = details;
  inner_error = none;
  additional_info = none;
}

abbrev pub status_of : Json → ℕ → Json ⊎ ℕ
status_of null code = inr code
status_of v code = inl v

abbrev pub failure_of : Answer → Json → ServiceError → Failure
failure_of a code se = request_error (record {
  service_error = some se;
  request_id = a.header "x-ms-request-id";
  status_code = status_of code a.status_code;
})

abbrev pub raw_details : Fields → Option (List Fields)
raw_details fs = if has_no_fields fs then none else some (fs ∷ [])

module _ (d : Decoders) where
  abbrev pub cannot_parse : String → String → Failure
  cannot_parse text e =
      plain
        ("autorest/azure: error response cannot be parsed: " ++ (d.quote text ++ (" error: " ++ e)))

  abbrev pub from_raw : Answer → Json → String → Decoded Fields → Failure
  from_raw a code text (malformed e) = cannot_parse text e
  from_raw a code text (decoded fs) = failure_of a code (unknown_error (raw_details fs))

  -- a service error without a message was not one of OData v4
  unfoldable pub with_message : Answer → Bool → Json → String → ServiceError → Failure
  with_message a xml code text se =
      if is_empty se.message
      then from_raw a code text (d.raw_body xml text)
      else failure_of a code se

  abbrev pub from_bare : Answer → Bool → Json → String → Decoded (Option ServiceError) → Failure
  from_bare a xml code text (malformed e) = cannot_parse text e
  from_bare a xml code text (decoded none) =
      with_message a xml code text
        (unknown_error (some (field "HttpResponse.Body" (str text) end ∷ [])))
  from_bare a xml code text (decoded (some se)) = with_message a xml code text se

  abbrev pub from_service : Answer → Bool → Json → String → Option ServiceError → Failure
  from_service a xml code text (some se) = with_message a xml code text se
  from_service a xml code text none = from_bare a xml code text (d.service_error xml text)

  abbrev pub from_decoding : Answer → Bool → String → Decoded Decoding → Failure
  from_decoding a xml text (malformed e) = cannot_parse text e
  from_decoding a xml text (decoded x) = from_service a xml x.status_code text x.service_error

  abbrev pub is_xml : Answer → Bool
  is_xml a = d.contains (a.header "Content-Type") "xml"

  module _ {T : Type 0} where
    -- the body is replaced by what the decoder read of it, and closed
    abbrev pub replaced : Body → Decoded Decoding × String → Responder T
    replaced b (x, text) s = (
      fails (from_decoding s.answer (is_xml s.answer) text x),
      with_body (memory text) (close_body b (copy_read text s)).1,
    )

    -- a nil body panics
    abbrev pub azure_error : Body → Responder T
    azure_error nil_body s = (panics, s)
    azure_error b s =
        let (text, e) = body_text b s.answer.server in
        replaced b (d.request_error (is_xml s.answer) text e) s

    unfoldable pub azure_error_unless_status_code : List ℕ → RespondDecorator T
    azure_error_unless_status_code codes r s = then_if_done (r s) (λ s'.
        if contains_int codes s'.answer.status_code
        then (done, s')
        else azure_error s'.answer.body s')
